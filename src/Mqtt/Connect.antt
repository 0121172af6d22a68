-- ===== src/Mqtt/Connect.antt =====
-- `mqtt_pub_connect`: its loop ends, and the URL is whole.
use emmbus2influx.Base.{
  ℕ, zero, suc, ◌+◌, ◌*◌, ◌-◌, ◌≤◌, ◌<◌, ◌≡◌, refl, Bool, true, false, Option, none, some, length,
  take, take_all, leb, if◌then◌else◌, Bytes, ℤ, pos, negsuc, is_zero, arith, ap, leb→le, Bool-cases,
  inl, inr, ◌⊎◌, ◌≢◌,
}
use emmbus2influx.Mqtt.{
  MqttLibrary, Publisher, full_url, text_of, with_created, is_set, url_loop, connect_client,
  open_client, mqtt_reconnected, mqtt_pub_connect,
}

taken : (text : Bytes) (size : ℕ) → leb size (length text) ≡ false → take (size - 1) text ≡ text
taken text size h = take_all (size - 1) text (ground (arith, h))

-- Enough fuel: each round doubles a size that is not 0.
url_loop-doubles :
    (fuel : ℕ) (text : Bytes) (size : ℕ)
    → 0 < size
    → size ≤ length text
    → length text < size + fuel
    → url_loop fuel text true size ≡ some text
unfolding url_loop
url_loop-doubles zero text size positive small enough = absurd (omega arith)
url_loop-doubles (suc fuel) text size positive small enough =
    elim (Bool-cases (leb (size * 2) (length text))) [
      | inl still ↦
          rw still
            (url_loop-doubles fuel text (size * 2) (omega arith) (leb→le _ _ still) (omega arith))
      | inr fits ↦ rw fits (ap some (taken text (size * 2) fits))
    ]

url_loop-whole :
    (fuel : ℕ) (text : Bytes) (set : Bool) (size : ℕ)
    → 0 < size
    → length text < fuel
    → url_loop fuel text set size ≡ some text
unfolding url_loop
url_loop-whole zero text set size positive enough = absurd (omega arith)
url_loop-whole (suc fuel) text set size positive enough =
    go (if set then size * 2 else size) (grows set)
  where
    grows : (b : Bool) → 0 < (if b then size * 2 else size)
    grows true = omega arith
    grows false = positive

    go :
        (grown : ℕ)
        → 0 < grown
        → (if leb grown (length text)
            then url_loop fuel text true grown
            else some (take (grown - 1) text))
          ≡ some text
    go grown larger = elim (Bool-cases (leb grown (length text))) [
      | inl still ↦
          rw still (url_loop-doubles fuel text grown larger (leb→le _ _ still) (omega arith))
      | inr fits ↦ rw fits (ap some (taken text grown fits))
    ]

module _ {W Client : Type 0} (L : MqttLibrary W Client) where
  -- What is called of the library keeps the URL.
  connect_client-url : (m : Publisher Client) (w : W) → (connect_client L m w).1.url ≡ m.url
  unfolding connect_client
  connect_client-url m w = ground arith

  open_client-url : (m : Publisher Client) (w : W) → (open_client L m w).1.url ≡ m.url
  unfolding open_client
  open_client-url m w = grind (arith, connect_client-url)

  -- A client is connected in the world: the library says so, or its connect call has just
  -- succeeded.
  abbrev pub Connected : Client → W → Type 0
  Connected c w = (L.is_connected c w ≡ true) ⊎ ((w0 : W) × (L.connect c w0 ≡ (pos 0, w)))

  abbrev pub HasConnected : ℤ × Publisher Client × W → Type 0
  HasConnected r = r.0 ≡ pos 0 → (c : Client) × (r.1.client ≡ some c) × Connected c r.2

  pub success : (rc : ℤ) → (if is_zero rc then pos 0 else rc) ≡ pos 0 → rc ≡ pos 0
  success (pos zero) z = refl
  success (pos (suc n)) z = ground arith
  success (negsuc n) z = z

  connect_client-HasConnected :
      (m : Publisher Client) (w : W) (c : Client)
      → m.client ≡ some c
      → HasConnected (connect_client L m w)
  unfolding connect_client
  connect_client-HasConnected m w c e = elim (Bool-cases (L.is_connected c w)) [
    | inl on ↦ rw (connect_client, e, on) (λ z. (c, e, inl on))
    | inr off ↦
        rw (connect_client, e, off)
          (λ z.
            (c, e, inr (w, ap (λ (rc : ℤ). (rc, (L.connect c w).1)) (success (L.connect c w).0 z))))
  ]

  with_created-HasConnected :
      (m : Publisher Client) (r : ℤ × Option Client × W)
      → (r.0 ≡ pos 0 → r.1 ≢ none)
      → HasConnected (with_created L m r)
  unfolding with_created
  with_created-HasConnected m (pos zero, some c, w) created =
      connect_client-HasConnected (record m { client = some c }) w c refl
  with_created-HasConnected m (pos zero, none, w) created = absurd (created refl refl)
  with_created-HasConnected m (pos (suc n), o, w) created = λ z. ground arith
  with_created-HasConnected m (negsuc n, o, w) created = λ z. ground arith

  open_client-HasConnected :
      (m : Publisher Client) (w : W)
      → ((url : Bytes) (i : Option Bytes) (w : W)
          → (L.create url i w).0 ≡ pos 0
          → (L.create url i w).1 ≢ none)
      → HasConnected (open_client L m w)
  unfolding open_client
  open_client-HasConnected m w created = go m.client refl
    where
      go :
          (o : Option Client)
          → m.client ≡ o
          → HasConnected (elim o [
            | some c ↦ connect_client L m w
            | none ↦ with_created L m (L.create (text_of m.url) m.client_id w)
          ])
      go (some c) e = connect_client-HasConnected m w c e
      go none e =
          with_created-HasConnected m (L.create (text_of m.url) m.client_id w)
            (created (text_of m.url) m.client_id w)

  pub mqtt_pub_connect-Opens :
      (fuel : ℕ) (m : Publisher Client) (w : W)
      → length (full_url m) < fuel
      → mqtt_pub_connect L fuel m w ≡ some (open_client L (record m { url = some (full_url m) }) w)
  unfolding mqtt_pub_connect
  mqtt_pub_connect-Opens fuel m w enough =
      rw (mqtt_pub_connect, url_loop-whole fuel (full_url m) (is_set m.url) 64 (omega arith) enough)
        refl

  -- The functions of the library do not return `MQTT_RECONNECTED`, a code of the program's own, and
  -- `MQTTClient_create` sets the client where it succeeds.
  pub record IsRegular : Type 0 where
    pub create_client :
        (url : Bytes) (i : Option Bytes) (w : W)
        → (L.create url i w).0 ≡ pos 0
        → (L.create url i w).1 ≢ none
    pub create_code :
        (url : Bytes) (i : Option Bytes) (w : W) → (L.create url i w).0 ≢ mqtt_reconnected
    pub connect_code : (c : Client) (w : W) → (L.connect c w).0 ≢ mqtt_reconnected
    pub publish_code :
        (c : Option Client) (topic str : Bytes) (qos retained : ℤ) (w : W)
        → (L.publish_message c topic str qos retained w).0 ≢ mqtt_reconnected

  abbrev pub IsOther : ℤ × Publisher Client × W → Type 0
  IsOther r = r.0 ≢ mqtt_reconnected

  connect_client_code : IsRegular → (m : Publisher Client) (w : W) → IsOther (connect_client L m w)
  unfolding connect_client
  connect_client_code regular m w = go m.client
    where
      kept :
          (rc : ℤ) → rc ≢ mqtt_reconnected → (if is_zero rc then pos 0 else rc) ≢ mqtt_reconnected
      kept rc h = elim (Bool-cases (is_zero rc)) [
        | inl e ↦ rw e (λ z. ground arith)
        | inr e ↦ rw e h
      ]

      connected :
          (r : ℤ × W) (b : Bool)
          → r.0 ≢ mqtt_reconnected
          → IsOther (if b then (pos 0, m, w) else (if is_zero r.0 then pos 0 else r.0, m, r.1))
      connected r true h = λ z. ground arith
      connected r false h = kept r.0 h

      go :
          (o : Option Client)
          → IsOther (elim o [
            | none ↦ (pos 0, m, w)
            | some c ↦ if L.is_connected c w then (pos 0, m, w) else (
              if is_zero (L.connect c w).0 then pos 0 else (L.connect c w).0,
              m,
              (L.connect c w).1,
            )
          ])
      go none = λ z. ground arith
      go (some c) = connected (L.connect c w) (L.is_connected c w) (regular.connect_code c w)

  with_created_code :
      IsRegular
      → (m : Publisher Client) (r : ℤ × Option Client × W) → r.0 ≢ mqtt_reconnected
      → IsOther (with_created L m r)
  unfolding with_created
  with_created_code regular m (rc, c, w) h = elim (Bool-cases (is_zero rc)) [
    | inl e ↦ rw e (connect_client_code regular (record m { client = c }) w)
    | inr e ↦ rw e h
  ]

  pub open_client_code : IsRegular → (m : Publisher Client) (w : W) → IsOther (open_client L m w)
  unfolding open_client
  open_client_code regular m w = go m.client
    where
      go :
          (o : Option Client)
          → IsOther (elim o [
            | some c ↦ connect_client L m w
            | none ↦ with_created L m (L.create (text_of m.url) m.client_id w)
          ])
      go (some c) = connect_client_code regular m w
      go none =
          with_created_code regular m (L.create (text_of m.url) m.client_id w)
            (regular.create_code (text_of m.url) m.client_id w)

  -- Let the fuel be more than the length of the URL, and the library set the client that it creates.
  -- `mqtt_pub_connect` then ends. The URL is `tcp://`, the host, a colon and the port, whole,
  -- whatever its length and whatever URL there was. If it returns 0 there is a client, and the
  -- library says that it is connected or has just connected it.
  pub mqtt_pub_connect-Connects :
      (fuel : ℕ) (m : Publisher Client) (w : W)
      → length (full_url m) < fuel
      → ((url : Bytes) (i : Option Bytes) (w : W)
          → (L.create url i w).0 ≡ pos 0
          → (L.create url i w).1 ≢ none)
      → (r : ℤ × Publisher Client × W) × (mqtt_pub_connect L fuel m w ≡ some r)
        × (r.1.url ≡ some (full_url m))
        × HasConnected r
  mqtt_pub_connect-Connects fuel m w enough created =
      let m' = record m { url = some (full_url m) } in
      (
        open_client L m' w,
        mqtt_pub_connect-Opens fuel m w enough,
        open_client-url m' w,
        open_client-HasConnected m' w created,
      )
