-- ===== src/Mqtt/Reopen.antt =====
-- The calls of the library by which a client is connected again, and that `mqtt_pub_connect` makes
-- them.
use emmbus2influx.Base.{
  ◌≡◌, ◌≢◌, refl, ap, true, Option, none, some, Bytes, ℤ, pos, zero, suc, negsuc, arith, Bool-cases,
  inl, inr,
}
use emmbus2influx.Mqtt.{MqttLibrary, Publisher, text_of, with_created, connect_client, open_client}
use emmbus2influx.Mqtt.Connect.{success}

module _ {W Client : Type 0} (L : MqttLibrary W Client) where
  -- From the world `w`, the client is connected in the world `w'`: the library says that it is, or
  -- its connect call leads there and succeeds.
  pub data Joins (c : Client) (w w' : W) : Type 0 where
    held : L.is_connected c w ≡ true → w ≡ w' → Joins c w w'
    joined : L.connect c w ≡ (pos 0, w') → Joins c w w'

  -- From the world `w`, the client `c` is connected in the world `w'`: it is the one there was, or
  -- there was none and it has been created with the URL and the client id.
  pub data Opens (client : Option Client) (url : Bytes) (client_id : Option Bytes) (w : W)
      (c : Client) (w' : W) : Type 0 where
    own : client ≡ some c → Joins c w w' → Opens client url client_id w c w'
    created :
        (w₁ : W)
        → client ≡ none
        → L.create url client_id w ≡ (pos 0, some c, w₁)
        → Joins c w₁ w'
        → Opens client url client_id w c w'

  -- A result of 0 comes with a client that is connected.
  abbrev ClientJoins : Client → W → ℤ × Publisher Client × W → Type 0
  ClientJoins c w r = r.0 ≡ pos 0 → (r.1.client ≡ some c) × Joins c w r.2

  connect_client-Joins :
      (m : Publisher Client) (w : W) (c : Client)
      → m.client ≡ some c
      → ClientJoins c w (connect_client L m w)
  unfolding connect_client
  connect_client-Joins m w c e = elim (Bool-cases (L.is_connected c w)) [
    | inl on ↦ rw (connect_client, e, on) (λ z. (e, held on refl))
    | inr off ↦
        rw (connect_client, e, off)
          (λ z.
            (e, joined (ap (λ (rc : ℤ). (rc, (L.connect c w).1)) (success L (L.connect c w).0 z))))
  ]

  -- A result of 0 of `mqtt_pub_connect` comes with a client that has been opened.
  abbrev pub HasOpened : Publisher Client → W → ℤ × Publisher Client × W → Type 0
  HasOpened m w r =
      r.0 ≡ pos 0
      → (c : Client) × (r.1.client ≡ some c) × Opens m.client (text_of m.url) m.client_id w c r.2

  with_created-HasOpened :
      (m : Publisher Client) (w : W) (r : ℤ × Option Client × W)
      → m.client ≡ none
      → L.create (text_of m.url) m.client_id w ≡ r
      → (r.0 ≡ pos 0 → r.1 ≢ none)
      → HasOpened m w (with_created L m r)
  unfolding with_created
  with_created-HasOpened m w (pos zero, some c, w₁) n e sets = λ z.
      let (there, joins) = connect_client-Joins (record m { client = some c }) w₁ c refl z in
      (c, there, created w₁ n e joins)
  with_created-HasOpened m w (pos zero, none, w₁) n e sets = absurd (sets refl refl)
  with_created-HasOpened m w (pos (suc k), o, w₁) n e sets = λ z. ground arith
  with_created-HasOpened m w (negsuc k, o, w₁) n e sets = λ z. ground arith

  pub open_client-HasOpened :
      (m : Publisher Client) (w : W)
      → ((L.create (text_of m.url) m.client_id w).0 ≡ pos 0
          → (L.create (text_of m.url) m.client_id w).1 ≢ none)
      → HasOpened m w (open_client L m w)
  unfolding open_client
  open_client-HasOpened m w sets = go m.client refl
    where
      go :
          (o : Option Client)
          → m.client ≡ o
          → HasOpened m w (elim o [
            | some c ↦ connect_client L m w
            | none ↦ with_created L m (L.create (text_of m.url) m.client_id w)
          ])
      go (some c) e =
          λ z. let (there, joins) = connect_client-Joins m w c e z in (c, there, own e joins)
      go none e = with_created-HasOpened m w (L.create (text_of m.url) m.client_id w) e refl sets
