-- ===== src/Mqtt/Publish.antt =====
-- What `mqtt_pub` has done with a message when it reports success.
use emmbus2influx.Base.{
  ℕ, ◌<◌, ◌≡◌, ◌≢◌, refl, sym, ap, ◌∙◌, Bool, true, false, Option, some, length, if◌then◌else◌,
  Bytes, ℤ, pos, is_zero, eqb_ℤ, eqb_ℤ_iff, Bool-cases, inl, inr, ◌⊎◌,
}
use emmbus2influx.Mqtt.{
  MqttLibrary, Publisher, full_url, topic_of, publish, settle, settle_again, publish_again,
  mqtt_pub, mqtt_reconnected, mqttclient_disconnected, open_client,
}
use emmbus2influx.Mqtt.Reopen.{Opens, open_client-HasOpened}
use emmbus2influx.Mqtt.Connect.{IsRegular, open_client_code, mqtt_pub_connect-Opens}

eqb_ℤ-differ : (a b : ℤ) → a ≢ b → eqb_ℤ a b ≡ false
eqb_ℤ-differ a b h = elim (Bool-cases (eqb_ℤ a b)) [
  | inl e ↦ absurd (h ((eqb_ℤ_iff a b).0 e))
  | inr e ↦ e
]

-- The codes of `mqtt_pub` that report success.
abbrev pub Succeeds : ℤ → Type 0
Succeeds code = (code ≡ pos 0) ⊎ (code ≡ mqtt_reconnected)

module _ {W Client : Type 0} (L : MqttLibrary W Client) (topic str : Bytes) (qos retained : ℤ) where
  -- The library has accepted the message, in a run that begins with this client in this world: from
  -- the client at once, or, where that call has given `MQTTCLIENT_DISCONNECTED`, from a client that
  -- was then opened, in the world this has led to.
  pub data Accepted (client : Option Client) (url : Bytes) (client_id : Option Bytes) (w : W)
      : Type 0 where
    at_once :
        (token : ℕ) (w₁ : W)
        → L.publish_message client topic str qos retained w ≡ (pos 0, token, w₁)
        → Accepted client url client_id w
    reopened :
        (token token' : ℕ) (w₁ w₂ w₃ : W) (c : Client)
        → L.publish_message client topic str qos retained w ≡ (mqttclient_disconnected, token, w₁)
        → Opens L client url client_id w₁ c w₂
        → L.publish_message (some c) topic str qos retained w₂ ≡ (pos 0, token', w₃)
        → Accepted client url client_id w

  -- A result that reports success comes with an accepted message.
  abbrev pub IsHonest : Publisher Client → W → ℤ × Publisher Client × W → Type 0
  IsHonest m w r = Succeeds r.0 → Accepted m.client (full_url m) m.client_id w

  module _ (A : Type 0) where
    settle-Honest :
        (timeout_ms : ℕ) (reconnected : Bool) (r : ℤ × Publisher Client × W)
        → r.0 ≢ mqtt_reconnected
        → (r.0 ≡ pos 0 → A)
        → Succeeds (settle L timeout_ms reconnected r).0
        → A
    unfolding settle
    settle-Honest timeout_ms reconnected (rc, m, w) other accepted =
        elim (Bool-cases (is_zero rc)) [
          | inl e ↦ λ _. accepted ((eqb_ℤ_iff rc (pos 0)).0 e)
          | inr e ↦
              rw (settle, e, eqb_ℤ-differ rc mqtt_reconnected other)
                (λ (s : Succeeds rc). refused s)
        ]
      where
        refused : Succeeds rc → A
        refused (inl z) = accepted z
        refused (inr z) = absurd (other z)

    settle_again-Honest :
        (timeout_ms : ℕ) (r : ℤ × Publisher Client × W)
        → r.0 ≢ mqtt_reconnected
        → (r.0 ≡ pos 0 → A)
        → Succeeds (settle_again L timeout_ms r).0
        → A
    unfolding settle_again
    settle_again-Honest timeout_ms (rc, m, w) other accepted = go (is_zero rc)
      where
        done : Publisher Client
        done = record m { is_disconnected = false }

        go :
            (b : Bool)
            → Succeeds
                (if b
                  then settle L timeout_ms true (rc, done, w)
                  else settle L timeout_ms false (rc, m, w)).0
            → A
        go true = settle-Honest timeout_ms true (rc, done, w) other accepted
        go false = settle-Honest timeout_ms false (rc, m, w) other accepted

    publish_again-Honest :
        IsRegular L
        → (timeout_ms : ℕ) (m : Publisher Client) (w : W)
        → ((L.publish_message m.client topic str qos retained w).0 ≡ pos 0 → A)
        → Succeeds (publish_again L topic str timeout_ms qos retained m w).0
        → A
    unfolding publish_again publish
    publish_again-Honest regular timeout_ms m w accepted =
        settle_again-Honest timeout_ms (publish L topic str qos retained m w)
          (regular.publish_code m.client topic str qos retained w) accepted

    -- the branch that has tried to connect
    connected-Honest :
        IsRegular L
        → (timeout_ms : ℕ) (r : ℤ × Publisher Client × W) → r.0 ≢ mqtt_reconnected
        → (r.0 ≡ pos 0 → (L.publish_message r.1.client topic str qos retained r.2).0 ≡ pos 0 → A)
        → Succeeds
            (if is_zero r.0 then publish_again L topic str timeout_ms qos retained r.1 r.2 else r).0
        → A
    connected-Honest regular timeout_ms r other accepted = elim (Bool-cases (is_zero r.0)) [
      | inl e ↦
          rw e (
            publish_again-Honest regular timeout_ms r.1 r.2
              (accepted ((eqb_ℤ_iff r.0 (pos 0)).0 e)))
      | inr e ↦ rw e (λ (s : Succeeds r.0). failed e s)
    ]
      where
        failed : is_zero r.0 ≡ false → Succeeds r.0 → A
        failed e (inl z) = let is : is_zero r.0 ≡ true = (eqb_ℤ_iff r.0 (pos 0)).1 z in cc
        failed e (inr z) = absurd (other z)

  first-Accepted :
      (m : Publisher Client) (w : W)
      → (L.publish_message m.client topic str qos retained w).0 ≡ pos 0
      → Accepted m.client (full_url m) m.client_id w
  first-Accepted m w z =
      let r = L.publish_message m.client topic str qos retained w in
      at_once r.1 r.2 (ap (λ (rc : ℤ). (rc, r.1, r.2)) z)

  -- the second call, behind a call that gave `MQTTCLIENT_DISCONNECTED` and an opened client
  second-Accepted :
      (m : Publisher Client) (w : W) (r : ℤ × Publisher Client × W)
      → (L.publish_message m.client topic str qos retained w).0 ≡ mqttclient_disconnected
      → ((c : Client) × (r.1.client ≡ some c)
          × Opens L m.client
              (full_url m)
              m.client_id
              (L.publish_message m.client topic str qos retained w).2
              c
              r.2)
      → (L.publish_message r.1.client topic str qos retained r.2).0 ≡ pos 0
      → Accepted m.client (full_url m) m.client_id w
  second-Accepted m w r gone (c, there, opens) z =
      let first = L.publish_message m.client topic str qos retained w in
      let second = L.publish_message r.1.client topic str qos retained r.2 in
      reopened first.1 second.1 first.2 r.2 second.2 c
        (ap (λ (rc : ℤ). (rc, first.1, first.2)) gone) opens
        (ap (λ o. L.publish_message o topic str qos retained r.2) (sym there)
          ∙ ap (λ (rc : ℤ). (rc, second.1, second.2)) z)

module _ {W Client : Type 0} (L : MqttLibrary W Client) (regular : IsRegular L) where
  -- Let the library not return the code `MQTT_RECONNECTED` and set the client it creates, and let
  -- the fuel be more than the length of the URL. `mqtt_pub` then ends. If it returns 0 or
  -- `MQTT_RECONNECTED`, the library has accepted the text that was given, under the topic prefix
  -- followed by the topic that was given, with that quality of service and retain flag: from the
  -- publisher's client at the first call, or, where this call has given
  -- `MQTTCLIENT_DISCONNECTED`, at a second call, from a client that was created in between if there
  -- was none, and that the library says is connected or has just connected.
  pub mqtt_pub-IsHonest :
      (fuel : ℕ) (m : Publisher Client) (topic_in str : Bytes) (timeout_ms : ℕ) (qos retained : ℤ)
      (w : W)
      → length (full_url m) < fuel
      → (r : ℤ × Publisher Client × W) × (mqtt_pub L fuel m topic_in str timeout_ms qos retained w
          ≡ some r)
        × IsHonest L (topic_of m topic_in) str qos retained m w r
  unfolding mqtt_pub publish
  mqtt_pub-IsHonest fuel m topic_in str timeout_ms qos retained w enough =
      let topic = topic_of m topic_in in
      let A = Accepted L topic str qos retained m.client (full_url m) m.client_id w in
      let sent = L.publish_message m.client topic str qos retained w in
      let lost = record m { last_token = sent.1; is_disconnected = true } in
      let ready = record lost { url = some (full_url m) } in
      let opened = open_client L ready sent.2 in
      elim (Bool-cases (eqb_ℤ sent.0 mqttclient_disconnected)) [
        | inl gone ↦ (
          if is_zero opened.0
              then publish_again L topic str timeout_ms qos retained opened.1 opened.2
              else opened,
          rw (mqtt_pub, gone, mqtt_pub_connect-Opens L fuel lost sent.2 enough) refl,
          connected-Honest L topic str qos retained A regular timeout_ms opened
              (open_client_code L regular ready sent.2)
              (λ z.
                second-Accepted L topic str qos retained m w opened
                  ((eqb_ℤ_iff sent.0 mqttclient_disconnected).0 gone)
                  (open_client-HasOpened L ready sent.2
                    (regular.create_client (full_url m) m.client_id sent.2) z)),
        )
        | inr there ↦ (
          settle L timeout_ms false (sent.0, record m { last_token = sent.1 }, sent.2),
          rw (mqtt_pub, there) refl,
          settle-Honest L topic str qos retained A timeout_ms false _
              (regular.publish_code m.client topic str qos retained w)
              (first-Accepted L topic str qos retained m w),
        )
      ]
