-- ===== src/Loop/Mqtt.antt =====
-- What `mqttSendData` publishes.
use emmbus2influx.Base.{
  ℕ, ◌+◌, ◌<◌, ◌≡◌, refl, ap, ◌∙◌, ◌⊎◌, true, false, none, some, ◌++◌, length, if◌then◌else◌, Bytes,
  ℤ, pos, is_zero, Run, ok, ret, fault, Ensures, contains,
}
use emmbus2influx.Meter.Floats.{Floats}
use emmbus2influx.Meter.{Meter}
use emmbus2influx.Mqtt.{MqttLibrary, Publisher, full_url, text_of, mqtt_reconnected, mqtt_pub_strf}
use emmbus2influx.Mqtt.Connect.{IsRegular}
use emmbus2influx.Mqtt.Publish.{Accepted, mqtt_pub-IsHonest}
use emmbus2influx.Writer.Mqtt.{items, Building, mqtt_text}
use emmbus2influx.Writer.Mqtt.Json.{members, print_object}
use emmbus2influx.Writer.Mqtt.Bounds.{Holds}
use emmbus2influx.Writer.Mqtt.Object.{ArePlain, mqtt_text-Prints}
use emmbus2influx.Loop.{Setup, publish_text, with_prefix, mqtt_send_data}

module _ {W Client D : Type 0} (F : Floats D) (S : Setup D) (L : MqttLibrary W Client)
    (send_influx send_grafana : Bytes → W → ℤ × W) (regular : IsRegular L)
    (plenty : (n : ℕ) → S.alloc n ≡ true) where
  -- The object of the meter's values.
  abbrev pub object : Meter D → Bytes
  object m = print_object (members (items F S.format_float m))

  -- A result of `mqttSendData`: the prefix is taken back, and success comes with a message that the
  -- library has accepted in this run, with the text under the meter's prefix and name.
  pub record Published (m : Meter D) (text : Bytes) (client : Publisher Client) (w : W)
      (r : ℤ × Publisher Client × W) : Type 0 where
    pub no_prefix : r.1.topic_prefix ≡ none
    pub delivered :
        (r.0 ≡ pos 0) ⊎ (r.0 ≡ mqtt_reconnected)
        → Accepted L
            (text_of m.mqttprefix ++ text_of m.name)
            text
            m.mqtt_qos
            m.mqtt_retain
            client.client
            (full_url client)
            client.client_id
            w

  publish_text-Published :
      (m : Meter D) (client : Publisher Client) (text : Bytes) (w : W)
      → S.vformat text ≡ some text
      → length (full_url client) < S.fuel
      → (r : ℤ × Publisher Client × W) × (publish_text F S L send_influx send_grafana m client text
            w
          ≡ some r)
        × Published m text client w r
  unfolding publish_text mqtt_pub_strf
  publish_text-Published m client text w plain enough =
      let prefixed = with_prefix F S L send_influx send_grafana client m.mqttprefix in
      let (r, e, honest) =
        mqtt_pub-IsHonest L regular S.fuel prefixed (text_of m.name) text 0 m.mqtt_qos m.mqtt_retain
          w enough in
      (
        (r.0, with_prefix F S L send_influx send_grafana r.1 none, r.2),
        rw (publish_text, mqtt_pub_strf, plain, plenty (length text + 1), e) refl,
        record { no_prefix = refl; delivered = honest },
      )

  -- what is done with the text that was built
  sent-Published :
      (m : Meter D) (client : Publisher Client) (w : W) (run : Run Building)
      → Ensures (λ b. Holds b.str (object m)) run
      → S.vformat (object m) ≡ some (object m)
      → length (full_url client) < S.fuel
      → (r : ℤ × Publisher Client × W) × (elim run [
        | ok b ↦
            if false
            then some (pos 0, client, w)
            else publish_text F S L send_influx send_grafana m client b.str.dest w
        | ret r b ↦ none
        | fault ↦ none
      ]
          ≡ some r)
        × Published m (object m) client w r
  sent-Published m client w (ok b) h plain enough =
      let (r, e, p) = publish_text-Published m client (object m) w plain enough in
      (r, ap (λ text. publish_text F S L send_influx send_grafana m client text w) h.same ∙ e, p)
  sent-Published m client w (ret r b) h plain enough = absurd h
  sent-Published m client w fault h plain enough = absurd h

  -- Let this be no dry run, memory suffice, `vsnprintf` copy a text that has no percent sign, the
  -- library not return the code `MQTT_RECONNECTED` and set the client it creates, and the fuel be
  -- more than the length of the broker's URL. Let a meter be enabled, have registers for MQTT, have
  -- names of at most 253 bytes and array names of 1 to 256, and let its object have no percent sign.
  -- `mqttSendData` then returns with the topic prefix taken back; if its code is 0 or
  -- `MQTT_RECONNECTED`, the library has accepted the object of the meter's enabled values in this
  -- run, under the meter's prefix followed by its name, with the meter's quality of service and
  -- retain flag: from the publisher's client at the first call, or, where this call has given
  -- `MQTTCLIENT_DISCONNECTED`, at a second call from a client that was opened in between.
  pub mqtt_send_data-Published :
      (m : Meter D) (client : Publisher Client) (w : W)
      → ((text : Bytes) → contains text b'%' ≡ false → S.vformat text ≡ some text)
      → length (full_url client) < S.fuel
      → is_zero m.disabled ≡ true
      → is_zero m.num_enabled_registers_mqtt ≡ false
      → ArePlain (items F S.format_float m)
      → contains (object m) b'%' ≡ false
      → (r : ℤ × Publisher Client × W) × (mqtt_send_data F S L send_influx send_grafana false m
            client w
          ≡ some r)
        × Published m (object m) client w r
  unfolding mqtt_send_data
  mqtt_send_data-Published m client w copies enough on registers plain clean =
      rw (mqtt_send_data, on, registers, plenty 256)
        (sent-Published m client w (mqtt_text S.alloc (items F S.format_float m))
          (mqtt_text-Prints F S.format_float S.alloc m plenty plain) (copies (object m) clean)
          enough)
