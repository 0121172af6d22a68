-- ===== src/Mqtt.antt =====
-- The MQTT publisher: mqtt_publish.c. The functions of the paho client are the fields of
-- `MqttLibrary`; an allocation succeeds, but where the code looks whether it did.
pub mod Connect
pub mod Reopen
pub mod Publish
mod Examples
use emmbus2influx.Base.{
  ℕ, zero, suc, ◌+◌, ◌*◌, ◌-◌, ◌==◌, not, ◌&&◌, Bool, true, false, Option, none, some, List, [],
  ◌∷◌, ◌++◌, length, take, ltb, leb, if◌then◌else◌, Bytes, codes, ℤ, pos, negsuc, is_zero, eqb_ℤ,
  ltb_ℤ, print_int,
}

-- what the program calls of the client library; `W` is the state of the outside world
pub record MqttLibrary (W Client : Type 0) : Type 0 where
  -- `MQTTClient_create` with its URL and its client id; the client is set where it succeeds
  pub create : Bytes → Option Bytes → W → ℤ × Option Client × W
  pub is_connected : Client → W → Bool
  pub connect : Client → W → ℤ × W
  pub disconnect : Client → W → W
  pub destroy : Client → W → W
  -- with the topic, the text, the quality of service and whether it is retained; the client may be
  -- null; the token is set
  pub publish_message : Option Client → Bytes → Bytes → ℤ → ℤ → W → ℤ × ℕ × W
  pub wait_for_completion : Option Client → ℕ → ℕ → W → ℤ × W

-- `MQTTCLIENT_SUCCESS`, `MQTTCLIENT_DISCONNECTED` and `MQTT_RECONNECTED`
abbrev pub mqttclient_success : ℤ
mqttclient_success = pos 0

abbrev pub mqttclient_disconnected : ℤ
mqttclient_disconnected = negsuc 2

abbrev pub mqtt_reconnected : ℤ
mqtt_reconnected = negsuc 9989863

-- `mqtt_pubT`, and the variable `isDisconnected`
pub record Publisher (Client : Type 0) : Type 0 where
  pub client_id : Option Bytes
  pub hostname : Option Bytes
  pub topic_prefix : Option Bytes
  pub last_buf_size : ℕ
  pub port : ℤ
  pub url : Option Bytes
  pub client : Option Client
  pub last_token : ℕ
  pub is_disconnected : Bool

-- `mqtt_pub_init`
unfoldable pub mqtt_pub_init :
    {Client : Type 0} → Option Bytes → ℤ → Option Bytes → Option Bytes → Publisher Client
mqtt_pub_init hostname port client_id topic_prefix = record {
  client_id = client_id;
  hostname = hostname;
  topic_prefix = topic_prefix;
  last_buf_size = 0;
  port = if ltb_ℤ (pos 0) port then port else pos 1883;
  url = none;
  client = none;
  last_token = 0;
  is_disconnected = false;
}

abbrev pub text_of : Option Bytes → Bytes
text_of none = []
text_of (some text) = text

abbrev pub is_set : {A : Type 0} → Option A → Bool
is_set none = false
is_set (some a) = true

-- what `snprintf` makes of the host, which is set, and the port
abbrev pub full_url : {Client : Type 0} → Publisher Client → Bytes
full_url m = codes "tcp://" ++ (text_of m.hostname ++ (codes ":" ++ print_int m.port))

-- `URL_DEFBUFLEN`
abbrev pub url_defbuflen : ℕ
url_defbuflen = 64

-- the loop over the size of the block for the URL; `set` is whether there is one to free
unfoldable pub url_loop : ℕ → Bytes → Bool → ℕ → Option Bytes
url_loop zero text set size = none
url_loop (suc fuel) text set size =
    let grown = if set then size * 2 else size in
    let again = url_loop fuel text true grown in
    if leb grown (length text) then again else some (take (grown - 1) text)

-- the topic: the prefix, if there is one, and what is given
abbrev pub topic_of : {Client : Type 0} → Publisher Client → Bytes → Bytes
topic_of m topic_in = text_of m.topic_prefix ++ topic_in

-- the text of `mqtt_pub_str`
abbrev pub value_object : Bytes → ℤ → Bytes
value_object str is_numeric =
    let quote : Bytes = if is_zero is_numeric then [] else codes "\"" in
    codes "{\"value\": " ++ (quote ++ (str ++ (quote ++ codes "}")))

-- the loop of `mqtt_pub_str` over the size of its block: the size that is enough, or `none` inside
-- where an allocation fails
unfoldable pub buf_size_loop : ℕ → (ℕ → Bool) → ℕ → ℕ → Option (Option ℕ)
buf_size_loop zero alloc len size = none
buf_size_loop (suc fuel) alloc len size =
    let again = buf_size_loop fuel alloc len (size + 128) in
    if not (alloc size) then some none else if ltb len size then some (some size) else again

module _ {W Client : Type 0} (L : MqttLibrary W Client) where
  -- `mqtt_pub_connect` from its test of the client on
  unfoldable pub connect_client : Publisher Client → W → ℤ × Publisher Client × W
  connect_client m w = elim m.client [
    | none ↦ (pos 0, m, w)
    | some c ↦
        if L.is_connected c w
        then (pos 0, m, w)
        else let (rc, w') = L.connect c w in (if is_zero rc then pos 0 else rc, m, w')
  ]

  -- what is made of the result of `MQTTClient_create`
  unfoldable pub with_created : Publisher Client → ℤ × Option Client × W → ℤ × Publisher Client × W
  unfolding connect_client
  with_created m (rc, c, w) =
      let m' = record m { client = c } in if is_zero rc then connect_client m' w else (rc, m', w)

  unfoldable pub open_client : Publisher Client → W → ℤ × Publisher Client × W
  unfolding connect_client with_created
  open_client m w = elim m.client [
    | some c ↦ connect_client m w
    | none ↦ with_created m (L.create (text_of m.url) m.client_id w)
  ]

  -- `mqtt_pub_connect` for a publisher that is not NULL; `none` if the fuel ran out
  unfoldable pub mqtt_pub_connect : ℕ → Publisher Client → W → Option (ℤ × Publisher Client × W)
  unfolding open_client url_loop
  mqtt_pub_connect fuel m w = elim (url_loop fuel (full_url m) (is_set m.url) url_defbuflen) [
    | none ↦ none
    | some url ↦ some (open_client (record m { url = some url }) w)
  ]

  -- `MQTTClient_publishMessage`, which sets the token
  unfoldable pub publish : Bytes → Bytes → ℤ → ℤ → Publisher Client → W → ℤ × Publisher Client × W
  publish topic str qos retained m w =
      let (rc, token, w') = L.publish_message m.client topic str qos retained w in
      (rc, record m { last_token = token }, w')

  -- `mqtt_pub` from its last test of `rc` on
  unfoldable pub settle : ℕ → Bool → ℤ × Publisher Client × W → ℤ × Publisher Client × W
  settle timeout_ms reconnected (rc, m, w) =
      let waited = L.wait_for_completion m.client m.last_token timeout_ms w in
      let (rc', w') = if not (timeout_ms == 0) then waited else (rc, w) in
      if not (is_zero rc) && not (eqb_ℤ rc mqtt_reconnected)
      then (rc, m, w)
      else (if reconnected && is_zero rc' then mqtt_reconnected else rc', m, w')

  -- what `mqtt_pub` makes of the second try
  unfoldable pub settle_again : ℕ → ℤ × Publisher Client × W → ℤ × Publisher Client × W
  unfolding settle
  settle_again timeout_ms (rc, m, w) =
      if is_zero rc
      then settle timeout_ms true (rc, record m { is_disconnected = false }, w)
      else settle timeout_ms false (rc, m, w)

  -- the branch of `mqtt_pub` that has connected again
  unfoldable pub publish_again :
      Bytes → Bytes → ℕ → ℤ → ℤ → Publisher Client → W → ℤ × Publisher Client × W
  unfolding publish settle_again
  publish_again topic str timeout_ms qos retained m w =
      settle_again timeout_ms (publish topic str qos retained m w)

  -- `mqtt_pub`; `none` if the fuel of `mqtt_pub_connect` ran out
  unfoldable pub mqtt_pub :
      ℕ → Publisher Client → Bytes → Bytes → ℕ → ℤ → ℤ → W → Option (ℤ × Publisher Client × W)
  unfolding publish settle mqtt_pub_connect publish_again
  mqtt_pub fuel m topic_in str timeout_ms qos retained w =
      let topic = topic_of m topic_in in
      let (rc, m', w') = publish topic str qos retained m w in
      if eqb_ℤ rc mqttclient_disconnected
      then elim (mqtt_pub_connect fuel (record m' { is_disconnected = true }) w') [
        | none ↦ none
        | some (rc2, m2, w2) ↦ some (
            if is_zero rc2
            then publish_again topic str timeout_ms qos retained m2 w2
            else (rc2, m2, w2))
      ]
      else some (settle timeout_ms false (rc, m', w'))

  -- `mqtt_pub_strF` with no arguments behind its format; `vformat` is `vsnprintf`, `none` where it
  -- gives a number below 0
  unfoldable pub mqtt_pub_strf :
      (ℕ → Bool)
      → (Bytes → Option Bytes)
      → ℕ
      → Publisher Client
      → Bytes
      → ℕ
      → ℤ
      → ℤ
      → Bytes
      → W
      → Option (ℤ × Publisher Client × W)
  unfolding mqtt_pub
  mqtt_pub_strf alloc vformat fuel m topic timeout_ms qos retained fmt w = elim (vformat fmt) [
    | none ↦ some (negsuc 0, m, w)
    | some text ↦
        if alloc (length text + 1)
        then mqtt_pub fuel m topic text timeout_ms qos retained w
        else some (negsuc 0, m, w)
  ]

  -- `mqtt_pub_str`
  unfoldable pub mqtt_pub_str :
      (ℕ → Bool)
      → ℕ
      → Publisher Client
      → Bytes
      → Bytes
      → ℤ
      → ℕ
      → ℤ
      → ℤ
      → W
      → Option (ℤ × Publisher Client × W)
  unfolding mqtt_pub buf_size_loop
  mqtt_pub_str alloc fuel m topic str is_numeric timeout_ms qos retained w =
      let start = if m.last_buf_size == 0 then 128 else m.last_buf_size in
      let text = value_object str is_numeric in
      elim (buf_size_loop fuel alloc (length text) start) [
        | none ↦ none
        | some none ↦ some (negsuc 0, m, w)
        | some (some size) ↦
            mqtt_pub fuel (record m { last_buf_size = size }) topic text timeout_ms qos retained w
      ]

  -- `mqtt_pub_int`
  unfoldable pub mqtt_pub_int :
      (ℕ → Bool)
      → ℕ
      → Publisher Client
      → Bytes
      → ℤ
      → ℕ
      → ℤ
      → ℤ
      → W
      → Option (ℤ × Publisher Client × W)
  unfolding mqtt_pub_str
  mqtt_pub_int alloc fuel m topic value timeout_ms qos retained w =
      mqtt_pub_str alloc fuel m topic (take 127 (print_int value)) (pos 1) timeout_ms qos retained w

  -- `mqtt_pub_free`: what it does to the world
  unfoldable pub mqtt_pub_free : Publisher Client → W → W
  mqtt_pub_free m w = elim m.client [ none ↦ w | some c ↦ L.destroy c (L.disconnect c w) ]
