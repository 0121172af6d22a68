-- ===== src/Mqtt/Examples.antt =====
-- A concrete broker, which has lost the connection and accepts the message at the second try.
use emmbus2influx.Base.{
  ℕ, suc, ◌<◌, ◌==◌, ◌≡◌, ◌≢◌, Bool, true, false, none, some, length, if◌then◌else◌, codes, ℤ, pos,
  negsuc, arith, print_int, print_nat, digits_fuel,
}
use emmbus2influx.Mqtt.{MqttLibrary, Publisher, full_url, topic_of, mqtt_pub_connect, mqtt_pub}
use emmbus2influx.Mqtt.Connect.{HasConnected, IsRegular, mqtt_pub_connect-Connects}
use emmbus2influx.Mqtt.Publish.{IsHonest, mqtt_pub-IsHonest}

-- the state counts the calls; a message is accepted once there has been one
abbrev broker : MqttLibrary ℕ ℕ
broker = record {
  create = λ url i w. (pos 0, some 1, suc w);
  is_connected = λ c w. false;
  connect = λ c w. (pos 0, suc w);
  disconnect = λ c w. suc w;
  destroy = λ c w. suc w;
  publish_message = λ c topic str qos retained w. (if w == 0 then negsuc 2 else pos 0, 5, suc w);
  wait_for_completion = λ c token timeout w. (pos 0, w);
}

answer-regular : (b : Bool) → (if b then negsuc 2 else pos 0) ≢ negsuc 9989863
answer-regular true = λ z. ground arith
answer-regular false = λ z. ground arith

broker-IsRegular : IsRegular broker
broker-IsRegular = record {
  create_client = λ url i w z e. ground arith;
  create_code = λ url i w z. ground arith;
  connect_code = λ c w z. ground arith;
  publish_code = λ c topic str qos retained w. answer-regular (w == 0);
}

abbrev publisher : Publisher ℕ
publisher = record {
  client_id = none;
  hostname = some (codes "db");
  topic_prefix = some (codes "p/");
  last_buf_size = 0;
  port = pos 1883;
  url = none;
  client = none;
  last_token = 0;
  is_disconnected = false;
}

short_url : length (full_url publisher) < 64
unfolding print_int print_nat digits_fuel
short_url = omega arith

mqtt_pub_connect-Connects_example :
    (r : ℤ × Publisher ℕ × ℕ) × (mqtt_pub_connect broker 64 publisher 0 ≡ some r)
    × (r.1.url ≡ some (full_url publisher))
    × HasConnected broker r
mqtt_pub_connect-Connects_example =
    mqtt_pub_connect-Connects broker 64 publisher 0 short_url (λ url i w z e. ground arith)

mqtt_pub-IsHonest_example :
    (r : ℤ × Publisher ℕ × ℕ) × (mqtt_pub broker 64 publisher
        (codes "heat")
        (codes "{}")
        0
        (pos 0)
        (pos 0)
        0
      ≡ some r)
    × IsHonest broker (topic_of publisher (codes "heat")) (codes "{}") (pos 0) (pos 0) publisher 0 r
mqtt_pub-IsHonest_example =
    mqtt_pub-IsHonest broker broker-IsRegular 64 publisher (codes "heat") (codes "{}") 0 (pos 0)
      (pos 0) 0 short_url
