-- ===== src/Loop/Examples.antt =====
-- A concrete meter that is published.
use emmbus2influx.Base.{
  ℕ, ◌<◌, ◌≡◌, refl, true, false, none, some, length, Bytes, codes, ℤ, pos, arith, contains,
  print_int, print_nat, digits_fuel,
}
use emmbus2influx.Meter.Samples.{numbers, power_meter}
use emmbus2influx.Mqtt.{MqttLibrary, Publisher, full_url}
use emmbus2influx.Mqtt.Connect.{IsRegular}
use emmbus2influx.Writer.Mqtt.{items, register_item}
use emmbus2influx.Writer.Mqtt.Object.{ArePlain}
use emmbus2influx.Loop.{Setup, mqtt_send_data}
use emmbus2influx.Loop.Mqtt.{Published, object, mqtt_send_data-Published}

abbrev setup : Setup ℕ
setup = record {
  alloc = λ n. true;
  print_float = λ precision d. codes "9";
  format_float = λ precision d. codes "         9";
  vformat = λ text. some text;
  influx_measurement = codes "MBusMeters";
  influx_tag_name = codes "Device";
  use_measurement = false;
  fuel = 64;
}

abbrev accepting : MqttLibrary ℕ ℕ
accepting = record {
  create = λ url i w. (pos 0, some 1, w);
  is_connected = λ c w. true;
  connect = λ c w. (pos 0, w);
  disconnect = λ c w. w;
  destroy = λ c w. w;
  publish_message = λ c topic str qos retained w. (pos 0, 5, w);
  wait_for_completion = λ c token timeout w. (pos 0, w);
}

accepting-IsRegular : IsRegular accepting
accepting-IsRegular = record {
  create_client = λ url i w z e. ground arith;
  create_code = λ url i w z. ground arith;
  connect_code = λ c w z. ground arith;
  publish_code = λ c topic str qos retained w z. ground arith;
}

abbrev client : Publisher ℕ
client = record {
  client_id = none;
  hostname = some (codes "db");
  topic_prefix = none;
  last_buf_size = 0;
  port = pos 1883;
  url = none;
  client = some 1;
  last_token = 0;
  is_disconnected = false;
}

abbrev no_send : Bytes → ℕ → ℤ × ℕ
no_send text w = (pos 0, w)

short_url : length (full_url client) < 64
unfolding print_int print_nat digits_fuel
short_url = omega arith

plain : ArePlain (items numbers setup.format_float power_meter)
unfolding register_item
plain = (record { name = omega arith; array_name = λ a e. ground arith }, tt)

clean :
    contains
      (object numbers setup accepting no_send no_send accepting-IsRegular (λ n. refl) power_meter)
      b'%'
    ≡ false
unfolding contains register_item
clean = refl

mqtt_send_data-Published_example :
    (r : ℤ × Publisher ℕ × ℕ) × (mqtt_send_data numbers setup accepting no_send no_send false
        power_meter client 0
      ≡ some r)
    × Published numbers setup accepting no_send no_send accepting-IsRegular
        (λ n. refl)
        power_meter
        (object numbers setup accepting no_send no_send accepting-IsRegular (λ n. refl) power_meter)
        client
        0
        r
mqtt_send_data-Published_example =
    mqtt_send_data-Published numbers setup accepting no_send no_send accepting-IsRegular (λ n. refl)
      power_meter client 0 (λ text c. refl) short_url refl refl plain clean
