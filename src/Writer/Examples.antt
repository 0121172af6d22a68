-- ===== src/Writer/Examples.antt =====
-- A concrete row of a meter.
use emmbus2influx.Base.{false}
use emmbus2influx.Base.{
  zero, suc, ◌∷◌, ◌≡◌, some, map, fault, ℕ, [], true, none, Bool, Bytes, codes, ℤ, pos, arith, refl,
  inr, length, print_int, print_nat, digits_fuel, ◌<◌,
}
use emmbus2influx.Influx.Line.Grammar.{started, FitsArgs, write_all}
use emmbus2influx.Influx.Line.Laws.{Follows}
use emmbus2influx.Influx.Line.{Line}
use emmbus2influx.Meter.Samples.{numbers, power_meter}
use emmbus2influx.Writer.{influx_append_data, later_calls}
use emmbus2influx.Meter.{Meter, MeterRegisterRead}
use emmbus2influx.Writer.Grafana.{grafana_append_data, grafana_calls}
use emmbus2influx.Writer.Grafana.Laws.{grafana_append_data-Follows, grafana_append_data_overflow}
use emmbus2influx.Writer.Row.{row_args}
use emmbus2influx.Writer.Grafana.Row.{grafana_args}
use emmbus2influx.Writer.Laws.{influx_append_data-Follows}
use emmbus2influx.Base.{Ensures, List}
use emmbus2influx.Influx.Line.{Arg}
use emmbus2influx.Writer.Batch.{batch_args, append_rows-Follows}
use emmbus2influx.Writer.{append_rows}
use emmbus2influx.Writer.Mqtt.{Item, items, register_item, mqtt_text}
use emmbus2influx.Writer.Mqtt.Bounds.{Holds}
use emmbus2influx.Writer.Mqtt.Json.{members, print_object}
use emmbus2influx.Writer.Mqtt.Object.{ArePlain, mqtt_text-Prints}
use emmbus2influx.Writer.Mqtt.Overflow.{mqtt_text_overflow}

abbrev enough : ℕ → Bool
enough n = true

abbrev fixed_text : ℤ → ℕ → Bytes
fixed_text precision d = codes "9"

abbrev no_line : Line
no_line = record {
  buffer = record {
    influx_buf = none;
    influx_buf_used = 0;
    influx_buf_len = 0;
    last_needed_buffer_size = 256;
  };
  last_type = 0;
}

short_time : length (print_int (pos 7)) < 254
unfolding print_int print_nat digits_fuel
short_time = omega arith

row_fits :
    FitsArgs fixed_text
      (pos 0)
      (row_args numbers (codes "MBusMeters") (codes "Device") power_meter (pos 7))
unfolding later_calls
row_fits =
    (omega arith, ((omega arith, omega arith), ((omega arith, omega arith), (short_time, tt))))

influx_append_data-Follows_example :
    Follows []
      (write_all fixed_text
        (pos 0)
        started
        (row_args numbers (codes "MBusMeters") (codes "Device") power_meter (pos 7)))
      (influx_append_data numbers
        (codes "MBusMeters")
        (codes "Device")
        enough
        fixed_text
        (pos 0)
        power_meter
        (pos 7)
        no_line)
influx_append_data-Follows_example =
    influx_append_data-Follows numbers (codes "MBusMeters") (codes "Device") enough fixed_text
      (pos 0) (λ n. refl) power_meter (pos 7) [] started no_line refl refl
      (inr (refl, omega arith, refl, refl)) row_fits

-- The meter with its register enabled for Grafana.
abbrev grafana_meter : Meter ℕ
grafana_meter = record power_meter {
  num_enabled_registers_grafana = pos 1;
  register_read =
      map
        (λ (rr : MeterRegisterRead ℕ). record rr {
          register_def = record rr.register_def { enable_grafana_write = pos 1 };
        })
        power_meter.register_read;
}

grafana_row_fits :
    FitsArgs fixed_text
      (pos 0)
      (grafana_args numbers true (codes "MBusMeters") grafana_meter (pos 7))
unfolding grafana_calls
grafana_row_fits = (omega arith, ((omega arith, omega arith), (short_time, tt)))

grafana_append_data-Follows_example :
    Follows []
      (write_all fixed_text
        (pos 0)
        started
        (grafana_args numbers true (codes "MBusMeters") grafana_meter (pos 7)))
      (grafana_append_data numbers true
        (codes "MBusMeters")
        enough
        fixed_text
        (pos 0)
        grafana_meter
        (pos 7)
        no_line)
grafana_append_data-Follows_example =
    grafana_append_data-Follows numbers true (codes "MBusMeters") enough fixed_text (pos 0)
      (λ n. refl) grafana_meter (pos 7) [] started no_line refl refl (omega arith)
      (inr (refl, omega arith, refl, refl)) grafana_row_fits

abbrev letters : ℕ → Bytes
letters zero = []
letters (suc n) = b'a' ∷ letters n

abbrev long_meter : Meter ℕ
long_meter = record grafana_meter { gname = some (letters 120) }

grafana_append_data_overflow_example :
    grafana_append_data numbers true
      (letters 150)
      enough
      fixed_text
      (pos 0)
      long_meter
      (pos 7)
      no_line
    ≡ fault
grafana_append_data_overflow_example =
    grafana_append_data_overflow numbers (letters 150) enough fixed_text (pos 0) long_meter (pos 7)
      no_line refl refl (omega arith) (omega arith)

-- The meter after a query, when its row is to be written.
abbrev due_meter : Meter ℕ
due_meter = record power_meter { meter_has_been_read = 1; influx_write_countdown = pos 0 }

abbrev batch : List (Arg ℕ)
batch =
    batch_args numbers (codes "MBusMeters") (codes "Device") enough fixed_text (pos 0) (λ n. refl)
      (power_meter ∷ due_meter ∷ []) (pos 7)

batch_fits : FitsArgs fixed_text (pos 0) batch
unfolding later_calls
batch_fits =
    (omega arith, ((omega arith, omega arith), ((omega arith, omega arith), (short_time, tt))))

append_rows-Follows_example : Follows [] (write_all fixed_text (pos 0) started batch) (
    append_rows numbers
      (codes "MBusMeters")
      (codes "Device")
      enough
      fixed_text
      (pos 0)
      (power_meter ∷ due_meter ∷ [])
      (pos 7)
      no_line)
append_rows-Follows_example =
    append_rows-Follows numbers (codes "MBusMeters") (codes "Device") enough fixed_text (pos 0)
      (λ n. refl) (power_meter ∷ due_meter ∷ []) (pos 7) [] started no_line
      (inr (refl, omega arith, refl, refl)) batch_fits (cc)

power_items-ArePlain : ArePlain (items numbers fixed_text power_meter)
unfolding register_item
power_items-ArePlain = (record { name = omega arith; array_name = λ a e. ground arith }, tt)

mqtt_text-Prints_example :
    Ensures
      (λ b. Holds b.str (print_object (members (items numbers fixed_text power_meter))))
      (mqtt_text enough (items numbers fixed_text power_meter))
mqtt_text-Prints_example =
    mqtt_text-Prints numbers fixed_text enough power_meter (λ n. refl) power_items-ArePlain

power_object : print_object (members (items numbers fixed_text power_meter)) ≡ codes "{\"power\":9}"
unfolding register_item
power_object = refl

abbrev long_item : Item
long_item = record { enabled = true; array_name = none; name = letters 508; value = codes "9" }

abbrev off_item : Item
off_item = record { enabled = false; array_name = none; name = codes "off"; value = codes "9" }

mqtt_text_overflow_example : mqtt_text enough (off_item ∷ long_item ∷ []) ≡ fault
mqtt_text_overflow_example =
    mqtt_text_overflow enough (off_item ∷ []) long_item [] refl (refl, tt) refl refl (omega arith)
