-- ===== src/Influx/Line/Grammar.antt =====
-- Line protocol as `_format_line2` is meant to write it: which part may follow which, and its text.
use emmbus2influx.Base.{
  ℕ, ◌≡◌, ◌≤◌, ◌<◌, Bool, Option, none, some, List, [], ◌∷◌, ◌++◌, if◌then◌else◌, length, Bytes,
  codes, ℤ, print_int,
}
use emmbus2influx.Influx.Buffer.Escape.{escaped}
use emmbus2influx.Influx.Line.{
  Arg, meas, tag, field_string, field_float, field_integer, field_boolean, timestamp, timestamp_now,
  other,
}

-- What the text ends with: nothing, a measurement, a tag, a field or a timestamp.
pub data Phase : Type 0 where
  started measured tagged fielded stamped : Phase

-- The values of `last_type` in each phase.
abbrev pub At : Phase → ℕ → Type 0
At started last = last ≡ 0
At measured last = last ≡ 1
At tagged last = last ≡ 2
At fielded last = (3 ≤ last) × (last ≤ 6)
At stamped last = 7 ≤ last

abbrev pub key_text : Bytes → Bytes → Bytes
key_text sep key = sep ++ (escaped (codes ",= ") key ++ codes "=")

abbrev pub write_measurement : Bytes → Phase → Option (Phase × Bytes)
write_measurement name started = some (measured, escaped (codes ", ") name)
write_measurement name fielded = some (measured, codes "\n" ++ escaped (codes ", ") name)
write_measurement name stamped = some (measured, codes "\n" ++ escaped (codes ", ") name)
write_measurement name _ = none

abbrev pub write_tag : Bytes → Bytes → Phase → Option (Phase × Bytes)
write_tag key v measured = some (tagged, key_text (codes ",") key ++ escaped (codes ",= ") v)
write_tag key v tagged = some (tagged, key_text (codes ",") key ++ escaped (codes ",= ") v)
write_tag key v _ = none

abbrev pub write_field : Bytes → Bytes → Phase → Option (Phase × Bytes)
write_field key v measured = some (fielded, key_text (codes " ") key ++ v)
write_field key v tagged = some (fielded, key_text (codes " ") key ++ v)
write_field key v fielded = some (fielded, key_text (codes ",") key ++ v)
write_field key v _ = none

abbrev pub write_time : ℤ → Phase → Option (Phase × Bytes)
write_time time fielded = some (stamped, b' ' ∷ print_int time)
write_time time _ = none

abbrev pub boolean_text : Bool → Bytes
boolean_text b = if b then codes "t" else codes "f"

-- A verdict behind the text `out`, and the verdict on what comes next.
abbrev pub joined : Bytes → Option (Phase × Bytes) → Option (Phase × Bytes)
joined out none = none
joined out (some (r, rest)) = some (r, out ++ rest)

abbrev pub then_write :
    Option (Phase × Bytes) → (Phase → Option (Phase × Bytes)) → Option (Phase × Bytes)
then_write none next = none
then_write (some (q, out)) next = joined out (next q)

module _ {D : Type 0} (print_float : ℤ → D → Bytes) (now : ℤ) where
  -- The next phase and the text that is added; `none` where the part may not stand.
  abbrev pub write : Phase → Arg D → Option (Phase × Bytes)
  write p (meas name) = write_measurement name p
  write p (tag key v) = write_tag key v p
  write p (field_string key v) =
      write_field key (codes "\"" ++ (escaped (codes "\"") v ++ codes "\"")) p
  write p (field_float key d precision) = write_field key (print_float precision d) p
  write p (field_integer key i) = write_field key (print_int i ++ codes "i") p
  write p (field_boolean key b) = write_field key (boolean_text b) p
  write p (timestamp i) = write_time i p
  write p timestamp_now = write_time now p
  write p other = none

  -- The longest texts for which the buffer's growth is enough, and which fit the scratch buffer.
  abbrev pub FitsArg : Arg D → Type 0
  FitsArg (meas name) = length name ≤ 256
  FitsArg (tag key v) = (length key ≤ 256) × (length v ≤ 256)
  FitsArg (field_string key v) = (length key ≤ 256) × (length v ≤ 256)
  FitsArg (field_float key d precision) =
      (length key ≤ 256) × (length (print_float precision d) < 255)
  FitsArg (field_integer key i) = (length key ≤ 256) × (length (print_int i) < 254)
  FitsArg (field_boolean key b) = length key ≤ 256
  FitsArg (timestamp i) = length (print_int i) < 254
  FitsArg timestamp_now = length (print_int now) < 254
  FitsArg other = Unit {0}

  abbrev pub FitsArgs : List (Arg D) → Type 0
  FitsArgs [] = Unit {0}
  FitsArgs (arg ∷ args) = FitsArg arg × FitsArgs args

  -- The parts in a row.
  unfoldable pub write_all : Phase → List (Arg D) → Option (Phase × Bytes)
  write_all p [] = some (p, [])
  write_all p (arg ∷ args) = then_write (write p arg) (λ q. write_all q args)
