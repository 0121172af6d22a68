-- ===== src/Writer/Mqtt/Object.antt =====
-- The text of `mqttSendData` for the registers and the formulas of a meter.
use emmbus2influx.Base.{
  ℕ, ◌+◌, ◌≤◌, ◌≡◌, ◌≢◌, refl, Bool, true, false, some, List, [], ◌∷◌, ◌++◌, map, length,
  length-take, take, Bytes, ℤ, arith, Ensures, print_int,
}
use emmbus2influx.Meter.Floats.{Floats}
use emmbus2influx.Meter.{MeterRegisterRead, MeterFormula, Meter}
use emmbus2influx.Writer.Mqtt.{
  Item, skip_blanks, value_text, register_item, formula_item, items, mqtt_text,
}
use emmbus2influx.Writer.Mqtt.Json.{members, print_object}
use emmbus2influx.Writer.Mqtt.Tail.{HaveArrayNames}
use emmbus2influx.Writer.Mqtt.Bounds.{Holds, IsShort}
use emmbus2influx.Writer.Mqtt.Laws.{IsShortItem, AreShortItems, mqtt_text-members}

-- The name of a register or of a formula fits, and so does the name of its array, which is not
-- empty.
pub record IsPlain (item : Item) : Type 0 where
  pub name : length item.name + 3 ≤ 256
  pub array_name : (a : Bytes) → item.array_name ≡ some a → (a ≢ []) × IsShort a

abbrev pub ArePlain : List Item → Type 0
ArePlain [] = Unit
ArePlain (item ∷ rest) = IsPlain item × ArePlain rest

abbrev HaveShortValues : List Item → Type 0
HaveShortValues [] = Unit
HaveShortValues (item ∷ rest) = IsShort item.value × HaveShortValues rest

ArePlain-short :
    (list : List Item)
    → HaveShortValues list
    → ArePlain list
    → AreShortItems list × HaveArrayNames list
ArePlain-short [] v p = (tt, tt)
ArePlain-short (item ∷ rest) (v, vs) (p, ps) =
    let (shorts, names) = ArePlain-short rest vs ps in
    let short : IsShortItem item = record {
      name = p.name;
      array_name = λ a e. (p.array_name a e).1;
      value = v;
    } in
    ((short, shorts), (λ on e. (p.array_name [] e).0 refl, names))

skip_blanks-length : (text : Bytes) → length (skip_blanks text) ≤ length text
unfolding skip_blanks
skip_blanks-length [] = omega arith
skip_blanks-length (c ∷ cs) = ground (arith, skip_blanks-length cs)

module _ {D : Type 0} (F : Floats D) (format_float : ℤ → D → Bytes) where
  value_text-IsShort :
      (is_int : Bool) (decimals : ℤ) (v : D) → IsShort (value_text F format_float is_int decimals v)
  unfolding value_text
  value_text-IsShort true decimals v = omega (arith, length-take 63 (print_int (F.to_int v)))
  value_text-IsShort false decimals v =
      let cut = take 63 (format_float decimals v) in
      omega (arith, length-take 63 (format_float decimals v), skip_blanks-length cut)

  items-HaveShortValues :
      (rrs : List (MeterRegisterRead D)) (mfs : List (MeterFormula D))
      → HaveShortValues
          (map (register_item F format_float) rrs ++ map (formula_item F format_float) mfs)
  unfolding register_item formula_item
  items-HaveShortValues [] [] = tt
  items-HaveShortValues [] (mf ∷ mfs) =
      (value_text-IsShort _ mf.decimals mf.fvalue, items-HaveShortValues [] mfs)
  items-HaveShortValues (rr ∷ rrs) mfs = (
    value_text-IsShort rr.is_int rr.register_def.decimals rr.fvalue,
    items-HaveShortValues rrs mfs,
  )

  -- Let every allocation succeed, every name of a register or a formula of the meter have at most
  -- 253 bytes, and every array name between 1 and 256. The text that `mqttSendData` builds for the
  -- meter is then stored within its block, which grows by doubling once for a text, and is the
  -- object that has the enabled values in their order, those of one array that follow each other
  -- as one member.
  pub mqtt_text-Prints :
      (alloc : ℕ → Bool) (m : Meter D)
      → ((n : ℕ) → alloc n ≡ true)
      → ArePlain (items F format_float m)
      → Ensures
          (λ b. Holds b.str (print_object (members (items F format_float m))))
          (mqtt_text alloc (items F format_float m))
  mqtt_text-Prints alloc m plenty plain =
      let (short, named) =
        ArePlain-short (items F format_float m)
          (items-HaveShortValues m.register_read m.meter_formula) plain in
      mqtt_text-members alloc (items F format_float m) plenty short named
