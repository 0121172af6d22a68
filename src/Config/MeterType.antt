-- ===== src/Config/MeterType.antt =====
-- A section of the configuration file for a type of meters: `parseMeterType` of meterDef.cpp.
pub mod Registers
pub mod Sections
pub mod Laws
use mathlib.Core.Option
use emmbus2influx.Base.{
  ℕ, zero, suc, ◌==◌, ◌&&◌, ◌||◌, not, Bool, true, false, Option, none, some, List, [], ◌∷◌, ◌++◌,
  if◌then◌else◌, Bytes, same_text, ℤ, pos, negsuc, is_zero, eqb_ℤ, ltb_ℤ, ◌+ℤ◌,
}
use emmbus2influx.Meter.{
  TypeForce, force_none, force_int, force_float, InfluxMultProcessing, pr_last, pr_max, pr_min,
  pr_avg, MeterRegister, MeterType,
}
use emmbus2influx.Config.Lexer.{tk_eof, tk_eol, tk_intval, tk_strval, tk_section, Parser}
use emmbus2influx.Config.Section.{options, entries}
use emmbus2influx.Config.Keys.{
  t_typefirst, t_typelast, tk_float, tk_int16, tk_regoptifirst, tk_dec, tk_div, tk_mul, tk_mqtt,
  tk_influx, tk_grafana, tk_regoptilast, tk_regoptsfirst, tk_array, tk_formula, tk_mqttprefix,
  tk_regoptslast, tk_name, tk_force, tk_measurement, tk_mqttqos, tk_mqttretain, tk_influxwritemult,
  tk_imax, tk_imin, tk_iavg,
}
use emmbus2influx.Config.Expect.{
  Parsed, parsed, stopped, overrun, unfinished, Reads, bind, ◌>>=◌, ◌>>◌, done, stop, refuse,
  int_value, str_value, check_allowed_chars, tk_comma, tk_equal, next_token, expect, expect_or_eol,
  expect_int, expect_str, end_entry,
}

-- the integer that a token is, for `type`
abbrev pub type_number : ℤ → ℕ
type_number (pos n) = n
type_number (negsuc n) = 0

abbrev pub between : ℤ → ℤ → ℤ → Bool
between first last tk = not (ltb_ℤ tk first) && not (ltb_ℤ last tk)

abbrev pub is_pr_last : InfluxMultProcessing → Bool
is_pr_last pr_last = true
is_pr_last _ = false

-- whether a register of the list has the name
unfoldable pub has_register : Bytes → List MeterRegister → Bool
unfolding same_text
has_register name [] = false
has_register name (r ∷ rest) = same_text r.name name || has_register name rest

-- `findMeterType`
unfoldable pub find_meter_type : Bytes → List MeterType → Option MeterType
unfolding same_text
find_meter_type name [] = none
find_meter_type name (mt ∷ rest) =
    let here : Bool = elim mt.name [ none ↦ false | some n ↦ same_text n name ] in
    if here then some mt else find_meter_type name rest

abbrev pub is_given : {A : Type 0} → Option A → Bool
is_given none = false
is_given (some a) = true

-- what the section has given: the type, and the defaults for its registers
pub record TypeSection : Type 0 where
  pub type : MeterType
  pub enable_influx_write : ℤ
  pub enable_mqtt_write : ℤ
  pub enable_grafana_write : ℤ

abbrev pub with_type : TypeSection → MeterType → TypeSection
with_type s t = record s { type = t }

-- a register as `calloc` and the lines behind it leave it
abbrev pub new_register : TypeSection → Bytes → MeterRegister
new_register s name = record {
  name = name;
  is_formula_only = false;
  formula = none;
  record_number = pos 0;
  type = 304;
  divider = pos 0;
  multiplier = pos 0;
  force_type = force_none;
  array_name = none;
  decimals = pos 0;
  enable_influx_write = s.enable_influx_write;
  enable_mqtt_write = s.enable_mqtt_write;
  enable_grafana_write = s.enable_grafana_write;
  influx_mult_processing = pr_last;
}

module _ {D : Type 0} (alloc : ℕ → Bool) (scan_float : Bytes → Option D) where
  -- `influxwritemult`: 0 or at least 2
  unfoldable pub expect_mult : Reads D ℤ
  unfolding expect_int
  expect_mult = do
    n ← expect_int alloc scan_float
    refuse (not (is_zero n) && ltb_ℤ n (pos 2))
    done n

  -- `imax`, `imin` and `iavg`
  unfoldable pub expect_processing : ℤ → InfluxMultProcessing → Reads D InfluxMultProcessing
  expect_processing tk pr = do
    refuse (not (eqb_ℤ tk tk_imax || eqb_ℤ tk tk_imin || eqb_ℤ tk tk_iavg))
    refuse (not (is_pr_last pr))
    done (if eqb_ℤ tk tk_imax then pr_max else if eqb_ℤ tk tk_imin then pr_min else pr_avg)

  -- `force`
  unfoldable pub expect_force : Reads D TypeForce
  unfolding expect next_token
  expect_force = do
    expect alloc scan_float tk_equal
    tk ← next_token alloc scan_float
    refuse (not (eqb_ℤ tk tk_int16) && not (eqb_ℤ tk tk_float))
    done (if eqb_ℤ tk tk_int16 then force_int else force_float)

  -- the options of a register that have a text
  abbrev pub text_option : ℤ → Bytes → MeterRegister → Reads D MeterRegister
  text_option tk text r =
      if eqb_ℤ tk tk_array
      then done (record r { array_name = some text })
      else if eqb_ℤ tk tk_formula
      then refuse (is_given r.formula) >> done (record r { formula = some text })
      else stop

  -- the options of a register that have a number
  abbrev pub number_option : ℤ → ℤ → MeterRegister → Reads D MeterRegister
  number_option tk n r =
      if eqb_ℤ tk tk_dec
      then done (record r { decimals = n })
      else if eqb_ℤ tk tk_div
      then done (record r { divider = n })
      else if eqb_ℤ tk tk_mul
      then done (record r { multiplier = n })
      else if eqb_ℤ tk tk_mqtt
      then done (record r { enable_mqtt_write = n })
      else if eqb_ℤ tk tk_influx
      then done (record r { enable_influx_write = n })
      else if eqb_ℤ tk tk_grafana
      then done (record r { enable_grafana_write = n })
      else stop

  -- an option of a register, at its token
  unfoldable pub register_option : ℤ → MeterRegister → Reads D MeterRegister
  unfolding expect_str expect_int expect_force expect_processing
  register_option tk r =
      if between t_typefirst t_typelast tk
      then done (record r { type = type_number tk })
      else if between tk_regoptsfirst tk_regoptslast tk
      then (expect_str alloc scan_float >>= λ text. text_option tk text r)
      else if between tk_regoptifirst tk_regoptilast tk
      then (expect_int alloc scan_float >>= λ n. number_option tk n r)
      else if eqb_ℤ tk tk_force
      then (expect_force >>= λ force. done (record r { force_type = force }))
      else expect_processing tk r.influx_mult_processing >>= λ pr.
          done (record r { influx_mult_processing = pr })

  -- the record number or the formula of a register, at its token
  abbrev pub source_value : ℤ → ℤ → Bytes → MeterRegister → Reads D MeterRegister
  source_value tk n text r =
      if eqb_ℤ tk tk_intval
      then done (record r { record_number = n })
      else if eqb_ℤ tk tk_strval
      then done (record r { formula = some text; is_formula_only = true })
      else stop

  unfoldable pub register_source : MeterRegister → Reads D MeterRegister
  unfolding next_token
  register_source r = do
    tk ← next_token alloc scan_float
    n ← int_value
    text ← str_value
    source_value tk n text r

  -- a register: the token behind it, and the section with the register
  unfoldable pub parse_register : ℕ → TypeSection → Reads D (ℤ × TypeSection)
  unfolding expect register_source next_token register_option options has_register
  parse_register fuel s = do
    name ← str_value
    refuse (has_register name s.type.meter_registers)
    check_allowed_chars name
    expect alloc scan_float tk_equal
    r ← register_source (new_register s name)
    tk ← next_token alloc scan_float
    (tk', r') ← options alloc scan_float register_option fuel tk r
    done (
      tk',
      record s { type = record s.type { meter_registers = s.type.meter_registers ++ r' ∷ [] } },
    )

  -- `name`
  unfoldable pub parse_type_name : List MeterType → TypeSection → Reads D TypeSection
  unfolding expect_str find_meter_type
  parse_type_name types s = do
    refuse (is_given s.type.name)
    name ← expect_str alloc scan_float
    check_allowed_chars name
    refuse (is_given (find_meter_type name types))
    done (with_type s (record s.type { name = some name }))

  -- the keys of the section that have a value
  unfoldable pub type_key : List MeterType → ℤ → TypeSection → Reads D TypeSection
  unfolding expect_int expect_str expect_mult parse_type_name
  type_key types tk s =
      let t = s.type in
      if eqb_ℤ tk tk_influxwritemult
      then (expect_mult >>= λ n. done (with_type s (record t { influx_write_mult = n })))
      else if eqb_ℤ tk tk_measurement
      then (refuse (is_given t.influx_measurement)
          >> (expect_str alloc scan_float >>= λ text.
              done (with_type s (record t { influx_measurement = some text }))))
      else if eqb_ℤ tk tk_mqttprefix
      then (expect_str alloc scan_float >>= λ text.
          done (with_type s (record t { mqttprefix = some text })))
      else if eqb_ℤ tk tk_mqttqos
      then (expect_int alloc scan_float >>= λ n. done (with_type s (record t { mqtt_qos = n })))
      else if eqb_ℤ tk tk_mqttretain
      then (expect_int alloc scan_float >>= λ n. done (with_type s (record t { mqtt_retain = n })))
      else if eqb_ℤ tk tk_mqtt
      then (expect_int alloc scan_float >>= λ n. done (record s { enable_mqtt_write = n }))
      else if eqb_ℤ tk tk_influx
      then (expect_int alloc scan_float >>= λ n. done (record s { enable_influx_write = n }))
      else if eqb_ℤ tk tk_grafana
      then (expect_int alloc scan_float >>= λ n. done (record s { enable_grafana_write = n }))
      else if eqb_ℤ tk tk_name
      then parse_type_name types s
      else stop

-- the loop that counts the registers
unfoldable pub count_registers : List MeterRegister → MeterType → MeterType
unfolding ◌+ℤ◌
count_registers [] t = t
count_registers (r ∷ rest) t = count_registers rest (record t {
  is_formula_only = t.is_formula_only && r.is_formula_only;
  num_enabled_registers_influx = t.num_enabled_registers_influx +ℤ r.enable_influx_write;
  num_enabled_registers_mqtt = t.num_enabled_registers_mqtt +ℤ r.enable_mqtt_write;
  num_enabled_registers_grafana = t.num_enabled_registers_grafana +ℤ r.enable_grafana_write;
})

abbrev pub counted_type : MeterType → MeterType
counted_type t = count_registers t.meter_registers (record t {
  is_formula_only = true;
  num_enabled_registers_influx = pos 0;
  num_enabled_registers_mqtt = pos 0;
  num_enabled_registers_grafana = pos 0;
})

abbrev pub has_no_registers : MeterType → Bool
has_no_registers t = elim t.meter_registers [ [] ↦ true | r ∷ rs ↦ false ]

-- the section before its first entry, from the global prefix and multiplier
abbrev pub new_type_section : Bytes → ℤ → TypeSection
new_type_section mqttprefix influx_write_mult = record {
  type = record {
    name = none;
    is_formula_only = false;
    meter_registers = [];
    num_enabled_registers_mqtt = pos 0;
    num_enabled_registers_influx = pos 0;
    num_enabled_registers_grafana = pos 0;
    mqtt_qos = pos 0;
    mqtt_retain = pos 0;
    mqttprefix = some mqttprefix;
    influx_measurement = none;
    influx_write_mult = influx_write_mult;
  };
  enable_influx_write = pos 1;
  enable_mqtt_write = pos 1;
  enable_grafana_write = pos 1;
}

module _ {D : Type 0} (alloc : ℕ → Bool) (scan_float : Bytes → Option D) where
  -- `parseMeterType`: the token behind the section, and the types
  unfoldable pub parse_meter_type : ℕ → Bytes → ℤ → List MeterType → Reads D (ℤ × List MeterType)
  unfolding expect next_token entries parse_register type_key count_registers
  parse_meter_type fuel mqttprefix influx_write_mult types = do
    expect alloc scan_float tk_eol
    tk ← next_token alloc scan_float
    (tk', s) ←
        entries alloc scan_float (parse_register alloc scan_float) (type_key alloc scan_float types)
          fuel tk (new_type_section mqttprefix influx_write_mult)
    refuse (not (is_given s.type.name))
    refuse (has_no_registers s.type)
    done (tk', types ++ counted_type s.type ∷ [])
