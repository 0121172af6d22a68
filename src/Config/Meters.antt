-- ===== src/Config/Meters.antt =====
-- The meter that a section of the configuration file describes, meterDef.cpp. The meter is the
-- next of the list of meters, and a schedule knows it by its place. `exit` ends the program like an
-- error of the parser; `nought` is the 0.0 that `calloc` leaves.
pub mod Parse
pub mod Formulas
pub mod Keys
pub mod Laws
use mathlib.Core.Option
use emmbus2influx.Base.{
  ℕ, zero, suc, ◌+◌, ◌-◌, ◌^◌, ◌==◌, ◌&&◌, ◌||◌, not, Bool, true, false, Option, none, some, List,
  [], ◌∷◌, ◌++◌, map, length, ltb, if◌then◌else◌, Bytes, same_text, ℤ, pos, negsuc, is_zero, eqb_ℤ,
  ltb_ℤ, suc_ℤ, ◌+ℤ◌,
}
use emmbus2influx.Meter.{
  TypeForce, force_none, InfluxMultProcessing, pr_last, MeterRegister, MeterType, MeterRegisterRead,
  MeterFormula, Meter,
}
use emmbus2influx.Cron.{CronLibrary, CronDef, is_named, cron_find, update, join}
use emmbus2influx.Config.Lexer.{tk_eol, tk_strval}
use emmbus2influx.Config.Keys.{
  tk_regoptifirst, tk_dec, tk_mqtt, tk_influx, tk_grafana, tk_regoptilast, tk_regoptsfirst,
  tk_array, tk_mqttprefix, tk_regoptslast, tk_name, tk_type, tk_address, tk_hostname, tk_force,
  tk_measurement, tk_port, tk_id, tk_disable, tk_mqttqos, tk_mqttretain, tk_influxwritemult,
  tk_schedule, tk_iname, tk_gname,
}
use emmbus2influx.Config.Expect.{
  Reads, bind, ◌>>=◌, ◌>>◌, done, stop, refuse, str_value, check_allowed_chars, tk_equal,
  next_token, expect, expect_int, expect_str,
}
use emmbus2influx.Config.Section.{options, entries}
use emmbus2influx.Config.MeterType.{
  is_given, between, is_pr_last, find_meter_type, expect_mult, expect_processing, expect_force,
}

-- what a section for a meter has given: the meter, how many options a type has as well, the
-- defaults for its formulas, and the schedules
pub record MeterSection (D E : Type 0) : Type 0 where
  pub meter : Meter D
  pub type_conflict : ℕ
  pub enable_influx_write : ℤ
  pub enable_mqtt_write : ℤ
  pub enable_grafana_write : ℤ
  pub schedules : List (CronDef E)

abbrev pub with_meter : {D E : Type 0} → MeterSection D E → Meter D → MeterSection D E
with_meter s m = record s { meter = m }

-- with an option that a type has as well
abbrev pub conflict : {D E : Type 0} → MeterSection D E → Meter D → MeterSection D E
conflict s m = record s { meter = m; type_conflict = s.type_conflict + 1 }

-- an `int` as a `uint64_t`
abbrev pub to_uint64 : ℤ → ℕ
to_uint64 (pos n) = n
to_uint64 (negsuc n) = 2 ^ 64 - 1 - n

-- `findMeter`
unfoldable pub find_meter : {D : Type 0} → Bytes → List (Meter D) → Option (Meter D)
unfolding same_text
find_meter name [] = none
find_meter name (m ∷ rest) =
    let here : Bool = elim m.name [ none ↦ false | some n ↦ same_text name n ] in
    if here && is_zero m.disabled then some m else find_meter name rest

-- whether a formula of the list has the name
unfoldable pub has_formula_named : {D : Type 0} → Bytes → List (MeterFormula D) → Bool
unfolding same_text
has_formula_named name [] = false
has_formula_named name (f ∷ rest) = same_text f.name name || has_formula_named name rest

-- the counts of a meter with a further formula
abbrev pub count_if : ℤ → ℤ → ℤ
count_if enabled n = if is_zero enabled then n else suc_ℤ n

abbrev pub add_formula : {D : Type 0} → MeterFormula D → Meter D → Meter D
add_formula f m = record m {
  meter_formula = m.meter_formula ++ f ∷ [];
  num_enabled_registers_influx = count_if f.enable_influx_write m.num_enabled_registers_influx;
  num_enabled_registers_mqtt = count_if f.enable_mqtt_write m.num_enabled_registers_mqtt;
  num_enabled_registers_grafana = count_if f.enable_grafana_write m.num_enabled_registers_grafana;
}

-- the first of two texts that is there
abbrev pub or_text : Option Bytes → Option Bytes → Option Bytes
or_text (some text) other = some text
or_text none other = other

-- `type`
unfoldable pub set_type : {D : Type 0} → MeterType → Meter D → Meter D
unfolding ◌+ℤ◌
set_type t m = record m {
  meter_type = some t;
  num_enabled_registers_mqtt = m.num_enabled_registers_mqtt +ℤ t.num_enabled_registers_mqtt;
  num_enabled_registers_influx = m.num_enabled_registers_influx +ℤ t.num_enabled_registers_influx;
  num_enabled_registers_grafana =
      m.num_enabled_registers_grafana +ℤ t.num_enabled_registers_grafana;
  mqttprefix = or_text t.mqttprefix m.mqttprefix;
  mqtt_qos = t.mqtt_qos;
  mqtt_retain = t.mqtt_retain;
  influx_write_mult = t.influx_write_mult;
  influx_measurement = or_text t.influx_measurement m.influx_measurement;
}

abbrev pub new_formula : {D E : Type 0} → D → MeterSection D E → Bytes → Bytes → MeterFormula D
new_formula nought s name formula = record {
  name = name;
  formula = formula;
  force_type = force_none;
  array_name = none;
  decimals = pos 0;
  enable_influx_write = s.enable_influx_write;
  enable_mqtt_write = s.enable_mqtt_write;
  enable_grafana_write = s.enable_grafana_write;
  fvalue = nought;
  fvalue_influx = nought;
  fvalue_influx_last = nought;
  influx_mult_processing = pr_last;
}

-- a meter before its first entry, with the global multiplier
abbrev pub fresh_meter : {D : Type 0} → ℤ → Meter D
fresh_meter influx_write_mult = record {
  disabled = pos 0;
  register_read = [];
  meter_type = none;
  is_formula_only = false;
  mbus_address = to_uint64 (negsuc 0);
  mbus_id = negsuc 0;
  name = none;
  iname = none;
  gname = none;
  meter_has_been_read = 0;
  has_schedule = 0;
  is_due = 0;
  mb = false;
  is_tcp = false;
  hostname = none;
  port = none;
  influx_measurement = none;
  influx_tag_name = none;
  meter_formula = [];
  num_enabled_registers_mqtt = pos 0;
  num_enabled_registers_influx = pos 0;
  num_enabled_registers_grafana = pos 0;
  mqtt_qos = pos 0;
  mqtt_retain = pos 0;
  mqttprefix = none;
  influx_write_mult = influx_write_mult;
  influx_write_countdown = pos 0;
  num_queries = 0;
  num_errs = 0;
  num_grafana_writes = 0;
}

-- the section before its first entry
abbrev pub new_section : {D E : Type 0} → ℤ → List (CronDef E) → MeterSection D E
new_section influx_write_mult schedules = record {
  meter = fresh_meter influx_write_mult;
  type_conflict = 0;
  enable_influx_write = pos 1;
  enable_mqtt_write = pos 1;
  enable_grafana_write = pos 1;
  schedules = schedules;
}

abbrev pub new_register_read : {D : Type 0} → D → MeterRegister → MeterRegisterRead D
new_register_read nought r = record {
  register_def = r;
  fvalue_influx = nought;
  fvalue = nought;
  fvalue_influx_last = nought;
  is_int = false;
  has_been_read = false;
}

abbrev pub type_prefix : {D : Type 0} → Meter D → Option Bytes
type_prefix m = elim m.meter_type [ none ↦ none | some t ↦ t.mqttprefix ]

-- the meter behind its section, with the registers of its type and the global prefix
unfoldable pub finished_meter : {D : Type 0} → D → Bytes → Meter D → Meter D
finished_meter nought prefix m = record m {
  mqttprefix = or_text m.mqttprefix (or_text (type_prefix m) (some prefix));
  register_read = elim m.meter_type [
    | none ↦ []
    | some t ↦ map (new_register_read nought) t.meter_registers
  ];
  influx_write_countdown = if is_zero m.influx_write_mult then pos 0 else negsuc 0;
  is_formula_only = elim m.meter_type [ none ↦ true | some t ↦ t.is_formula_only ];
}

abbrev pub has_no_formulas : {D : Type 0} → Meter D → Bool
has_no_formulas m = elim m.meter_formula [ [] ↦ true | f ∷ fs ↦ false ]
