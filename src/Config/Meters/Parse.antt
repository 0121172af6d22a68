-- ===== src/Config/Meters/Parse.antt =====
-- A section of the configuration file for a meter: `parseMeter` of meterDef.cpp.
use emmbus2influx.Base.{
  ℕ, ◌+◌, ◌==◌, ◌&&◌, not, Bool, true, Option, none, some, List, [], ◌∷◌, ◌++◌, length, ltb,
  if◌then◌else◌, Bytes, ℤ, pos, eqb_ℤ, ltb_ℤ,
}
use emmbus2influx.Meter.{MeterType, MeterFormula, Meter}
use emmbus2influx.Cron.{CronLibrary, CronDef, is_named, cron_find, update, join}
use emmbus2influx.Config.Lexer.{tk_eol, tk_strval}
use emmbus2influx.Config.Keys.{
  tk_regoptifirst, tk_dec, tk_mqtt, tk_influx, tk_grafana, tk_regoptilast, tk_regoptsfirst,
  tk_array, tk_mqttprefix, tk_regoptslast, tk_name, tk_type, tk_address, tk_hostname, tk_force,
  tk_measurement, tk_port, tk_id, tk_disable, tk_mqttqos, tk_mqttretain, tk_influxwritemult,
  tk_schedule, tk_iname, tk_gname,
}
use emmbus2influx.Config.Expect.{
  Reads, ◌>>=◌, ◌>>◌, done, stop, refuse, str_value, check_allowed_chars, tk_equal, next_token,
  expect, expect_int, expect_str,
}
use emmbus2influx.Config.Section.{options, entries}
use emmbus2influx.Config.MeterType.{
  is_given, between, find_meter_type, expect_mult, expect_processing, expect_force,
}
use emmbus2influx.Config.Meters.{
  MeterSection, with_meter, conflict, to_uint64, find_meter, has_formula_named, add_formula,
  set_type, new_formula, new_section, finished_meter, has_no_formulas,
}

module _ {D E : Type 0} (alloc : ℕ → Bool) (scan_float : Bytes → Option D) (C : CronLibrary E)
    (nought : D) where
  -- the options of a formula that have a text
  abbrev pub formula_text : ℤ → Bytes → MeterFormula D → Reads D (MeterFormula D)
  formula_text tk text f =
      if eqb_ℤ tk tk_array then done (record f { array_name = some text }) else stop

  -- the options of a formula that have a number
  abbrev pub formula_number : ℤ → ℤ → MeterFormula D → Reads D (MeterFormula D)
  formula_number tk n f =
      if eqb_ℤ tk tk_dec
      then done (record f { decimals = n })
      else if eqb_ℤ tk tk_mqtt
      then done (record f { enable_mqtt_write = n })
      else if eqb_ℤ tk tk_influx
      then done (record f { enable_influx_write = n })
      else if eqb_ℤ tk tk_grafana
      then done (record f { enable_grafana_write = n })
      else stop

  -- an option of a formula, at its token
  unfoldable pub formula_option : ℤ → MeterFormula D → Reads D (MeterFormula D)
  unfolding expect_str expect_int expect_force expect_processing
  formula_option tk f =
      if between tk_regoptsfirst tk_regoptslast tk
      then (expect_str alloc scan_float >>= λ text. formula_text tk text f)
      else if between tk_regoptifirst tk_regoptilast tk
      then (expect_int alloc scan_float >>= λ n. formula_number tk n f)
      else if eqb_ℤ tk tk_force
      then (expect_force alloc scan_float >>= λ force. done (record f { force_type = force }))
      else expect_processing alloc scan_float tk f.influx_mult_processing >>= λ pr.
          done (record f { influx_mult_processing = pr })

  -- a formula: the token behind it, and the section with the formula
  unfoldable pub parse_formula : ℕ → MeterSection D E → Reads D (ℤ × MeterSection D E)
  unfolding expect next_token formula_option options has_formula_named
  parse_formula fuel s = do
    name ← str_value
    refuse (has_formula_named name s.meter.meter_formula)
    check_allowed_chars name
    expect alloc scan_float tk_equal
    tk ← next_token alloc scan_float
    text ← str_value
    refuse (not (eqb_ℤ tk tk_strval))
    tk' ← next_token alloc scan_float
    (tk'', f) ← options alloc scan_float formula_option fuel tk' (new_formula nought s name text)
    done (tk'', record s { meter = add_formula f s.meter })

  -- `cron_meter_add_byName` for the meter at the place
  unfoldable pub add_schedule : ℕ → Bytes → MeterSection D E → Reads D (MeterSection D E)
  unfolding cron_find update
  add_schedule place name s = elim (cron_find C (some name) s.schedules) [
    | none ↦ stop
    | some cd ↦ done (record s {
      schedules = update C (some name) (join C place) s.schedules;
      meter = record s.meter {
        has_schedule = if is_named cd then s.meter.has_schedule + 1 else s.meter.has_schedule;
      };
    })
  ]

  -- `type`
  unfoldable pub parse_type : List MeterType → MeterSection D E → Reads D (MeterSection D E)
  unfolding expect_str find_meter_type set_type
  parse_type types s = do
    refuse (not (s.type_conflict == 0))
    refuse (is_given s.meter.meter_type)
    name ← expect_str alloc scan_float
    elim (find_meter_type name types) [
      | none ↦ stop
      | some t ↦ done (with_meter s (set_type t s.meter))
    ]

  -- `name`
  unfoldable pub parse_name : List (Meter D) → MeterSection D E → Reads D (MeterSection D E)
  unfolding expect_str find_meter
  parse_name meters s = do
    refuse (is_given s.meter.name)
    name ← expect_str alloc scan_float
    refuse (is_given (find_meter name meters))
    check_allowed_chars name
    done (with_meter s (record s.meter { name = some name }))

  -- `iname`, `gname` and `hostname`
  unfoldable pub parse_iname : MeterSection D E → Reads D (MeterSection D E)
  unfolding expect_str
  parse_iname s = do
    refuse (is_given s.meter.iname)
    name ← expect_str alloc scan_float
    check_allowed_chars name
    done (with_meter s (record s.meter { iname = some name }))

  unfoldable pub parse_gname : MeterSection D E → Reads D (MeterSection D E)
  unfolding expect_str
  parse_gname s = do
    name ← expect_str alloc scan_float
    refuse (ltb (length name) 1)
    done (with_meter s (record s.meter { gname = some name }))

  unfoldable pub parse_hostname : MeterSection D E → Reads D (MeterSection D E)
  unfolding expect_str
  parse_hostname s = do
    refuse (is_given s.meter.hostname)
    name ← expect_str alloc scan_float
    done (with_meter s (record s.meter { hostname = some name; is_tcp = true }))

  -- the keys of the section that have a number
  unfoldable pub number_key : ℤ → MeterSection D E → Reads D (MeterSection D E)
  unfolding expect_int expect_mult
  number_key tk s =
      let m = s.meter in
      if eqb_ℤ tk tk_influx
      then (expect_int alloc scan_float >>= λ n. done (record s { enable_influx_write = n }))
      else if eqb_ℤ tk tk_mqtt
      then (expect_int alloc scan_float >>= λ n. done (record s { enable_mqtt_write = n }))
      else if eqb_ℤ tk tk_grafana
      then (expect_int alloc scan_float >>= λ n. done (record s { enable_grafana_write = n }))
      else if eqb_ℤ tk tk_id
      then (expect_int alloc scan_float >>= λ n. done (with_meter s (record m { mbus_id = n })))
      else if eqb_ℤ tk tk_influxwritemult
      then (expect_mult alloc scan_float >>= λ n.
          done (conflict s (record m { influx_write_mult = n })))
      else if eqb_ℤ tk tk_mqttqos
      then (expect_int alloc scan_float >>= λ n. done (conflict s (record m { mqtt_qos = n })))
      else if eqb_ℤ tk tk_mqttretain
      then (expect_int alloc scan_float >>= λ n. done (conflict s (record m { mqtt_retain = n })))
      else if eqb_ℤ tk tk_disable
      then (expect_int alloc scan_float >>= λ n. done (with_meter s (record m { disabled = n })))
      else if eqb_ℤ tk tk_address
      then (expect_int alloc scan_float >>= λ n.
          done (with_meter s (record m { mbus_address = to_uint64 n })))
      else stop

  -- the keys of the section; behind a first schedule no comma is accepted
  unfoldable pub meter_key :
      List MeterType → List (Meter D) → ℤ → MeterSection D E → Reads D (MeterSection D E)
  unfolding expect_str add_schedule parse_type parse_name parse_iname parse_gname parse_hostname
      number_key
  meter_key types meters tk s =
      let m = s.meter in
      if eqb_ℤ tk tk_schedule
      then (expect_str alloc scan_float >>= λ name. add_schedule (length meters) name s)
      else if eqb_ℤ tk tk_port
      then (expect_str alloc scan_float >>= λ text.
          done (with_meter s (record m { port = some text })))
      else if eqb_ℤ tk tk_mqttprefix
      then (expect_str alloc scan_float >>= λ text.
          done (conflict s (record m { mqttprefix = some text })))
      else if eqb_ℤ tk tk_measurement
      then (expect_str alloc scan_float >>= λ text.
          done (conflict s (record m { influx_measurement = some text })))
      else if eqb_ℤ tk tk_type
      then parse_type types s
      else if eqb_ℤ tk tk_name
      then parse_name meters s
      else if eqb_ℤ tk tk_iname
      then parse_iname s
      else if eqb_ℤ tk tk_gname
      then parse_gname s
      else if eqb_ℤ tk tk_hostname
      then parse_hostname s
      else number_key tk s

  -- `parseMeter`: the token behind the section, and the schedules and the meters; the address is
  -- unsigned, so that it is not less than 0
  unfoldable pub parse_meter :
      ℕ
      → Bytes
      → ℤ
      → List MeterType
      → List (CronDef E)
      → List (Meter D)
      → Reads D (ℤ × List (CronDef E) × List (Meter D))
  unfolding expect next_token entries parse_formula meter_key finished_meter
  parse_meter fuel mqttprefix influx_write_mult types schedules meters = do
    expect alloc scan_float tk_eol
    tk ← next_token alloc scan_float
    (tk', s) ←
        entries alloc scan_float parse_formula (meter_key types meters) fuel tk
          (new_section influx_write_mult schedules)
    refuse (not (is_given s.meter.name))
    refuse (not (is_given s.meter.meter_type) && has_no_formulas s.meter)
    refuse
        (ltb s.meter.mbus_address 0 && ltb_ℤ s.meter.mbus_id (pos 0) && is_given s.meter.meter_type)
    done (tk', s.schedules, meters ++ finished_meter nought mqttprefix s.meter ∷ [])
