-- ===== src/Writer/Grafana.antt =====
-- The rows for Grafana: `grafanaAppendData` of emmbus2influx.cpp.
pub mod Row
pub mod Laws
use emmbus2influx.Base.{
  ℕ, zero, suc, ◌+◌, ◌%◌, ◌^◌, ◌||◌, not, Bool, true, false, Option, none, some, List, [], ◌∷◌,
  ◌++◌, take, length, ltb, if◌then◌else◌, Bytes, codes, ℤ, is_zero, Run, ok, fault,
}
use emmbus2influx.Influx.Line.{Arg, meas, field_float, field_integer, timestamp, Line}
use emmbus2influx.Meter.Floats.{Floats}
use emmbus2influx.Meter.{MeterRegisterRead, MeterFormula, Meter}
use emmbus2influx.Writer.{or_else, is_force_int, run_calls}

abbrev pub channel_max_len : ℕ
channel_max_len = 140

module _ {D : Type 0} (F : Floats D) (use_measurement : Bool) (influx_measurement : Bytes) where
  -- `if (strlen(channelName)) strncat(channelName,"/",…)`
  abbrev pub with_slash : Bytes → Bytes
  with_slash [] = []
  with_slash (c ∷ cs) = (c ∷ cs) ++ codes "/"

  abbrev pub channel_prefix : Meter D → Bytes
  channel_prefix m =
      let head = take channel_max_len (or_else m.influx_measurement influx_measurement) in
      if use_measurement then with_slash head else []

  -- what the calls of `strncpy` and `strncat` put together
  abbrev pub channel_name : Meter D → Bytes
  channel_name m = channel_prefix m ++ take channel_max_len (or_else m.gname (or_else m.name []))

  unfoldable pub grafana_register_calls : List (MeterRegisterRead D) → List (List (Arg D))
  grafana_register_calls [] = []
  grafana_register_calls (rr ∷ rest) =
      let def = rr.register_def in
      let field : Arg D =
        if rr.is_int || is_force_int def.force_type
        then field_integer def.name (F.to_int rr.fvalue_influx)
        else field_float def.name rr.fvalue_influx def.decimals in
      let later = grafana_register_calls rest in
      if is_zero def.enable_grafana_write then later else (field ∷ []) ∷ later

  unfoldable pub grafana_formula_calls : List (MeterFormula D) → List (List (Arg D))
  grafana_formula_calls [] = []
  grafana_formula_calls (mf ∷ rest) =
      let field : Arg D =
        if is_force_int mf.force_type
        then field_integer mf.name (F.to_int mf.fvalue_influx)
        else field_float mf.name mf.fvalue_influx mf.decimals in
      let later = grafana_formula_calls rest in
      if is_zero mf.enable_grafana_write then later else (field ∷ []) ∷ later

  unfoldable pub grafana_calls : ℤ → Meter D → List (List (Arg D))
  unfolding grafana_register_calls grafana_formula_calls
  grafana_calls time m =
      grafana_register_calls m.register_read
      ++ (grafana_formula_calls m.meter_formula ++ (timestamp time ∷ []) ∷ [])

  -- `regCount`
  abbrev pub grafana_count : Meter D → ℕ
  grafana_count m = length m.register_read + length (grafana_formula_calls m.meter_formula)

  -- `grafanaAppendData` on the line; `fault` is a name that does not fit its 255 bytes
  unfoldable pub grafana_append_data :
      (ℕ → Bool) → (ℤ → D → Bytes) → ℤ → Meter D → ℤ → Line → Run Line
  unfolding run_calls grafana_calls
  grafana_append_data alloc print_float now m time l =
      let calls = (meas (channel_name m) ∷ []) ∷ grafana_calls time m in
      if not (is_zero m.disabled)
      then ok l
      else if is_zero m.num_enabled_registers_grafana
      then ok l
      else if ltb (length (channel_name m)) 255
      then run_calls F influx_measurement [] alloc print_float now calls l
      else fault

  -- and on the meter, where it does not end the program
  unfoldable pub grafana_counted : Meter D → Meter D
  unfolding grafana_formula_calls
  grafana_counted m = elim (grafana_count m) [
    | zero ↦ m
    | suc n ↦ record m { num_grafana_writes = (m.num_grafana_writes + 1) % 2 ^ 32 }
  ]
