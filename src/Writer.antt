-- ===== src/Writer.antt =====
-- The rows for InfluxDB that are made of the values of a meter: `influxAppendData` of
-- emmbus2influx.cpp, and the part of its main loop that appends the rows of the meters that are to
-- be written.
pub mod Row
pub mod Laws
pub mod Batch
pub mod Grafana
pub mod Mqtt
mod Examples
use emmbus2influx.Base.{
  ℕ, ◌==◌, ◌&&◌, ◌||◌, not, Bool, true, false, Option, none, some, List, [], ◌∷◌, ◌++◌, map,
  if◌then◌else◌, Bytes, ℤ, pos, is_zero, Run, ok, ret, fault, ◌>>=◌,
}
use emmbus2influx.Influx.Line.{
  Arg, meas, tag, field_float, field_integer, timestamp, Line, format_line,
}
use emmbus2influx.Meter.Floats.{Floats}
use emmbus2influx.Meter.{
  TypeForce, force_none, force_int, force_float, MeterRegisterRead, MeterFormula, Meter,
}

abbrev pub or_else : Option Bytes → Bytes → Bytes
or_else none text = text
or_else (some own) text = own

abbrev pub is_force_int : TypeForce → Bool
is_force_int force_none = false
is_force_int force_int = true
is_force_int force_float = false

-- whether the main loop writes the meter
abbrev pub is_to_write : {D : Type 0} → Meter D → Bool
is_to_write m = not (m.meter_has_been_read == 0) && is_zero m.influx_write_countdown

-- what that loop makes of a meter: the countdown begins again
unfoldable pub written : {D : Type 0} → Meter D → Meter D
written m = if is_to_write m then record m { influx_write_countdown = m.influx_write_mult } else m

module _ {D : Type 0} (F : Floats D) (influx_measurement influx_tag_name : Bytes) where
  -- the call for a register: none if it is not enabled
  unfoldable pub register_call : MeterRegisterRead D → List (List (Arg D))
  register_call rr =
      let def = rr.register_def in
      let field : Arg D =
        if rr.is_int || is_force_int def.force_type
        then field_integer def.name (F.to_int rr.fvalue_influx)
        else field_float def.name rr.fvalue_influx def.decimals in
      if is_zero def.enable_influx_write then [] else (field ∷ []) ∷ []

  unfoldable pub register_calls : List (MeterRegisterRead D) → List (List (Arg D))
  unfolding register_call
  register_calls [] = []
  register_calls (rr ∷ rest) = register_call rr ++ register_calls rest

  -- the call for a formula, whether or not it is enabled
  unfoldable pub formula_call : MeterFormula D → List (Arg D)
  formula_call mf =
      (if is_force_int mf.force_type
        then field_integer mf.name (F.to_int mf.fvalue_influx)
        else field_float mf.name mf.fvalue_influx mf.decimals)
      ∷ []

  abbrev pub first_call : Meter D → List (Arg D)
  first_call m =
      let name = or_else m.name [] in
      meas (or_else m.influx_measurement influx_measurement)
      ∷ tag (or_else m.influx_tag_name influx_tag_name) (or_else m.iname name)
      ∷ []

  -- the calls of `influxdb_format_line` behind the first one
  unfoldable pub later_calls : ℤ → Meter D → List (List (Arg D))
  unfolding register_calls formula_call
  later_calls time m =
      register_calls m.register_read
      ++ (map formula_call m.meter_formula ++ (timestamp time ∷ []) ∷ [])

  -- one call after the other; a code below 0 ends the program
  unfoldable pub run_calls :
      (ℕ → Bool) → (ℤ → D → Bytes) → ℤ → List (List (Arg D)) → Line → Run Line
  unfolding format_line
  run_calls alloc print_float now [] l = ok l
  run_calls alloc print_float now (call ∷ calls) l =
      format_line alloc print_float now call l >>= run_calls alloc print_float now calls

  -- `influxAppendData`; `ret` is the `exit(1)` behind a call that fails
  unfoldable pub influx_append_data :
      (ℕ → Bool) → (ℤ → D → Bytes) → ℤ → Meter D → ℤ → Line → Run Line
  unfolding run_calls later_calls
  influx_append_data alloc print_float now m time l =
      if not (is_zero m.disabled)
      then ok l
      else if is_zero m.num_enabled_registers_influx
      then ok l
      else run_calls alloc print_float now (first_call m ∷ later_calls time m) l

  -- the loop over the meters in the main loop
  unfoldable pub append_rows :
      (ℕ → Bool) → (ℤ → D → Bytes) → ℤ → List (Meter D) → ℤ → Line → Run Line
  unfolding influx_append_data
  append_rows alloc print_float now [] time l = ok l
  append_rows alloc print_float now (m ∷ rest) time l =
      (if is_to_write m then influx_append_data alloc print_float now m time l else ok l)
      >>= append_rows alloc print_float now rest time
