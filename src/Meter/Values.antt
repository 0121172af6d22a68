-- ===== src/Meter/Values.antt =====
-- The values of registers: `applyDevider`, `setRegisterValue`, `setMeterFvalueInfluxLast`,
-- `setMeterFvalueInflux`, their versions for all meters, and `executeInfluxWriteCalc` of
-- mbusread.cpp.
use emmbus2influx.Base.{
  Bool, true, false, Option, none, some, List, [], ◌∷◌, map, if◌then◌else◌, Bytes, ℤ, negsuc, eqb_ℤ,
  is_zero, pred_ℤ, suc_ℤ,
}
use emmbus2influx.Meter.Floats.{Floats}
use emmbus2influx.Meter.{
  TypeForce, force_none, force_int, force_float, InfluxMultProcessing, pr_last, pr_max, pr_min,
  pr_avg, MeterRegisterRead, MeterFormula, Meter,
}

module _ {D : Type 0} (F : Floats D) where
  open F use {less, divide, times, half_sum, of_text}

  -- the switch on `forceType`
  pub forced : TypeForce → Bool → Bool
  forced force_none is_int = is_int
  forced force_int is_int = true
  forced force_float is_int = false

  -- `applyDevider`
  unfoldable pub apply_divider : MeterRegisterRead D → MeterRegisterRead D
  unfolding forced
  apply_divider rr =
      let def = rr.register_def in
      let divided =
        if is_zero def.divider
        then rr
        else record rr { is_int = false; fvalue = divide rr.fvalue def.divider } in
      let multiplied =
        if is_zero def.multiplier
        then divided
        else record divided { fvalue = times divided.fvalue def.multiplier } in
      record multiplied { is_int = forced def.force_type multiplied.is_int }

  -- `setRegisterValue` on the list of registers: the first one with the record number is set
  unfoldable pub set_register_value :
      ℤ → Option Bytes → D → List (MeterRegisterRead D) → List (MeterRegisterRead D)
  unfolding apply_divider
  set_register_value record_number value fvalue [] = []
  set_register_value record_number value fvalue (rr ∷ rest) =
      let given : D = elim value [ none ↦ fvalue | some text ↦ of_text text ] in
      if eqb_ℤ rr.register_def.record_number record_number
      then apply_divider (record rr { fvalue = given }) ∷ rest
      else rr ∷ set_register_value record_number value fvalue rest

  -- the two loops of `setMeterFvalueInfluxLast`
  abbrev pub keep_last : MeterRegisterRead D → MeterRegisterRead D
  keep_last rr = record rr { fvalue_influx_last = rr.fvalue_influx }

  abbrev pub keep_last_formula : MeterFormula D → MeterFormula D
  keep_last_formula mf = record mf { fvalue_influx_last = mf.fvalue_influx }

  unfoldable pub set_meter_fvalue_influx_last : Meter D → Meter D
  set_meter_fvalue_influx_last m = record m {
    register_read = map keep_last m.register_read;
    meter_formula = map keep_last_formula m.meter_formula;
  }

  -- `setfvalueInfluxLast`
  unfoldable pub set_fvalue_influx_last : List (Meter D) → List (Meter D)
  unfolding set_meter_fvalue_influx_last
  set_fvalue_influx_last = map set_meter_fvalue_influx_last

  -- the two loops of `setMeterFvalueInflux`
  abbrev pub take_value : MeterRegisterRead D → MeterRegisterRead D
  take_value rr = record rr { fvalue_influx = rr.fvalue }

  abbrev pub take_formula : MeterFormula D → MeterFormula D
  take_formula mf = record mf { fvalue_influx = mf.fvalue }

  unfoldable pub set_meter_fvalue_influx : Meter D → Meter D
  set_meter_fvalue_influx m = record m {
    register_read = map take_value m.register_read;
    meter_formula = map take_formula m.meter_formula;
  }

  -- `setfvalueInflux`
  unfoldable pub set_fvalue_influx : List (Meter D) → List (Meter D)
  unfolding set_meter_fvalue_influx
  set_fvalue_influx = map set_meter_fvalue_influx

  -- the switch on `influxMultProcessing`: the value that was read and the one kept from before
  unfoldable pub mult_process : InfluxMultProcessing → D → D → D
  mult_process pr_last value last = value
  mult_process pr_max value last = if less value last then last else value
  mult_process pr_min value last = if less last value then last else value
  mult_process pr_avg value last = half_sum value last

  abbrev pub process_register : MeterRegisterRead D → MeterRegisterRead D
  process_register rr = record rr {
    fvalue_influx =
        mult_process rr.register_def.influx_mult_processing rr.fvalue_influx rr.fvalue_influx_last;
  }

  abbrev pub process_formula : MeterFormula D → MeterFormula D
  process_formula mf = record mf {
    fvalue_influx = mult_process mf.influx_mult_processing mf.fvalue_influx mf.fvalue_influx_last;
  }

  -- `executeInfluxWriteCalc` behind its early returns
  pub count_and_process : Meter D → Meter D
  count_and_process m =
      let countdown =
        if is_zero m.influx_write_countdown
        then m.influx_write_mult
        else m.influx_write_countdown in
      record m {
        influx_write_countdown = pred_ℤ countdown;
        register_read = map process_register m.register_read;
        meter_formula = map process_formula m.meter_formula;
      }

  -- `executeInfluxWriteCalc`
  unfoldable pub execute_influx_write_calc : Meter D → Meter D
  unfolding count_and_process
  execute_influx_write_calc m =
      if is_zero m.influx_write_mult
      then m
      else if eqb_ℤ m.influx_write_countdown m.influx_write_mult
      then record m { influx_write_countdown = pred_ℤ m.influx_write_countdown }
      else if eqb_ℤ m.influx_write_countdown (negsuc 0)
      then record m { influx_write_countdown = suc_ℤ m.influx_write_countdown }
      else count_and_process m
