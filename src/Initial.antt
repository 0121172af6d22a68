-- ===== src/Initial.antt =====
-- The query of all meters that the main program makes before its loop: `queryMeters` of
-- mbusread.cpp. `none` is the end of the program, by `exit` or by an assertion of `queryMeter`, or a
-- store behind the array of a variable's name.
pub mod Laws
pub mod Configured
mod Examples
use emmbus2influx.Base.{
  ℕ, suc, ◌+◌, Bool, Option, none, some, List, [], ◌∷◌, map, if◌then◌else◌, Bytes, ℤ, is_zero,
}
use emmbus2influx.Meter.Floats.{Floats}
use emmbus2influx.Meter.Values.{
  set_fvalue_influx_last, set_fvalue_influx, execute_influx_write_calc,
}
use emmbus2influx.Meter.Connections.{Connection}
use emmbus2influx.Meter.Query.{Bus, Formulas, Ended, back, exited, aborted, query_meter}
use emmbus2influx.Meter.{Meter}
use emmbus2influx.Meter.GlobalFormulas.{eval_formulas}
use emmbus2influx.Cron.{Site}

module _ {W Handle Frame D : Type 0} (F : Floats D) (P : Formulas D) (B : Bus W Handle Frame D)
    (serial : Option Handle) where
  -- the body of the first loop: how many meters were queried, and the meter
  unfoldable pub query_one :
      Meter D → List (Connection Handle) → W → Option (ℕ × Meter D × List (Connection Handle) × W)
  unfolding query_meter
  query_one m connections bus =
      if m.is_formula_only
      then some (0, record m { meter_has_been_read = m.meter_has_been_read + 1 }, connections, bus)
      else elim (query_meter F P B serial
          (record { meter = m; connections = connections; bus = bus })) [
            | back r s ↦ some (if is_zero r then 1 else 0, s.meter, s.connections, s.bus)
            | exited ↦ none
            | aborted ↦ none
          ]

  unfoldable pub query_each :
      List (Meter D) → List (Connection Handle) → W → Option (Site W Handle D)
  unfolding query_one
  query_each [] connections bus =
      some (record { count = 0; meters = []; connections = connections; bus = bus })
  query_each (m ∷ rest) connections bus = elim (query_one m connections bus) [
    | none ↦ none
    | some (n, m', connections', bus') ↦ elim (query_each rest connections' bus') [
      | none ↦ none
      | some s ↦ some (record s { count = n + s.count; meters = m' ∷ s.meters })
    ]
  ]

  -- the body of the loop over the meters for the formulas, for the meter at place `i`
  unfoldable pub execute_enabled : ℕ → Meter D → List (Meter D) → Option (List (Meter D))
  unfolding eval_formulas
  execute_enabled i m meters =
      if is_zero m.disabled then eval_formulas P i 0 m.meter_formula meters else some meters

  -- that loop, from place `i` on
  unfoldable pub execute_each : ℕ → List (Meter D) → List (Meter D) → Option (List (Meter D))
  unfolding execute_enabled
  execute_each i [] meters = some meters
  execute_each i (m ∷ rest) meters = elim (execute_enabled i m meters) [
    | none ↦ none
    | some meters' ↦ execute_each (suc i) rest meters'
  ]

  -- the body of the last loop
  unfoldable pub calc : Meter D → Meter D
  unfolding execute_influx_write_calc
  calc m = if is_zero m.disabled then execute_influx_write_calc F m else m

  -- `queryMeters`
  unfoldable pub query_meters : Site W Handle D → Option (Site W Handle D)
  unfolding query_each execute_each calc set_fvalue_influx_last set_fvalue_influx
  query_meters s = elim (query_each (set_fvalue_influx_last F s.meters) s.connections s.bus) [
    | none ↦ none
    | some queried ↦ elim (execute_each 0 queried.meters queried.meters) [
      | none ↦ none
      | some meters ↦ some (record queried { meters = map calc (set_fvalue_influx F meters) })
    ]
  ]
