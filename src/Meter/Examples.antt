-- ===== src/Meter/Examples.antt =====
-- Concrete runs of the meters.
use emmbus2influx.Base.{
  true, suc, false, ℕ, ◌+◌, ◌-◌, ◌%◌, ◌^◌, ◌≡◌, refl, some, [], ◌∷◌, map, arith, codes, pos,
  same_text,
}
use mathlib.Core.List.{Memᴰ}
use emmbus2influx.Meter.Connections.Retry.{entry, renew, calls, all_none, calls-Delayed}
use emmbus2influx.Meter.Query.Counts.{Returning, Answered, query_meter-Answered}
use emmbus2influx.Meter.Query.{query_meter}
use emmbus2influx.Meter.Samples.{
  numbers, numbers-IsOrdered, power_meter, unreachable, answering, no_formulas, power_world,
  gateway,
}
use emmbus2influx.Meter.Probe.{Pinger, test_serial_present}
use emmbus2influx.Meter.Probe.Laws.{test_serial_present_lem}
use emmbus2influx.Meter.Window.{Reading, rounds, window}
use emmbus2influx.Meter.Window.Extremes.{IsAbove, IsBelow, window-max, window-min}
use emmbus2influx.Meter.Window.Values.{register_window, formula_window, rounds-windows}
use emmbus2influx.Meter.{pr_max, pr_min}

abbrev reads : ℕ → Reading ℕ
reads v = record { of_register = λ def. v; of_formula = λ name. v }

rounds-windows_example :
    ((rounds numbers (reads 4 ∷ reads 6 ∷ []) power_meter).influx_write_countdown ≡ pos (2 - 1))
    × (map
          (λ rr. rr.fvalue_influx)
          (rounds numbers (reads 4 ∷ reads 6 ∷ []) power_meter).register_read
        ≡ map (register_window numbers (reads 4) (reads 6 ∷ [])) power_meter.register_read)
    × (map
          (λ mf. mf.fvalue_influx)
          (rounds numbers (reads 4 ∷ reads 6 ∷ []) power_meter).meter_formula
        ≡ map (formula_window numbers (reads 4) (reads 6 ∷ [])) power_meter.meter_formula)
rounds-windows_example =
    rounds-windows numbers (reads 4) (reads 6 ∷ []) power_meter 2 refl refl (omega arith)

window-max_example :
    IsAbove numbers numbers-IsOrdered (window numbers pr_max 4 (6 ∷ 5 ∷ [])) (4 ∷ 6 ∷ 5 ∷ [])
    × Memᴰ (window numbers pr_max 4 (6 ∷ 5 ∷ [])) (4 ∷ 6 ∷ 5 ∷ [])
window-max_example = window-max numbers numbers-IsOrdered 4 (6 ∷ 5 ∷ [])

window-min_example :
    IsBelow numbers numbers-IsOrdered (window numbers pr_min 4 (6 ∷ 3 ∷ [])) (4 ∷ 6 ∷ 3 ∷ [])
    × Memᴰ (window numbers pr_min 4 (6 ∷ 3 ∷ [])) (4 ∷ 6 ∷ 3 ∷ [])
window-min_example = window-min numbers numbers-IsOrdered 4 (6 ∷ 3 ∷ [])

query_meter-Answered_example :
    Returning
      (λ r s. Answered ((0 + 1) % 2 ^ 32) 0 r s.meter)
      (query_meter numbers no_formulas answering (some 1) power_world)
query_meter-Answered_example =
    query_meter-Answered numbers no_formulas answering (some 1) power_world refl refl refl
      (omega arith)

entry-gateway : entry unreachable (codes "gw") (codes "502") (gateway ∷ []) ≡ some gateway
unfolding entry same_text
entry-gateway = refl

calls-Delayed_example :
    calls unreachable (codes "gw") (codes "502") 31 (gateway ∷ []) 0
    ≡ some (
      renew unreachable
          (codes "gw")
          (codes "502")
          (record gateway { retry_count = 0 })
          (gateway ∷ []),
      all_none unreachable (codes "gw") (codes "502") 31,
      1,
    )
calls-Delayed_example =
    calls-Delayed unreachable (codes "gw") (codes "502") (gateway ∷ []) gateway 0 entry-gateway refl
      refl refl

-- A bus on which every ping is answered.
abbrev present : Pinger ℕ ℕ ℕ
present = record {
  max_search_retry = λ mb. 2;
  send_ping_frame = λ mb address w. (pos 0, suc w);
  recv_frame = λ mb frame w. (pos 0, 7, w);
  purge_frames = λ mb w. (false, w);
  is_ack = λ frame. true;
  zero_frame = 0;
}

test_serial_present_lem_example : (test_serial_present present 1 (power_meter ∷ []) 0).0 ≡ pos 0
test_serial_present_lem_example = test_serial_present_lem present 1 (power_meter ∷ []) 0
