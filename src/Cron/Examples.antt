-- ===== src/Cron/Examples.antt =====
-- Concrete runs of the schedules: two meters, of which the first is a member of a schedule that is
-- due.
use emmbus2influx.Base.{
  ℕ, suc, ◌+◌, ◌≡◌, refl, Option, none, some, List, [], ◌∷◌, map, get_elem?, arith, if◌then◌else◌,
  codes, is_zero, inr,
}
use emmbus2influx.Cron.{
  CronLibrary, CronDef, cron_find, update, cron_set_default, cron_is_due, mark_due, reset, Site,
  same_name, cron_query_meters,
}
use emmbus2influx.Cron.Marks.{due_times, mark_due-Counts}
use emmbus2influx.Cron.Skipped.{Stays, cron_query_meters-Skips}
use emmbus2influx.Cron.Table.{unscheduled, extend, cron_set_default-Covers}
use emmbus2influx.Cron.Times.{IsAhead, cron_query_meters-IsAhead}
use emmbus2influx.Meter.Samples.{numbers, power_meter, answering, no_formulas}
use emmbus2influx.Meter.Values.{set_meter_fvalue_influx_last}
use emmbus2influx.Meter.GlobalFormulas.Laws.{Has}
use emmbus2influx.Meter.{Meter}

-- A schedule is the number of seconds between two queries.
abbrev every : CronLibrary ℕ
every = record { cron_parse_expr = λ text. some 9; cron_next = λ e t. suc (t + e) }

abbrev default_schedule : CronDef ℕ
default_schedule = record {
  name = none;
  members = 0 ∷ [];
  cron_expression = codes "x";
  cron_expr = 9;
  next_query_time = 3;
}

default_found : cron_find every none (default_schedule ∷ []) ≡ some default_schedule
unfolding cron_find same_name
default_found = refl

abbrev two_meters : List (Meter ℕ)
two_meters = power_meter ∷ power_meter ∷ []

cron_set_default-Covers_example :
    cron_set_default every 4 (default_schedule ∷ [], two_meters)
    ≡ some (
      map
          (λ (x : CronDef ℕ). record x { next_query_time = suc (4 + x.cron_expr) })
          (update every none (extend (unscheduled 0 two_meters)) (default_schedule ∷ [])),
      two_meters,
    )
cron_set_default-Covers_example =
    cron_set_default-Covers every 4 (default_schedule ∷ []) two_meters default_schedule
      default_found

mark_due-Counts_example :
    (m' : Meter ℕ) × (get_elem?
        (mark_due numbers every 4 (default_schedule ∷ []) (map reset two_meters))
        0
      ≡ some m')
    × (m'.is_due ≡ (
        if is_zero power_meter.disabled
        then due_times numbers every 4 0 (default_schedule ∷ [])
        else 0))
mark_due-Counts_example =
    mark_due-Counts numbers every 4 0 (default_schedule ∷ []) two_meters power_meter refl

abbrev site : Site ℕ ℕ ℕ
site = record { count = 0; meters = two_meters; connections = []; bus = 0 }

abbrev result : Option (List (CronDef ℕ) × Site ℕ ℕ ℕ)
result =
    cron_query_meters numbers no_formulas answering (some 1) every 4 (default_schedule ∷ []) site

abbrev or_else : Option (List (CronDef ℕ) × Site ℕ ℕ ℕ) → List (CronDef ℕ) × Site ℕ ℕ ℕ
or_else none = ([], site)
or_else (some r) = r

ends : result ≡ some (or_else result)
unfolding cron_query_meters set_meter_fvalue_influx_last
ends = refl

not_member : due_times numbers every 4 1 (default_schedule ∷ []) ≡ 0
unfolding due_times cron_is_due
not_member = refl

cron_query_meters-Skips_example : Has (Stays (reset power_meter)) 1 (or_else result).1.meters
cron_query_meters-Skips_example =
    cron_query_meters-Skips numbers no_formulas answering (some 1) every 4 (default_schedule ∷ [])
      (or_else result).0 site (or_else result).1 1 power_meter ends refl (inr not_member)

cron_query_meters-IsAhead_example :
    (cd : CronDef ℕ) × (get_elem? (or_else result).0 0 ≡ some cd)
    × IsAhead every 4 default_schedule cd
cron_query_meters-IsAhead_example =
    cron_query_meters-IsAhead numbers no_formulas answering (some 1) every 4 (default_schedule ∷ [])
      (or_else result).0 site (or_else result).1 0 default_schedule (λ e t. omega arith) ends refl
