-- ===== src/Config/Schedules/Laws.antt =====
-- A section for schedules ends, and keeps what every `cron_add` keeps.
use emmbus2influx.Base.{
  ℕ, ◌<◌, ◌≡◌, refl, Bool, true, Option, none, some, List, elim_cases, if_either, Bytes, ℤ, eqb_ℤ,
  arith,
}
use emmbus2influx.Cron.{CronLibrary, CronDef, cron_add}
use emmbus2influx.Config.Lexer.{tk_eol, Parser}
use emmbus2influx.Config.Lexer.Branches.{size, IsTable, Leaves}
use emmbus2influx.Config.Keys.{tk_default}
use emmbus2influx.Config.Expect.Laws.{
  Ends, Within, Keeps, Any, Ends-bind, Ends-weaken, Keeps-bind, done-Keeps, stop-Keeps,
  next_token-Ends, expect-Ends, expect_str-Keeps, left-Leaves,
}
use emmbus2influx.Config.Section.Laws.{LineRead, Section, ends_section, entries-Ends}
use emmbus2influx.Config.Schedules.{insert_schedule, parse_schedule, schedule_key, parse_cron}

-- What a section for schedules leaves of `n`, and that it keeps a property of them.
abbrev pub SchedulesRead :
    {D E : Type 0} → (List (CronDef E) → Type 0) → ℕ → ℤ × List (CronDef E) → Parser D → Type 0
SchedulesRead P n o pa = IsTable pa.tokens × (size pa < n) × (ends_section o.0 ≡ true) × P o.1

module _ {D E : Type 0} (alloc : ℕ → Bool) (scan_float : Bytes → Option D) (C : CronLibrary E)
    (P : List (CronDef E) → Type 0)
    (adds : (name : Option Bytes) (text : Bytes) (table table' : List (CronDef E))
      → P table
      → cron_add C name text table ≡ some table'
      → P table') where
  insert_schedule-Keeps :
      (name : Option Bytes) (text : Bytes) (table : List (CronDef E))
      → P table
      → Keeps P (insert_schedule alloc scan_float C name text table)
  unfolding insert_schedule
  insert_schedule-Keeps name text table ok =
      elim_cases (Keeps {D = D} P) (cron_add C name text table) _ _ (λ e. stop-Keeps P)
        (λ table' e. done-Keeps P table' (adds name text table table' ok e))

  parse_schedule-Ends :
      (fuel n : ℕ) (table : List (CronDef E)) (pa : Parser D)
      → Within n pa
      → n < fuel
      → P table
      → Ends (LineRead P n) (parse_schedule alloc scan_float C fuel table pa)
  unfolding parse_schedule
  parse_schedule-Ends fuel n table pa w f ok =
      Ends-bind (λ text pa1. Within n pa1 × Any text) (LineRead P n) _ _
        ((expect_str-Keeps alloc scan_float).run n pa w)
        (λ text pa1 (w1, v1).
          Ends-bind (λ table' pa2. Within n pa2 × P table') (LineRead P n) _ _
            ((insert_schedule-Keeps (some pa.str_val) text table ok).run n pa1 w1)
            (λ table' pa2 (w2, ok'). ((w2.0, w2.1, λ s. cc), ok')))

  schedule_key-Keeps :
      (tk : ℤ) (table : List (CronDef E))
      → P table
      → Keeps P (schedule_key alloc scan_float C tk table)
  unfolding schedule_key
  schedule_key-Keeps tk table ok =
      if_either (Keeps {D = D} P) (eqb_ℤ tk tk_default) _ _
        (Keeps-bind Any P _ _ (expect_str-Keeps alloc scan_float)
          (λ text v. insert_schedule-Keeps none text table ok))
        (stop-Keeps P)

  pub parse_cron-Ends :
      (fuel : ℕ) (table : List (CronDef E)) (pa : Parser D)
      → IsTable pa.tokens
      → size pa < fuel
      → P table
      → Ends (SchedulesRead P (size pa)) (parse_cron alloc scan_float C fuel table pa)
  unfolding parse_cron
  parse_cron-Ends fuel table pa t f ok =
      let Q = SchedulesRead {D = D} {E = E} P (size pa) in
      Ends-bind (λ u pa1. Leaves (size pa) tk_eol pa1) Q _ _
        (expect-Ends alloc scan_float tk_eol (size pa) pa (t, omega arith))
        (λ u pa1 (t1, l1, less1).
          Ends-bind (Leaves (size pa1)) Q _ _
            (next_token-Ends alloc scan_float (size pa1) pa1 (t1, omega arith))
            (λ tk pa2 l2.
              let smaller : size pa1 < size pa = less1 refl in
              Ends-weaken (Section P (size pa1)) Q _
                (entries-Ends alloc scan_float P (parse_schedule alloc scan_float C)
                  (schedule_key alloc scan_float C) parse_schedule-Ends schedule_key-Keeps fuel
                  (size pa1) tk table pa2 l2.0 (left-Leaves (size pa1) tk pa2 l2) (omega arith) ok)
                (λ o pa3 ((t3, l3), end, ok'). (t3, omega arith, end, ok'))))
