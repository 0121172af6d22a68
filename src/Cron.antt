-- ===== src/Cron.antt =====
-- The schedules of the meters: cron.cpp. A meter is its place in the list of meters. The functions
-- of ccronexpr are the fields of `CronLibrary`; the time is the number of seconds. `none` is the end
-- of the program, by `exit` or by an assertion of `queryMeter`, or a store behind the array of a
-- variable's name.
pub mod Table
pub mod Times
pub mod Marks
pub mod Skipped
mod Examples
use emmbus2influx.Base.{
  ℕ, zero, suc, ◌+◌, ◌==◌, ◌&&◌, not, Bool, true, false, Option, none, some, List, [], ◌∷◌, ◌++◌,
  map, leb, if◌then◌else◌, Bytes, codes, same_text, ℤ, is_zero,
}
use emmbus2influx.Meter.Floats.{Floats}
use emmbus2influx.Meter.Values.{
  set_meter_fvalue_influx_last, set_meter_fvalue_influx, execute_influx_write_calc,
}
use emmbus2influx.Meter.Connections.{Connection}
use emmbus2influx.Meter.Query.{Bus, Formulas, Ended, back, exited, aborted, World, query_meter}
use emmbus2influx.Meter.Places.{modify_at}
use emmbus2influx.Meter.GlobalFormulas.{eval_formulas}
use emmbus2influx.Meter.{Meter}

-- what the program calls of ccronexpr; `E` is `cron_expr`
pub record CronLibrary (E : Type 0) : Type 0 where
  -- `none` where it gives an error text
  pub cron_parse_expr : Bytes → Option E
  pub cron_next : E → ℕ → ℕ

-- `cronDef_t`, with its list of `cronMember_t`
pub record CronDef (E : Type 0) : Type 0 where
  pub name : Option Bytes
  pub members : List ℕ
  pub cron_expression : Bytes
  pub cron_expr : E
  pub next_query_time : ℕ

-- both null, or equal strings
unfoldable pub same_name : Option Bytes → Option Bytes → Bool
same_name none none = true
same_name none (some b) = false
same_name (some a) none = false
same_name (some a) (some b) = same_text a b

abbrev pub is_named : {E : Type 0} → CronDef E → Bool
is_named cd = elim cd.name [ none ↦ false | some n ↦ true ]

module _ {E : Type 0} (C : CronLibrary E) where
  -- `cron_find`
  unfoldable pub cron_find : Option Bytes → List (CronDef E) → Option (CronDef E)
  unfolding same_name
  cron_find name [] = none
  cron_find name (cd ∷ rest) = if same_name cd.name name then some cd else cron_find name rest

  -- the assignments through the pointer that `cron_find` gives
  unfoldable pub update :
      Option Bytes → (CronDef E → CronDef E) → List (CronDef E) → List (CronDef E)
  unfolding same_name
  update name f [] = []
  update name f (cd ∷ rest) =
      if same_name cd.name name then f cd ∷ rest else cd ∷ update name f rest

  abbrev pub new_cron_def : Option Bytes → Bytes → E → CronDef E
  new_cron_def name text expr = record {
    name = name;
    members = [];
    cron_expression = text;
    cron_expr = expr;
    next_query_time = 0;
  }

  -- `cron_add`
  unfoldable pub cron_add : Option Bytes → Bytes → List (CronDef E) → Option (List (CronDef E))
  unfolding cron_find update
  cron_add name text table =
      let parsed = C.cron_parse_expr text in
      elim (cron_find name table) [
        | none ↦ elim parsed [
          | none ↦ none
          | some expr ↦ some (table ++ new_cron_def name text expr ∷ [])
        ]
        | some found ↦ elim name [
          | some n ↦ none
          | none ↦ elim parsed [
            | none ↦ none
            | some expr ↦
                some
                  (update none (λ cd. record cd { cron_expression = text; cron_expr = expr }) table)
          ]
        ]
      ]

  -- `cron_is_due`
  unfoldable pub cron_is_due : ℕ → CronDef E → Bool
  cron_is_due curr_time cd = leb cd.next_query_time curr_time

  abbrev pub join : ℕ → CronDef E → CronDef E
  join i cd = record cd { members = cd.members ++ i ∷ [] }

  -- the time of the next query of a schedule with members that is due
  unfoldable pub reschedule : ℕ → CronDef E → CronDef E
  unfolding cron_is_due
  reschedule now cd = elim cd.members [
    | [] ↦ cd
    | i ∷ is ↦
        if cron_is_due now cd
        then record cd { next_query_time = C.cron_next cd.cron_expr now }
        else cd
  ]

module _ {D E : Type 0} (C : CronLibrary E) where
  -- `cron_meter_add_byName` with `cron_meter_add`; the schedules and the meters
  unfoldable pub cron_meter_add_by_name :
      Option Bytes
      → ℕ
      → List (CronDef E) × List (Meter D)
      → Option (List (CronDef E) × List (Meter D))
  unfolding cron_find update
  cron_meter_add_by_name name i (table, meters) = elim (cron_find C name table) [
    | none ↦ none
    | some cd ↦ some (
      update C name (join C i) table,
      if is_named cd
          then modify_at i (λ m. record m { has_schedule = m.has_schedule + 1 }) meters
          else meters,
    )
  ]

  -- the first loop of `cron_setDefault`, for the meters from place `i` on
  unfoldable pub add_default :
      ℕ
      → List (Meter D)
      → List (CronDef E) × List (Meter D)
      → Option (List (CronDef E) × List (Meter D))
  unfolding cron_meter_add_by_name
  add_default i [] s = some s
  add_default i (m ∷ rest) s =
      let added = if m.has_schedule == 0 then cron_meter_add_by_name none i s else some s in
      elim added [ none ↦ none | some s' ↦ add_default (suc i) rest s' ]

  -- `cron_setDefault`
  unfoldable pub cron_set_default :
      ℕ → List (CronDef E) × List (Meter D) → Option (List (CronDef E) × List (Meter D))
  unfolding add_default
  cron_set_default curr_time (table, meters) =
      let next : CronDef E → CronDef E =
        λ cd. record cd { next_query_time = C.cron_next cd.cron_expr curr_time } in
      elim (add_default 0 meters (table, meters)) [
        | none ↦ none
        | some (table', meters') ↦ some (map next table', meters')
      ]

module _ {D E : Type 0} (F : Floats D) (C : CronLibrary E) where
  -- the body of the loop over the members of a schedule that is due
  unfoldable pub mark : Meter D → Meter D
  mark m =
      if is_zero m.disabled
      then record (set_meter_fvalue_influx_last F m) { is_due = m.is_due + 1 }
      else m

  unfoldable pub mark_members : List ℕ → List (Meter D) → List (Meter D)
  unfolding mark
  mark_members [] meters = meters
  mark_members (i ∷ rest) meters = mark_members rest (modify_at i mark meters)

  -- the loop over the schedules
  unfoldable pub mark_due : ℕ → List (CronDef E) → List (Meter D) → List (Meter D)
  unfolding mark_members cron_is_due
  mark_due now [] meters = meters
  mark_due now (cd ∷ rest) meters =
      mark_due now rest (if cron_is_due C now cd then mark_members cd.members meters else meters)

-- the first loop of `cron_queryMeters`
abbrev pub reset : {D : Type 0} → Meter D → Meter D
reset m = record m { meter_has_been_read = 0; is_due = 0 }

-- what goes through the loops of `cron_queryMeters`
pub record Site (W Handle D : Type 0) : Type 0 where
  pub count : ℕ
  pub meters : List (Meter D)
  pub connections : List (Connection Handle)
  pub bus : W

module _ {W Handle Frame D E : Type 0} (F : Floats D) (P : Formulas D) (B : Bus W Handle Frame D)
    (serial : Option Handle) (C : CronLibrary E) where
  -- the body of the query loop: how many meters were queried, and the meter
  unfoldable pub query_due :
      Meter D → List (Connection Handle) → W → Option (ℕ × Meter D × List (Connection Handle) × W)
  unfolding query_meter
  query_due m connections bus =
      if m.is_due == 0
      then some (0, m, connections, bus)
      else elim (query_meter F P B serial
          (record { meter = m; connections = connections; bus = bus })) [
            | back r s ↦ some (if is_zero r then 1 else 0, s.meter, s.connections, s.bus)
            | exited ↦ none
            | aborted ↦ none
          ]

  -- the query loop
  unfoldable pub query_all :
      List (Meter D) → List (Connection Handle) → W → Option (Site W Handle D)
  unfolding query_due
  query_all [] connections bus =
      some (record { count = 0; meters = []; connections = connections; bus = bus })
  query_all (m ∷ rest) connections bus = elim (query_due m connections bus) [
    | none ↦ none
    | some (n, m', connections', bus') ↦ elim (query_all rest connections' bus') [
      | none ↦ none
      | some s ↦ some (record s { count = n + s.count; meters = m' ∷ s.meters })
    ]
  ]

  -- the body of the loop over the meters for the formulas, for the meter at place `i`
  unfoldable pub execute_meter_formulas : ℕ → Meter D → List (Meter D) → Option (List (Meter D))
  unfolding eval_formulas
  execute_meter_formulas i m meters =
      if is_zero m.disabled && not (m.meter_has_been_read == 0)
      then eval_formulas P i 0 m.meter_formula meters
      else some meters

  -- that loop, from place `i` on
  unfoldable pub execute_all_formulas :
      ℕ → List (Meter D) → List (Meter D) → Option (List (Meter D))
  unfolding execute_meter_formulas
  execute_all_formulas i [] meters = some meters
  execute_all_formulas i (m ∷ rest) meters = elim (execute_meter_formulas i m meters) [
    | none ↦ none
    | some meters' ↦ execute_all_formulas (suc i) rest meters'
  ]

  -- the body of the last loop
  unfoldable pub count_write : Meter D → Meter D
  unfolding execute_influx_write_calc set_meter_fvalue_influx
  count_write m =
      if is_zero m.disabled && not (m.meter_has_been_read == 0)
      then execute_influx_write_calc F (set_meter_fvalue_influx F m)
      else m

  -- `cron_queryMeters`
  unfoldable pub cron_query_meters :
      ℕ → List (CronDef E) → Site W Handle D → Option (List (CronDef E) × Site W Handle D)
  unfolding mark_due reschedule query_all execute_all_formulas count_write
  cron_query_meters now table s =
      let due = mark_due F C now table (map reset s.meters) in
      elim (query_all due s.connections s.bus) [
        | none ↦ none
        | some queried ↦ elim (execute_all_formulas 0 queried.meters queried.meters) [
          | none ↦ none
          | some meters ↦
              some
                (map (reschedule C now) table, record queried { meters = map count_write meters })
        ]
      ]
