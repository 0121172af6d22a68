-- ===== src/Cron/Times.antt =====
-- The times of the next queries that `cron_queryMeters` sets.
use mathlib.Core.Option.{some-injective}
use emmbus2influx.Base.{
  ℕ, ◌<◌, ◌≡◌, ◌≢◌, refl, sym, ap, ◌∙◌, false, Option, some, List, [], ◌∷◌, map, get_elem?,
  get_elem?-map, leb, if◌then◌else◌, arith, bind-some, Bool-cases, inl, inr,
}
use emmbus2influx.Meter.Floats.{Floats}
use emmbus2influx.Meter.Query.{Bus, Formulas}
use emmbus2influx.Cron.{
  CronLibrary, CronDef, cron_is_due, reschedule, mark_due, reset, Site, query_all,
  execute_all_formulas, cron_query_meters,
}

module _ {E : Type 0} (C : CronLibrary E) where
  -- A schedule that differs in the time of its next query at most: this is after `now` if the
  -- schedule has members, and the same if it has none.
  abbrev pub IsAhead : ℕ → CronDef E → CronDef E → Type 0
  IsAhead now cd cd' =
      (cd' ≡ record cd { next_query_time = cd'.next_query_time })
      × (cd.members ≢ [] → now < cd'.next_query_time)
      × (cd.members ≡ [] → cd'.next_query_time ≡ cd.next_query_time)

  after : (now t : ℕ) → leb t now ≡ false → now < t
  after now t h = ground arith

  reschedule-IsAhead :
      (now : ℕ) (cd : CronDef E)
      → ((e : E) (t : ℕ) → t < C.cron_next e t)
      → IsAhead now cd (reschedule C now cd)
  unfolding reschedule cron_is_due
  reschedule-IsAhead now cd later = go cd.members refl
    where
      go :
          (is : List ℕ)
          → cd.members ≡ is
          → IsAhead now cd (elim is [
            | [] ↦ cd
            | i ∷ is ↦
                if cron_is_due C now cd
                then record cd { next_query_time = C.cron_next cd.cron_expr now }
                else cd
          ])
      go [] e = (refl, λ some_member. absurd (some_member e), λ _. refl)
      go (i ∷ is) e = elim (Bool-cases (cron_is_due C now cd)) [
        | inl due ↦ rw due (refl, λ _. later cd.cron_expr now, λ none_there. cc)
        | inr ahead ↦ rw ahead (refl, λ _. after now cd.next_query_time ahead, λ _. refl)
      ]

module _ {W Handle Frame D E : Type 0} (F : Floats D) (P : Formulas D) (B : Bus W Handle Frame D)
    (serial : Option Handle) (C : CronLibrary E) where
  -- Let `cron_next` give a time after the one it is given, and let `cron_queryMeters` run to its end
  -- at the time `now`. Every schedule is then in its place and as it was, but for the time of its
  -- next query: with members, this is after `now`, so that the schedule is not due any more;
  -- without members, it is the same.
  pub cron_query_meters-IsAhead :
      (now : ℕ) (table table' : List (CronDef E)) (s s' : Site W Handle D) (i : ℕ) (cd : CronDef E)
      → ((e : E) (t : ℕ) → t < C.cron_next e t)
      → cron_query_meters F P B serial C now table s ≡ some (table', s')
      → get_elem? table i ≡ some cd
      → (cd' : CronDef E) × (get_elem? table' i ≡ some cd') × IsAhead C now cd cd'
  unfolding cron_query_meters
  cron_query_meters-IsAhead now table table' s s' i cd later q h =
      let due = mark_due F C now table (map reset s.meters) in
      let (q1, e1, r1) = bind-some (query_all F P B serial C due s.connections s.bus) _ _ q in
      let (ms, e2, r2) =
        bind-some (execute_all_formulas F P B serial C 0 q1.meters q1.meters) _ _ r1 in
      let same = ap (λ r. r.0) (some-injective _ _ r2) in
      (
        reschedule C now cd,
        ap (λ t. get_elem? t i) (sym same) ∙ get_elem?-map (reschedule C now) table i cd h,
        reschedule-IsAhead C now cd later,
      )
