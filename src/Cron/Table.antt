-- ===== src/Cron/Table.antt =====
-- The table of the schedules: `cron_setDefault`.
use mathlib.Core.List.{append_assoc, append-nil}
use mathlib.Core.Option.{some-injective, some-ne-none}
use emmbus2influx.Base.{
  ℕ, suc, ◌==◌, ◌≡◌, refl, sym, ap, ◌∙◌, true, Option, none, some, List, [], ◌∷◌, ◌++◌, map,
  if◌then◌else◌, Bytes, arith, Bool-cases, inl, inr,
}
use emmbus2influx.Meter.{Meter}
use emmbus2influx.Cron.{
  CronLibrary, CronDef, same_name, cron_find, update, cron_meter_add_by_name, add_default,
  cron_set_default,
}

-- The places, from `i` on, of the meters without a schedule of their own.
unfoldable pub unscheduled : {D : Type 0} → ℕ → List (Meter D) → List ℕ
unscheduled i [] = []
unscheduled i (m ∷ rest) =
    let later = unscheduled (suc i) rest in if m.has_schedule == 0 then i ∷ later else later

-- More members, at the end.
abbrev pub extend : {E : Type 0} → List ℕ → CronDef E → CronDef E
extend is cd = record cd { members = cd.members ++ is }

unnamed : (name : Option Bytes) → same_name name none ≡ true → name ≡ none
unfolding same_name
unnamed none e = refl
unnamed (some n) e = ground arith

module _ {E : Type 0} (C : CronLibrary E) where
  find-same :
      (table : List (CronDef E)) (cd : CronDef E)
      → cron_find C none table ≡ some cd
      → same_name cd.name none ≡ true
  unfolding cron_find
  find-same [] cd h = absurd (some-ne-none cd (sym h))
  find-same (x ∷ table) cd h = elim (Bool-cases (same_name x.name none)) [
    | inl e ↦
        let same = some-injective x cd (rw e at h) in ap (λ c. same_name c.name none) (sym same) ∙ e
    | inr e ↦ find-same table cd (rw e at h)
  ]

  find-extend :
      (is : List ℕ) (table : List (CronDef E)) (cd : CronDef E)
      → cron_find C none table ≡ some cd
      → cron_find C none (update C none (extend is) table) ≡ some (extend is cd)
  unfolding cron_find update
  find-extend is [] cd h = absurd (some-ne-none cd (sym h))
  find-extend is (x ∷ table) cd h = elim (Bool-cases (same_name x.name none)) [
    | inl e ↦ rw (e, e) (ap (λ c. some (extend is c)) (some-injective x cd (rw e at h)))
    | inr e ↦ rw (e, e) (find-extend is table cd (rw e at h))
  ]

  extend-extend :
      (is js : List ℕ) (table : List (CronDef E))
      → update C none (extend js) (update C none (extend is) table)
        ≡ update C none (extend (is ++ js)) table
  unfolding update
  extend-extend is js [] = refl
  extend-extend is js (x ∷ table) = elim (Bool-cases (same_name x.name none)) [
    | inl e ↦ rw (e, e) (λ i. record x { members = append_assoc x.members is js i } ∷ table)
    | inr e ↦ rw (e, e) (ap (◌∷◌ x) (extend-extend is js table))
  ]

  extend-nil : (table : List (CronDef E)) → update C none (extend []) table ≡ table
  unfolding update
  extend-nil [] = refl
  extend-nil (x ∷ table) = elim (Bool-cases (same_name x.name none)) [
    | inl e ↦ rw e (λ i. record x { members = append-nil x.members i } ∷ table)
    | inr e ↦ rw e (ap (◌∷◌ x) (extend-nil table))
  ]

  module _ {D : Type 0} where
    add_by_name-default :
        (i : ℕ) (table : List (CronDef E)) (ms : List (Meter D)) (cd : CronDef E)
        → cron_find C none table ≡ some cd
        → cron_meter_add_by_name C none i (table, ms)
          ≡ some (update C none (extend (i ∷ [])) table, ms)
    unfolding cron_meter_add_by_name
    add_by_name-default i table ms cd h =
        let plain = unnamed cd.name (find-same table cd h) in
        rw (cron_meter_add_by_name, h, plain) refl

    add_default_lem :
        (i : ℕ) (rest : List (Meter D)) (table : List (CronDef E)) (ms : List (Meter D))
        (cd : CronDef E)
        → cron_find C none table ≡ some cd
        → add_default C i rest (table, ms)
          ≡ some (update C none (extend (unscheduled i rest)) table, ms)
    unfolding add_default unscheduled
    add_default_lem i [] table ms cd h = λ j. some (sym (extend-nil table) j, ms)
    add_default_lem i (m ∷ rest) table ms cd h = elim (Bool-cases (m.has_schedule == 0)) [
      | inl e ↦
          rw (add_default, e, add_by_name-default i table ms cd h)
            (add_default_lem (suc i) rest _ ms _ (find-extend (i ∷ []) table cd h) ∙ λ j.
              some (extend-extend (i ∷ []) (unscheduled (suc i) rest) table j, ms))
      | inr e ↦ rw (add_default, e) (add_default_lem (suc i) rest table ms cd h)
    ]

    -- Where there is a default schedule, `cron_setDefault` succeeds: it appends to the members of
    -- that schedule exactly the meters that have no schedule of their own, in their order, leaves
    -- the members of all other schedules and the meters, and sets the time of the next query of
    -- every schedule from its expression.
    pub cron_set_default-Covers :
        (now : ℕ) (table : List (CronDef E)) (ms : List (Meter D)) (cd : CronDef E)
        → cron_find C none table ≡ some cd
        → cron_set_default C now (table, ms)
          ≡ some (
            map
                (λ (x : CronDef E). record x { next_query_time = C.cron_next x.cron_expr now })
                (update C none (extend (unscheduled 0 ms)) table),
            ms,
          )
    unfolding cron_set_default
    cron_set_default-Covers now table ms cd h =
        rw (cron_set_default, add_default_lem 0 ms table ms cd h) refl
