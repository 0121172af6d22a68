-- ===== src/Cron/Marks.antt =====
-- Which meters `cron_queryMeters` marks as due, and how often.
use emmbus2influx.Base.{
  ℕ, zero, suc, ◌+◌, ◌==◌, ◌≡◌, refl, ap, ◌∙◌, true, false, some, List, [], ◌∷◌, map, get_elem?,
  get_elem?-map, if◌then◌else◌, is_zero, arith, Bool-cases, inl, inr,
}
use emmbus2influx.Meter.Floats.{Floats}
use emmbus2influx.Meter.Values.{set_meter_fvalue_influx_last}
use emmbus2influx.Meter.{Meter}
use emmbus2influx.Meter.Places.{get_elem?-modify_at}
use emmbus2influx.Cron.{CronLibrary, CronDef, cron_is_due, mark, mark_members, mark_due, reset}

-- How often a place is among the members.
abbrev pub times : ℕ → List ℕ → ℕ
times i [] = 0
times i (j ∷ js) = if j == i then suc (times i js) else times i js

module _ {D E : Type 0} (F : Floats D) (C : CronLibrary E) where
  -- How often a place is among the members of the schedules that are due.
  unfoldable pub due_times : ℕ → ℕ → List (CronDef E) → ℕ
  due_times now i [] = 0
  due_times now i (cd ∷ rest) =
      let later = due_times now i rest in
      if cron_is_due C now cd then times i cd.members + later else later

  unfoldable pub marked : ℕ → Meter D → Meter D
  marked zero m = m
  marked (suc k) m = marked k (mark F C m)

  again : (a b : ℕ) (m : Meter D) → a ≡ b → marked a m ≡ marked b m
  again a b m e = λ i. marked (e i) m

  marked-add : (a b : ℕ) (m : Meter D) → marked b (marked a m) ≡ marked (a + b) m
  unfolding marked
  marked-add zero b m = again b (0 + b) m (omega arith)
  marked-add (suc a) b m =
      marked-add a b (mark F C m) ∙ again (suc (a + b)) (suc a + b) m (omega arith)

  zero_plus : (k : ℕ) → 0 + k ≡ k
  zero_plus k = omega arith

  mark_members-Marked :
      (i : ℕ) (is : List ℕ) (ms : List (Meter D)) (m : Meter D)
      → get_elem? ms i ≡ some m
      → get_elem? (mark_members F C is ms) i ≡ some (marked (times i is) m)
  unfolding mark_members marked
  mark_members-Marked i [] ms m h = h
  mark_members-Marked i (j ∷ js) ms m h = elim (Bool-cases (j == i)) [
    | inl e ↦
        rw e (mark_members-Marked i js _ _ (rw e at (get_elem?-modify_at (mark F C) j i ms m h)))
    | inr e ↦
        rw e (mark_members-Marked i js _ _ (rw e at (get_elem?-modify_at (mark F C) j i ms m h)))
  ]

  pub mark_due-Marked :
      (now i : ℕ) (table : List (CronDef E)) (ms : List (Meter D)) (m : Meter D)
      → get_elem? ms i ≡ some m
      → get_elem? (mark_due F C now table ms) i ≡ some (marked (due_times now i table) m)
  unfolding mark_due due_times marked
  mark_due-Marked now i [] ms m h = h
  mark_due-Marked now i (cd ∷ rest) ms m h = elim (Bool-cases (cron_is_due C now cd)) [
    | inl e ↦ rw e (
        mark_due-Marked now i rest _ _ (mark_members-Marked i cd.members ms m h)
        ∙ ap some (marked-add (times i cd.members) (due_times now i rest) m))
    | inr e ↦ rw e (mark_due-Marked now i rest ms m h)
  ]

  pub marked-disabled : (k : ℕ) (m : Meter D) → is_zero m.disabled ≡ false → marked k m ≡ m
  unfolding marked mark
  marked-disabled zero m d = refl
  marked-disabled (suc k) m d = rw d (marked-disabled k m d)

  mark-enabled :
      (m : Meter D)
      → is_zero m.disabled ≡ true
      → mark F C m ≡ record (set_meter_fvalue_influx_last F m) { is_due = m.is_due + 1 }
  unfolding mark
  mark-enabled m d = rw d refl

  marked-enabled :
      (k : ℕ) (m : Meter D) → is_zero m.disabled ≡ true → (marked k m).is_due ≡ m.is_due + k
  unfolding marked set_meter_fvalue_influx_last
  marked-enabled zero m d = omega arith
  marked-enabled (suc k) m d =
      let shift : m.is_due + 1 + k ≡ m.is_due + suc k = omega arith in
      ap (λ m'. (marked k m').is_due) (mark-enabled m d) ∙ marked-enabled k _ d ∙ shift

  -- After the first two loops of `cron_queryMeters`, an enabled meter is marked as due once for
  -- each time that it is among the members of a schedule that is due, and a meter that is
  -- disabled is not marked.
  pub mark_due-Counts :
      (now i : ℕ) (table : List (CronDef E)) (ms : List (Meter D)) (m : Meter D)
      → get_elem? ms i ≡ some m
      → (m' : Meter D) × (get_elem? (mark_due F C now table (map reset ms)) i ≡ some m')
        × (m'.is_due ≡ (if is_zero m.disabled then due_times now i table else 0))
  mark_due-Counts now i table ms m h =
      let k = due_times now i table in
      let found =
        mark_due-Marked now i table (map reset ms) (reset m) (get_elem?-map reset ms i m h) in
      (
        marked k (reset m),
        found,
        elim (Bool-cases (is_zero m.disabled)) [
          | inl e ↦ rw e (marked-enabled k (reset m) e ∙ zero_plus k)
          | inr e ↦ rw e (ap (λ m. m.is_due) (marked-disabled k (reset m) e))
        ],
      )
