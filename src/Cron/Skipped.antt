-- ===== src/Cron/Skipped.antt =====
-- What `cron_queryMeters` does with a meter that is not due, and the meters and schedules that
-- it leaves.
use emmbus2influx.Base.{
  ℕ, zero, suc, ◌+◌, subst, if_either, false, Bool-cases, ◌==◌, ◌&&◌, not, ◌≡◌, refl, sym, ap, ◌∙◌,
  true, false, Option, some, List, [], ◌∷◌, map, get_elem?, get_elem?-map, is_zero, arith,
  bind-some, ◌⊎◌, inl, inr,
}
use mathlib.Core.Option.{some-injective, some-ne-none}
use emmbus2influx.Meter.Floats.{Floats}
use emmbus2influx.Meter.Connections.{Connection}
use emmbus2influx.Meter.Query.{Bus, Formulas}
use emmbus2influx.Meter.GlobalFormulas.Laws.{
  SameButValues, Has, HasIn, StaysStored, eval_formulas-Has,
}
use emmbus2influx.Meter.{Meter}
use emmbus2influx.Cron.Marks.{due_times, marked, mark_due-Marked, marked-disabled}
use emmbus2influx.Cron.{
  CronLibrary, CronDef, mark_due, reset, Site, query_due, query_all, execute_meter_formulas,
  execute_all_formulas, count_write, cron_query_meters,
}

-- A meter as it was, but for the current values of its registers; these are as they were if it is
-- disabled.
pub record Stays {D : Type 0} (m m' : Meter D) : Type 0 where
  pub other : m' ≡ record m { register_read = m'.register_read }
  pub registers : SameButValues m.register_read m'.register_read
  pub disabled : is_zero m.disabled ≡ false → m' ≡ m

stored-Stays : {D : Type 0} (m0 : Meter D) → StaysStored (Stays m0)
stored-Stays m0 m rs on same old =
    let kept = ap (λ (x : Meter _). is_zero x.disabled) old.other in
    record {
      other = ap (λ (x : Meter _). record x { register_read = rs }) old.other;
      registers = λ v. old.registers v ∙ same v;
      disabled = λ off. cc;
    }

module _ {W Handle Frame D E : Type 0} (F : Floats D) (P : Formulas D) (B : Bus W Handle Frame D)
    (serial : Option Handle) (C : CronLibrary E) where
  -- What a query loop that ends has done with the first meter and with the others.
  query_all-cons :
      (x : Meter D) (ms : List (Meter D)) (c : List (Connection Handle)) (w : W)
      (s : Site W Handle D)
      → query_all F P B serial C (x ∷ ms) c w ≡ some s
      → (r : ℕ × Meter D × List (Connection Handle) × W) × (query_due F P B serial C x c w ≡ some r)
        × (s' : Site W Handle D) × (query_all F P B serial C ms r.2 r.3 ≡ some s')
        × (s.meters ≡ r.1 ∷ s'.meters)
  unfolding query_all
  query_all-cons x ms c w s q =
      let (r, e, q1) = bind-some (query_due F P B serial C x c w) _ s q in
      let (s', e', q2) = bind-some (query_all F P B serial C ms r.2 r.3) _ s q1 in
      (r, e, s', e', sym (ap (λ s. s.meters) (some-injective _ s q2)))

  query_due-skips :
      (x : Meter D) (c : List (Connection Handle)) (w : W)
      → x.is_due ≡ 0
      → query_due F P B serial C x c w ≡ some (0, x, c, w)
  unfolding query_due
  query_due-skips x c w d = let none_due : (x.is_due == 0) ≡ true = ground arith in rw none_due refl

  query_all-skips :
      (ms : List (Meter D)) (c : List (Connection Handle)) (w : W) (s : Site W Handle D) (i : ℕ)
      (m : Meter D)
      → query_all F P B serial C ms c w ≡ some s
      → get_elem? ms i ≡ some m
      → m.is_due ≡ 0
      → get_elem? s.meters i ≡ some m
  query_all-skips [] c w s i m q h d = absurd (some-ne-none m (sym h))
  query_all-skips (x ∷ ms) c w s zero m q h d =
      let (r, e, s', e', es) = query_all-cons x ms c w s q in
      let same = some-injective x m h in
      let skipped = query_due-skips x c w (ap (λ m. m.is_due) same ∙ d) in
      let kept = ap (λ r. r.1) (some-injective _ _ (sym e ∙ skipped)) in
      rw es (ap some (kept ∙ same))
  query_all-skips (x ∷ ms) c w s (suc i) m q h d =
      let (r, e, s', e', es) = query_all-cons x ms c w s q in
      rw es (query_all-skips ms r.2 r.3 s' i m e' h d)

  unread :
      (m : Meter D)
      → m.meter_has_been_read ≡ 0
      → (is_zero m.disabled && not (m.meter_has_been_read == 0)) ≡ false
  unread m r = rw r (ground arith)

  -- the loop over the meters for the formulas, where the one at place `i` has not been read
  formulas-skip :
      (k i : ℕ) (rest ms ys : List (Meter D)) (m0 : Meter D)
      → execute_all_formulas F P B serial C k rest ms ≡ some ys
      → ((j : ℕ) (m : Meter D) → k + j ≡ i → get_elem? rest j ≡ some m → m.meter_has_been_read ≡ 0)
      → Has (Stays m0) i ms
      → Has (Stays m0) i ys
  unfolding execute_all_formulas execute_meter_formulas
  formulas-skip k i [] ms ys m0 q idle h = subst (Has (Stays m0) i) (some-injective ms ys q) h
  formulas-skip k i (x ∷ rest) ms ys m0 q idle h =
      let (ms', e, q') = bind-some (execute_meter_formulas F P B serial C k x ms) _ ys q in
      let Q = Stays m0 in
      let left : HasIn Q i (execute_meter_formulas F P B serial C k x ms) =
        elim (Bool-cases (k == i)) [
          | inl here ↦ let off = unread x (idle 0 x (ground (arith, here)) refl) in rw off h
          | inr other ↦
              if_either (HasIn Q i) (is_zero x.disabled && not (x.meter_has_been_read == 0)) _ _
                (eval_formulas-Has Q (stored-Stays m0) P k 0 i x.meter_formula ms (inl other) h) h
        ] in
      formulas-skip (suc k) i rest ms' ys m0 q'
        (λ j m place there. idle (suc j) m (omega (arith, place)) there) (subst (HasIn Q i) e left)

  unread_there :
      (ms : List (Meter D)) (i j : ℕ) (m x : Meter D)
      → 0 + j ≡ i
      → get_elem? ms i ≡ some m
      → get_elem? ms j ≡ some x
      → m.meter_has_been_read ≡ 0
      → x.meter_has_been_read ≡ 0
  unread_there ms i j m x place h found r =
      let here : j ≡ i = omega (arith, place) in
      let same = some-injective m x (sym h ∙ ap (get_elem? ms) (sym here) ∙ found) in
      ap (λ (y : Meter D). y.meter_has_been_read) (sym same) ∙ r

  count_write-skips : (m : Meter D) → m.meter_has_been_read ≡ 0 → count_write F P B serial C m ≡ m
  unfolding count_write
  count_write-skips m r = rw (unread m r) refl

  marked-Skips :
      (now : ℕ) (table : List (CronDef E)) (i : ℕ) (m : Meter D)
      → (is_zero m.disabled ≡ false) ⊎ (due_times F C now i table ≡ 0)
      → marked F C (due_times F C now i table) (reset m) ≡ reset m
  unfolding marked
  marked-Skips now table i m (inl d) = marked-disabled F C (due_times F C now i table) (reset m) d
  marked-Skips now table i m (inr z) = ap (λ k. marked F C k (reset m)) z

  -- Let `cron_queryMeters` run to its end at the time `now`. A meter that is disabled, or that no
  -- schedule which is due has as a member, is then as it was, with its formulas, its counters and
  -- all its values for InfluxDB, but for the marks that it has been read and that it is due, which
  -- are off, and for the current values of its registers: the formulas of other meters may assign
  -- to these, though not to those of a disabled meter.
  pub cron_query_meters-Skips :
      (now : ℕ) (table table' : List (CronDef E)) (s s' : Site W Handle D) (i : ℕ) (m : Meter D)
      → cron_query_meters F P B serial C now table s ≡ some (table', s')
      → get_elem? s.meters i ≡ some m
      → (is_zero m.disabled ≡ false) ⊎ (due_times F C now i table ≡ 0)
      → Has (Stays (reset m)) i s'.meters
  unfolding cron_query_meters
  cron_query_meters-Skips now table table' s s' i m q h skip =
      let due = mark_due F C now table (map reset s.meters) in
      let (q1, e1, r1) = bind-some (query_all F P B serial C due s.connections s.bus) _ _ q in
      let (ms, e2, r2) =
        bind-some (execute_all_formulas F P B serial C 0 q1.meters q1.meters) _ _ r1 in
      let marks =
        mark_due-Marked F C now i table _ (reset m) (get_elem?-map reset s.meters i m h) in
      let unmarked = marks ∙ ap some (marked-Skips now table i m skip) in
      let queried = query_all-skips due s.connections s.bus q1 i (reset m) e1 unmarked refl in
      let same : Stays (reset m) (reset m) = record {
        other = refl;
        registers = λ v. refl;
        disabled = λ off. refl;
      } in
      let (m', there, stays) =
        formulas-skip 0 i q1.meters q1.meters ms (reset m) e2
          (λ j x place found. unread_there q1.meters i j (reset m) x place queried found refl)
          (reset m, queried, same) in
      let written = get_elem?-map (count_write F P B serial C) ms i m' there in
      let all = sym (ap (λ r. r.1.meters) (some-injective _ _ r2)) in
      let idle = ap (λ (x : Meter D). x.meter_has_been_read) stays.other in
      (
        m',
        ap (λ (l : List (Meter D)). get_elem? l i) all
            ∙ written
            ∙ ap some (count_write-skips m' idle),
        stays,
      )
