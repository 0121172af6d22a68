-- ===== src/Meter/Window/Values.antt =====
-- The values and the countdown after the rounds since a write: `executeInfluxWriteCalc` of
-- mbusread.cpp against the list of all values that were read.
use mathlib.Core.List.{map-map}
use emmbus2influx.Base.{
  ℕ, suc, ◌-◌, ◌≤◌, ◌≡◌, refl, ap, ◌∙◌, List, [], ◌∷◌, map, arith, length, pos,
}
use emmbus2influx.Meter.Floats.{Floats}
use emmbus2influx.Meter.{MeterRegisterRead, MeterFormula, Meter}
use emmbus2influx.Meter.Window.{
  Reading, rounds, window, first_register, first_formula, later_registers, later_formulas,
  round-first, rounds-later,
}

module _ {D : Type 0} (F : Floats D) where
  -- All values of a register, in the order of the queries, as its way of processing joins them.
  abbrev pub register_window : Reading D → List (Reading D) → MeterRegisterRead D → D
  register_window rd rds rr =
      let def = rr.register_def in
      window F def.influx_mult_processing (rd.of_register def) (map (λ r. r.of_register def) rds)

  abbrev pub formula_window : Reading D → List (Reading D) → MeterFormula D → D
  formula_window rd rds mf =
      window F mf.influx_mult_processing (rd.of_formula mf.name)
        (map (λ r. r.of_formula mf.name) rds)

  later-value :
      (rds : List (Reading D)) (rr : MeterRegisterRead D)
      → (later_registers F rds rr).fvalue_influx
        ≡ window F rr.register_def.influx_mult_processing rr.fvalue_influx
            (map (λ r. r.of_register rr.register_def) rds)
  later-value [] rr = refl
  later-value (rd ∷ rds) rr = later-value rds _

  later_formula-value :
      (rds : List (Reading D)) (mf : MeterFormula D)
      → (later_formulas F rds mf).fvalue_influx
        ≡ window F mf.influx_mult_processing mf.fvalue_influx (map (λ r. r.of_formula mf.name) rds)
  later_formula-value [] mf = refl
  later_formula-value (rd ∷ rds) mf = later_formula-value rds _

  map-agree :
      {A B : Type 0} (f g : A → B) → ((x : A) → f x ≡ g x) → (xs : List A) → map f xs ≡ map g xs
  map-agree f g h [] = refl
  map-agree f g h (x ∷ xs) = λ i. h x i ∷ map-agree f g h xs i

  rounds_lem :
      (rd : Reading D) (rds : List (Reading D)) (m : Meter D) (n : ℕ)
      → m.influx_write_mult ≡ pos (suc n)
      → m.influx_write_countdown ≡ pos (suc n)
      → length rds ≤ n
      → rounds F (rd ∷ rds) m ≡ record m {
        influx_write_countdown = pos (n - length rds);
        register_read = map (later_registers F rds) (map (first_register F rd) m.register_read);
        meter_formula = map (later_formulas F rds) (map (first_formula F rd) m.meter_formula);
      }
  unfolding rounds
  rounds_lem rd rds m n e c l =
      ap (rounds F rds) (round-first F rd m n e c)
      ∙ rounds-later F rds _ (suc n) n e refl (omega arith) l

  -- Take a meter whose countdown stands at its multiplier, as after a write, and let it be read
  -- once and then as often as `rds` says, in all at most as often as the multiplier. The
  -- countdown has gone down by one for each query, and the value to be written of each register
  -- and of each formula is the values of all these queries, the first one included and none
  -- from before the write, joined by the way of processing of that register or formula.
  pub rounds-windows :
      (rd : Reading D) (rds : List (Reading D)) (m : Meter D) (n : ℕ)
      → m.influx_write_mult ≡ pos (suc n)
      → m.influx_write_countdown ≡ pos (suc n)
      → length rds ≤ n
      → (((rounds F (rd ∷ rds) m).influx_write_countdown ≡ pos (n - length rds))
          × (map (λ rr. rr.fvalue_influx) (rounds F (rd ∷ rds) m).register_read
              ≡ map (register_window rd rds) m.register_read)
          × (map (λ mf. mf.fvalue_influx) (rounds F (rd ∷ rds) m).meter_formula
              ≡ map (formula_window rd rds) m.meter_formula))
  rounds-windows rd rds m n e c l =
      let all = rounds_lem rd rds m n e c l in
      (
        ap (λ m. m.influx_write_countdown) all,
        ap (λ m. map (λ rr. rr.fvalue_influx) m.register_read) all
            ∙ map-map (λ rr. rr.fvalue_influx) (later_registers F rds) _
            ∙ map-map (λ rr. (later_registers F rds rr).fvalue_influx) (first_register F rd) _
            ∙ map-agree _ _ (λ rr. later-value rds (first_register F rd rr)) m.register_read,
        ap (λ m. map (λ mf. mf.fvalue_influx) m.meter_formula) all
            ∙ map-map (λ mf. mf.fvalue_influx) (later_formulas F rds) _
            ∙ map-map (λ mf. (later_formulas F rds mf).fvalue_influx) (first_formula F rd) _
            ∙ map-agree _ _ (λ mf. later_formula-value rds (first_formula F rd mf)) m.meter_formula,
      )
