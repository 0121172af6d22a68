-- ===== src/Config/Meters/Formulas.antt =====
-- The lines of formulas of a meter: they end, and their names differ.
use emmbus2influx.Base.{
  ℕ, ◌<◌, not, ◌≡◌, ◌∙◌, refl, sym, subst, Bool, true, false, Option, some, List, [], ◌∷◌, ◌++◌,
  if_either, Bytes, same_text, ℤ, eqb_ℤ, arith,
}
use emmbus2influx.Cron.{CronLibrary}
use emmbus2influx.Meter.{MeterFormula}
use emmbus2influx.Config.Keys.{
  tk_regoptifirst, tk_dec, tk_mqtt, tk_influx, tk_grafana, tk_regoptilast, tk_regoptsfirst,
  tk_array, tk_regoptslast, tk_force,
}
use emmbus2influx.Config.Lexer.{tk_strval, Parser}
use emmbus2influx.Config.Lexer.Branches.{Leaves}
use emmbus2influx.Config.Expect.{Reads, all_allowed, tk_equal}
use emmbus2influx.Config.Expect.Laws.{
  Ends, Within, Keeps, Any, Ends-bind, Keeps-bind, done-Keeps, stop-Keeps, refuse-then-Ends,
  next_token-Ends, next_token-Keeps, expect-Keeps, expect_int-Keeps, expect_str-Keeps,
}
use emmbus2influx.Config.Section.Laws.{LineRead, options-Ends}
use emmbus2influx.Config.MeterType.{between}
use emmbus2influx.Config.MeterType.Registers.{expect_force-Keeps, expect_processing-Keeps}
use emmbus2influx.Config.MeterType.Sections.{allowed, same_text_comm}
use emmbus2influx.Config.Meters.{MeterSection, has_formula_named, new_formula, add_formula}
use emmbus2influx.Config.Meters.Parse.{formula_text, formula_number, formula_option, parse_formula}

-- The names of formulas are made of the allowed characters, and not given twice.
abbrev pub AreFormulas : {D : Type 0} → List (MeterFormula D) → Type 0
AreFormulas [] = Unit {0}
AreFormulas (f ∷ fs) =
    (all_allowed f.name ≡ true) × (has_formula_named f.name fs ≡ false) × AreFormulas fs

has_formula_named-append :
    {D : Type 0} (name : Bytes) (fs : List (MeterFormula D)) (f : MeterFormula D)
    → has_formula_named name fs ≡ false
    → same_text f.name name ≡ false
    → has_formula_named name (fs ++ f ∷ []) ≡ false
unfolding has_formula_named
has_formula_named-append name [] f h other = ground arith
has_formula_named-append name (x ∷ fs) f h other =
    ground (arith, has_formula_named-append name fs f)

AreFormulas-append :
    {D : Type 0} (fs : List (MeterFormula D)) (f : MeterFormula D)
    → AreFormulas fs
    → all_allowed f.name ≡ true
    → has_formula_named f.name fs ≡ false
    → AreFormulas (fs ++ f ∷ [])
unfolding has_formula_named
AreFormulas-append [] f ok good h = (good, refl, tt)
AreFormulas-append (x ∷ fs) f (first, free, ok) good h =
    let other : same_text f.name x.name ≡ false = same_text_comm f.name x.name ∙ ground arith in
    (
      first,
      has_formula_named-append x.name fs f free other,
      AreFormulas-append fs f ok good (ground arith),
    )

module _ {D E : Type 0} (alloc : ℕ → Bool) (scan_float : Bytes → Option D) (C : CronLibrary E)
    (nought : D) where
  -- A formula keeps its name.
  abbrev Named : Bytes → MeterFormula D → Type 0
  Named name f = f.name ≡ name

  module _ (name : Bytes) where
    formula_text-Keeps :
        (tk : ℤ) (text : Bytes) (f : MeterFormula D)
        → Named name f
        → Keeps (Named name) (formula_text alloc scan_float C nought tk text f)
    formula_text-Keeps tk text f ok =
        if_either (Keeps {D = D} (Named name)) (eqb_ℤ tk tk_array) _ _
          (done-Keeps (Named name) (record f { array_name = some text }) ok)
          (stop-Keeps (Named name))

    formula_number-Keeps :
        (tk n : ℤ) (f : MeterFormula D)
        → Named name f
        → Keeps (Named name) (formula_number alloc scan_float C nought tk n f)
    formula_number-Keeps tk n f ok =
        let P : Reads D (MeterFormula D) → Type 0 = Keeps (Named name) in
        if_either P (eqb_ℤ tk tk_dec) _ _ (done-Keeps (Named name) (record f { decimals = n }) ok) (
          if_either P (eqb_ℤ tk tk_mqtt) _ _
            (done-Keeps (Named name) (record f { enable_mqtt_write = n }) ok)
            (if_either P (eqb_ℤ tk tk_influx) _ _
              (done-Keeps (Named name) (record f { enable_influx_write = n }) ok)
              (if_either P (eqb_ℤ tk tk_grafana) _ _
                (done-Keeps (Named name) (record f { enable_grafana_write = n }) ok)
                (stop-Keeps (Named name)))))

    formula_option-Keeps :
        (tk : ℤ) (f : MeterFormula D)
        → Named name f
        → Keeps (Named name) (formula_option alloc scan_float C nought tk f)
    unfolding formula_option
    formula_option-Keeps tk f ok =
        let P : Reads D (MeterFormula D) → Type 0 = Keeps (Named name) in
        if_either P (between tk_regoptsfirst tk_regoptslast tk) _ _
          (Keeps-bind Any (Named name) _ _ (expect_str-Keeps alloc scan_float)
            (λ text v. formula_text-Keeps tk text f ok))
          (if_either P (between tk_regoptifirst tk_regoptilast tk) _ _
            (Keeps-bind Any (Named name) _ _ (expect_int-Keeps alloc scan_float)
              (λ n v. formula_number-Keeps tk n f ok))
            (if_either P (eqb_ℤ tk tk_force) _ _
              (Keeps-bind Any (Named name) _ _ (expect_force-Keeps alloc scan_float)
                (λ force v. done-Keeps (Named name) _ ok))
              (Keeps-bind Any (Named name) _ _
                (expect_processing-Keeps alloc scan_float tk f.influx_mult_processing)
                (λ pr v. done-Keeps (Named name) _ ok))))

  -- What a formula at the end of the list of a meter keeps.
  module _ (P : MeterSection D E → Type 0)
      (formulas : (s : MeterSection D E) → P s → AreFormulas s.meter.meter_formula)
      (adds : (s : MeterSection D E) (f : MeterFormula D)
        → P s
        → AreFormulas (s.meter.meter_formula ++ f ∷ [])
        → P (record s { meter = add_formula f s.meter })) where
    -- A formula is put behind the others, whose names it does not have.
    pub parse_formula-Ends :
        (fuel n : ℕ) (s : MeterSection D E) (pa : Parser D)
        → Within n pa
        → n < fuel
        → P s
        → Ends (LineRead P n) (parse_formula alloc scan_float C nought fuel s pa)
    unfolding parse_formula
    parse_formula-Ends fuel n s pa w f ok =
        let name = pa.str_val in
        let Q = LineRead {D = D} P n in
        refuse-then-Ends Q (has_formula_named name s.meter.meter_formula) _ pa (λ free.
          refuse-then-Ends Q (not (all_allowed name)) _ pa (λ good.
            Ends-bind (λ u pa1. Within n pa1 × Any u) Q _ _
              ((expect-Keeps alloc scan_float tk_equal).run n pa w)
              (λ u pa1 (w1, v1).
                Ends-bind (λ tk pa2. Within n pa2 × Any tk) Q _ _
                  ((next_token-Keeps alloc scan_float).run n pa1 w1)
                  (λ tk pa2 (w2, v2). refuse-then-Ends Q (not (eqb_ℤ tk tk_strval)) _ pa2 (λ text.
                    Ends-bind (Leaves n) Q _ _ (next_token-Ends alloc scan_float n pa2 w2)
                      (λ tk' pa3 l3.
                        Ends-bind (LineRead (Named name) n) Q _ _
                          (options-Ends alloc scan_float (Named name)
                            (formula_option alloc scan_float C nought) (formula_option-Keeps name)
                            fuel n tk' (new_formula nought s name pa2.str_val) pa3 l3 f refl)
                          (λ o pa4 (l4, same). (
                            l4,
                            adds s o.1 ok (
                                AreFormulas-append s.meter.meter_formula o.1 (formulas s ok)
                                  (subst (λ m. all_allowed m ≡ true) (sym same)
                                    (allowed alloc scan_float name good))
                                  (subst (λ m. has_formula_named m s.meter.meter_formula ≡ false)
                                    (sym same) free)),
                          ))))))))
