-- ===== src/Config/MeterType/Registers.antt =====
-- The lines of registers: they end, and give a register with the name in front of it.
use emmbus2influx.Base.{
  ℕ, ◌&&◌, ◌||◌, not, ◌≡◌, refl, Bool, true, Option, some, if_either, Bytes, ℤ, eqb_ℤ,
}
use emmbus2influx.Meter.{InfluxMultProcessing, MeterRegister}
use emmbus2influx.Config.Keys.{
  t_typefirst, t_typelast, tk_float, tk_int16, tk_regoptifirst, tk_dec, tk_div, tk_mul, tk_mqtt,
  tk_influx, tk_grafana, tk_regoptilast, tk_regoptsfirst, tk_array, tk_formula, tk_regoptslast,
  tk_force, tk_imax, tk_imin, tk_iavg,
}
use emmbus2influx.Config.Lexer.{tk_intval, tk_strval}
use emmbus2influx.Config.Expect.{Reads, tk_equal}
use emmbus2influx.Config.Expect.Laws.{
  Keeps, Any, Keeps-bind, done-Keeps, stop-Keeps, refuse-then, int_value-Keeps, str_value-Keeps,
  next_token-Keeps, expect-Keeps, expect_int-Keeps, expect_str-Keeps,
}
use emmbus2influx.Config.MeterType.{
  is_given, is_pr_last, between, expect_processing, expect_force, text_option, number_option,
  register_option, source_value, register_source,
}

-- A register of the name; one that is a formula only has a formula.
abbrev pub IsRegister : Bytes → MeterRegister → Type 0
IsRegister name r = (r.name ≡ name) × (r.is_formula_only ≡ true → is_given r.formula ≡ true)

module _ {D : Type 0} (alloc : ℕ → Bool) (scan_float : Bytes → Option D) where
  pub expect_force-Keeps : Keeps Any (expect_force alloc scan_float)
  unfolding expect_force
  expect_force-Keeps = Keeps-bind Any Any _ _ (expect-Keeps alloc scan_float tk_equal) (λ u v.
      Keeps-bind Any Any _ _ (next_token-Keeps alloc scan_float) (λ tk v.
        refuse-then Any (not (eqb_ℤ tk tk_int16) && not (eqb_ℤ tk tk_float)) _
          (λ e. done-Keeps Any _ tt)))

  pub expect_processing-Keeps :
      (tk : ℤ) (pr : InfluxMultProcessing) → Keeps Any (expect_processing alloc scan_float tk pr)
  unfolding expect_processing
  expect_processing-Keeps tk pr =
      refuse-then Any (not (eqb_ℤ tk tk_imax || eqb_ℤ tk tk_imin || eqb_ℤ tk tk_iavg)) _
        (λ e. refuse-then Any (not (is_pr_last pr)) _ (λ e. done-Keeps Any _ tt))

  module _ (name : Bytes) where
    text_option-Keeps :
        (tk : ℤ) (text : Bytes) (r : MeterRegister)
        → IsRegister name r
        → Keeps (IsRegister name) (text_option alloc scan_float tk text r)
    text_option-Keeps tk text r (same, source) =
        let P : Reads D MeterRegister → Type 0 = Keeps (IsRegister name) in
        if_either P (eqb_ℤ tk tk_array) _ _ (done-Keeps (IsRegister name) _ (same, source)) (
          if_either P (eqb_ℤ tk tk_formula) _ _
            (refuse-then (IsRegister name) (is_given r.formula) _
              (λ e. done-Keeps (IsRegister name) _ (same, λ f. refl)))
            (stop-Keeps (IsRegister name)))

    number_option-Keeps :
        (tk n : ℤ) (r : MeterRegister)
        → IsRegister name r
        → Keeps (IsRegister name) (number_option alloc scan_float tk n r)
    number_option-Keeps tk n r ok =
        let P : Reads D MeterRegister → Type 0 = Keeps (IsRegister name) in
        if_either P (eqb_ℤ tk tk_dec) _ _
          (done-Keeps (IsRegister name) (record r { decimals = n }) ok)
          (if_either P (eqb_ℤ tk tk_div) _ _
            (done-Keeps (IsRegister name) (record r { divider = n }) ok)
            (if_either P (eqb_ℤ tk tk_mul) _ _
              (done-Keeps (IsRegister name) (record r { multiplier = n }) ok)
              (if_either P (eqb_ℤ tk tk_mqtt) _ _
                (done-Keeps (IsRegister name) (record r { enable_mqtt_write = n }) ok)
                (if_either P (eqb_ℤ tk tk_influx) _ _
                  (done-Keeps (IsRegister name) (record r { enable_influx_write = n }) ok)
                  (if_either P (eqb_ℤ tk tk_grafana) _ _
                    (done-Keeps (IsRegister name) (record r { enable_grafana_write = n }) ok)
                    (stop-Keeps (IsRegister name)))))))

    pub register_option-Keeps :
        (tk : ℤ) (r : MeterRegister)
        → IsRegister name r
        → Keeps (IsRegister name) (register_option alloc scan_float tk r)
    unfolding register_option
    register_option-Keeps tk r ok =
        let P : Reads D MeterRegister → Type 0 = Keeps (IsRegister name) in
        if_either P (between t_typefirst t_typelast tk) _ _ (done-Keeps (IsRegister name) _ ok) (
          if_either P (between tk_regoptsfirst tk_regoptslast tk) _ _
            (Keeps-bind Any (IsRegister name) _ _ (expect_str-Keeps alloc scan_float)
              (λ text v. text_option-Keeps tk text r ok))
            (if_either P (between tk_regoptifirst tk_regoptilast tk) _ _
              (Keeps-bind Any (IsRegister name) _ _ (expect_int-Keeps alloc scan_float)
                (λ n v. number_option-Keeps tk n r ok))
              (if_either P (eqb_ℤ tk tk_force) _ _
                (Keeps-bind Any (IsRegister name) _ _ expect_force-Keeps
                  (λ force v. done-Keeps (IsRegister name) _ ok))
                (Keeps-bind Any (IsRegister name) _ _
                  (expect_processing-Keeps tk r.influx_mult_processing)
                  (λ pr v. done-Keeps (IsRegister name) _ ok)))))

    source_value-Keeps :
        (tk n : ℤ) (text : Bytes) (r : MeterRegister)
        → IsRegister name r
        → Keeps (IsRegister name) (source_value alloc scan_float tk n text r)
    source_value-Keeps tk n text r (same, source) =
        let P : Reads D MeterRegister → Type 0 = Keeps (IsRegister name) in
        if_either P (eqb_ℤ tk tk_intval) _ _
          (done-Keeps (IsRegister name) (record r { record_number = n }) (same, source))
          (if_either P (eqb_ℤ tk tk_strval) _ _
            (done-Keeps (IsRegister name) (record r { formula = some text; is_formula_only = true })
              (same, λ f. refl))
            (stop-Keeps (IsRegister name)))

    pub register_source-Keeps :
        (r : MeterRegister)
        → IsRegister name r
        → Keeps (IsRegister name) (register_source alloc scan_float r)
    unfolding register_source
    register_source-Keeps r ok =
        Keeps-bind Any (IsRegister name) _ _ (next_token-Keeps alloc scan_float) (λ tk v.
          Keeps-bind Any (IsRegister name) _ _ int_value-Keeps (λ n v.
            Keeps-bind Any (IsRegister name) _ _ str_value-Keeps
              (λ text v. source_value-Keeps tk n text r ok)))
