-- ===== src/Writer/Grafana/Row.antt =====
-- What the row of a meter for Grafana has to hold, from its settings and values, written down without
-- the code that makes the row, and that `grafanaAppendData` makes its calls with just these parts.
use emmbus2influx.Base.{
  ◌≡◌, refl, sym, ap, ◌∙◌, Bool, some, List, [], ◌∷◌, ◌++◌, map, take, Bytes, codes, ℤ, is_zero,
  if◌then◌else◌,
}
use emmbus2influx.Influx.Line.{Arg, meas, timestamp}
use emmbus2influx.Meter.Floats.{Floats}
use emmbus2influx.Meter.{MeterRegisterRead, MeterFormula, Meter}
use emmbus2influx.Writer.Grafana.{
  with_slash, channel_name, grafana_register_calls, grafana_formula_calls, grafana_calls,
}
use emmbus2influx.Writer.Row.{
  concat, first_text, chosen, is_on, register_arg, formula_arg, register_arg-if, formula_arg-if,
  concat-append, concat-chosen, first_text-or_else, first_text-names,
}

-- The measurement and a slash, or nothing where there is no measurement.
abbrev pub directory : Bytes → Bytes
directory [] = []
directory (c ∷ cs) = c ∷ cs ++ codes "/"

module _ {D : Type 0} (F : Floats D) (use_measurement : Bool) (measurement : Bytes) where
  -- The channel: where the measurement is used, the first 140 bytes of the meter's or the general
  -- measurement and a slash, and then the first 140 bytes of the meter's name for Grafana or of its
  -- name.
  abbrev pub channel : Meter D → Bytes
  channel m =
      (if use_measurement
        then directory (take 140 (first_text (m.influx_measurement ∷ some measurement ∷ [])))
        else [])
      ++ take 140 (first_text (m.gname ∷ m.name ∷ []))

  -- The row: the channel, a field for every register and every formula that is enabled for Grafana,
  -- and the time.
  abbrev pub grafana_args : Meter D → ℤ → List (Arg D)
  grafana_args m time =
      meas (channel m)
        ∷ map (register_arg F) (
            chosen (λ (rr : MeterRegisterRead D). is_on rr.register_def.enable_grafana_write)
              m.register_read)
      ++ (map (formula_arg F)
            (chosen (λ (mf : MeterFormula D). is_on mf.enable_grafana_write) m.meter_formula)
          ++ timestamp time ∷ [])

  with_slash-directory :
      (text : Bytes) → directory text ≡ with_slash F use_measurement measurement text
  with_slash-directory [] = refl
  with_slash-directory (c ∷ cs) = refl

  pub channel-name : (m : Meter D) → channel m ≡ channel_name F use_measurement measurement m
  channel-name m = λ i.
      (if use_measurement
        then (ap (λ text. directory (take 140 text))
                (first_text-or_else F measurement [] m.influx_measurement measurement)
              ∙ with_slash-directory _)
            i
        else [])
      ++ take 140 (first_text-names F measurement [] m.gname m.name i)

  registers-concat :
      (rs : List (MeterRegisterRead D))
      → concat (grafana_register_calls F use_measurement measurement rs)
        ≡ map
            (register_arg F)
            (chosen (λ (rr : MeterRegisterRead D). is_on rr.register_def.enable_grafana_write) rs)
  unfolding grafana_register_calls
  registers-concat [] = refl
  registers-concat (rr ∷ rs) =
      concat-chosen F (register_arg F) (is_zero rr.register_def.enable_grafana_write) _ rr _ _
        (register_arg-if F rr) (registers-concat rs)

  formulas-concat :
      (fs : List (MeterFormula D))
      → concat (grafana_formula_calls F use_measurement measurement fs)
        ≡ map (formula_arg F) (chosen (λ (mf : MeterFormula D). is_on mf.enable_grafana_write) fs)
  unfolding grafana_formula_calls
  formulas-concat [] = refl
  formulas-concat (mf ∷ fs) =
      concat-chosen F (formula_arg F) (is_zero mf.enable_grafana_write) _ mf _ _
        (formula_arg-if F mf) (formulas-concat fs)

  -- The calls of `grafanaAppendData` have the parts of the row.
  pub grafana_args-calls :
      (m : Meter D) (time : ℤ)
      → grafana_args m time
        ≡ meas (channel_name F use_measurement measurement m)
          ∷ concat (grafana_calls F use_measurement measurement time m)
  unfolding grafana_calls
  grafana_args-calls m time =
      let registers = grafana_register_calls F use_measurement measurement m.register_read in
      let formulas = grafana_formula_calls F use_measurement measurement m.meter_formula in
      let end : List (List (Arg D)) = (timestamp time ∷ []) ∷ [] in
      let fields : concat (registers ++ (formulas ++ end))
          ≡ map (register_arg F) (
              chosen (λ (rr : MeterRegisterRead D). is_on rr.register_def.enable_grafana_write)
                m.register_read)
            ++ (map (formula_arg F)
                  (chosen (λ (mf : MeterFormula D). is_on mf.enable_grafana_write) m.meter_formula)
                ++ timestamp time ∷ []) =
        concat-append F registers (formulas ++ end) ∙ (λ i.
          registers-concat m.register_read i
          ++ (concat-append F formulas end
                ∙ ap (λ fs. fs ++ concat end) (formulas-concat m.meter_formula))
              i) in
      λ i. meas (channel-name m i) ∷ sym fields i
