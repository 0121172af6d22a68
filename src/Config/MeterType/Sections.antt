-- ===== src/Config/MeterType/Sections.antt =====
-- The entries of a section keep the type that it describes well-formed.
use emmbus2influx.Base.{
  ℕ, ◌≤◌, ◌<◌, ◌&&◌, not, ◌≡◌, ◌⊎◌, ◌∙◌, refl, sym, subst, is_zero, ltb_ℤ, negsuc, Bool, true,
  false, Option, none, some, List, [], ◌∷◌, ◌++◌, if_either, Bytes, same_text, ℤ, pos, eqb_ℤ, arith,
  Bool-cases, inl, inr,
}
use emmbus2influx.Meter.{MeterRegister, MeterType}
use emmbus2influx.Config.Keys.{
  tk_mqtt, tk_influx, tk_grafana, tk_mqttprefix, tk_name, tk_measurement, tk_mqttqos, tk_mqttretain,
  tk_influxwritemult,
}
use emmbus2influx.Config.Lexer.{Parser}
use emmbus2influx.Config.Lexer.Branches.{Leaves}
use emmbus2influx.Config.Expect.{Reads, all_allowed, tk_equal}
use emmbus2influx.Config.Expect.Laws.{
  Ends, Within, Keeps, Any, Ends-bind, Keeps-bind, done-Keeps, stop-Keeps, refuse-then,
  refuse-then-Ends, next_token-Ends, expect-Keeps, expect_int-Keeps, expect_str-Keeps, number-Keeps,
  text-Keeps,
}
use emmbus2influx.Config.MeterType.{
  is_given, has_register, find_meter_type, TypeSection, new_register, register_option,
  parse_register, with_type, expect_mult, parse_type_name, type_key,
}
use emmbus2influx.Config.MeterType.Registers.{
  IsRegister, register_option-Keeps, register_source-Keeps,
}
use emmbus2influx.Config.Section.Laws.{LineRead, options-Ends}

-- A register has a name that formulas can use, and a formula if it is a formula only.
abbrev pub IsNamed : MeterRegister → Type 0
IsNamed r = (all_allowed r.name ≡ true) × (r.is_formula_only ≡ true → is_given r.formula ≡ true)

-- The names of registers are not given twice.
abbrev pub IsRegisters : List MeterRegister → Type 0
IsRegisters [] = Unit {0}
IsRegisters (r ∷ rs) = IsNamed r × (has_register r.name rs ≡ false) × IsRegisters rs

-- 0, or at least 2
abbrev pub IsMult : ℤ → Type 0
IsMult (pos n) = (n ≡ 0) ⊎ (2 ≤ n)
IsMult (negsuc n) = ⊥

-- A name that formulas can use and that no earlier type has.
abbrev pub IsName : List MeterType → Option Bytes → Type 0
IsName types none = Unit {0}
IsName types (some name) =
    (all_allowed name ≡ true) × (is_given (find_meter_type name types) ≡ false)

abbrev pub IsType : List MeterType → MeterType → Type 0
IsType types t = IsName types t.name × IsRegisters t.meter_registers × IsMult t.influx_write_mult

pub same_text_comm : (text other : Bytes) → same_text text other ≡ same_text other text
unfolding same_text
same_text_comm [] [] = refl
same_text_comm [] (d ∷ other) = refl
same_text_comm (c ∷ text) [] = refl
same_text_comm (c ∷ text) (d ∷ other) =
    let later = same_text_comm text other in ground (arith, later)

has_register-append :
    (name : Bytes) (rs : List MeterRegister) (r : MeterRegister)
    → has_register name rs ≡ false
    → same_text r.name name ≡ false
    → has_register name (rs ++ r ∷ []) ≡ false
unfolding has_register
has_register-append name [] r h other = ground arith
has_register-append name (x ∷ rs) r h other = ground (arith, has_register-append name rs r)

IsRegisters-append :
    (rs : List MeterRegister) (r : MeterRegister)
    → IsRegisters rs
    → IsNamed r
    → has_register r.name rs ≡ false
    → IsRegisters (rs ++ r ∷ [])
unfolding has_register
IsRegisters-append [] r ok named h = (named, refl, tt)
IsRegisters-append (x ∷ rs) r (first, free, ok) named h =
    let other : same_text r.name x.name ≡ false = same_text_comm r.name x.name ∙ ground arith in
    (
      first,
      has_register-append x.name rs r free other,
      IsRegisters-append rs r ok named (ground arith),
    )

module _ {D : Type 0} (alloc : ℕ → Bool) (scan_float : Bytes → Option D) where
  at_least_two : (n : ℤ) → (not (is_zero n) && ltb_ℤ n (pos 2)) ≡ false → IsMult n
  at_least_two (pos n) h = elim (Bool-cases (is_zero (pos n))) [
    | inl zero_ ↦ inl (ground arith)
    | inr other ↦ inr (ground arith)
  ]
  at_least_two (negsuc n) h = ground arith

  pub expect_mult-Keeps : Keeps IsMult (expect_mult alloc scan_float)
  unfolding expect_mult
  expect_mult-Keeps = Keeps-bind Any IsMult _ _ (expect_int-Keeps alloc scan_float) (λ n v.
      refuse-then IsMult (not (is_zero n) && ltb_ℤ n (pos 2)) _
        (λ e. done-Keeps IsMult n (at_least_two n e)))

  pub allowed : (name : Bytes) → not (all_allowed name) ≡ false → all_allowed name ≡ true
  allowed name h = ground arith

  module _ (types : List MeterType) where
    abbrev IsGood : TypeSection → Type 0
    IsGood s = IsType types s.type

    -- The name is checked, and is not that of an earlier type.
    parse_type_name-Keeps :
        (s : TypeSection) → IsGood s → Keeps IsGood (parse_type_name alloc scan_float types s)
    unfolding parse_type_name
    parse_type_name-Keeps s (name, registers, mult) =
        refuse-then IsGood (is_given s.type.name) _ (λ e.
          Keeps-bind Any IsGood _ _ (expect_str-Keeps alloc scan_float) (λ name v.
            refuse-then IsGood (not (all_allowed name)) _ (λ good.
              refuse-then IsGood (is_given (find_meter_type name types)) _ (λ free.
                done-Keeps IsGood (with_type s (record s.type { name = some name }))
                  ((allowed name good, free), registers, mult)))))

    pub type_key-Keeps :
        (tk : ℤ) (s : TypeSection) → IsGood s → Keeps IsGood (type_key alloc scan_float types tk s)
    unfolding type_key
    type_key-Keeps tk s (name, registers, mult) =
        let P : Reads D TypeSection → Type 0 = Keeps IsGood in
        let t = s.type in
        let ok : IsGood s = (name, registers, mult) in
        if_either P (eqb_ℤ tk tk_influxwritemult) _ _
          (Keeps-bind IsMult IsGood _ _ expect_mult-Keeps (λ n m.
            done-Keeps IsGood (with_type s (record t { influx_write_mult = n }))
              (name, registers, m)))
          (if_either P (eqb_ℤ tk tk_measurement) _ _
            (refuse-then IsGood (is_given t.influx_measurement) _ (λ e.
              text-Keeps alloc scan_float IsGood
                (λ text. with_type s (record t { influx_measurement = some text })) (λ text. ok)))
            (if_either P (eqb_ℤ tk tk_mqttprefix) _ _
              (text-Keeps alloc scan_float IsGood
                (λ text. with_type s (record t { mqttprefix = some text })) (λ text. ok))
              (if_either P (eqb_ℤ tk tk_mqttqos) _ _
                (number-Keeps alloc scan_float IsGood (λ n. with_type s (record t { mqtt_qos = n }))
                  (λ n. ok))
                (if_either P (eqb_ℤ tk tk_mqttretain) _ _
                  (number-Keeps alloc scan_float IsGood
                    (λ n. with_type s (record t { mqtt_retain = n })) (λ n. ok))
                  (if_either P (eqb_ℤ tk tk_mqtt) _ _
                    (number-Keeps alloc scan_float IsGood (λ n. record s { enable_mqtt_write = n })
                      (λ n. ok))
                    (if_either P (eqb_ℤ tk tk_influx) _ _
                      (number-Keeps alloc scan_float IsGood
                        (λ n. record s { enable_influx_write = n }) (λ n. ok))
                      (if_either P (eqb_ℤ tk tk_grafana) _ _
                        (number-Keeps alloc scan_float IsGood
                          (λ n. record s { enable_grafana_write = n }) (λ n. ok))
                        (if_either P (eqb_ℤ tk tk_name) _ _ (parse_type_name-Keeps s ok)
                          (stop-Keeps IsGood)))))))))

    -- A register is put behind the others, whose names it does not have.
    pub parse_register-Ends :
        (fuel n : ℕ) (s : TypeSection) (pa : Parser D)
        → Within n pa
        → n < fuel
        → IsGood s
        → Ends (LineRead IsGood n) (parse_register alloc scan_float fuel s pa)
    unfolding parse_register
    parse_register-Ends fuel n s pa w f (ok, registers, mult) =
        let name = pa.str_val in
        let Q = LineRead {D = D} IsGood n in
        refuse-then-Ends Q (has_register name s.type.meter_registers) _ pa (λ free.
          refuse-then-Ends Q (not (all_allowed name)) _ pa (λ good.
            Ends-bind (λ u pa1. Within n pa1 × Any u) Q _ _
              ((expect-Keeps alloc scan_float tk_equal).run n pa w)
              (λ u pa1 (w1, v1).
                Ends-bind (λ r pa2. Within n pa2 × IsRegister name r) Q _ _
                  ((register_source-Keeps alloc scan_float name (new_register s name)
                      (refl, λ e. ground arith)).run
                    n pa1 w1)
                  (λ r pa2 (w2, ok2).
                    Ends-bind (Leaves n) Q _ _ (next_token-Ends alloc scan_float n pa2 w2)
                      (λ tk pa3 l3.
                        Ends-bind (LineRead (IsRegister name) n) Q _ _
                          (options-Ends alloc scan_float (IsRegister name)
                            (register_option alloc scan_float)
                            (register_option-Keeps alloc scan_float name) fuel n tk r pa3 l3 f ok2)
                          (λ o pa4 (l4, (same, source)). (
                            l4,
                            (
                              ok,
                              IsRegisters-append s.type.meter_registers o.1 registers
                                  (
                                    subst (λ m. all_allowed m ≡ true) (sym same)
                                        (allowed name good),
                                    source,
                                  )
                                  (subst (λ m. has_register m s.type.meter_registers ≡ false)
                                    (sym same) free),
                              mult,
                            ),
                          )))))))
