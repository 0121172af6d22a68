-- ===== src/Config/MeterType/Laws.antt =====
-- A section for a type of meters ends, and gives a type that is well-formed.
use mathlib.Core.List.{foldl}
use emmbus2influx.Base.{
  ℕ, ◌<◌, ◌&&◌, not, ◌≡◌, refl, sym, ap, ◌∙◌, subst, Bool, true, false, Option, List, [], ◌∷◌, ◌++◌,
  Bytes, ℤ, pos, ◌+ℤ◌, arith,
}
use emmbus2influx.Meter.{MeterRegister, MeterType}
use emmbus2influx.Config.Lexer.{tk_eol, Parser}
use emmbus2influx.Config.Lexer.Branches.{size, IsTable, Leaves}
use emmbus2influx.Config.Expect.Laws.{
  Ends, Ends-bind, refuse-then-Ends, next_token-Ends, expect-Ends, left-Leaves,
}
use emmbus2influx.Config.MeterType.{
  is_given, TypeSection, parse_register, type_key, count_registers, counted_type, has_no_registers,
  new_type_section, parse_meter_type,
}
use emmbus2influx.Config.Section.Laws.{Section, ends_section, entries-Ends}
use emmbus2influx.Config.MeterType.Sections.{
  IsRegisters, IsMult, IsName, IsType, type_key-Keeps, parse_register-Ends,
}

-- All registers are formulas only.
abbrev pub all_formulas : List MeterRegister → Bool
all_formulas [] = true
all_formulas (r ∷ rs) = r.is_formula_only && all_formulas rs

abbrev pub total : (MeterRegister → ℤ) → List MeterRegister → ℤ
total f = foldl (λ n r. n +ℤ f r) (pos 0)

-- The counts of a type are those of its registers.
abbrev pub IsCounted : MeterType → Type 0
IsCounted t =
    (t.is_formula_only ≡ all_formulas t.meter_registers)
    × (t.num_enabled_registers_influx ≡ total (λ r. r.enable_influx_write) t.meter_registers)
    × (t.num_enabled_registers_mqtt ≡ total (λ r. r.enable_mqtt_write) t.meter_registers)
    × (t.num_enabled_registers_grafana ≡ total (λ r. r.enable_grafana_write) t.meter_registers)

-- What the loop that counts leaves, from the type that it starts with.
abbrev Counts : List MeterRegister → MeterType → MeterType → Type 0
Counts rs t t' =
    (t'.is_formula_only ≡ t.is_formula_only && all_formulas rs)
    × (t'.num_enabled_registers_influx
        ≡ foldl (λ n r. n +ℤ r.enable_influx_write) t.num_enabled_registers_influx rs)
    × (t'.num_enabled_registers_mqtt
        ≡ foldl (λ n r. n +ℤ r.enable_mqtt_write) t.num_enabled_registers_mqtt rs)
    × (t'.num_enabled_registers_grafana
        ≡ foldl (λ n r. n +ℤ r.enable_grafana_write) t.num_enabled_registers_grafana rs)
    × (t'.name ≡ t.name)
    × (t'.meter_registers ≡ t.meter_registers)
    × (t'.influx_write_mult ≡ t.influx_write_mult)

and_assoc : (a b c : Bool) → ((a && b) && c) ≡ (a && (b && c))
and_assoc true b c = refl
and_assoc false b c = refl

and_true : (a : Bool) → a ≡ (a && true)
and_true true = refl
and_true false = refl

count_registers_lem : (rs : List MeterRegister) (t : MeterType) → Counts rs t (count_registers rs t)
unfolding count_registers
count_registers_lem [] t = (and_true t.is_formula_only, refl, refl, refl, refl, refl, refl)
count_registers_lem (r ∷ rs) t =
    let next = record t {
      is_formula_only = t.is_formula_only && r.is_formula_only;
      num_enabled_registers_influx = t.num_enabled_registers_influx +ℤ r.enable_influx_write;
      num_enabled_registers_mqtt = t.num_enabled_registers_mqtt +ℤ r.enable_mqtt_write;
      num_enabled_registers_grafana = t.num_enabled_registers_grafana +ℤ r.enable_grafana_write;
    } in
    let (formulas, influx, mqtt, grafana, name, registers, mult) = count_registers_lem rs next in
    (
      formulas ∙ and_assoc t.is_formula_only r.is_formula_only (all_formulas rs),
      influx,
      mqtt,
      grafana,
      name,
      registers,
      mult,
    )

-- A type of a section that has ended, behind the earlier types.
abbrev pub IsCompleteType : List MeterType → MeterType → Type 0
IsCompleteType types t =
    (is_given t.name ≡ true) × IsType types t × (has_no_registers t ≡ false) × IsCounted t

-- What a section for a type leaves of `n`, and that it adds a complete type.
abbrev pub TypeRead : {D : Type 0} → List MeterType → ℕ → ℤ × List MeterType → Parser D → Type 0
TypeRead types n o pa =
    IsTable pa.tokens
    × (size pa < n)
    × (ends_section o.0 ≡ true)
    × (t : MeterType) × (o.1 ≡ types ++ t ∷ [])
    × IsCompleteType types t

module _ {D : Type 0} (alloc : ℕ → Bool) (scan_float : Bytes → Option D)
    (types : List MeterType) where
  abbrev IsGood : TypeSection → Type 0
  IsGood s = IsType types s.type

  named_type : (t : MeterType) → not (is_given t.name) ≡ false → is_given t.name ≡ true
  named_type t h = ground arith

  counted_type-IsCompleteType :
      (t : MeterType)
      → is_given t.name ≡ true
      → has_no_registers t ≡ false
      → IsType types t
      → IsCompleteType types (counted_type t)
  counted_type-IsCompleteType t named full (named', registers, mult) =
      let start = record t {
        is_formula_only = true;
        num_enabled_registers_influx = pos 0;
        num_enabled_registers_mqtt = pos 0;
        num_enabled_registers_grafana = pos 0;
      } in
      let (formulas, influx, mqtt, grafana, name, same, mult') =
        count_registers_lem t.meter_registers start in
      let back = sym same in
      (
        subst (λ n. is_given n ≡ true) (sym name) named,
        (
          subst (IsName types) (sym name) named',
          subst IsRegisters back registers,
          subst IsMult (sym mult') mult,
        ),
        subst (λ (rs : List MeterRegister). elim rs [ [] ↦ true | r ∷ rs ↦ false ] ≡ false) back
            full,
        (
          formulas ∙ ap all_formulas back,
          influx ∙ ap (total (λ r. r.enable_influx_write)) back,
          mqtt ∙ ap (total (λ r. r.enable_mqtt_write)) back,
          grafana ∙ ap (total (λ r. r.enable_grafana_write)) back,
        ),
      )

  -- Let no word of the table stand for a comma or an end of line, the fuel be more than what is
  -- left of the file, and the global multiplier be 0 or at least 2. Then `parseMeterType` does not
  -- run out of fuel. If it comes back, where it does not end the program by an error or its lexer
  -- does what C leaves undefined, it has left less of the file and stands at a section or the end of
  -- the file, and it has put exactly one type behind the earlier ones: the type has a name of allowed
  -- characters that no earlier type has, and at least one register; the names of its registers are
  -- of allowed characters and pairwise different, and a register that is a formula only has a
  -- formula; its multiplier is 0 or at least 2; its flag and its counts are those of its registers.
  pub parse_meter_type-Ends :
      (fuel : ℕ) (mqttprefix : Bytes) (influx_write_mult : ℤ) (pa : Parser D)
      → IsTable pa.tokens
      → size pa < fuel
      → IsMult influx_write_mult
      → Ends
          (TypeRead types (size pa))
          (parse_meter_type alloc scan_float fuel mqttprefix influx_write_mult types pa)
  unfolding parse_meter_type
  parse_meter_type-Ends fuel mqttprefix mult pa t f m =
      let Q = TypeRead {D = D} types (size pa) in
      Ends-bind (λ u pa1. Leaves (size pa) tk_eol pa1) Q _ _
        (expect-Ends alloc scan_float tk_eol (size pa) pa (t, omega arith))
        (λ u pa1 (t1, l1, less1).
          Ends-bind (Leaves (size pa1)) Q _ _
            (next_token-Ends alloc scan_float (size pa1) pa1 (t1, omega arith))
            (λ tk pa2 l2.
              let smaller : size pa1 < size pa = less1 refl in
              Ends-bind (Section IsGood (size pa1)) Q _ _
                (entries-Ends alloc scan_float IsGood (parse_register alloc scan_float)
                  (type_key alloc scan_float types) (parse_register-Ends alloc scan_float types)
                  (type_key-Keeps alloc scan_float types) fuel (size pa1) tk
                  (new_type_section mqttprefix mult) pa2 l2.0 (left-Leaves (size pa1) tk pa2 l2)
                  (omega arith) (tt, tt, m))
                (λ (o : ℤ × TypeSection) pa3 ((t3, l3), end, ok).
                  refuse-then-Ends Q (not (is_given o.1.type.name)) _ pa3 (λ named.
                    refuse-then-Ends Q (has_no_registers o.1.type) _ pa3 (λ full. (
                      t3,
                      omega arith,
                      end,
                      counted_type o.1.type,
                      refl,
                      counted_type-IsCompleteType o.1.type (named_type o.1.type named) full ok,
                    ))))))
