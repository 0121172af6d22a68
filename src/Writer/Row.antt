-- ===== src/Writer/Row.antt =====
-- What the row of a meter has to hold, from its settings and values, written down without the code
-- that makes the row, and that `influxAppendData` makes its calls with just these parts.
use emmbus2influx.Base.{
  ◌≡◌, refl, sym, ap, ◌∙◌, ◌||◌, Bool, true, false, Option, none, some, List, [], ◌∷◌, ◌++◌, map,
  append_assoc, if◌then◌else◌, Bytes, ℤ, pos, eqb_ℤ, is_zero,
}
use emmbus2influx.Influx.Line.{Arg, meas, tag, field_float, field_integer, timestamp}
use emmbus2influx.Meter.Floats.{Floats}
use emmbus2influx.Meter.{
  TypeForce, force_none, force_int, force_float, MeterRegisterRead, MeterFormula, Meter,
}
use emmbus2influx.Writer.{
  or_else, is_force_int, register_call, register_calls, formula_call, first_call, later_calls,
}

-- The parts of several calls in a row.
abbrev pub concat : {D : Type 0} → List (List (Arg D)) → List (Arg D)
concat [] = []
concat (call ∷ calls) = call ++ concat calls

-- The first text that is there.
abbrev pub first_text : List (Option Bytes) → Bytes
first_text [] = []
first_text (none ∷ rest) = first_text rest
first_text (some text ∷ rest) = text

-- The elements that pass a test.
abbrev pub chosen : {A : Type 0} → (A → Bool) → List A → List A
chosen test [] = []
chosen test (x ∷ xs) = let later = chosen test xs in if test x then x ∷ later else later

-- Whether the settings ask for an integer.
abbrev pub asks_integer : TypeForce → Bool
asks_integer force_int = true
asks_integer force_none = false
asks_integer force_float = false

-- A setting that is on.
abbrev pub is_on : ℤ → Bool
is_on n = if eqb_ℤ n (pos 0) then false else true

module _ {D : Type 0} (F : Floats D) where
  -- A value under its name, as an integer or with its number of decimals.
  abbrev pub value_arg : Bytes → Bool → D → ℤ → Arg D
  value_arg name true v decimals = field_integer name (F.to_int v)
  value_arg name false v decimals = field_float name v decimals

  abbrev pub register_arg : MeterRegisterRead D → Arg D
  register_arg rr =
      value_arg rr.register_def.name (rr.is_int || asks_integer rr.register_def.force_type)
        rr.fvalue_influx rr.register_def.decimals

  abbrev pub formula_arg : MeterFormula D → Arg D
  formula_arg mf = value_arg mf.name (asks_integer mf.force_type) mf.fvalue_influx mf.decimals

  -- The row: the meter's measurement or the general one; the tag, whose name is the meter's or the
  -- general one, and whose value is the meter's name for InfluxDB or its name; a field for every
  -- register that is enabled for InfluxDB and one for every formula; the time.
  abbrev pub row_args : Bytes → Bytes → Meter D → ℤ → List (Arg D)
  row_args measurement tag_name m time =
      meas (first_text (m.influx_measurement ∷ some measurement ∷ []))
        ∷ tag (first_text (m.influx_tag_name ∷ some tag_name ∷ []))
            (first_text (m.iname ∷ m.name ∷ []))
        ∷ map register_arg (
            chosen (λ (rr : MeterRegisterRead D). is_on rr.register_def.enable_influx_write)
              m.register_read)
      ++ (map formula_arg m.meter_formula ++ timestamp time ∷ [])

  same_integer : (t : TypeForce) → is_force_int t ≡ asks_integer t
  same_integer force_none = refl
  same_integer force_int = refl
  same_integer force_float = refl

  pub value_arg-if :
      (name : Bytes) (b : Bool) (v : D) (decimals : ℤ)
      → (if b then field_integer name (F.to_int v) else field_float name v decimals)
        ≡ value_arg name b v decimals
  value_arg-if name true v decimals = refl
  value_arg-if name false v decimals = refl

  -- the field that the code makes of a register
  pub register_arg-if :
      (rr : MeterRegisterRead D)
      → (if rr.is_int || is_force_int rr.register_def.force_type
          then field_integer rr.register_def.name (F.to_int rr.fvalue_influx)
          else field_float rr.register_def.name rr.fvalue_influx rr.register_def.decimals)
        ≡ register_arg rr
  register_arg-if rr =
      value_arg-if rr.register_def.name _ rr.fvalue_influx rr.register_def.decimals
      ∙ ap
          (λ b.
            value_arg rr.register_def.name (rr.is_int || b) rr.fvalue_influx
              rr.register_def.decimals)
          (same_integer rr.register_def.force_type)

  -- the field that the code makes of a formula
  pub formula_arg-if :
      (mf : MeterFormula D)
      → (if is_force_int mf.force_type
          then field_integer mf.name (F.to_int mf.fvalue_influx)
          else field_float mf.name mf.fvalue_influx mf.decimals)
        ≡ formula_arg mf
  formula_arg-if mf =
      value_arg-if mf.name _ mf.fvalue_influx mf.decimals
      ∙ ap (λ b. value_arg mf.name b mf.fvalue_influx mf.decimals) (same_integer mf.force_type)

  pub concat-append : (a b : List (List (Arg D))) → concat (a ++ b) ≡ concat a ++ concat b
  concat-append [] b = refl
  concat-append (x ∷ a) b =
      ap (◌++◌ x) (concat-append a b) ∙ sym (append_assoc x (concat a) (concat b))

  -- one element of a list, and the part it gives if its setting, which is off for `b`, is on
  concat-picked :
      {A : Type 0} (f : A → Arg D) (b : Bool) (part : Arg D) (x : A) (calls : List (List (Arg D)))
      (xs : List A)
      → part ≡ f x
      → concat calls ≡ map f xs
      → concat ((if b then [] else (part ∷ []) ∷ []) ++ calls)
        ≡ map f (if (if b then false else true) then x ∷ xs else xs)
  concat-picked f true part x calls xs e h = h
  concat-picked f false part x calls xs e h = λ i. e i ∷ h i

  pub concat-chosen :
      {A : Type 0} (f : A → Arg D) (b : Bool) (part : Arg D) (x : A) (calls : List (List (Arg D)))
      (xs : List A)
      → part ≡ f x
      → concat calls ≡ map f xs
      → concat (if b then calls else (part ∷ []) ∷ calls)
        ≡ map f (if (if b then false else true) then x ∷ xs else xs)
  concat-chosen f true part x calls xs e h = h
  concat-chosen f false part x calls xs e h = λ i. e i ∷ h i

  module _ (measurement tag_name : Bytes) where
    pub first_text-or_else :
        (o : Option Bytes) (t : Bytes) → first_text (o ∷ some t ∷ []) ≡ or_else o t
    first_text-or_else none t = refl
    first_text-or_else (some s) t = refl

    pub first_text-names : (o p : Option Bytes) → first_text (o ∷ p ∷ []) ≡ or_else o (or_else p [])
    first_text-names none none = refl
    first_text-names none (some s) = refl
    first_text-names (some s) p = refl

    registers-concat :
        (rs : List (MeterRegisterRead D))
        → concat (register_calls F measurement tag_name rs)
          ≡ map register_arg
              (chosen (λ (rr : MeterRegisterRead D). is_on rr.register_def.enable_influx_write) rs)
    unfolding register_calls register_call
    registers-concat [] = refl
    registers-concat (rr ∷ rs) =
        concat-picked register_arg (is_zero rr.register_def.enable_influx_write) _ rr _ _
          (register_arg-if rr) (registers-concat rs)

    formulas-concat :
        (fs : List (MeterFormula D))
        → concat (map (formula_call F measurement tag_name) fs) ≡ map formula_arg fs
    unfolding formula_call
    formulas-concat [] = refl
    formulas-concat (mf ∷ fs) = λ i. formula_arg-if mf i ∷ formulas-concat fs i

    -- The calls of `influxAppendData` have the parts of the row.
    pub row_args-calls :
        (m : Meter D) (time : ℤ)
        → row_args measurement tag_name m time
          ≡ first_call F measurement tag_name m
            ++ concat (later_calls F measurement tag_name time m)
    unfolding later_calls
    row_args-calls m time =
        let registers = register_calls F measurement tag_name m.register_read in
        let formulas = map (formula_call F measurement tag_name) m.meter_formula in
        let end : List (List (Arg D)) = (timestamp time ∷ []) ∷ [] in
        let fields : concat (registers ++ (formulas ++ end))
            ≡ map register_arg (
                chosen (λ (rr : MeterRegisterRead D). is_on rr.register_def.enable_influx_write)
                  m.register_read)
              ++ (map formula_arg m.meter_formula ++ timestamp time ∷ []) =
          concat-append registers (formulas ++ end) ∙ (λ i.
            registers-concat m.register_read i
            ++ (concat-append formulas end
                  ∙ ap (λ fs. fs ++ concat end) (formulas-concat m.meter_formula))
                i) in
        λ i.
          meas (first_text-or_else m.influx_measurement measurement i)
          ∷ tag (first_text-or_else m.influx_tag_name tag_name i)
              (first_text-names m.iname m.name i)
          ∷ sym fields i
