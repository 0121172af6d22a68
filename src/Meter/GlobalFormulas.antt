-- ===== src/Meter/GlobalFormulas.antt =====
-- The formulas of a meter over the registers of all meters: `initParser` and `executeMeterFormulas`
-- of mbusread.cpp. A meter is its place in the list of meters. `none` is the end of the program by
-- `exit`, a store behind the array of a name, or a meter without a name, whose null pointer is read.
pub mod Laws
use emmbus2influx.Base.{
  ℕ, suc, ◌+◌, Option, none, some, List, [], ◌∷◌, ◌++◌, map, length, ltb, if◌then◌else◌, Bytes,
  codes, is_zero,
}
use emmbus2influx.Meter.Places.{modify_at}
use emmbus2influx.Meter.Query.{Formulas, store_values}
use emmbus2influx.Meter.{MeterRegisterRead, MeterFormula, Meter}

-- the name of a variable, put together in an array of 255 bytes: the last argument of `strncat` is
-- no bound on the whole
abbrev pub full_name : {D : Type 0} → Meter D → Bytes → Option Bytes
full_name m register = elim m.name [
  | none ↦ none
  | some text ↦
      if ltb (length text + 1 + length register) 255
      then some (text ++ (codes "." ++ register))
      else none
]

-- the variables that stand for the registers of a meter
unfoldable pub meter_variables :
    {D : Type 0} → Meter D → List (MeterRegisterRead D) → Option (List (Bytes × D))
meter_variables m [] = some []
meter_variables m (rr ∷ rest) =
    let later = meter_variables m rest in
    elim (full_name m rr.register_def.name) [
      | none ↦ none
      | some name ↦ elim later [ none ↦ none | some vars ↦ some ((name, rr.fvalue) ∷ vars) ]
    ]

-- `initParser`: the variables are the registers of the enabled meters
unfoldable pub global_variables : {D : Type 0} → List (Meter D) → Option (List (Bytes × D))
unfolding meter_variables
global_variables [] = some []
global_variables (m ∷ rest) =
    let later = global_variables rest in
    if is_zero m.disabled
    then elim (meter_variables m m.register_read) [
      | none ↦ none
      | some own ↦ elim later [ none ↦ none | some vars ↦ some (own ++ vars) ]
    ]
    else later

-- the values of the variables, put into the registers they point to
unfoldable pub store_all : {D : Type 0} → List D → List (Meter D) → List (Meter D)
unfolding store_values
store_all vs [] = []
store_all vs (m ∷ rest) =
    let (left, registers) = store_values vs m.register_read in
    if is_zero m.disabled
    then record m { register_read = registers } ∷ store_all left rest
    else m ∷ store_all vs rest

module _ {D : Type 0} (P : Formulas D) where
  -- `mf->fvalue = …`, for the formula at place `j` of a meter
  abbrev pub set_formula : ℕ → D → Meter D → Meter D
  set_formula j v m = record m {
    meter_formula = modify_at j (λ mf. record mf { fvalue = v }) m.meter_formula;
  }

  -- the evaluation of a text as formula `j` of the meter at place `i`, with the variables
  unfoldable pub eval_with :
      ℕ → ℕ → Bytes → List (Meter D) → List (Bytes × D) → Option (List (Meter D))
  unfolding store_all
  eval_with i j text meters vars =
      if P.can_define (map (λ v. v.0) vars)
      then elim (P.eval vars text) [
        | none ↦ none
        | some v ↦ some (modify_at i (set_formula j v) (store_all (P.assigned vars text) meters))
      ]
      else none

  unfoldable pub eval_formula : ℕ → ℕ → Bytes → List (Meter D) → Option (List (Meter D))
  unfolding eval_with global_variables
  eval_formula i j text meters = elim (global_variables meters) [
    | none ↦ none
    | some vars ↦ eval_with i j text meters vars
  ]

  -- `executeMeterFormulas` for the meter at place `i`: the loop over its formulas, from place `j` on
  unfoldable pub eval_formulas :
      ℕ → ℕ → List (MeterFormula D) → List (Meter D) → Option (List (Meter D))
  unfolding eval_formula
  eval_formulas i j [] meters = some meters
  eval_formulas i j (mf ∷ rest) meters = elim (eval_formula i j mf.formula meters) [
    | none ↦ none
    | some meters' ↦ eval_formulas i (suc j) rest meters'
  ]
