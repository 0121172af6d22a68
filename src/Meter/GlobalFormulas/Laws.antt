-- ===== src/Meter/GlobalFormulas/Laws.antt =====
-- What the formulas of the meters leave of each meter: a formula may assign to the registers of any
-- enabled meter, but to nothing else.
use emmbus2influx.Base.{
  ℕ, zero, suc, ◌==◌, ◌≡◌, ◌⊎◌, inl, inr, refl, sym, ap, subst, true, false, Option, none, some,
  List, [], ◌∷◌, map, get_elem?, if_either, if◌then◌else◌, Bytes, is_zero, Bool-cases,
}
use mathlib.Core.Option.{some-injective, some-ne-none}
use emmbus2influx.Meter.Places.{modify_at, get_elem?-modify_at}
use emmbus2influx.Meter.Query.{Formulas, store_values}
use emmbus2influx.Meter.GlobalFormulas.{
  store_all, set_formula, eval_with, eval_formula, eval_formulas, global_variables,
}
use emmbus2influx.Meter.{MeterRegisterRead, MeterFormula, Meter}

-- A register with another current value.
abbrev pub with_value : {D : Type 0} → D → MeterRegisterRead D → MeterRegisterRead D
with_value v rr = record rr { fvalue = v }

-- Registers that differ in their current values at most.
abbrev pub SameButValues :
    {D : Type 0} → List (MeterRegisterRead D) → List (MeterRegisterRead D) → Type 0
SameButValues {D} rs rs' = (v : D) → map (with_value v) rs ≡ map (with_value v) rs'

store_values-Same :
    {D : Type 0} (vs : List D) (rs : List (MeterRegisterRead D))
    → SameButValues rs (store_values vs rs).1
unfolding store_values
store_values-Same vs [] = λ v. refl
store_values-Same [] (rr ∷ rs) = λ v. refl
store_values-Same (w ∷ vs) (rr ∷ rs) =
    λ v. ap (λ (l : List (MeterRegisterRead _)). with_value v rr ∷ l) (store_values-Same vs rs v)

module _ {D : Type 0} (Q : Meter D → Type 0) where
  -- The meter at a place has a property.
  abbrev pub Has : ℕ → List (Meter D) → Type 0
  Has i ms = (m : Meter D) × (get_elem? ms i ≡ some m) × Q m

  -- So has the one of a result, if there is one.
  abbrev pub HasIn : ℕ → Option (List (Meter D)) → Type 0
  HasIn i none = Unit {0}
  HasIn i (some ms) = Has i ms

  -- The property stays with new values in the registers of an enabled meter.
  abbrev pub StaysStored : Type 0
  StaysStored =
      (m : Meter D) (rs : List (MeterRegisterRead D))
      → is_zero m.disabled ≡ true
      → SameButValues m.register_read rs
      → Q m
      → Q (record m { register_read = rs })

  module _ (stored : StaysStored) where
    store_all-Has : (vs : List D) (ms : List (Meter D)) (i : ℕ) → Has i ms → Has i (store_all vs ms)
    unfolding store_all
    store_all-Has vs [] i (m, h, q) = absurd (some-ne-none m (sym h))
    store_all-Has vs (x ∷ ms) zero (m, h, q) =
        let here = subst Q (sym (some-injective x m h)) q in
        elim (Bool-cases (is_zero x.disabled)) [
          | inl on ↦ rw on (
            record x { register_read = (store_values vs x.register_read).1 },
            refl,
            stored x _ on (store_values-Same vs x.register_read) here,
          )
          | inr off ↦ rw off (x, refl, here)
        ]
    store_all-Has vs (x ∷ ms) (suc i) (m, h, q) =
        if_either (Has (suc i)) (is_zero x.disabled) _ _
          (store_all-Has (store_values vs x.register_read).0 ms i (m, h, q))
          (store_all-Has vs ms i (m, h, q))

    module _ (P : Formulas D) where
      -- The property stays with a new value of a formula, or this is another meter's.
      abbrev pub StaysSet : ℕ → ℕ → Type 0
      StaysSet k i =
          ((k == i) ≡ false) ⊎ ((j : ℕ) (v : D) (m : Meter D) → Q m → Q (set_formula P j v m))

      set-Has :
          (k j i : ℕ) (v : D) (ms : List (Meter D))
          → StaysSet k i
          → Has i ms
          → Has i (modify_at k (set_formula P j v) ms)
      set-Has k j i v ms s (m, h, q) = (
        if k == i then set_formula P j v m else m,
        get_elem?-modify_at (set_formula P j v) k i ms m h,
        (elim s [ inl other ↦ rw other q | inr set ↦ if_either Q (k == i) _ _ (set j v m q) q ]),
      )

      eval_with-Has :
          (k j i : ℕ) (text : Bytes) (ms : List (Meter D)) (vars : List (Bytes × D))
          → StaysSet k i
          → Has i ms
          → HasIn i (eval_with P k j text ms vars)
      unfolding eval_with
      eval_with-Has k j i text ms vars s h =
          if_either (HasIn i) (P.can_define (map (λ v. v.0) vars)) _ _ (go (P.eval vars text)) tt
        where
          go :
              (o : Option D)
              → HasIn i (elim o [
                | none ↦ none
                | some v ↦
                    some (modify_at k (set_formula P j v) (store_all (P.assigned vars text) ms))
              ])
          go none = tt
          go (some v) = set-Has k j i v _ s (store_all-Has (P.assigned vars text) ms i h)

      eval_formula-Has :
          (k j i : ℕ) (text : Bytes) (ms : List (Meter D))
          → StaysSet k i
          → Has i ms
          → HasIn i (eval_formula P k j text ms)
      unfolding eval_formula
      eval_formula-Has k j i text ms s h = go (global_variables ms)
        where
          go :
              (o : Option (List (Bytes × D)))
              → HasIn i (elim o [ none ↦ none | some vars ↦ eval_with P k j text ms vars ])
          go none = tt
          go (some vars) = eval_with-Has k j i text ms vars s h

      pub eval_formulas-Has :
          (k j i : ℕ) (fs : List (MeterFormula D)) (ms : List (Meter D))
          → StaysSet k i
          → Has i ms
          → HasIn i (eval_formulas P k j fs ms)
      unfolding eval_formulas
      eval_formulas-Has k j i [] ms s h = h
      eval_formulas-Has k j i (mf ∷ fs) ms s h =
          go (eval_formula P k j mf.formula ms) (eval_formula-Has k j i mf.formula ms s h)
            (λ ms' h'. eval_formulas-Has k (suc j) i fs ms' s h')
        where
          go :
              (o : Option (List (Meter D)))
              → HasIn i o
              → ((ms' : List (Meter D)) → Has i ms' → HasIn i (eval_formulas P k (suc j) fs ms'))
              → HasIn i (elim o [ none ↦ none | some ms' ↦ eval_formulas P k (suc j) fs ms' ])
          go none h later = tt
          go (some ms') h later = later ms' h
