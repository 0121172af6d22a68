-- ===== src/Meter/Window/Extremes.antt =====
-- What the ways `max` and `min` of `influxMultProcessing_t` give over the values between two
-- writes.
use mathlib.Core.List.{Memᴰ}
use mathlib.Core.List.Memᴰ.{head, tail, not-nil}
use emmbus2influx.Base.{◌≡◌, refl, sym, subst, inl, inr, false, List, [], ◌∷◌, Bool-cases}
use emmbus2influx.Meter.Floats.{Floats, IsOrdered}
use emmbus2influx.Meter.Values.{mult_process}
use emmbus2influx.Meter.{pr_max, pr_min}
use emmbus2influx.Meter.Window.{window}

module _ {D : Type 0} (F : Floats D) (O : IsOrdered F) where
  open F use {less}

  -- `M` is not below any of the values.
  abbrev pub IsAbove : D → List D → Type 0
  IsAbove M xs = (x : D) → Memᴰ x xs → less M x ≡ false

  -- `M` is not above any of the values.
  abbrev pub IsBelow : D → List D → Type 0
  IsBelow M xs = (x : D) → Memᴰ x xs → less x M ≡ false

  IsAbove-cons : {M y : D} {xs : List D} → less M y ≡ false → IsAbove M xs → IsAbove M (y ∷ xs)
  IsAbove-cons {M} h hs x (head e) = subst (λ z. less M z ≡ false) (sym e) h
  IsAbove-cons h hs x (tail m) = hs x m

  IsBelow-cons : {M y : D} {xs : List D} → less y M ≡ false → IsBelow M xs → IsBelow M (y ∷ xs)
  IsBelow-cons {M} h hs x (head e) = subst (λ z. less z M ≡ false) (sym e) h
  IsBelow-cons h hs x (tail m) = hs x m

  IsAbove-nil : {M : D} → IsAbove M []
  IsAbove-nil x m = absurd (not-nil m)

  IsBelow-nil : {M : D} → IsBelow M []
  IsBelow-nil x m = absurd (not-nil m)

  add_second : {M u v : D} {vs : List D} → Memᴰ M (v ∷ vs) → Memᴰ M (v ∷ u ∷ vs)
  add_second (head e) = head e
  add_second (tail h) = tail (tail h)

  -- Where `<` is as on numbers, without NaN: the value to be written of a register or formula
  -- that is processed by `max`, from all values since the last write, is one of them and is
  -- below none of them.
  pub window-max :
      (v : D) (vs : List D)
      → IsAbove (window F pr_max v vs) (v ∷ vs) × Memᴰ (window F pr_max v vs) (v ∷ vs)
  unfolding mult_process
  window-max v [] = (IsAbove-cons (O.irreflexive v) IsAbove-nil, head refl)
  window-max v (x ∷ vs) = elim (Bool-cases (less x v)) [
    | inl e ↦
        let kept = window-max v vs in
        let above_v = kept.0 v (head refl) in
        rw e (
          IsAbove-cons above_v (
              IsAbove-cons (O.negative_trans _ v x above_v (O.asymmetric x v e))
                (λ y m. kept.0 y (tail m))),
          add_second kept.1,
        )
    | inr e ↦
        let taken = window-max x vs in
        let above_x = taken.0 x (head refl) in
        rw e (IsAbove-cons (O.negative_trans _ x v above_x e) taken.0, tail taken.1)
  ]

  -- Where `<` is as on numbers, without NaN: the value to be written of a register or formula
  -- that is processed by `min`, from all values since the last write, is one of them and is
  -- above none of them.
  pub window-min :
      (v : D) (vs : List D)
      → IsBelow (window F pr_min v vs) (v ∷ vs) × Memᴰ (window F pr_min v vs) (v ∷ vs)
  unfolding mult_process
  window-min v [] = (IsBelow-cons (O.irreflexive v) IsBelow-nil, head refl)
  window-min v (x ∷ vs) = elim (Bool-cases (less v x)) [
    | inl e ↦
        let kept = window-min v vs in
        let below_v = kept.0 v (head refl) in
        rw e (
          IsBelow-cons below_v (
              IsBelow-cons (O.negative_trans x v _ (O.asymmetric v x e) below_v)
                (λ y m. kept.0 y (tail m))),
          add_second kept.1,
        )
    | inr e ↦
        let taken = window-min x vs in
        let below_x = taken.0 x (head refl) in
        rw e (IsBelow-cons (O.negative_trans v x _ e below_x) taken.0, tail taken.1)
  ]
