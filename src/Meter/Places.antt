-- ===== src/Meter/Places.antt =====
-- A change of the element at one place of a list: the assignment through a pointer to a meter, a
-- register or a formula, which the model knows by its place.
use mathlib.Core.Option
use emmbus2influx.Base.{
  ℕ, zero, suc, ◌==◌, ◌≡◌, ap, ◌∙◌, some, List, [], ◌∷◌, get_elem?, if◌then◌else◌, arith, false,
}

abbrev pub modify_at {ℓ} : {A : Type ℓ} → ℕ → (A → A) → List A → List A
modify_at i f [] = []
modify_at zero f (x ∷ xs) = f x ∷ xs
modify_at (suc i) f (x ∷ xs) = x ∷ modify_at i f xs

suc_==_suc : (j i : ℕ) → (j == i) ≡ (suc j == suc i)
suc_==_suc j i = ground arith

pub get_elem?-modify_at :
    {A : Type 0} (f : A → A) (j i : ℕ) (xs : List A) (x : A)
    → get_elem? xs i ≡ some x
    → get_elem? (modify_at j f xs) i ≡ some (if j == i then f x else x)
get_elem?-modify_at f j i [] x h = ground arith
get_elem?-modify_at f zero zero (y ∷ xs) x h = ap (Option.map f) h
get_elem?-modify_at f zero (suc i) (y ∷ xs) x h =
    let other : (0 == suc i) ≡ false = ground arith in rw other h
get_elem?-modify_at f (suc j) zero (y ∷ xs) x h =
    let other : (suc j == 0) ≡ false = ground arith in rw other h
get_elem?-modify_at f (suc j) (suc i) (y ∷ xs) x h =
    get_elem?-modify_at f j i xs x h ∙ ap (λ b. some (if b then f x else x)) (suc_==_suc j i)
