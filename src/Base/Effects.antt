-- ===== src/Base/Effects.antt =====
-- What a C function that works on a state and may return early does: it falls through with the
-- state, it returns a code, or it writes outside the block that it owns.
use emmbus2influx.Base.Int.{ℤ}

pub data Run {ℓ} (S : Type ℓ) : Type ℓ where
  ok : S → Run S
  ret : ℤ → S → Run S
  fault : Run S

module _ {ℓ} {S : Type ℓ} where
  infixl 5 ◌>>=◌
  abbrev pub ◌>>=◌ : Run S → (S → Run S) → Run S
  ok s >>= f = f s
  ret r s >>= f = ret r s
  fault >>= f = fault

-- Total correctness: the run falls through, and its state has the property.
abbrev pub Ensures {ℓ} : {S : Type ℓ} → (S → Type 0) → Run S → Type 0
Ensures P (ok s) = P s
Ensures P (ret r s) = ⊥
Ensures P fault = ⊥

pub Ensures-bind {ℓ} :
    {S : Type ℓ} (P Q : S → Type 0) (m : Run S) (f : S → Run S)
    → Ensures P m
    → ((s : S) → P s → Ensures Q (f s))
    → Ensures Q (m >>= f)
Ensures-bind P Q (ok s) f h k = k s h
Ensures-bind P Q (ret r s) f h k = absurd h
Ensures-bind P Q fault f h k = absurd h

pub Ensures-mono {ℓ} :
    {S : Type ℓ} (P Q : S → Type 0) (m : Run S) → ((s : S) → P s → Q s) → Ensures P m → Ensures Q m
Ensures-mono P Q (ok s) k h = k s h
Ensures-mono P Q (ret r s) k h = absurd h
Ensures-mono P Q fault k h = absurd h
