-- ===== src/Meter/Floats.antt =====
-- The operations on `double` that the program uses. The language has them; a development in which
-- there are no floating-point numbers takes them as a parameter.
use emmbus2influx.Base.{Bool, true, false, ◌≡◌, Bytes, ℤ}

pub record Floats (D : Type 0) : Type 0 where
  pub zero_value : D
  pub less : D → D → Bool
  pub divide : D → ℤ → D
  pub times : D → ℤ → D
  -- `(a + b) / 2.0`
  pub half_sum : D → D → D
  -- `strtod`, with what it leaves unread not looked at
  pub of_text : Bytes → D
  -- the conversion to `int`
  pub to_int : D → ℤ

-- What `<` satisfies on values that are not NaN.
pub record IsOrdered {D : Type 0} (F : Floats D) : Type 0 where
  pub irreflexive : (a : D) → F.less a a ≡ false
  pub negative_trans : (a b c : D) → F.less a b ≡ false → F.less b c ≡ false → F.less a c ≡ false
  pub asymmetric : (a b : D) → F.less a b ≡ true → F.less b a ≡ false
