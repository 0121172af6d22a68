-- ===== src/Config/Expect/Laws.antt =====
-- What the parserExpect functions leave of the file: they end, and what is behind an end of line or a
-- comma is less.
use emmbus2influx.Base.{
  ℕ, ◌+◌, ◌≤◌, ◌<◌, ◌&&◌, not, ◌≡◌, refl, subst, eqb_ℤ_iff, Bool, true, false, Option, if_cases,
  if◌then◌else◌, Bytes, ℤ, eqb_ℤ, arith,
}
use emmbus2influx.Config.Lexer.{
  tk_eol, tk_intval, tk_strval, Parser, Lexed, token, parser_error, fault, get_token,
}
use emmbus2influx.Config.Lexer.Branches.{size, separates, IsTable, Leaves, Lexes}
use emmbus2influx.Config.Lexer.Tokens.{get_token-Lexes}
use emmbus2influx.Config.Expect.{
  Parsed, parsed, stopped, overrun, unfinished, Reads, bind, ◌>>=◌, ◌>>◌, done, stop, refuse,
  int_value, str_value, of_lexed, next_token, tk_comma, tk_equal, expect, expect_or_eol, expect_int,
  expect_str, end_entry,
}

-- The fuel is enough, and a value and a parser that come back are as required.
abbrev pub Ends : {D A : Type 0} → (A → Parser D → Type 0) → Parsed D A → Type 0
Ends Q (parsed a pa) = Q a pa
Ends Q stopped = Unit {0}
Ends Q overrun = Unit {0}
Ends Q unfinished = ⊥

-- No more than `n` is left.
abbrev pub Within : {D : Type 0} → ℕ → Parser D → Type 0
Within n pa = IsTable pa.tokens × (size pa ≤ n)

-- It leaves no more than there was, and gives a value as required.
pub record Keeps {D A : Type 0} (P : A → Type 0) (m : Reads D A) : Type 0 where
  pub run : (n : ℕ) (pa : Parser D) → Within n pa → Ends (λ a pa'. Within n pa' × P a) (m pa)

pub Ends-bind :
    {D A B : Type 0} (P : A → Parser D → Type 0) (Q : B → Parser D → Type 0) (r : Parsed D A)
    (f : A → Reads D B)
    → Ends P r
    → ((a : A) (pa : Parser D) → P a pa → Ends Q (f a pa))
    → Ends Q (bind r f)
Ends-bind P Q (parsed a pa) f h k = k a pa h
Ends-bind P Q stopped f h k = tt
Ends-bind P Q overrun f h k = tt
Ends-bind P Q unfinished f h k = absurd h

pub Ends-weaken :
    {D A : Type 0} (P Q : A → Parser D → Type 0) (r : Parsed D A)
    → Ends P r
    → ((a : A) (pa : Parser D) → P a pa → Q a pa)
    → Ends Q r
Ends-weaken P Q (parsed a pa) h k = k a pa h
Ends-weaken P Q stopped h k = tt
Ends-weaken P Q overrun h k = tt
Ends-weaken P Q unfinished h k = h

pub Keeps-bind :
    {D A B : Type 0} (P : A → Type 0) (Q : B → Type 0) (m : Reads D A) (f : A → Reads D B)
    → Keeps P m
    → ((a : A) → P a → Keeps Q (f a))
    → Keeps Q (m >>= f)
Keeps-bind P Q m f h k = record {
  run = λ n pa w.
      Ends-bind (λ a pa'. Within n pa' × P a) _ (m pa) f (h.run n pa w)
        (λ a pa' (w', p). (k a p).run n pa' w');
}

pub done-Keeps : {D A : Type 0} (P : A → Type 0) (a : A) → P a → Keeps {D = D} P (done a)
done-Keeps P a p = record { run = λ n pa w. (w, p) }

pub stop-Keeps : {D A : Type 0} (P : A → Type 0) → Keeps {D = D} P stop
stop-Keeps P = record { run = λ n pa w. tt }

pub refuse-Ends :
    {D : Type 0} (Q : Unit {0} → Parser D → Type 0) (b : Bool) (pa : Parser D)
    → (b ≡ false → Q tt pa)
    → Ends Q (refuse b pa)
refuse-Ends Q true pa h = tt
refuse-Ends Q false pa h = h refl

pub refuse-then-Ends :
    {D A : Type 0} (Q : A → Parser D → Type 0) (b : Bool) (k : Reads D A) (pa : Parser D)
    → (b ≡ false → Ends Q (k pa))
    → Ends Q ((refuse b >> k) pa)
refuse-then-Ends Q true k pa h = tt
refuse-then-Ends Q false k pa h = h refl

refuse-same : (tk wanted : ℤ) → not (eqb_ℤ tk wanted) ≡ false → tk ≡ wanted
refuse-same tk wanted h = let same = eqb_ℤ_iff tk wanted in ground arith

pub refuse-Keeps : {D : Type 0} (b : Bool) → Keeps {D = D} (λ u. b ≡ false) (refuse b)
refuse-Keeps true = record { run = λ n pa w. tt }
refuse-Keeps false = record { run = λ n pa w. (w, refl) }

pub refuse-then :
    {D A : Type 0} (Q : A → Type 0) (b : Bool) (k : Reads D A)
    → (b ≡ false → Keeps Q k)
    → Keeps Q (refuse b >> k)
refuse-then Q true k h = record { run = λ n pa w. tt }
refuse-then Q false k h = record { run = λ n pa w. (h refl).run n pa w }

abbrev pub Any : {A : Type 0} → A → Type 0
Any a = Unit {0}

pub int_value-Keeps : {D : Type 0} → Keeps {D = D} Any int_value
int_value-Keeps = record { run = λ n pa w. (w, tt) }

pub str_value-Keeps : {D : Type 0} → Keeps {D = D} Any str_value
str_value-Keeps = record { run = λ n pa w. (w, tt) }

-- What is to be read at the beginning of an entry; its token has been read.
abbrev pub left : {D : Type 0} → ℤ → Parser D → ℕ
left tk pa = size pa + (if eqb_ℤ tk tk_eol then 1 else 0)

pub left-Leaves : {D : Type 0} (n : ℕ) (tk : ℤ) (pa : Parser D) → Leaves n tk pa → left tk pa ≤ n
left-Leaves n tk pa (t, h, less) = ground arith

module _ {D : Type 0} (alloc : ℕ → Bool) (scan_float : Bytes → Option D) where
  of_lexed-Ends : (n : ℕ) (r : Lexed D) → Lexes n r → Ends (Leaves n) (of_lexed r)
  of_lexed-Ends n (token tk pa) h = h
  of_lexed-Ends n parser_error h = tt
  of_lexed-Ends n fault h = tt

  pub next_token-Ends :
      (n : ℕ) (pa : Parser D) → Within n pa → Ends (Leaves n) (next_token alloc scan_float pa)
  unfolding next_token
  next_token-Ends n pa (t, left) =
      of_lexed-Ends n (get_token alloc scan_float pa) (get_token-Lexes alloc scan_float n pa t left)

  pub next_token-Keeps : Keeps Any (next_token alloc scan_float)
  next_token-Keeps = record {
    run = λ n pa w.
        Ends-weaken (Leaves n) _ (next_token alloc scan_float pa) (next_token-Ends n pa w)
          (λ tk pa' (t, left, less). ((t, left), tt));
  }

  -- A token that ends a line or parts two options is behind it.
  pub expect-Ends :
      (wanted : ℤ) (n : ℕ) (pa : Parser D)
      → Within n pa
      → Ends (λ u pa'. Leaves n wanted pa') (expect alloc scan_float wanted pa)
  unfolding expect
  expect-Ends wanted n pa w =
      Ends-bind (Leaves n) _ (next_token alloc scan_float pa) _ (next_token-Ends n pa w)
        (λ tk pa' h.
          refuse-Ends (λ u. Leaves n wanted) (not (eqb_ℤ tk wanted)) pa'
            (λ other. subst (λ tk. Leaves n tk pa') (refuse-same tk wanted other) h))

  pub expect-Keeps : (wanted : ℤ) → Keeps Any (expect alloc scan_float wanted)
  expect-Keeps wanted = record {
    run = λ n pa w.
        Ends-weaken (λ u pa'. Leaves n wanted pa') _ (expect alloc scan_float wanted pa)
          (expect-Ends wanted n pa w) (λ u pa' (t, left, less). ((t, left), tt));
  }

  pub expect_int-Keeps : Keeps Any (expect_int alloc scan_float)
  unfolding expect_int
  expect_int-Keeps =
      Keeps-bind Any Any _ _ (expect-Keeps tk_equal)
        (λ u v. Keeps-bind Any Any _ _ (expect-Keeps tk_intval) (λ u v. int_value-Keeps))

  pub expect_str-Keeps : Keeps Any (expect_str alloc scan_float)
  unfolding expect_str
  expect_str-Keeps =
      Keeps-bind Any Any _ _ (expect-Keeps tk_equal)
        (λ u v. Keeps-bind Any Any _ _ (expect-Keeps tk_strval) (λ u v. str_value-Keeps))

  -- a key with a number, and one with a text
  pub number-Keeps :
      {S : Type 0} (P : S → Type 0) (f : ℤ → S)
      → ((n : ℤ) → P (f n))
      → Keeps P (expect_int alloc scan_float >>= λ n. done (f n))
  number-Keeps P f ok = Keeps-bind Any P _ _ expect_int-Keeps (λ n v. done-Keeps P (f n) (ok n))

  pub text-Keeps :
      {S : Type 0} (P : S → Type 0) (f : Bytes → S)
      → ((text : Bytes) → P (f text))
      → Keeps P (expect_str alloc scan_float >>= λ text. done (f text))
  text-Keeps P f ok =
      Keeps-bind Any P _ _ expect_str-Keeps (λ text v. done-Keeps P (f text) (ok text))

  one_of :
      (tk : ℤ) → (not (eqb_ℤ tk tk_comma) && not (eqb_ℤ tk tk_eol)) ≡ false → separates tk ≡ true
  one_of tk h = ground arith

  -- Behind a comma or the end of a line, less is left.
  pub expect_or_eol-Ends :
      (n : ℕ) (pa : Parser D)
      → Within n pa
      → Ends
          (λ tk pa'. IsTable pa'.tokens × (size pa' < n))
          (expect_or_eol alloc scan_float tk_comma pa)
  unfolding expect_or_eol
  expect_or_eol-Ends n pa w =
      Ends-bind (Leaves n) _ (next_token alloc scan_float pa) _ (next_token-Ends n pa w)
        (λ tk pa' (t, left, less).
          Ends-bind (λ u pa''. IsTable pa''.tokens × (size pa'' < n)) _ _ _
            (refuse-Ends (λ u pa''. IsTable pa''.tokens × (size pa'' < n)) _ pa'
              (λ other. (t, less (one_of tk other))))
            (λ u pa'' h. h))

  -- Behind the line of an entry, less is left.
  pub end_entry-Ends :
      (n : ℕ) (tk : ℤ) (pa : Parser D)
      → Within n pa
      → (eqb_ℤ tk tk_eol ≡ true → size pa < n)
      → Ends (λ tk' pa'. IsTable pa'.tokens × (left tk' pa' < n)) (end_entry alloc scan_float tk pa)
  unfolding end_entry
  end_entry-Ends n tk pa (t, h) less =
      let Line = λ (u : Unit {0}) (pa' : Parser D). IsTable pa'.tokens × (size pa' < n) in
      Ends-bind Line _ ((if eqb_ℤ tk tk_eol then done tt else expect alloc scan_float tk_eol) pa) _
        (if_cases (λ (m : Reads D (Unit {0})). Ends Line (m pa)) (eqb_ℤ tk tk_eol) _ _
          (λ end. (t, less end))
          (λ other.
            Ends-weaken (λ u pa'. Leaves n tk_eol pa') _ (expect alloc scan_float tk_eol pa)
              (expect-Ends tk_eol n pa (t, h)) (λ u pa' l. (l.0, l.2 refl))))
        (λ u pa' (t', h').
          Ends-weaken (Leaves (size pa')) _ (next_token alloc scan_float pa')
            (next_token-Ends (size pa') pa' (t', omega arith))
            (λ tk' pa'' l. (l.0, omega (arith, left-Leaves (size pa') tk' pa'' l))))
