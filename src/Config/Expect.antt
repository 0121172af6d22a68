-- ===== src/Config/Expect.antt =====
-- What the sections of the configuration file are read with: the parserExpect functions of parser.c
-- and `parserExpectEqual` of meterDef.cpp. An error of the parser ends the program.
pub mod Laws
use emmbus2influx.Base.{
  ℕ, zero, suc, ◌&&◌, ◌||◌, not, Bool, true, false, Option, none, some, List, [], ◌∷◌,
  if◌then◌else◌, Bytes, codes, contains, ℤ, pos, eqb_ℤ,
}
use emmbus2influx.Config.Lexer.{
  tk_eof, tk_eol, tk_intval, tk_strval, tk_section, Parser, Lexed, token, parser_error, fault,
  get_token,
}

-- A value and the parser, the end by an error, a store outside a block or a call that C leaves
-- undefined, or the end of the fuel.
pub data Parsed (D A : Type 0) : Type 0 where
  parsed : A → Parser D → Parsed D A
  stopped : Parsed D A
  overrun : Parsed D A
  unfinished : Parsed D A

abbrev pub Reads : Type 0 → Type 0 → Type 0
Reads D A = Parser D → Parsed D A

abbrev pub bind : {D A B : Type 0} → Parsed D A → (A → Reads D B) → Parsed D B
bind (parsed a pa) f = f a pa
bind stopped f = stopped
bind overrun f = overrun
bind unfinished f = unfinished

infixl 5 ◌>>=◌ ◌>>◌
abbrev pub ◌>>=◌ : {D A B : Type 0} → Reads D A → (A → Reads D B) → Reads D B
◌>>=◌ m f pa = bind (m pa) f

abbrev pub ◌>>◌ : {D A B : Type 0} → Reads D A → Reads D B → Reads D B
m >> k = m >>= λ _. k

abbrev pub done : {D A : Type 0} → A → Reads D A
done a pa = parsed a pa

-- `parserError`
abbrev pub stop : {D A : Type 0} → Reads D A
stop pa = stopped

-- a call of `parserError` under a condition
abbrev pub refuse : {D : Type 0} → Bool → Reads D (Unit {0})
refuse true = stop
refuse false = done tt

-- `pa->iVal` and `pa->strVal`
abbrev pub int_value : {D : Type 0} → Reads D ℤ
int_value pa = parsed pa.i_val pa

abbrev pub str_value : {D : Type 0} → Reads D Bytes
str_value pa = parsed pa.str_val pa

abbrev pub of_lexed : {D : Type 0} → Lexed D → Parsed D ℤ
of_lexed (token tk pa) = parsed tk pa
of_lexed parser_error = stopped
of_lexed fault = overrun

-- `MUPARSER_ALLOWED_CHARS`
abbrev pub muparser_allowed_chars : Bytes
muparser_allowed_chars = codes "0123456789_abcdefghijklmnopqrstuvwxyzABCDEFGHIJKLMNOPQRSTUVWXYZ."

-- the test of `checkAllowedChars`
unfoldable pub all_allowed : Bytes → Bool
unfolding contains
all_allowed [] = true
all_allowed (c ∷ cs) = contains muparser_allowed_chars c && all_allowed cs

-- `checkAllowedChars`
abbrev pub check_allowed_chars : {D : Type 0} → Bytes → Reads D (Unit {0})
check_allowed_chars name = refuse (not (all_allowed name))

-- TK_COMMA and TK_EQUAL, the places in CHAR_TOKENS
abbrev pub tk_comma : ℤ
tk_comma = pos 1

abbrev pub tk_equal : ℤ
tk_equal = pos 5

module _ {D : Type 0} (alloc : ℕ → Bool) (scan_float : Bytes → Option D) where
  -- `parserGetToken`
  unfoldable pub next_token : Reads D ℤ
  unfolding get_token
  next_token pa = of_lexed (get_token alloc scan_float pa)

  -- `parserExpect`
  unfoldable pub expect : ℤ → Reads D (Unit {0})
  unfolding next_token
  expect wanted = do tk ← next_token; refuse (not (eqb_ℤ tk wanted))

  -- `parserExpectOrEOL`
  unfoldable pub expect_or_eol : ℤ → Reads D ℤ
  unfolding next_token
  expect_or_eol wanted = do
    tk ← next_token
    refuse (not (eqb_ℤ tk wanted) && not (eqb_ℤ tk tk_eol))
    done tk

  -- `parserExpectSection`, on fuel
  unfoldable pub expect_section : ℕ → Reads D ℤ
  unfolding next_token
  expect_section zero pa = unfinished
  expect_section (suc fuel) pa =
      (next_token >>= λ tk. elim (eqb_ℤ tk tk_eol) [
        | true ↦ expect_section fuel
        | false ↦ refuse (not (eqb_ℤ tk tk_eof) && not (eqb_ℤ tk tk_section)) >> done tk
      ])
        pa

  -- `parserExpectEqual`, and the value behind it
  unfoldable pub expect_int : Reads D ℤ
  unfolding expect
  expect_int = do expect tk_equal; expect tk_intval; int_value

  unfoldable pub expect_str : Reads D Bytes
  unfolding expect
  expect_str = do expect tk_equal; expect tk_strval; str_value

  -- the end of an entry: behind anything but the end of its line, the end of the line
  unfoldable pub end_entry : ℤ → Reads D ℤ
  unfolding expect next_token
  end_entry tk = do (if eqb_ℤ tk tk_eol then done tt else expect tk_eol); next_token
