-- ===== src/Config/Lexer/Laws.antt =====
-- What `parserGetToken` gives for a string, a comment and a number.
use emmbus2influx.Base.{
  ℕ, ◌+◌, ◌-◌, ◌*◌, ◌≤◌, ◌<◌, ◌==◌, ◌&&◌, ◌||◌, ◌≡◌, ◌≢◌, refl, ap, ◌∙◌, Bool, true, false, Option,
  none, some, [], ◌∷◌, ◌++◌, length, leb, ltb, ◌^◌, Bytes, pos, arith,
}
use emmbus2influx.Config.Buf.{buf_init}
use emmbus2influx.Config.Buf.Laws.{add_chars-holds}
use emmbus2influx.Config.Lexer.{
  Parser, tk_intval, lex_digits, lex_number, scan_int, scan_value, scan_digits, Lexed, collected,
  collect_number, token, tk_strval, skip_noise, char_token, collect, lex_string, lex_at, get_token,
  is_digit,
}

-- The text of a string: no NUL, no quote, and no byte that a signed `char` takes for negative.
abbrev pub IsQuotable : Bytes → Type 0
IsQuotable [] = Unit {0}
IsQuotable (c ∷ cs) = (c < 128) × (c ≢ b'"') × IsQuotable cs

-- Bytes that `skipNoise` passes.
abbrev pub IsBlank : Bytes → Type 0
IsBlank [] = Unit {0}
IsBlank (c ∷ cs) = (c ≤ 32) × IsBlank cs

module _ {D : Type 0} (alloc : ℕ → Bool) (scan_float : Bytes → Option D)
    (first_block : alloc 256 ≡ true) where
  -- A text that fits the first block is collected.
  collected-short :
      (text : Bytes) (next : Lexed D)
      → length text < 256
      → collected alloc scan_float text next ≡ next
  unfolding collected buf_init
  collected-short text next h =
      let held = add_chars-holds alloc text [] 256 (omega arith) in
      rw (collected, first_block, held) refl

  collect-quoted :
      (s rest : Bytes) → IsQuotable s → collect b'"' (s ++ b'"' ∷ rest) ≡ (s, b'"' ∷ rest)
  unfolding collect
  collect-quoted [] rest h = refl
  collect-quoted (c ∷ s) rest (small, other, h) =
      let pass : (leb 128 c || c == b'"') ≡ false = ground arith in
      rw (pass, collect-quoted s rest h) refl

  blanks_skip :
      (blanks cs : Bytes) (c : ℕ) → IsBlank blanks → 32 < c → skip_noise (blanks ++ c ∷ cs) ≡ c ∷ cs
  unfolding skip_noise
  blanks_skip [] cs c h k = let full : leb c 32 ≡ false = ground arith in rw full refl
  blanks_skip (b ∷ bs) cs c (small, h) k =
      let empty : leb b 32 ≡ true = ground arith in rw empty (blanks_skip bs cs c h k)

  get_token-at :
      (pa : Parser D) (bytes cs : Bytes) (c : ℕ)
      → pa.file ≡ some bytes
      → skip_noise pa.curr_pos ≡ c ∷ cs
      → c < 128
      → get_token alloc scan_float pa
        ≡ lex_at alloc scan_float (record pa { curr_pos = c ∷ cs }) c cs
  unfolding get_token
  get_token-at pa bytes cs c f n small =
      let positive : leb 128 c ≡ false = ground arith in
      rw (get_token, f, n, positive)
        (λ i. lex_at alloc scan_float (record pa { curr_pos = c ∷ cs; file = f i }) c cs)

  no_section : (b : Bool) → (b && false) ≡ false
  no_section true = refl
  no_section false = refl

  lex_at-quote :
      (pa : Parser D) (s rest : Bytes)
      → char_token b'"' pa.char_tokens ≡ none
      → IsQuotable s
      → length s < 256
      → lex_at alloc scan_float pa b'"' (s ++ b'"' ∷ rest)
        ≡ token tk_strval (record pa { curr_pos = rest; str_val = s })
  unfolding lex_at lex_string
  lex_at-quote pa s rest t q short =
      rw (lex_at, t, no_section pa.first_token_in_line, lex_string, collect-quoted s rest q)
        (collected-short s _ short ∙ λ i.
          token tk_strval (record pa { curr_pos = rest; str_val = (collect-quoted s rest q i).0 }))

  -- Where the quote is not a token of its own, and there is memory for 256 bytes: behind any blanks,
  -- a string of at most 255 bytes in quotes, with no quote and no byte from 128 on within, is read
  -- as the token of a string, its value is the text between the quotes, and the text behind the
  -- second quote is left.
  pub get_token-string :
      (pa : Parser D) (bytes blanks s rest : Bytes)
      → pa.file ≡ some bytes
      → char_token b'"' pa.char_tokens ≡ none
      → IsBlank blanks
      → IsQuotable s
      → length s ≤ 255
      → pa.curr_pos ≡ blanks ++ b'"' ∷ (s ++ b'"' ∷ rest)
      → get_token alloc scan_float pa ≡ token tk_strval (record pa { curr_pos = rest; str_val = s })
  get_token-string pa bytes blanks s rest f t bl q short h =
      let found = ap (skip_noise) h ∙ blanks_skip blanks _ b'"' bl (omega arith) in
      get_token-at pa bytes _ b'"' f found (omega arith)
      ∙ lex_at-quote (record pa { curr_pos = b'"' ∷ (s ++ b'"' ∷ rest) }) s rest t q (omega arith)

-- The digits of a number, and what may follow it.
abbrev pub IsDigits : Bytes → Type 0
IsDigits [] = Unit {0}
IsDigits (c ∷ cs) = (b'0' ≤ c) × (c ≤ b'9') × IsDigits cs

abbrev pub EndsNumber : Bytes → Type 0
EndsNumber [] = Unit {0}
EndsNumber (c ∷ cs) = (is_digit c ≡ false) × (c ≢ b'.')

-- The number that digits behind `acc` stand for.
abbrev pub value : ℕ → Bytes → ℕ
value acc [] = acc
value acc (c ∷ cs) = value (acc * 10 + (c - b'0')) cs

module _ {D : Type 0} (alloc : ℕ → Bool) (scan_float : Bytes → Option D)
    (first_block : alloc 256 ≡ true) where
  digit : (c : ℕ) → b'0' ≤ c → c ≤ b'9' → is_digit c ≡ true
  digit c lo hi = ground arith

  collect_number-digits :
      (ds rest : Bytes)
      → IsDigits ds
      → EndsNumber rest
      → collect_number (ds ++ rest) ≡ (ds, 0, rest)
  unfolding collect_number
  collect_number-digits [] [] h e = refl
  collect_number-digits [] (c ∷ cs) h (no_digit, other) =
      let no_point : (c == b'.') ≡ false = ground arith in rw (no_digit, no_point) refl
  collect_number-digits (c ∷ ds) rest (lo, hi, h) e =
      rw (digit c lo hi, collect_number-digits ds rest h e) refl

  scan_digits-value :
      (acc : ℕ) (ds : Bytes) → IsDigits ds → scan_digits acc ds ≡ some (value acc ds)
  unfolding scan_digits
  scan_digits-value acc [] h = refl
  scan_digits-value acc (c ∷ ds) (lo, hi, h) =
      rw (digit c lo hi) (scan_digits-value (acc * 10 + (c - b'0')) ds h)

  lex_digits-value :
      (pa : Parser D) (c : ℕ) (ds rest : Bytes)
      → b'0' < c
      → IsDigits (c ∷ ds)
      → EndsNumber rest
      → length (c ∷ ds) ≤ 255
      → value 0 (c ∷ ds) < 2 ^ 31
      → lex_digits alloc scan_float pa c (ds ++ rest)
        ≡ token tk_intval (record pa { curr_pos = rest; i_val = pos (value 0 (c ∷ ds)) })
  unfolding lex_digits lex_number scan_int scan_value
  lex_digits-value pa c ds rest lead h e short small =
      let no_zero : (c == b'0') ≡ false = ground arith in
      let no_sign : (c == b'-') ≡ false = ground arith in
      let is_int : (ltb (value 0 (c ∷ ds)) (2 ^ 31) || (false && value 0 (c ∷ ds) == 2 ^ 31))
          ≡ true =
        ground arith in
      let all = collect_number-digits (c ∷ ds) rest h e in
      rw (lex_digits, no_zero, no_sign)
        (rw (lex_number, all, scan_int, scan_digits-value 0 (c ∷ ds) h, is_int)
          (collected-short alloc scan_float first_block (c ∷ ds) _ (omega arith) ∙ λ i.
            token tk_intval (record pa { curr_pos = (all i).2; i_val = pos (value 0 (c ∷ ds)) })))

  lex_at-digit :
      (pa : Parser D) (c : ℕ) (cs : Bytes)
      → char_token c pa.char_tokens ≡ none
      → b'0' < c
      → c ≤ b'9'
      → lex_at alloc scan_float pa c cs ≡ lex_digits alloc scan_float pa c cs
  unfolding lex_at
  lex_at-digit pa c cs t lead hi =
      let no_bracket : (c == b'[') ≡ false = ground arith in
      let known : is_digit c ≡ true = ground arith in
      rw
        (
          lex_at,
          t,
          no_bracket,
          no_section alloc scan_float first_block pa.first_token_in_line,
          known,
        )
        refl

  -- Where a digit is no token of its own, and there is memory for 256 bytes: behind any blanks, a
  -- number below 2^31 in at most 255 decimal digits without a leading 0, that ends at no point, is
  -- read as the token of an integer with the value of the digits, and the text behind it is left.
  pub get_token-number :
      (pa : Parser D) (bytes blanks ds rest : Bytes) (c : ℕ)
      → pa.file ≡ some bytes
      → char_token c pa.char_tokens ≡ none
      → IsBlank blanks
      → b'0' < c
      → IsDigits (c ∷ ds)
      → EndsNumber rest
      → length (c ∷ ds) ≤ 255
      → value 0 (c ∷ ds) < 2 ^ 31
      → pa.curr_pos ≡ blanks ++ c ∷ (ds ++ rest)
      → get_token alloc scan_float pa
        ≡ token tk_intval (record pa { curr_pos = rest; i_val = pos (value 0 (c ∷ ds)) })
  get_token-number pa bytes blanks ds rest c f t bl lead h e short small p =
      let found =
        ap skip_noise p
        ∙ blanks_skip alloc scan_float first_block blanks (ds ++ rest) c bl (omega (arith, h.0)) in
      get_token-at alloc scan_float first_block pa bytes (ds ++ rest) c f found (omega (arith, h.1))
      ∙ lex_at-digit (record pa { curr_pos = c ∷ (ds ++ rest) }) c (ds ++ rest) t lead h.1
      ∙ lex_digits-value (record pa { curr_pos = c ∷ (ds ++ rest) }) c ds rest lead h e short small
