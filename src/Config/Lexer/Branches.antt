-- ===== src/Config/Lexer/Branches.antt =====
-- What the branches of `parserGetToken` leave of the file.
use emmbus2influx.Base.{
  ℕ, ◌+◌, ◌*◌, ◌≤◌, ◌<◌, ◌==◌, ◌&&◌, ◌||◌, ◌≡◌, refl, Bool, true, false, Option, none, some, List,
  [], ◌∷◌, ◌++◌, length, ltb, if_either, elim_either, if◌then◌else◌, Bytes, same_text, ℤ, pos,
  eqb_ℤ, arith,
}
use emmbus2influx.Base.{Run, ok, ret, ◌>>=◌}
use emmbus2influx.Config.Buf.{Buf, buf_init, add_chars}
use emmbus2influx.Config.Lexer.{
  Parser, Lexed, token, parser_error, fault, tk_eol, tk_strval, skip_noise, collect, collect_name,
  collect_number, char_token, find_token, lex_number, lex_zero, lex_digits, lex_string, lex_section,
  lex_name, lex_at, tk_intval, tk_floatval, tk_section, tk_ident, char_value, Scanned, no_number,
  undefined, scanned, scan_int, collected, is_digit,
}
use emmbus2influx.Config.Lexer.Size.{
  skip_noise-length, collect-length, collect_name-length, collect_number-length, collect_hex-length,
}

-- What is left to read: the rest of the line, and twice the rest of a file that is open.
abbrev pub size : {D : Type 0} → Parser D → ℕ
size pa = length pa.curr_pos + elim pa.file [ none ↦ 0 | some bytes ↦ 1 + 2 * length bytes ]

-- The tokens that end a line or part two options.
abbrev pub separates : ℤ → Bool
separates tk = eqb_ℤ tk tk_eol || eqb_ℤ tk (pos 1)

-- A table in which no word stands for such a token.
abbrev pub IsTable : List (Bytes × ℤ) → Type 0
IsTable [] = Unit {0}
IsTable (t ∷ ts) = (separates t.1 ≡ false) × IsTable ts

-- What a call leaves of at most `n`: less behind a token that separates.
abbrev pub Leaves : {D : Type 0} → ℕ → ℤ → Parser D → Type 0
Leaves n tk pa = IsTable pa.tokens × (size pa ≤ n) × (separates tk ≡ true → size pa < n)

abbrev pub Lexes : {D : Type 0} → ℕ → Lexed D → Type 0
Lexes n (token tk pa) = Leaves n tk pa
Lexes n parser_error = Unit {0}
Lexes n fault = Unit {0}

abbrev IsPlain : Option ℤ → Type 0
IsPlain none = Unit {0}
IsPlain (some tk) = separates tk ≡ false

find_token-IsPlain :
    (name : Bytes) (ts : List (Bytes × ℤ)) → IsTable ts → IsPlain (find_token name ts)
unfolding find_token
find_token-IsPlain name [] h = tt
find_token-IsPlain name (t ∷ ts) (plain, h) =
    if_either IsPlain (same_text name t.0) _ _ plain (find_token-IsPlain name ts h)

-- A token that does not separate, with no more left.
pub plain :
    {T : Type 0} {m n : ℕ} (tk : ℤ)
    → T
    → m ≤ n
    → separates tk ≡ false
    → T × (m ≤ n) × (separates tk ≡ true → m < n)
plain tk t h e = (t, h, λ s. cc)

module _ {D : Type 0} (alloc : ℕ → Bool) (scan_float : Bytes → Option D) where
  collected-Lexes :
      (text : Bytes) (next : Lexed D) (n : ℕ)
      → Lexes n next
      → Lexes n (collected alloc scan_float text next)
  unfolding collected
  collected-Lexes text next n h = go (buf_init alloc 256 >>= add_chars alloc text)
    where
      go :
          (r : Run Buf)
          → Lexes n
              (elim r [ ok b ↦ next | ret r b ↦ parser_error | emmbus2influx.Base.fault ↦ fault ])
      go (ok b) = h
      go (ret r b) = tt
      go emmbus2influx.Base.fault = tt

  scanned-Lexes :
      (pa : Parser D) (r : Scanned) (n : ℕ)
      → IsTable pa.tokens
      → size pa ≤ n
      → Lexes n (elim r [
        | no_number ↦ parser_error
        | undefined ↦ fault
        | scanned k ↦ token tk_intval (record pa { i_val = k })
      ])
  scanned-Lexes pa no_number n t h = tt
  scanned-Lexes pa undefined n t h = tt
  scanned-Lexes pa (scanned k) n t h = plain tk_intval t h refl

  lex_number-Lexes :
      (pa : Parser D) (prefix : Bytes) (value : Bytes → Scanned) (cs : Bytes) (n : ℕ)
      → IsTable pa.tokens
      → size (record pa { curr_pos = cs }) ≤ n
      → Lexes n (lex_number alloc scan_float pa prefix value cs)
  unfolding lex_number
  lex_number-Lexes pa prefix value cs n t h =
      let shorter = collect_number-length cs in
      let (digits, points, rest) = collect_number cs in
      collected-Lexes (prefix ++ digits) _ n (
        if_either (Lexes n) (points == 0) _ _
          (scanned-Lexes (record pa { curr_pos = rest }) (value digits) n t (omega arith))
          (if_either (Lexes n) (ltb 1 points) _ _ tt (
            elim_either (Lexes n) (scan_float (prefix ++ digits)) _ _ tt
              (λ x. plain tk_floatval t (omega arith) refl))))

  lex_zero-Lexes :
      (pa : Parser D) (cs : Bytes) (n : ℕ)
      → IsTable pa.tokens
      → size (record pa { curr_pos = cs }) ≤ n
      → Lexes n (lex_zero alloc scan_float pa cs)
  unfolding lex_zero
  lex_zero-Lexes pa [] n t h =
      lex_number-Lexes pa (b'0' ∷ []) (λ d. scan_int false (b'0' ∷ d)) [] n t h
  lex_zero-Lexes pa (c ∷ cs) n t h =
      let shorter = collect_hex-length 0 cs in
      if_either (Lexes n) (c == b'x') _ _
        (collected-Lexes [] _ n (plain tk_intval t (omega arith) refl))
        (if_either (Lexes n) (c == b'-') _ _
          (lex_number-Lexes pa (b'0' ∷ b'-' ∷ []) (λ d. scanned (pos 0)) cs n t (omega arith))
          (lex_number-Lexes pa (b'0' ∷ []) (λ d. scan_int false (b'0' ∷ d)) (c ∷ cs) n t h))

  lex_digits-Lexes :
      (pa : Parser D) (c : ℕ) (cs : Bytes) (n : ℕ)
      → IsTable pa.tokens
      → size (record pa { curr_pos = c ∷ cs }) ≤ n
      → Lexes n (lex_digits alloc scan_float pa c cs)
  unfolding lex_digits
  lex_digits-Lexes pa c cs n t h =
      if_either (Lexes n) (c == b'0') _ _ (lex_zero-Lexes pa cs n t (omega arith)) (
        if_either (Lexes n) (c == b'-') _ _
          (lex_number-Lexes pa (b'-' ∷ []) (scan_int true) cs n t (omega arith))
          (lex_number-Lexes pa [] (scan_int false) (c ∷ cs) n t h))

  closed_string-Lexes :
      (pa : Parser D) (value rest : Bytes) (n : ℕ)
      → IsTable pa.tokens
      → size (record pa { curr_pos = rest }) ≤ n
      → Lexes n (elim rest [
        | [] ↦ parser_error
        | c ∷ cs ↦
            if c == b'"'
            then token tk_strval (record pa { curr_pos = cs; str_val = value })
            else parser_error
      ])
  closed_string-Lexes pa value [] n t h = tt
  closed_string-Lexes pa value (c ∷ cs) n t h =
      if_either (Lexes n) (c == b'"') _ _ (plain tk_strval t (omega arith) refl) tt

  lex_string-Lexes :
      (pa : Parser D) (cs : Bytes) (n : ℕ)
      → IsTable pa.tokens
      → size (record pa { curr_pos = cs }) ≤ n
      → Lexes n (lex_string alloc scan_float pa cs)
  unfolding lex_string
  lex_string-Lexes pa cs n t h =
      let shorter = collect-length b'"' cs in
      collected-Lexes (collect b'"' cs).0 _ n
        (closed_string-Lexes pa (collect b'"' cs).0 (collect b'"' cs).1 n t (omega arith))

  closed_section-Lexes :
      (pa : Parser D) (value rest : Bytes) (n : ℕ)
      → IsTable pa.tokens
      → size (record pa { curr_pos = rest }) ≤ n
      → Lexes n (elim rest [
        | [] ↦ token tk_section (record pa { curr_pos = []; str_val = value })
        | d ∷ ds ↦
            if eqb_ℤ (char_value d) tk_eol
            then token tk_section (record pa { curr_pos = d ∷ ds; str_val = value })
            else parser_error
      ])
  closed_section-Lexes pa value [] n t h = (plain tk_section t h refl)
  closed_section-Lexes pa value (d ∷ ds) n t h =
      if_either (Lexes n) (eqb_ℤ (char_value d) tk_eol) _ _ (plain tk_section t h refl) tt

  bracket-Lexes :
      (pa : Parser D) (value rest : Bytes) (n : ℕ)
      → IsTable pa.tokens
      → size (record pa { curr_pos = rest }) ≤ n
      → Lexes n (elim rest [
        | [] ↦ parser_error
        | c ∷ cs ↦
            if c == b']'
            then elim (skip_noise cs) [
              | [] ↦ token tk_section (record pa { curr_pos = []; str_val = value })
              | d ∷ ds ↦
                  if eqb_ℤ (char_value d) tk_eol
                  then token tk_section (record pa { curr_pos = d ∷ ds; str_val = value })
                  else parser_error
            ]
            else parser_error
      ])
  bracket-Lexes pa value [] n t h = tt
  bracket-Lexes pa value (c ∷ cs) n t h =
      let shorter = skip_noise-length cs in
      if_either (Lexes n) (c == b']') _ _
        (closed_section-Lexes pa value (skip_noise cs) n t (omega arith)) tt

  lex_section-Lexes :
      (pa : Parser D) (cs : Bytes) (n : ℕ)
      → IsTable pa.tokens
      → size (record pa { curr_pos = cs }) ≤ n
      → Lexes n (lex_section alloc scan_float pa cs)
  unfolding lex_section
  lex_section-Lexes pa cs n t h =
      let shorter = collect-length b']' cs in
      collected-Lexes (collect b']' cs).0 _ n
        (bracket-Lexes pa (collect b']' cs).0 (collect b']' cs).1 n t (omega arith))

  found-Lexes :
      (pa pa' : Parser D) (found : Option ℤ) (n : ℕ)
      → IsTable pa.tokens
      → IsTable pa'.tokens
      → IsPlain found
      → size pa ≤ n
      → size pa' ≤ n
      → Lexes n (elim found [ some tk ↦ token tk pa | none ↦ token tk_ident pa' ])
  found-Lexes pa pa' none n t t' p h h' = (plain tk_ident t' h' refl)
  found-Lexes pa pa' (some tk) n t t' p h h' = (plain tk t h p)

  lex_name-Lexes :
      (pa : Parser D) (cs : Bytes) (n : ℕ)
      → IsTable pa.tokens
      → size (record pa { curr_pos = cs }) ≤ n
      → Lexes n (lex_name alloc scan_float pa cs)
  unfolding lex_name
  lex_name-Lexes pa cs n t h =
      let shorter = collect_name-length pa.char_tokens cs in
      let (name, rest) = collect_name pa.char_tokens cs in
      collected-Lexes name _ n (
        found-Lexes (record pa { curr_pos = rest }) (record pa { curr_pos = rest; str_val = name })
          (find_token name pa.tokens) n t t (find_token-IsPlain name pa.tokens t) (omega arith)
          (omega arith))

  pub lex_at-Lexes :
      (pa : Parser D) (c : ℕ) (cs : Bytes) (n : ℕ)
      → IsTable pa.tokens
      → size (record pa { curr_pos = c ∷ cs }) ≤ n
      → Lexes n (lex_at alloc scan_float pa c cs)
  unfolding lex_at
  lex_at-Lexes pa c cs n t h =
      elim_either (Lexes n) (char_token c pa.char_tokens) _ _
        (if_either (Lexes n) (pa.first_token_in_line && c == b'[') _ _
          (lex_section-Lexes pa cs n t (omega arith))
          (if_either (Lexes n) (is_digit c || c == b'-') _ _ (lex_digits-Lexes pa c cs n t h) (
            if_either (Lexes n) (c == b'"') _ _ (lex_string-Lexes pa cs n t (omega arith))
              (lex_name-Lexes pa (c ∷ cs) n t h))))
        (λ k. (t, omega arith, λ s. omega arith))
