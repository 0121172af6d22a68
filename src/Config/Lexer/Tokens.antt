-- ===== src/Config/Lexer/Tokens.antt =====
-- What `parserGetToken` leaves of the file, and that it keeps the tables of tokens.
use emmbus2influx.Base.{
  ℕ, ◌+◌, ◌-◌, ◌*◌, ◌≤◌, ◌<◌, ◌≡◌, refl, Bool, true, false, Option, none, some, [], ◌∷◌, length,
  leb, ltb, if_cases, elim_cases, if◌then◌else◌, Bytes, pos, negsuc, eqb_ℤ, arith, ap,
}
use emmbus2influx.Config.File.{
  ReadLine, no_line, line, overrun, read_line_from_file, before_nul, strip_comment,
}
use emmbus2influx.Config.Lexer.{
  Parser, Lexed, token, parser_error, fault, tk_eof, tk_eol, skip_noise, get_next_line, lex_at,
  end_of_line, get_token, char_value,
}
use emmbus2influx.Config.Lexer.Size.{
  skip_noise-length, before_nul-length, AtMost, strip_comment-AtMost, Splits,
  read_line_from_file-Splits,
}
use emmbus2influx.Config.Lexer.Branches.{size, separates, IsTable, Lexes, plain, lex_at-Lexes}

module _ {D : Type 0} (alloc : ℕ → Bool) (scan_float : Bytes → Option D) where
  -- The next line, from what is left of the file.
  abbrev pub Shrinks : ℕ → Lexed D → Type 0
  Shrinks n (token tk pa) = IsTable pa.tokens × (size pa < n)
  Shrinks n parser_error = Unit {0}
  Shrinks n fault = Unit {0}

  stripped-Shrinks :
      (pa : Parser D) (rest : Bytes) (m n : ℕ) (o : Option Bytes)
      → IsTable pa.tokens
      → AtMost m o
      → m + (1 + 2 * length rest) < n
      → Shrinks n (elim o [
        | none ↦ parser_error
        | some stripped ↦ token (pos 0) (record pa {
          curr_pos = skip_noise stripped;
          curr_line_no = pa.curr_line_no + 1;
          file = some rest;
          first_token_in_line = true;
        })
      ])
  stripped-Shrinks pa rest m n none t a h = tt
  stripped-Shrinks pa rest m n (some cs) t a h =
      let shorter = skip_noise-length cs in (t, omega arith)

  next_line-Shrinks :
      (pa : Parser D) (m n : ℕ) (r : ReadLine)
      → IsTable pa.tokens
      → Splits m r
      → length pa.curr_pos + 2 * m < n
      → Shrinks n (elim r [
        | overrun ↦ fault
        | no_line rest ↦ token (negsuc 0) (record pa { file = none })
        | line text rest ↦ elim (strip_comment false (before_nul text)) [
          | none ↦ parser_error
          | some stripped ↦ token (pos 0) (record pa {
            curr_pos = skip_noise stripped;
            curr_line_no = pa.curr_line_no + 1;
            file = some rest;
            first_token_in_line = true;
          })
        ]
      ])
  next_line-Shrinks pa m n (no_line rest) t s h = (t, omega arith)
  next_line-Shrinks pa m n (line text rest) t (both, less) h =
      let shorter = before_nul-length text in
      let stripped = strip_comment-AtMost false (before_nul text) in
      stripped-Shrinks pa rest _ n (strip_comment false (before_nul text)) t stripped (omega arith)
  next_line-Shrinks pa m n overrun t s h = tt

  size_open :
      (pa : Parser D) (bytes : Bytes)
      → pa.file ≡ some bytes
      → size pa ≡ length pa.curr_pos + (1 + 2 * length bytes)
  size_open pa bytes f =
      ap
        (λ (file : Option Bytes).
          length pa.curr_pos + elim file [ none ↦ 0 | some bytes ↦ 1 + 2 * length bytes ])
        f

  pub get_next_line-Shrinks :
      (pa : Parser D) (bytes : Bytes) (n : ℕ)
      → pa.file ≡ some bytes
      → IsTable pa.tokens
      → size pa ≤ n
      → Shrinks n (get_next_line alloc scan_float pa)
  unfolding get_next_line
  get_next_line-Shrinks pa bytes n f t h =
      let total = size_open pa bytes f in
      rw f (
        next_line-Shrinks pa (length bytes) n (read_line_from_file alloc bytes) t
          (read_line_from_file-Splits alloc bytes) (omega arith))

  eol-Lexes :
      (n : ℕ) (r : Lexed D)
      → Shrinks n r
      → Lexes n
          (elim r [ token rc pa' ↦ token tk_eol pa' | parser_error ↦ parser_error | fault ↦ fault ])
  eol-Lexes n (token rc pa) (t, h) = (t, omega arith, λ s. h)
  eol-Lexes n parser_error h = tt
  eol-Lexes n fault h = tt

  end_of_line-Lexes :
      (pa : Parser D) (bytes : Bytes) (n : ℕ)
      → pa.file ≡ some bytes
      → IsTable pa.tokens
      → size pa ≤ n
      → Lexes n (end_of_line alloc scan_float pa)
  unfolding end_of_line
  end_of_line-Lexes pa bytes n f t h =
      eol-Lexes n (get_next_line alloc scan_float pa) (get_next_line-Shrinks pa bytes n f t h)

  negative-separates : (n : ℕ) → eqb_ℤ (negsuc n) tk_eol ≡ false → separates (negsuc n) ≡ false
  negative-separates n h = ground arith

  char_value-separates :
      (c : ℕ)
      → leb 128 c ≡ true
      → eqb_ℤ (char_value c) tk_eol ≡ false
      → separates (char_value c) ≡ false
  unfolding char_value
  char_value-separates c high =
      let negative : ltb c 128 ≡ false = ground arith in rw negative (negative-separates (255 - c))

  at_token-Lexes :
      (pa : Parser D) (bytes cs : Bytes) (n : ℕ)
      → pa.file ≡ some bytes
      → IsTable pa.tokens
      → size (record pa { curr_pos = cs }) ≤ n
      → Lexes n (elim cs [
        | [] ↦ end_of_line alloc scan_float (record pa { curr_pos = [] })
        | c ∷ cs ↦
            let here = record pa { curr_pos = c ∷ cs } in
            if leb 128 c
            then (if eqb_ℤ (char_value c) tk_eol
                then end_of_line alloc scan_float here
                else token (char_value c) here)
            else lex_at alloc scan_float here c cs
      ])
  at_token-Lexes pa bytes [] n f t h = end_of_line-Lexes (record pa { curr_pos = [] }) bytes n f t h
  at_token-Lexes pa bytes (c ∷ cs) n f t h =
      let here = record pa { curr_pos = c ∷ cs } in
      if_cases (Lexes n) (leb 128 c) _ _
        (λ high.
          if_cases (Lexes n) (eqb_ℤ (char_value c) tk_eol) _ _
            (λ end. end_of_line-Lexes here bytes n f t h)
            (λ other. plain (char_value c) t h (char_value-separates c high other)))
        (λ low. lex_at-Lexes alloc scan_float here c cs n t h)

  -- A token leaves no more to read, and a token that ends a line or parts two options less.
  pub get_token-Lexes :
      (n : ℕ) (pa : Parser D)
      → IsTable pa.tokens
      → size pa ≤ n
      → Lexes n (get_token alloc scan_float pa)
  unfolding get_token
  get_token-Lexes n pa t h =
      let shorter = skip_noise-length pa.curr_pos in
      elim_cases (Lexes n) pa.file _ _ (λ closed. plain tk_eof t h refl)
        (λ bytes opened. at_token-Lexes pa bytes (skip_noise pa.curr_pos) n opened t (omega arith))
