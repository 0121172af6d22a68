-- ===== src/Config/Lexer.antt =====
-- The tokens of the configuration file: parser.c. The text still to be read of the current line is a
-- list of bytes; a `char` is signed, so a byte from 128 on is a negative number.
pub mod Laws
pub mod Size
pub mod Branches
pub mod Tokens
use mathlib.Core.Option
use emmbus2influx.Base.{
  ℕ, zero, suc, ◌+◌, ◌-◌, ◌*◌, ◌%◌, ◌^◌, ◌==◌, ◌&&◌, ◌||◌, not, Bool, true, false, Option, none,
  some, List, [], ◌∷◌, ◌++◌, ltb, leb, if◌then◌else◌, Bytes, same_text, ℤ, pos, negsuc, eqb_ℤ,
  ltb_ℤ,
}
use emmbus2influx.Config.Buf.{buf_init, add_chars}
use emmbus2influx.Base.{Run, ok, ret, ◌>>=◌}
use emmbus2influx.Config.File.{
  ReadLine, no_line, line, overrun, read_line_from_file, before_nul, strip_comment,
}

-- TK_EOF and the other tokens
abbrev pub tk_eof : ℤ
tk_eof = negsuc 9

abbrev pub tk_eol : ℤ
tk_eol = negsuc 10

abbrev pub tk_intval : ℤ
tk_intval = negsuc 11

abbrev pub tk_floatval : ℤ
tk_floatval = negsuc 12

abbrev pub tk_strval : ℤ
tk_strval = negsuc 13

abbrev pub tk_ident : ℤ
tk_ident = negsuc 14

abbrev pub tk_section : ℤ
tk_section = negsuc 15

-- The fields of `parser_t` that the lexer uses; `file` is `none` when it is closed.
pub record Parser (D : Type 0) : Type 0 where
  pub char_tokens : Bytes
  pub tokens : List (Bytes × ℤ)
  pub curr_pos : Bytes
  pub curr_line_no : ℕ
  pub file : Option Bytes
  pub i_val : ℤ
  pub f_val : D
  pub str_val : Bytes
  pub first_token_in_line : Bool

-- A call returns a code and the parser, or the program ends with a message, or its behaviour is not
-- defined: a store leaves its block or goes through a pointer into a block that was given back, or
-- `sscanf` reads a number that is no `int`.
pub data Lexed (D : Type 0) : Type 0 where
  token : ℤ → Parser D → Lexed D
  parser_error : Lexed D
  fault : Lexed D

-- the value of a `char`
unfoldable pub char_value : ℕ → ℤ
char_value c = if ltb c 128 then pos c else negsuc (255 - c)

-- `skipNoise` and `parserSkipNoise`
unfoldable pub skip_noise : Bytes → Bytes
skip_noise [] = []
skip_noise (c ∷ cs) = let later = skip_noise cs in if leb c 32 then later else c ∷ cs

-- `strchr`, as the number of the byte from 1 on
unfoldable pub char_token : ℕ → Bytes → Option ℕ
char_token c [] = none
char_token c (t ∷ ts) =
    let later = char_token c ts in if c == t then some 1 else Option.map (λ n. n + 1) later

-- the loops that collect bytes while `c > 0 && c != close`: what they pass, and what is left
unfoldable pub collect : ℕ → Bytes → Bytes × Bytes
collect close [] = ([], [])
collect close (c ∷ cs) =
    let (text, rest) = collect close cs in
    if leb 128 c || c == close then ([], c ∷ cs) else (c ∷ text, rest)

-- the bytes of a name or a token
unfoldable pub collect_name : Bytes → Bytes → Bytes × Bytes
unfolding char_token
collect_name char_tokens [] = ([], [])
collect_name char_tokens (c ∷ cs) =
    let (text, rest) = collect_name char_tokens cs in
    let stop : Bool = elim (char_token c char_tokens) [ none ↦ false | some n ↦ true ] in
    if leb c 32 || leb 128 c || stop then ([], c ∷ cs) else (c ∷ text, rest)

abbrev pub is_digit : ℕ → Bool
is_digit c = leb b'0' c && leb c b'9'

-- the digits and points of a number, and how many points there are
unfoldable pub collect_number : Bytes → Bytes × ℕ × Bytes
collect_number [] = ([], 0, [])
collect_number (c ∷ cs) =
    let (text, points, rest) = collect_number cs in
    if is_digit c
    then (c ∷ text, points, rest)
    else if c == b'.'
    then (c ∷ text, points + 1, rest)
    else ([], 0, c ∷ cs)

-- `tolower` and `hexNibble`; `none` for a byte that is no hexadecimal digit
unfoldable pub hex_nibble : ℕ → Option ℕ
hex_nibble c =
    if is_digit c
    then some (c - b'0')
    else if leb b'a' c && leb c b'f'
    then some (c - b'a' + 10)
    else if leb b'A' c && leb c b'F'
    then some (c - b'A' + 10)
    else none

-- an `int` from its 32 bits
abbrev pub to_int32 : ℕ → ℤ
to_int32 n = if ltb n (2 ^ 31) then pos n else negsuc (2 ^ 32 - 1 - n)

unfoldable pub collect_hex : ℕ → Bytes → ℕ × Bytes
unfolding hex_nibble
collect_hex acc [] = (acc, [])
collect_hex acc (c ∷ cs) = elim (hex_nibble c) [
  | none ↦ (acc, c ∷ cs)
  | some n ↦ collect_hex ((acc * 16 + n) % 2 ^ 32) cs
]

-- the number that digits stand for
unfoldable pub scan_digits : ℕ → Bytes → Option ℕ
scan_digits acc [] = some acc
scan_digits acc (c ∷ cs) =
    let later = scan_digits (acc * 10 + (c - b'0')) cs in if is_digit c then later else none

-- what `sscanf (text, "%d")` makes of a text: for a number that is no `int`, its behaviour is not
-- defined
pub data Scanned : Type 0 where
  no_number : Scanned
  undefined : Scanned
  scanned : ℤ → Scanned

abbrev pub negated : ℕ → ℤ
negated zero = pos 0
negated (suc n) = negsuc n

-- the number, behind a sign or not, if it is an `int`
unfoldable pub scan_value : Bool → Option ℕ → Scanned
scan_value negative none = no_number
scan_value negative (some n) =
    if ltb n (2 ^ 31) || (negative && n == 2 ^ 31)
    then scanned (if negative then negated n else pos n)
    else undefined

unfoldable pub scan_int : Bool → Bytes → Scanned
unfolding scan_digits scan_value
scan_int negative [] = no_number
scan_int negative (c ∷ cs) = scan_value negative (scan_digits 0 (c ∷ cs))

-- the loop over the list of tokens
unfoldable pub find_token : Bytes → List (Bytes × ℤ) → Option ℤ
find_token name [] = none
find_token name (t ∷ ts) =
    let later = find_token name ts in if same_text name t.0 then some t.1 else later

module _ {D : Type 0} (alloc : ℕ → Bool) (scan_float : Bytes → Option D) where
  -- `parserGetNextLine`: its code and the parser
  unfoldable pub get_next_line : Parser D → Lexed D
  unfolding read_line_from_file before_nul strip_comment skip_noise
  get_next_line pa = elim pa.file [
    | none ↦ token (negsuc 0) pa
    | some bytes ↦ elim (read_line_from_file alloc bytes) [
      | overrun ↦ fault
      | no_line rest ↦ token (negsuc 0) (record pa { file = none })
      | line text rest ↦ elim (strip_comment false (before_nul text)) [
        | none ↦ parser_error
        | some stripped ↦ token (pos 0) (record pa {
          curr_pos = skip_noise stripped;
          curr_line_no = pa.curr_line_no + 1;
          file = some rest;
          first_token_in_line = true;
        })
      ]
    ]
  ]

  -- what a branch gives after it has collected the text in a buffer of 256 bytes; without memory the
  -- program ends
  unfoldable pub collected : Bytes → Lexed D → Lexed D
  unfolding buf_init add_chars
  collected text next = elim (buf_init alloc 256 >>= add_chars alloc text) [
    | ok b ↦ next
    | ret r b ↦ parser_error
    | emmbus2influx.Base.fault ↦ fault
  ]

  -- the digits and points of a number behind `prefix`, whose integer value is `value`
  unfoldable pub lex_number : Parser D → Bytes → (Bytes → Scanned) → Bytes → Lexed D
  unfolding collect_number collected
  lex_number pa prefix value text =
      let (digits, points, rest) = collect_number text in
      collected (prefix ++ digits) (
        if points == 0
        then elim (value digits) [
          | no_number ↦ parser_error
          | undefined ↦ fault
          | scanned n ↦ token tk_intval (record pa { curr_pos = rest; i_val = n })
        ]
        else if ltb 1 points
        then parser_error
        else elim (scan_float (prefix ++ digits)) [
          | none ↦ parser_error
          | some f ↦ token tk_floatval (record pa { curr_pos = rest; f_val = f })
        ])

  -- a number behind its first byte, a 0; of `0-12`, `sscanf` reads the 0
  unfoldable pub lex_zero : Parser D → Bytes → Lexed D
  unfolding lex_number collect_hex scan_int collected
  lex_zero pa [] = lex_number pa (b'0' ∷ []) (λ d. scan_int false (b'0' ∷ d)) []
  lex_zero pa (c ∷ cs) =
      let (n, rest) = collect_hex 0 cs in
      if c == b'x'
      then collected [] (token tk_intval (record pa { curr_pos = rest; i_val = to_int32 n }))
      else if c == b'-'
      then lex_number pa (b'0' ∷ b'-' ∷ []) (λ d. scanned (pos 0)) cs
      else lex_number pa (b'0' ∷ []) (λ d. scan_int false (b'0' ∷ d)) (c ∷ cs)

  -- the branch of a number
  unfoldable pub lex_digits : Parser D → ℕ → Bytes → Lexed D
  unfolding lex_zero lex_number scan_int
  lex_digits pa c cs =
      if c == b'0'
      then lex_zero pa cs
      else if c == b'-'
      then lex_number pa (b'-' ∷ []) (scan_int true) cs
      else lex_number pa [] (scan_int false) (c ∷ cs)

  -- the branch of a string, behind its first quote
  unfoldable pub lex_string : Parser D → Bytes → Lexed D
  unfolding collect collected
  lex_string pa text =
      let (value, rest) = collect b'"' text in
      collected value (elim rest [
        | [] ↦ parser_error
        | c ∷ cs ↦
            if c == b'"'
            then token tk_strval (record pa { curr_pos = cs; str_val = value })
            else parser_error
      ])

  -- the branch of a section, behind its bracket
  unfoldable pub lex_section : Parser D → Bytes → Lexed D
  unfolding collect collected skip_noise char_value
  lex_section pa text =
      let (value, rest) = collect b']' text in
      collected value (elim rest [
        | [] ↦ parser_error
        | c ∷ cs ↦
            if c == b']'
            then elim (skip_noise cs) [
              | [] ↦ token tk_section (record pa { curr_pos = []; str_val = value })
              | d ∷ ds ↦
                  if eqb_ℤ (char_value d) tk_eol
                  then token tk_section (record pa { curr_pos = d ∷ ds; str_val = value })
                  else parser_error
            ]
            else parser_error
      ])

  -- the branch of a token or a name
  unfoldable pub lex_name : Parser D → Bytes → Lexed D
  unfolding collect_name collected find_token
  lex_name pa text =
      let (name, rest) = collect_name pa.char_tokens text in
      collected name (elim (find_token name pa.tokens) [
        | some tk ↦ token tk (record pa { curr_pos = rest })
        | none ↦ token tk_ident (record pa { curr_pos = rest; str_val = name })
      ])

  -- `parserGetToken` at a byte that is no noise
  unfoldable pub lex_at : Parser D → ℕ → Bytes → Lexed D
  unfolding char_token lex_section lex_digits lex_string lex_name
  lex_at pa c cs = elim (char_token c pa.char_tokens) [
    | some n ↦ token (pos n) (record pa { curr_pos = cs })
    | none ↦
        if pa.first_token_in_line && c == b'['
        then lex_section pa cs
        else if is_digit c || c == b'-'
        then lex_digits pa c cs
        else if c == b'"'
        then lex_string pa cs
        else lex_name pa (c ∷ cs)
  ]

  -- the end of a line is a token, and the next line is fetched, whatever comes of it
  unfoldable pub end_of_line : Parser D → Lexed D
  unfolding get_next_line
  end_of_line pa = elim (get_next_line pa) [
    | token rc pa' ↦ token tk_eol pa'
    | parser_error ↦ parser_error
    | fault ↦ fault
  ]

  -- `parserGetToken`; a byte from 128 on is taken for the token of its negative value
  unfoldable pub get_token : Parser D → Lexed D
  unfolding skip_noise char_value end_of_line lex_at
  get_token pa = elim pa.file [
    | none ↦ token tk_eof pa
    | some bytes ↦ elim (skip_noise pa.curr_pos) [
      | [] ↦ end_of_line (record pa { curr_pos = [] })
      | c ∷ cs ↦
          let here = record pa { curr_pos = c ∷ cs } in
          if leb 128 c
          then (if eqb_ℤ (char_value c) tk_eol then end_of_line here else token (char_value c) here)
          else lex_at here c cs
    ]
  ]
