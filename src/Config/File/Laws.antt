-- ===== src/Config/File/Laws.antt =====
-- `readLineFromFile` splits a file at its line ends, but for lines that fill their block exactly;
-- comments end where they begin outside a string.
use mathlib.Core.Option
use emmbus2influx.Base.{
  ℕ, suc, ◌+◌, ◌%◌, ◌≤◌, ◌<◌, ◌==◌, ◌&&◌, ◌≡◌, ◌≢◌, refl, sym, ap, ◌∙◌, ◌⊎◌, Bool, true, false,
  Option, none, some, List, [], ◌∷◌, ◌++◌, append_assoc, append-nil, ltb, if◌then◌else◌, length,
  Bytes, arith, Bool-cases, inl, inr,
}
use emmbus2influx.Config.File.{
  line, overrun, end_line, read_chars, read_line_from_file, strip_comment,
}

-- No line end in the text.
abbrev pub IsOneLine : Bytes → Type 0
IsOneLine [] = Unit {0}
IsOneLine (c ∷ cs) = (c ≢ b'\n') × IsOneLine cs

-- Whether a line of the length fills its block exactly.
abbrev pub fills : ℕ → Bool
fills n = ltb 0 n && (n % 256 == 0)

module _ (alloc : ℕ → Bool) (plenty : (n : ℕ) → alloc n ≡ true) where
  -- The block is a multiple of the step, and the least one that is not smaller than the text.
  abbrev Fits : ℕ → ℕ → Type 0
  Fits size count =
      (size % 256 ≡ 0)
      × (count ≤ size)
      × (((count ≡ 0) × (size ≡ 256)) ⊎ ((0 < count) × (size ≤ count + 255)))

  end_line-Fits :
      (size count : ℕ) (text rest : Bytes)
      → Fits size count
      → end_line size count text rest ≡ (if fills count then overrun else line text rest)
  unfolding end_line
  end_line-Fits size count text rest (m, lo, inl (z, s)) = ground arith
  end_line-Fits size count text rest (m, lo, inr (p, u)) = elim (Bool-cases (ltb count size)) [
    | inl small ↦ let free : fills count ≡ false = ground arith in rw (small, free) refl
    | inr large ↦ let full : fills count ≡ true = ground arith in rw (large, full) refl
  ]

  Fits-same : (size count : ℕ) → Fits size count → (count == size) ≡ false → Fits size (count + 1)
  Fits-same size count (m, lo, inl (z, s)) d = (m, ground arith, inr (ground arith, ground arith))
  Fits-same size count (m, lo, inr (p, u)) d = (m, ground arith, inr (ground arith, ground arith))

  Fits-more :
      (size count : ℕ) → Fits size count → (count == size) ≡ true → Fits (size + 256) (count + 1)
  Fits-more size count (m, lo, hi) d = (omega arith, omega arith, inr (omega arith, ground arith))

  one_more : (n k : ℕ) → n + 1 + k ≡ n + suc k
  one_more n k = omega arith

  plus_zero : (n : ℕ) → n ≡ n + 0
  plus_zero n = omega arith

  shift :
      (count : ℕ) (text : Bytes) (c : ℕ) (cs rest : Bytes)
      → (if fills (count + 1 + length cs) then overrun else line ((text ++ c ∷ []) ++ cs) rest)
        ≡ (if fills (count + suc (length cs)) then overrun else line (text ++ c ∷ cs) rest)
  shift count text c cs rest = λ i.
      if fills (one_more count (length cs) i)
      then overrun
      else line (append_assoc text (c ∷ []) cs i) rest

  read_chars_lem :
      (size count : ℕ) (text cs rest : Bytes)
      → IsOneLine cs
      → Fits size count
      → read_chars alloc size count text (cs ++ b'\n' ∷ rest)
        ≡ (if fills (count + length cs) then overrun else line (text ++ cs) rest)
  unfolding read_chars
  read_chars_lem size count text [] rest o f = end_line-Fits size count text rest f ∙ λ i.
      if fills (plus_zero count i) then overrun else line (sym (append-nil text) i) rest
  read_chars_lem size count text (c ∷ cs) rest (other, o) f =
      let inside : (c == b'\n') ≡ false = ground arith in
      elim (Bool-cases (count == size)) [
        | inl full ↦
            rw (inside, full, plenty (size + 256))
              (read_chars_lem (size + 256) (count + 1) (text ++ c ∷ []) cs rest o
                  (Fits-more size count f full)
                ∙ shift count text c cs rest)
        | inr free ↦
            rw (inside, free)
              (read_chars_lem size (count + 1) (text ++ c ∷ []) cs rest o
                  (Fits-same size count f free)
                ∙ shift count text c cs rest)
      ]

  zero_plus : (n : ℕ) → 0 + n ≡ n
  zero_plus n = omega arith

  fresh : Fits 256 0
  fresh = (omega arith, omega arith, inl (refl, refl))

  -- Where memory suffices: for a file that begins with a line and its line end,
  -- `readLineFromFile` returns that line and leaves what is behind its end, unless the length of
  -- the line is a multiple of 256 other than 0: then it stores the NUL behind the end of its block.
  pub read_line_from_file_lem :
      (text rest : Bytes)
      → IsOneLine text
      → read_line_from_file alloc (text ++ b'\n' ∷ rest)
        ≡ (if fills (length text) then overrun else line text rest)
  unfolding read_line_from_file
  read_line_from_file_lem [] rest o = read_chars_lem 256 0 [] [] rest o fresh
  read_line_from_file_lem (c ∷ cs) rest o = read_chars_lem 256 0 [] (c ∷ cs) rest o fresh ∙ λ i.
      if fills (zero_plus (suc (length cs)) i) then overrun else line (c ∷ cs) rest

-- A line before its comment: bytes outside of strings, and strings.
pub data Piece : Type 0 where
  plain : ℕ → Piece
  quoted : Bytes → Piece

abbrev pub piece_text : Piece → Bytes
piece_text (plain c) = c ∷ []
piece_text (quoted s) = b'"' ∷ (s ++ b'"' ∷ [])

abbrev pub pieces_text : List Piece → Bytes
pieces_text [] = []
pieces_text (p ∷ ps) = piece_text p ++ pieces_text ps

abbrev pub IsUnquoted : Bytes → Type 0
IsUnquoted [] = Unit {0}
IsUnquoted (c ∷ cs) = (c ≢ b'"') × IsUnquoted cs

-- No quote and no comment sign outside of strings, and no quote in them.
abbrev pub IsCode : List Piece → Type 0
IsCode [] = Unit {0}
IsCode (plain c ∷ ps) = (c ≢ b'"') × (c ≢ b'#') × IsCode ps
IsCode (quoted s ∷ ps) = IsUnquoted s × IsCode ps

map_twice :
    (f g : Bytes → Bytes) (o : Option Bytes)
    → Option.map f (Option.map g o) ≡ Option.map (λ t. f (g t)) o
map_twice f g none = refl
map_twice f g (some t) = refl

behind_quote :
    (s code rest : Bytes) → ((s ++ b'"' ∷ []) ++ code) ++ rest ≡ s ++ b'"' ∷ (code ++ rest)
behind_quote s code rest =
    append_assoc (s ++ b'"' ∷ []) code rest ∙ append_assoc s (b'"' ∷ []) (code ++ rest)

strip_comment-quoted :
    (s rest : Bytes)
    → IsUnquoted s
    → strip_comment true (s ++ b'"' ∷ rest)
      ≡ Option.map (λ t. s ++ b'"' ∷ t) (strip_comment false rest)
unfolding strip_comment
strip_comment-quoted [] rest h = refl
strip_comment-quoted (c ∷ s) rest (other, h) =
    let inside : (c == b'"') ≡ false = ground arith in
    rw (inside, strip_comment-quoted s rest h)
      (map_twice (◌∷◌ c) (λ t. s ++ b'"' ∷ t) (strip_comment false rest))

strip_comment-pieces :
    (ps : List Piece) (rest out : Bytes)
    → IsCode ps
    → strip_comment false rest ≡ some out
    → strip_comment false (pieces_text ps ++ rest) ≡ some (pieces_text ps ++ out)
unfolding strip_comment
strip_comment-pieces [] rest out h e = e
strip_comment-pieces (plain c ∷ ps) rest out (q, n, h) e =
    let no_quote : (c == b'"') ≡ false = ground arith in
    let no_sign : (c == b'#') ≡ false = ground arith in
    rw (no_sign, no_quote, strip_comment-pieces ps rest out h e) refl
strip_comment-pieces (quoted s ∷ ps) rest out (u, h) e =
    let later = strip_comment-pieces ps rest out h e in
    ap (λ t. Option.map (◌∷◌ b'"') (strip_comment true t)) (behind_quote s (pieces_text ps) rest)
    ∙ ap (Option.map (◌∷◌ b'"')) (strip_comment-quoted s (pieces_text ps ++ rest) u)
    ∙ ap (λ o. Option.map (◌∷◌ b'"') (Option.map (λ t. s ++ b'"' ∷ t) o)) later
    ∙ ap (λ t. some (b'"' ∷ t)) (sym (behind_quote s (pieces_text ps) out))

-- `parserGetNextLine` cuts a line at the first `#` outside of strings, and keeps a `#` in a
-- string: of a line of such pieces and a comment it keeps the pieces, and a line without a comment
-- is kept as it is.
pub strip_comment_lem :
    (ps : List Piece) (comment : Bytes)
    → IsCode ps
    → (strip_comment false (pieces_text ps ++ b'#' ∷ comment) ≡ some (pieces_text ps))
      × (strip_comment false (pieces_text ps) ≡ some (pieces_text ps))
unfolding strip_comment
strip_comment_lem ps comment h = (
  strip_comment-pieces ps (b'#' ∷ comment) [] h refl ∙ ap some (append-nil (pieces_text ps)),
  ap (strip_comment false) (sym (append-nil (pieces_text ps)))
      ∙ strip_comment-pieces ps [] [] h refl
      ∙ ap some (append-nil (pieces_text ps)),
)
