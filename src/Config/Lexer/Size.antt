-- ===== src/Config/Lexer/Size.antt =====
-- What is left of the file shrinks with every token that ends a line or parts two options.
use mathlib.Core.Option
use emmbus2influx.Base.{
  ℕ, suc, ◌+◌, ◌*◌, ◌%◌, ◌^◌, ◌≤◌, ◌<◌, ◌==◌, Bool, true, false, Option, none, some, [], ◌∷◌, ◌++◌,
  length, length-append, ltb, if_either, elim_either, if◌then◌else◌, Bytes, arith, Bool-cases, inl,
  inr,
}
use emmbus2influx.Config.File.{
  ReadLine, no_line, line, overrun, line_step, end_line, read_chars, read_line_from_file,
  before_nul, strip_comment,
}
use emmbus2influx.Config.Lexer.{
  skip_noise, collect, collect_name, collect_number, collect_hex, hex_nibble,
}

pub skip_noise-length : (cs : Bytes) → length (skip_noise cs) ≤ length cs
unfolding skip_noise
skip_noise-length [] = omega arith
skip_noise-length (c ∷ cs) = ground (arith, skip_noise-length cs)

pub collect-length : (close : ℕ) (cs : Bytes) → length (collect close cs).1 ≤ length cs
unfolding collect
collect-length close [] = omega arith
collect-length close (c ∷ cs) = ground (arith, collect-length close cs)

pub collect_name-length : (t cs : Bytes) → length (collect_name t cs).1 ≤ length cs
unfolding collect_name
collect_name-length t [] = omega arith
collect_name-length t (c ∷ cs) = ground (arith, collect_name-length t cs)

pub collect_number-length : (cs : Bytes) → length (collect_number cs).2 ≤ length cs
unfolding collect_number
collect_number-length [] = omega arith
collect_number-length (c ∷ cs) = ground (arith, collect_number-length cs)

pub collect_hex-length : (acc : ℕ) (cs : Bytes) → length (collect_hex acc cs).1 ≤ length cs
unfolding collect_hex
collect_hex-length acc [] = omega arith
collect_hex-length acc (c ∷ cs) =
    elim_either (λ (r : ℕ × Bytes). length r.1 ≤ suc (length cs)) (hex_nibble c) _ _ (omega arith)
      (λ n. omega (arith, collect_hex-length ((acc * 16 + n) % 2 ^ 32) cs))

pub before_nul-length : (cs : Bytes) → length (before_nul cs) ≤ length cs
unfolding before_nul
before_nul-length [] = omega arith
before_nul-length (c ∷ cs) = ground (arith, before_nul-length cs)

-- The text of an option is at most as long.
abbrev pub AtMost : ℕ → Option Bytes → Type 0
AtMost n none = Unit {0}
AtMost n (some cs) = length cs ≤ n

AtMost-map : (c n : ℕ) (o : Option Bytes) → AtMost n o → AtMost (suc n) (Option.map (◌∷◌ c) o)
AtMost-map c n none h = tt
AtMost-map c n (some cs) h = omega arith

pub strip_comment-AtMost : (b : Bool) (cs : Bytes) → AtMost (length cs) (strip_comment b cs)
unfolding strip_comment
strip_comment-AtMost true [] = tt
strip_comment-AtMost false [] = omega arith
strip_comment-AtMost true (c ∷ cs) =
    let outside = strip_comment-AtMost false cs in
    let inside = strip_comment-AtMost true cs in
    AtMost-map c _ _ (if_either (AtMost (length cs)) (c == b'"') _ _ outside inside)
strip_comment-AtMost false (c ∷ cs) =
    let outside = strip_comment-AtMost false cs in
    let inside = strip_comment-AtMost true cs in
    if_either (AtMost (suc (length cs))) (c == b'#') _ _ (omega arith)
      (AtMost-map c _ _ (if_either (AtMost (length cs)) (c == b'"') _ _ inside outside))

-- A line and what is left of the file have as many bytes as the file at most, and less is left.
abbrev pub Splits : ℕ → ReadLine → Type 0
Splits n (no_line rest) = Unit {0}
Splits n (line text rest) = (length text + length rest ≤ n) × (length rest < n)
Splits n overrun = Unit {0}

end_line-Splits :
    (size count n : ℕ) (text rest : Bytes)
    → length text + length rest ≤ n
    → length rest < n
    → Splits n (end_line size count text rest)
unfolding end_line
end_line-Splits size count n text rest h k = elim (Bool-cases (ltb count size)) [
  | inl small ↦ rw small (h, k)
  | inr large ↦ rw large tt
]

read_chars-Splits :
    (alloc : ℕ → Bool) (size count n : ℕ) (text cs : Bytes)
    → length text + length cs ≤ n
    → 0 < n
    → Splits n (read_chars alloc size count text cs)
unfolding read_chars
read_chars-Splits alloc size count n text [] h k = end_line-Splits size count n text [] h k
read_chars-Splits alloc size count n text (ch ∷ rest) h k =
    let wanted = if count == size then size + line_step else size in
    let grown = length-append text (ch ∷ []) in
    let more =
      read_chars-Splits alloc wanted (count + 1) n (text ++ ch ∷ []) rest (omega arith) k in
    let P = Splits n in
    if_either P (ch == b'\n') _ _
      (end_line-Splits size count n text rest (omega arith) (omega arith))
      (if_either P (count == size) _ _ (if_either P (alloc wanted) _ _ more tt) more)

pub read_line_from_file-Splits :
    (alloc : ℕ → Bool) (cs : Bytes) → Splits (length cs) (read_line_from_file alloc cs)
unfolding read_line_from_file
read_line_from_file-Splits alloc [] = tt
read_line_from_file-Splits alloc (ch ∷ rest) =
    read_chars-Splits alloc line_step 0 _ [] (ch ∷ rest) (omega arith) (omega arith)
