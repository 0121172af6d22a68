-- ===== src/Influx/Buffer/Escape.antt =====
-- `_escaped_append` against the escaping that it means, and the bound below which it is safe.
use emmbus2influx.Base.{
  ℕ, ◌+◌, ◌*◌, ◌≤◌, ◌<◌, ◌≡◌, refl, ap, ◌∙◌, ◌≢◌, Bool, true, false, [], ◌∷◌, ◌++◌, append_assoc,
  append-nil, arith, if◌then◌else◌, length, length-append, Bytes, contains, ℤ, negsuc, fault,
  Ensures, Ensures-bind, Ensures-mono, Bool-cases, inl, inr,
}
use emmbus2influx.Influx.Buffer.{
  Buffer, store, resize, put, put_segment, escape_loop, escaped_append,
}
use emmbus2influx.Influx.Buffer.Laws.{Holds, Extends, Grown, grow-Grown, store-Holds}

-- A backslash in front of each byte of the set, and nothing else.
abbrev pub escaped : Bytes → Bytes → Bytes
escaped escape_seq [] = []
escaped escape_seq (c ∷ src) =
    if contains escape_seq c then b'\\' ∷ c ∷ escaped escape_seq src else c ∷ escaped escape_seq src

put-Extends :
    (alloc : ℕ → Bool) (code : ℤ) (bytes : Bytes) (b : Buffer) (size : ℕ) (text : Bytes)
    → ((n : ℕ) → alloc n ≡ true)
    → Extends size text b
    → length bytes ≤ size
    → Ensures (Extends size (text ++ bytes)) (put alloc code bytes b)
unfolding put
put-Extends alloc code bytes b size text a v h =
    let wanted = b.influx_buf_used + length bytes in
    Ensures-bind (Grown b wanted text) (Extends size (text ++ bytes)) _
      (λ b'. store b' bytes (length bytes))
      (grow-Grown alloc code b wanted (b.influx_buf_len * 2) text v.0 (a _) (omega arith)
        (omega (arith, v.0.room, v.1)))
      λ b' q.
        Ensures-mono (Extends b'.influx_buf_len (text ++ bytes)) (Extends size (text ++ bytes)) _
          (λ b'' r. (r.0, omega (arith, q.2, r.1, v.1)))
          (store-Holds b' bytes text q.0 (omega (arith, q.1, q.3)))

put_segment-Extends :
    (alloc : ℕ → Bool) (bytes : Bytes) (b : Buffer) (size : ℕ) (text : Bytes)
    → ((n : ℕ) → alloc n ≡ true)
    → Extends size text b
    → length bytes ≤ size
    → Ensures (Extends size (text ++ bytes)) (put_segment alloc bytes b)
unfolding put_segment
put_segment-Extends alloc [] b size text a v h = rw append-nil v
put_segment-Extends alloc (x ∷ xs) b size text a v h =
    put-Extends alloc (negsuc 0) (x ∷ xs) b size text a v h

regroup : (a b c d : Bytes) → ((a ++ b) ++ c) ++ d ≡ a ++ (b ++ (c ++ d))
regroup a b c d = simp append_assoc

escape_loop-Extends :
    (alloc : ℕ → Bool) (escape_seq segment src : Bytes) (b : Buffer) (size : ℕ) (text : Bytes)
    → ((n : ℕ) → alloc n ≡ true)
    → Extends size text b
    → 2 ≤ size
    → length segment + length src ≤ size
    → Ensures
        (Extends size (text ++ (segment ++ escaped escape_seq src)))
        (escape_loop alloc escape_seq segment src b)
unfolding escape_loop
escape_loop-Extends alloc escape_seq segment [] b size text a v two h =
    rw (append-nil segment) (put_segment-Extends alloc segment b size text a v (omega arith))
escape_loop-Extends alloc escape_seq segment (c ∷ src) b size text a v two h =
    elim (Bool-cases (contains escape_seq c)) [
      | inl special ↦ rw special (
          let rest = escaped escape_seq src in
          let pair : Bytes = b'\\' ∷ c ∷ [] in
          let before : Bytes = text ++ segment in
          Ensures-bind (Extends size before) (Extends size (text ++ (segment ++ (pair ++ rest)))) _
            _ (put_segment-Extends alloc segment b size text a v (omega arith))
            λ b' v'.
              Ensures-bind (Extends size (before ++ pair))
                (Extends size (text ++ (segment ++ (pair ++ rest)))) _ _
                (put-Extends alloc (negsuc 1) pair b' size before a v' two)
                λ b'' v''. rw (regroup text segment pair rest) at (
                  escape_loop-Extends alloc escape_seq [] src b'' size (before ++ pair) a v'' two
                    (omega arith)))
      | inr plain ↦ rw plain (
          rw (append_assoc segment (c ∷ []) (escaped escape_seq src)) at (
            escape_loop-Extends alloc escape_seq (segment ++ c ∷ []) src b size text a v two
              (omega (arith, length-append segment (c ∷ [])))))
    ]

-- `_escaped_append` appends the escaped text, with no store outside the block, for every text that
-- is no longer than the block, where memory suffices.
pub escaped_append-Extends :
    (alloc : ℕ → Bool) (src escape_seq : Bytes) (b : Buffer) (text : Bytes)
    → ((n : ℕ) → alloc n ≡ true)
    → Holds b text
    → 2 ≤ b.influx_buf_len
    → length src ≤ b.influx_buf_len
    → Ensures
        (Extends b.influx_buf_len (text ++ escaped escape_seq src))
        (escaped_append alloc src escape_seq b)
unfolding escaped_append
escaped_append-Extends alloc src escape_seq b text a v two h =
    escape_loop-Extends alloc escape_seq [] src b b.influx_buf_len text a (v, omega arith) two
      (omega arith)

-- None of the bytes is in the set.
abbrev pub IsPlain : Bytes → Bytes → Type 0
IsPlain escape_seq [] = Unit {0}
IsPlain escape_seq (c ∷ src) = (contains escape_seq c ≡ false) × IsPlain escape_seq src

escape_loop_plain :
    (alloc : ℕ → Bool) (escape_seq segment src : Bytes) (b : Buffer)
    → IsPlain escape_seq src
    → escape_loop alloc escape_seq segment src b ≡ put_segment alloc (segment ++ src) b
unfolding escape_loop
escape_loop_plain alloc escape_seq segment [] b e = rw append-nil
escape_loop_plain alloc escape_seq segment (c ∷ src) b e = rw (e.0) (
    escape_loop_plain alloc escape_seq (segment ++ c ∷ []) src b e.1
    ∙ ap (λ t. put_segment alloc t b) (append_assoc segment (c ∷ []) src))

-- The block is doubled once: a text of more than the doubled block, with nothing to escape, is
-- copied past its end.
pub escaped_append_overflow :
    (alloc : ℕ → Bool) (src escape_seq : Bytes) (b : Buffer) (text : Bytes)
    → alloc (b.influx_buf_len * 2) ≡ true
    → Holds b text
    → IsPlain escape_seq src
    → src ≢ []
    → b.influx_buf_len * 2 < length text + length src
    → escaped_append alloc src escape_seq b ≡ fault
unfolding escaped_append put_segment put resize store
escaped_append_overflow alloc [] escape_seq b text a v e ne h = absurd (ne refl)
escaped_append_overflow alloc (x ∷ xs) escape_seq b text a v e ne h =
    escape_loop_plain alloc escape_seq [] (x ∷ xs) b e ∙ ground (arith, v.owned, v.used_length)
