-- ===== src/Influx/Buffer/Laws.antt =====
-- The growing buffer holds exactly the text that was appended, and no store leaves its block.
use emmbus2influx.Base.{
  ℕ, ◌+◌, ◌*◌, ◌≤◌, ◌<◌, ◌≡◌, refl, sym, ap, ◌∙◌, Bool, true, some, [], ◌∷◌, ◌++◌, append_assoc,
  append-nil, arith, ltb, if◌then◌else◌, length, take, length-append, take-append, Bytes, ℤ, ok,
  Ensures, Ensures-bind, Ensures-mono, Bool-cases, inl, inr,
}
use emmbus2influx.Influx.Buffer.{Buffer, write_at, store, resize, append_to_buf}

-- The buffer owns a block whose used part is `text`.
pub record Holds (b : Buffer) (text : Bytes) : Type 0 where
  pub block : Bytes
  pub owned : b.influx_buf ≡ some block
  pub used_text : take b.influx_buf_used block ≡ text
  pub used_length : b.influx_buf_used ≡ length text
  pub room : b.influx_buf_used ≤ b.influx_buf_len
  pub nonempty : 0 < b.influx_buf_len

-- The used part is moreover followed by a NUL, so the C library reads `text` back.
pub record HoldsString (b : Buffer) (text : Bytes) : Type 0 where
  pub holds : Holds b text
  pub ended : take (length text + 1) holds.block ≡ text ++ 0 ∷ []

-- The buffer holds `text`, and is no smaller than `size`.
abbrev pub Extends : ℕ → Bytes → Buffer → Type 0
Extends size text b = Holds b text × (size ≤ b.influx_buf_len)

abbrev pub ExtendsString : ℕ → Bytes → Buffer → Type 0
ExtendsString size text b = HoldsString b text × (size ≤ b.influx_buf_len)

abbrev pub Grown : Buffer → ℕ → Bytes → Buffer → Type 0
Grown b wanted text b' =
    Holds b' text
    × (wanted ≤ b'.influx_buf_len)
    × (b.influx_buf_len ≤ b'.influx_buf_len)
    × (b'.influx_buf_used ≡ b.influx_buf_used)

abbrev Resized : Buffer → ℕ → Bytes → Buffer → Type 0
Resized b n text b' =
    Holds b' text × (b'.influx_buf_len ≡ n) × (b'.influx_buf_used ≡ b.influx_buf_used)

-- What a store of `full` that keeps its first part `src` leaves in the used part.
take-write_at :
    (off : ℕ) (full src tail block text : Bytes) (n : ℕ)
    → full ≡ src ++ tail
    → take off block ≡ text
    → n ≡ length text + length src
    → take n (write_at off full block) ≡ text ++ src
take-write_at off full src tail block text n p e h =
    rw (p, e, append_assoc src tail)
      (ap (take n) (sym (append_assoc text src _))
        ∙ take-append (text ++ src) _ n (omega (arith, length-append text src)))

store-ok :
    (b : Buffer) (src block : Bytes) (kept : ℕ)
    → b.influx_buf ≡ some block
    → b.influx_buf_used + length src ≤ b.influx_buf_len
    → store b src kept
      ≡ ok (record b {
        influx_buf = some (write_at b.influx_buf_used src block);
        influx_buf_used = b.influx_buf_used + kept;
      })
unfolding store
store-ok b src block kept e h = ground arith

pub store-Holds :
    (b : Buffer) (src text : Bytes)
    → Holds b text
    → b.influx_buf_used + length src ≤ b.influx_buf_len
    → Ensures (Extends b.influx_buf_len (text ++ src)) (store b src (length src))
store-Holds b src text v h = rw (store-ok b src v.block (length src) v.owned h) (
  record {
    block = write_at b.influx_buf_used src v.block;
    owned = refl;
    used_text =
        take-write_at b.influx_buf_used _ src [] v.block text _ (sym (append-nil src)) v.used_text
          (omega (arith, v.used_length));
    used_length = omega (arith, v.used_length, length-append text src);
    room = omega arith;
    nonempty = v.nonempty;
  },
  omega arith,
)

-- The block after a store of a string and its NUL.
store-HoldsString :
    (b : Buffer) (src text : Bytes)
    → Holds b text
    → b.influx_buf_used + length src + 1 ≤ b.influx_buf_len
    → Ensures (ExtendsString b.influx_buf_len (text ++ src)) (store b (src ++ 0 ∷ []) (length src))
store-HoldsString b src text v h =
    let room : b.influx_buf_used + length (src ++ 0 ∷ []) ≤ b.influx_buf_len =
      omega (arith, length-append src (0 ∷ [])) in
    rw (store-ok b (src ++ 0 ∷ []) v.block (length src) v.owned room) (
      record {
        holds = record {
          block = write_at b.influx_buf_used (src ++ 0 ∷ []) v.block;
          owned = refl;
          used_text =
              take-write_at b.influx_buf_used _ src (0 ∷ []) v.block text _ refl v.used_text
                (omega (arith, v.used_length));
          used_length = omega (arith, v.used_length, length-append text src);
          room = omega arith;
          nonempty = v.nonempty;
        };
        ended =
            take-write_at b.influx_buf_used _ (src ++ 0 ∷ []) [] v.block text _
              (sym (append-nil (src ++ 0 ∷ []))) v.used_text
              (omega (arith, length-append text src, length-append src (0 ∷ [])))
            ∙ sym (append_assoc text src (0 ∷ []));
      },
      omega arith,
    )

resize-Holds :
    (alloc : ℕ → Bool) (code : ℤ) (b : Buffer) (n : ℕ) (text : Bytes)
    → Holds b text
    → alloc n ≡ true
    → b.influx_buf_len ≤ n
    → Ensures (Resized b n text) (resize alloc code b n)
unfolding resize
resize-Holds alloc code b n text v a h = rw (a) (
  record {
    block = v.block;
    owned = rw (v.owned);
    used_text = v.used_text;
    used_length = v.used_length;
    room = omega (arith, v.room);
    nonempty = omega (arith, v.nonempty);
  },
  refl,
  refl,
)

-- What growing to `n` when `wanted` bytes are needed leaves.
pub grow-Grown :
    (alloc : ℕ → Bool) (code : ℤ) (b : Buffer) (wanted n : ℕ) (text : Bytes)
    → Holds b text
    → alloc n ≡ true
    → b.influx_buf_len ≤ n
    → wanted ≤ n
    → Ensures
        (Grown b wanted text)
        (if ltb b.influx_buf_len wanted then resize alloc code b n else ok b)
grow-Grown alloc code b wanted n text v a h w = elim (Bool-cases (ltb b.influx_buf_len wanted)) [
  | inl small ↦ rw small (
      Ensures-mono (Resized b n text) (Grown b wanted text) (resize alloc code b n)
        (λ b' q. (q.0, omega (arith, q.1), omega (arith, q.1), q.2))
        (resize-Holds alloc code b n text v a h))
  | inr large ↦ rw large ((v, ground arith, ground arith, refl))
]

-- `appendToBuf` appends any text and its NUL, whatever its length, where memory suffices.
pub append_to_buf-ExtendsString :
    (alloc : ℕ → Bool) (b : Buffer) (src text : Bytes)
    → Holds b text
    → alloc (b.influx_buf_len * 2 + length src) ≡ true
    → Ensures (ExtendsString b.influx_buf_len (text ++ src)) (append_to_buf alloc src b)
unfolding append_to_buf
append_to_buf-ExtendsString alloc b src text v a =
    let wanted = b.influx_buf_used + length src + 1 in
    Ensures-bind (Grown b wanted text) (ExtendsString b.influx_buf_len (text ++ src)) _
      (λ b'. store b' (src ++ 0 ∷ []) (length src))
      (grow-Grown alloc _ b wanted _ text v a (omega arith) (omega (arith, v.room, v.nonempty)))
      λ b' q.
        Ensures-mono (ExtendsString b'.influx_buf_len (text ++ src))
          (ExtendsString b.influx_buf_len (text ++ src)) _ (λ b'' r. (r.0, omega (arith, q.2, r.1)))
          (store-HoldsString b' src text q.0 (omega (arith, q.1, q.3)))
