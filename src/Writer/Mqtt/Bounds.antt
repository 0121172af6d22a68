-- ===== src/Writer/Mqtt/Bounds.antt =====
-- The block of `appendToStr`: what a chain of calls leaves in it, and which texts it does not hold.
use emmbus2influx.Base.{
  ℕ, ◌+◌, ◌*◌, ◌≤◌, ◌<◌, ◌≡◌, refl, sym, ap, ◌∙◌, Bool, true, false, List, [], ◌∷◌, ◌++◌, length,
  length-append, append-nil, append_assoc, ltb, Bytes, arith, Bool-cases, inl, inr, fault, Ensures,
  Ensures-bind,
}
use emmbus2influx.Writer.Mqtt.{Str, concat_to, append_to_str, append_all}
use emmbus2influx.Writer.Mqtt.Tail.{flatten}

-- The block holds the text and its zero byte, and is not smaller than the first one.
pub record Holds (s : Str) (text : Bytes) : Type 0 where
  pub same : s.dest ≡ text
  pub counted : s.len ≡ length text
  pub room : s.len + 1 ≤ s.bufsize
  pub large : 256 ≤ s.bufsize

-- A text that one doubling of the smallest block makes room for.
abbrev pub IsShort : Bytes → Type 0
IsShort text = length text ≤ 256

abbrev pub AreShort : List Bytes → Type 0
AreShort [] = Unit
AreShort (text ∷ rest) = IsShort text × AreShort rest

module _ (alloc : ℕ → Bool) (plenty : (n : ℕ) → alloc n ≡ true) where
  concat_to-Holds :
      (src : Bytes) (size : ℕ) (s : Str) (text : Bytes)
      → Holds s text
      → s.len + length src + 1 ≤ size
      → 256 ≤ size
      → Ensures (λ s'. Holds s' (text ++ src)) (concat_to src size s)
  unfolding concat_to
  concat_to-Holds src size s text h fits big =
      let dest : length s.dest ≡ s.len = ap (λ (x : Bytes). length x) h.same ∙ sym h.counted in
      let small : ltb size (length s.dest + length src + 1) ≡ false = ground arith in
      rw small (record {
        same = ap (λ x. x ++ src) h.same;
        counted = omega (arith, h.counted, length-append text src);
        room = omega (arith, fits);
        large = big;
      })

  pub append_to_str-Holds :
      (src : Bytes) (s : Str) (text : Bytes)
      → Holds s text
      → IsShort src
      → Ensures (λ s'. Holds s' (text ++ src)) (append_to_str alloc src s)
  unfolding append_to_str
  append_to_str-Holds [] s text h short = rw (append-nil text) h
  append_to_str-Holds (c ∷ cs) s text h short =
      elim (Bool-cases (ltb s.bufsize (s.len + length (c ∷ cs) + 1))) [
        | inl full ↦
            rw (full, plenty (s.bufsize * 2))
              (concat_to-Holds (c ∷ cs) (s.bufsize * 2) s text h
                (omega (arith, h.room, h.large, short)) (omega (arith, h.large)))
        | inr fits ↦ rw fits (concat_to-Holds (c ∷ cs) s.bufsize s text h (ground arith) h.large)
      ]

  pub append_all-Holds :
      (texts : List Bytes) (s : Str) (text : Bytes)
      → Holds s text
      → AreShort texts
      → Ensures (λ s'. Holds s' (text ++ flatten texts)) (append_all alloc texts s)
  unfolding append_all
  append_all-Holds [] s text h short = rw (append-nil text) h
  append_all-Holds (t ∷ texts) s text h (short, shorts) =
      Ensures-bind _ _ (append_to_str alloc t s) _ (append_to_str-Holds t s text h short) (λ s' h'.
        rw (sym (append_assoc text t (flatten texts)))
          (append_all-Holds texts s' (text ++ t) h' shorts))

-- A text that is longer than twice the block is stored behind its end: `appendToStr` doubles once.
pub append_to_str_overflow :
    (alloc : ℕ → Bool) (src : Bytes) (s : Str) (text : Bytes)
    → alloc (s.bufsize * 2) ≡ true
    → Holds s text
    → s.bufsize * 2 < s.len + length src + 1
    → append_to_str alloc src s ≡ fault
unfolding append_to_str concat_to
append_to_str_overflow alloc [] s text a h long = absurd (omega (arith, h.room, long))
append_to_str_overflow alloc (c ∷ cs) s text a h long =
    let dest : length s.dest ≡ s.len = ap (λ (x : Bytes). length x) h.same ∙ sym h.counted in
    let full : ltb s.bufsize (s.len + length (c ∷ cs) + 1) ≡ true = ground (arith, long) in
    let over : ltb (s.bufsize * 2) (length s.dest + length (c ∷ cs) + 1) ≡ true =
      ground (arith, long) in
    rw (full, a, over) refl
