-- ===== src/Config/Buf/Laws.antt =====
-- The buffer of a token holds what its first block has room for, and does not outlive its growth.
use emmbus2influx.Base.{
  ℕ, ◌+◌, ◌*◌, ◌≤◌, ◌<◌, ◌≡◌, refl, sym, ap, ◌∙◌, [], ◌∷◌, ◌++◌, append_assoc, append-nil, length,
  length-append, leb, ltb, if◌then◌else◌, Bytes, Bool, true, false, ok, fault, ◌>>=◌, arith,
  Bool-cases, inl, inr,
}
use emmbus2influx.Config.Buf.{Buf, buf_init, make_room, store_char, buf_add_char, add_chars}

-- A buffer with its first block, of `size` bytes, which holds the text.
abbrev pub holding : ℕ → Bytes → Buf
holding size text = record { alloc_size = size; text = text; end_is_stale = false }

-- The size of the first block that `buf_init` is asked for.
abbrev pub first_size : ℕ → ℕ
first_size size = if ltb size 1 then 256 else size

module _ (alloc : ℕ → Bool) where
  buf_add_char-holds :
      (c size : ℕ) (text : Bytes)
      → length text + 1 < size
      → buf_add_char alloc c (holding size text) ≡ ok (holding size (text ++ c ∷ []))
  unfolding buf_add_char make_room store_char
  buf_add_char-holds c size text h =
      let free : leb size (length text + 1) ≡ false = ground arith in
      let fits : ltb (length text + 1) size ≡ true = ground arith in rw (free, fits) refl

  pub add_chars-holds :
      (cs text : Bytes) (size : ℕ)
      → length text + length cs < size
      → add_chars alloc cs (holding size text) ≡ ok (holding size (text ++ cs))
  unfolding add_chars
  add_chars-holds [] text size h = ap (λ t. ok (holding size t)) (sym (append-nil text))
  add_chars-holds (c ∷ cs) text size h =
      let longer = length-append text (c ∷ []) in
      ap (λ run. run >>= add_chars alloc cs) (buf_add_char-holds c size text (omega arith))
      ∙ add_chars-holds cs (text ++ c ∷ []) size (omega (arith, longer))
      ∙ ap (λ t. ok (holding size t)) (append_assoc text (c ∷ []) cs)

  module _ (plenty : (n : ℕ) → alloc n ≡ true) where
    buf_add_char-grows :
        (c size : ℕ) (text : Bytes)
        → size ≤ length text + 1
        → buf_add_char alloc c (holding size text) ≡ fault
    unfolding buf_add_char make_room store_char
    buf_add_char-grows c size text h =
        let full : leb size (length text + 1) ≡ true = ground arith in
        rw (full, plenty (size * 2)) refl

    add_chars-grows :
        (cs text : Bytes) (size : ℕ)
        → length text < size
        → size ≤ length text + length cs
        → add_chars alloc cs (holding size text) ≡ fault
    unfolding add_chars
    add_chars-grows [] text size h k = absurd (omega arith)
    add_chars-grows (c ∷ cs) text size h k = elim (Bool-cases (leb size (length text + 1))) [
      | inl full ↦
          ap (λ run. run >>= add_chars alloc cs)
            (buf_add_char-grows c size text (ground (arith, full)))
      | inr free ↦
          let room : length text + 1 < size = ground (arith, free) in
          let longer = length-append text (c ∷ []) in
          ap (λ run. run >>= add_chars alloc cs) (buf_add_char-holds c size text room)
          ∙ add_chars-grows cs (text ++ c ∷ []) size (omega (arith, longer)) (omega (arith, longer))
    ]

    -- Where memory suffices: a buffer of any first size, to which the bytes of a text are added one
    -- by one, holds the text if the first block has room for it and its NUL. For a longer text,
    -- `buf_addChar` calls `realloc`, and then stores through its old pointer, into the block that
    -- was given back.
    pub buf_init-add_chars :
        (size : ℕ) (cs : Bytes)
        → (buf_init alloc size >>= add_chars alloc cs)
          ≡ (if ltb (length cs) (first_size size) then ok (holding (first_size size) cs) else fault)
    unfolding buf_init
    buf_init-add_chars size cs =
        ap (λ run. run >>= add_chars alloc cs) begins
        ∙ (elim (Bool-cases (ltb (length cs) (first_size size))) [
          | inl short ↦ rw short (add_chars-holds cs [] (first_size size) (ground (arith, short)))
          | inr long ↦
              rw long (add_chars-grows cs [] (first_size size) positive (ground (arith, long)))
        ])
      where
        begins : buf_init alloc size ≡ ok (holding (first_size size) [])
        begins = rw (buf_init, plenty (first_size size)) refl

        positive : 0 < first_size size
        positive = ground arith
