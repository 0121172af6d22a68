-- ===== src/Config/Buf.antt =====
-- The buffer in which a token is collected: `buf_init`, `buf_addChar` and `buf_clear` of parser.c.
-- `ret` is the `exit(1)` where there is no memory, `fault` a store behind the end of the block, or
-- through a pointer into a block that has been given back.
pub mod Laws
use emmbus2influx.Base.{
  ℕ, ◌+◌, ◌*◌, List, [], ◌∷◌, ◌++◌, length, leb, ltb, not, ◌&&◌, if◌then◌else◌, Bytes, ℤ, pos, Bool,
  true, false, Run, ok, ret, fault, ◌>>=◌,
}

-- `buf_t`: the size of the block, its `len` bytes, and `bufEnd`. Until `realloc` is called, `bufEnd`
-- is the place behind these bytes; then it is left in the block that `realloc` has given back.
pub record Buf : Type 0 where
  pub alloc_size : ℕ
  pub text : Bytes
  pub end_is_stale : Bool

module _ (alloc : ℕ → Bool) where
  -- `buf_init`
  unfoldable pub buf_init : ℕ → Run Buf
  buf_init alloc_size =
      let size = if ltb alloc_size 1 then 256 else alloc_size in
      let b : Buf = record { alloc_size = size; text = []; end_is_stale = false } in
      if alloc size then ok b else ret (pos 1) b

  -- `realloc` to twice the size where the byte and the NUL do not fit; `bufEnd` is not set anew
  unfoldable pub make_room : Buf → Run Buf
  make_room b =
      let doubled : Buf = record b { alloc_size = b.alloc_size * 2; end_is_stale = true } in
      if leb b.alloc_size (length b.text + 1)
      then (if alloc doubled.alloc_size then ok doubled else ret (pos 1) doubled)
      else ok b

  -- the stores through `bufEnd` of the byte and of the NUL behind it
  unfoldable pub store_char : ℕ → Buf → Run Buf
  store_char c b =
      if not b.end_is_stale && ltb (length b.text + 1) b.alloc_size
      then ok (record b { text = b.text ++ c ∷ [] })
      else fault

  -- `buf_addChar`
  unfoldable pub buf_add_char : ℕ → Buf → Run Buf
  unfolding make_room store_char
  buf_add_char c b = make_room b >>= store_char c

  -- the calls that a token makes
  unfoldable pub add_chars : Bytes → Buf → Run Buf
  unfolding buf_add_char
  add_chars [] b = ok b
  add_chars (c ∷ cs) b = buf_add_char c b >>= add_chars cs

-- `buf_clear`
abbrev pub buf_clear : Buf → Buf
buf_clear b = record { alloc_size = 0; text = []; end_is_stale = false }
