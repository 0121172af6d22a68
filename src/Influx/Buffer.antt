-- ===== src/Influx/Buffer.antt =====
-- The growing text buffer of the sender: `appendToBuf2`, `_escaped_append`, `_begin_line` and
-- `influxdb_post_freeBuffer` of influxdb-post/influxdb-post.c. A block is the list of the bytes
-- that have been written to it, and its size is kept beside it; a store past the size is a fault.
-- Whether `malloc` or `realloc` of n bytes succeeds is the parameter `alloc`.
pub mod Laws
pub mod Escape
use emmbus2influx.Base.{
  ℕ, ◌+◌, ◌*◌, ◌≡◌, refl, Bool, true, false, Option, none, some, List, [], ◌∷◌, ◌++◌, ltb, leb,
  if◌then◌else◌, length, take, drop, Bytes, contains, ℤ, pos, negsuc, Run, ok, ret, fault, ◌>>=◌,
}

-- `influxBuf`, `influxBufUsed`, `influxBufLen` and `lastNeededBufferSize` of `influx_client_t`
pub record Buffer : Type 0 where
  pub influx_buf : Option Bytes
  pub influx_buf_used : ℕ
  pub influx_buf_len : ℕ
  pub last_needed_buffer_size : ℕ

abbrev pub influx_initial_buf_size : ℕ
influx_initial_buf_size = 0x100

-- `memcpy` of `src` to the offset `off` of a block
abbrev pub write_at : ℕ → Bytes → Bytes → Bytes
write_at off src block = take off block ++ (src ++ drop (off + length src) block)

-- Stores `src` at the end of the used part, of which `kept` bytes are used from then on.
pub store : Buffer → Bytes → ℕ → Run Buffer
store b src kept = elim b.influx_buf [
  | none ↦ fault
  | some block ↦
      if leb (b.influx_buf_used + length src) b.influx_buf_len
      then ok (record b {
        influx_buf = some (write_at b.influx_buf_used src block);
        influx_buf_used = b.influx_buf_used + kept;
      })
      else fault
]

-- the block that `realloc` moves: a null pointer counts as an empty one
abbrev moved : Option Bytes → Bytes
moved none = []
moved (some block) = block

-- `influxdb_post_freeBuffer`
unfoldable pub free_buffer : Buffer → Buffer
free_buffer b = record {
  influx_buf = none;
  influx_buf_used = 0;
  influx_buf_len = 0;
  last_needed_buffer_size =
      if ltb b.last_needed_buffer_size b.influx_buf_len
      then b.influx_buf_len
      else b.last_needed_buffer_size;
}

module _ (alloc : ℕ → Bool) where
  -- `realloc (buf, n)`; the code for no memory is returned with a null buffer
  pub resize : ℤ → Buffer → ℕ → Run Buffer
  resize code b n =
      if alloc n
      then ok (record b { influx_buf = some (moved b.influx_buf); influx_buf_len = n })
      else ret code (record b { influx_buf = none; influx_buf_len = n })

  -- `_begin_line`
  unfoldable pub begin_line : Buffer → Run Buffer
  begin_line b =
      let n = b.last_needed_buffer_size in
      let freed : Buffer = elim b.influx_buf [
        | none ↦ b
        | some _ ↦ record b { influx_buf = none; influx_buf_len = 0; influx_buf_used = 0 }
      ] in
      if alloc n
      then (if leb 1 n
          then ok
              (record freed { influx_buf = some (0 ∷ []); influx_buf_len = n; influx_buf_used = 0 })
          else fault)
      else ret (negsuc 0) freed

  -- `appendToBuf2`, and `appendToBuf`, which calls it on the fields of the client
  unfoldable pub append_to_buf : Bytes → Buffer → Run Buffer
  unfolding store resize
  append_to_buf src b =
      let src_len = length src in
      do
        b' ←
            if ltb b.influx_buf_len (b.influx_buf_used + src_len + 1)
            then resize (negsuc 0) b (b.influx_buf_len * 2 + src_len)
            else ok b
        store b' (src ++ 0 ∷ []) src_len

  -- one `if (used + i > len) realloc` of `_escaped_append` and the copy behind it; the block is
  -- doubled once, whatever `i` is
  pub put : ℤ → Bytes → Buffer → Run Buffer
  unfolding store resize
  put code bytes b = do
    b' ←
        if ltb b.influx_buf_len (b.influx_buf_used + length bytes)
        then resize code b (b.influx_buf_len * 2)
        else ok b
    store b' bytes (length bytes)

  -- `if ((i = strcspn (src, escape_seq)) > 0)`: a segment with none of the escaped bytes
  pub put_segment : Bytes → Buffer → Run Buffer
  unfolding put
  put_segment [] b = ok b
  put_segment (x ∷ xs) b = put (negsuc 0) (x ∷ xs) b

  -- the loop of `_escaped_append`; `segment` is what `strcspn` has passed over
  pub escape_loop : Bytes → Bytes → Bytes → Buffer → Run Buffer
  unfolding put_segment
  escape_loop escape_seq segment [] b = put_segment segment b
  escape_loop escape_seq segment (c ∷ src) b =
      let special = (λ (b' : Buffer). do
        b'' ← put (negsuc 1) (b'\\' ∷ c ∷ []) b'
        escape_loop escape_seq [] src b'') in
      let plain = escape_loop escape_seq (segment ++ c ∷ []) src b in
      if contains escape_seq c then put_segment segment b >>= special else plain

  -- `_escaped_append`
  unfoldable pub escaped_append : Bytes → Bytes → Buffer → Run Buffer
  unfolding escape_loop
  escaped_append src escape_seq b = escape_loop escape_seq [] src b
