-- ===== src/Influx/Line.antt =====
-- Formatting of InfluxDB line protocol: `_format_line2`, which `influxdb_format_line` calls, of
-- influxdb-post/influxdb-post.c. The variable arguments are a list; `%.*lf`, the clock and the
-- success of an allocation are parameters.
pub mod Grammar
pub mod Steps
pub mod Parts
pub mod Laws
use emmbus2influx.Base.{
  ℕ, ◌+◌, ◌≡◌, refl, Bool, true, false, ◌&&◌, ◌||◌, Option, none, some, List, [], ◌∷◌, ◌++◌, ltb,
  leb, ◌==◌, if◌then◌else◌, length, Bytes, codes, ℤ, pos, negsuc, Run, ok, ret, fault, ◌>>=◌,
  print_int,
}
use emmbus2influx.Influx.Buffer.{Buffer, free_buffer, begin_line, append_to_buf, escaped_append}

-- One group of the variable arguments: INFLUX_MEAS, INFLUX_TAG, INFLUX_F_STR, INFLUX_F_FLT,
-- INFLUX_F_INT, INFLUX_F_BOL, INFLUX_TS, INFLUX_TSNOW, or a type that none of them makes.
pub data Arg (D : Type 0) : Type 0 where
  meas : Bytes → Arg D
  tag : Bytes → Bytes → Arg D
  field_string : Bytes → Bytes → Arg D
  field_float : Bytes → D → ℤ → Arg D
  field_integer : Bytes → ℤ → Arg D
  field_boolean : Bytes → Bool → Arg D
  timestamp : ℤ → Arg D
  timestamp_now : Arg D
  other : Arg D

-- IF_TYPE_MEAS and the other types, by number
abbrev pub type_of : {D : Type 0} → Arg D → ℕ
type_of (meas _) = 1
type_of (tag _ _) = 2
type_of (field_string _ _) = 3
type_of (field_float _ _ _) = 4
type_of (field_integer _ _) = 5
type_of (field_boolean _ _) = 6
type_of (timestamp _) = 7
type_of timestamp_now = 8
type_of other = 9

abbrev pub max_field_length : ℕ
max_field_length = 255

-- The part of `influx_client_t` that formatting works on.
pub record Line : Type 0 where
  pub buffer : Buffer
  pub open buffer use *
  pub last_type : ℕ

-- the label FAIL
pub give_up : Line → Run Line
give_up l = ret (negsuc 0) (record l { buffer = free_buffer l.buffer })

-- a call on the buffer: `if (… < 0) goto FAIL`, or `return code`
pub or_give_up : Line → Run Buffer → Run Line
unfolding give_up
or_give_up l (ok b) = ok (record l { buffer = b })
or_give_up l (ret _ b) = give_up (record l { buffer = b })
or_give_up l fault = fault

pub or_return : ℤ → Line → Run Buffer → Run Line
or_return code l (ok b) = ok (record l { buffer = b })
or_return code l (ret _ b) = ret code (record l { buffer = b })
or_return code l fault = fault

-- a call whose result is not looked at
pub ignoring : Line → Run Buffer → Run Line
ignoring l (ok b) = ok (record l { buffer = b })
ignoring l (ret _ b) = ok (record l { buffer = b })
ignoring l fault = fault

module _ (alloc : ℕ → Bool) where
  -- `_APPEND`
  pub append : Bytes → Line → Run Line
  unfolding give_up or_give_up
  append text l =
      if leb max_field_length (length text)
      then give_up l
      else or_give_up l (append_to_buf alloc text l.buffer)

  -- `if (_escaped_append (c, src, escape_seq)) return code`
  pub escape : ℤ → Bytes → Bytes → Line → Run Line
  unfolding or_return
  escape code src escape_seq l = or_return code l (escaped_append alloc src escape_seq l.buffer)

  -- the block before the switch, for a tag or a field of type `type`
  pub format_key : ℕ → Bytes → Line → Run Line
  unfolding append escape give_up
  format_key type key l =
      if ltb l.last_type 1 || ltb (if type == 2 then 2 else 6) l.last_type then give_up l else do
        l₁ ← append (if leb l.last_type 2 && ltb 2 type then codes " " else codes ",") l
        l₂ ← escape (negsuc 1) key (codes ",= ") l₁
        append (codes "=") l₂

  -- IF_TYPE_TIMESTAMP and IF_TYPE_TIMESTAMP_NOW
  pub format_time : ℤ → Line → Run Line
  unfolding append give_up
  format_time time l =
      if ltb l.last_type 3 || ltb 6 l.last_type then give_up l else append (b' ' ∷ print_int time) l

  pub format_measurement : Bytes → Line → Run Line
  unfolding append escape give_up
  format_measurement name l = do
    l₁ ← if l.last_type == 0 then ok l else append (codes "\n") l
    l₂ ← if ltb 0 l₁.last_type && leb l₁.last_type 2 then give_up l₁ else ok l₁
    escape (negsuc 2) name (codes ", ") l₂

  -- a buffer is begun where there is none, whether or not that succeeds
  unfoldable pub start : Line → Run Line
  unfolding ignoring
  start l = elim l.influx_buf [
    | none ↦ do l' ← ignoring l (begin_line alloc l.buffer); ok (record l' { last_type = 0 })
    | some _ ↦ ok l
  ]

module _ {D : Type 0} (alloc : ℕ → Bool) (print_float : ℤ → D → Bytes) (now : ℤ) where
  -- the switch
  pub format_value : Arg D → Line → Run Line
  unfolding append escape give_up format_key format_time format_measurement
  format_value (meas name) l = format_measurement alloc name l
  format_value (tag key v) l = do
    l₁ ← format_key alloc 2 key l
    escape alloc (negsuc 3) v (codes ",= ") l₁
  format_value (field_string key v) l = do
    l₁ ← format_key alloc 3 key l
    l₂ ← append alloc (codes "\"") l₁
    l₃ ← escape alloc (negsuc 4) v (codes "\"") l₂
    append alloc (codes "\"") l₃
  format_value (field_float key d precision) l = do
    l₁ ← format_key alloc 4 key l
    append alloc (print_float precision d) l₁
  format_value (field_integer key i) l = do
    l₁ ← format_key alloc 5 key l
    append alloc (print_int i ++ codes "i") l₁
  format_value (field_boolean key b) l = do
    l₁ ← format_key alloc 6 key l
    append alloc (if b then codes "t" else codes "f") l₁
  format_value (timestamp i) l = format_time alloc i l
  format_value timestamp_now l = format_time alloc now l
  format_value other l = give_up l

  -- one round of the loop
  pub format_arg : Arg D → Line → Run Line
  unfolding format_value
  format_arg arg l = do l' ← format_value arg l; ok (record l' { last_type = type_of arg })

  pub format_args : List (Arg D) → Line → Run Line
  unfolding format_arg
  format_args [] l = ok l
  format_args (arg ∷ args) l = do l' ← format_arg arg l; format_args args l'

  -- `_format_line2`
  unfoldable pub format_line : List (Arg D) → Line → Run Line
  unfolding start format_args
  format_line args l = do l' ← start alloc l; format_args args l'
