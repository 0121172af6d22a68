-- ===== src/Influx/Line/Laws.antt =====
-- `_format_line2` writes the grammar's text, and refuses what the grammar refuses.
use emmbus2influx.Base.{
  ℕ, ◌≤◌, ◌≡◌, refl, Bool, true, Option, none, some, List, [], ◌∷◌, ◌++◌, append_assoc, append-nil,
  arith, Bytes, codes, ℤ, Run, ok, ret, fault, ◌>>=◌, Ensures, Ensures-bind, inl, inr, ◌⊎◌,
  length-append, print_int,
}
use emmbus2influx.Influx.Buffer.{begin_line}
use emmbus2influx.Influx.Line.Grammar.{
  Phase, started, measured, tagged, fielded, stamped, At, write_measurement, write_tag, write_field,
  write_time, boolean_text, write, FitsArg, FitsArgs, joined, then_write, write_all,
}
use emmbus2influx.Influx.Line.Parts.{
  Meets, measurement-Meets, field-Meets, tag-Meets, time-Meets, quoted-LineHolds, boolean_short,
}
use emmbus2influx.Influx.Line.Steps.{
  LineHolds, GaveUp, GaveUp-bind, give_up-GaveUp, append-LineHolds,
}
use emmbus2influx.Influx.Line.{
  Arg, meas, tag, field_string, field_float, field_integer, field_boolean, timestamp, timestamp_now,
  other, type_of, Line, format_value, format_arg, format_args, start, format_line,
}

-- The line holds `text`, which ends in phase `p`.
pub record LineAt (p : Phase) (text : Bytes) (l : Line) : Type 0 where
  pub last : ℕ
  pub holds : LineHolds text last l
  pub phase : At p last

-- The outcome for the whole call, in which the phase moves on.
abbrev pub Follows : Bytes → Option (Phase × Bytes) → Run Line → Type 0
Follows text none run = GaveUp run
Follows text (some (q, out)) run = Ensures (LineAt q (text ++ out)) run

-- The phase of the verdict is one of `last_type` n.
abbrev Lands : Option (Phase × Bytes) → ℕ → Type 0
Lands none n = Unit {0}
Lands (some (q, out)) n = At q n

measurement-Lands : (name : Bytes) (p : Phase) → Lands (write_measurement name p) 1
measurement-Lands name started = refl
measurement-Lands name fielded = refl
measurement-Lands name stamped = refl
measurement-Lands name measured = tt
measurement-Lands name tagged = tt

tag-Lands : (key v : Bytes) (p : Phase) → Lands (write_tag key v p) 2
tag-Lands key v measured = refl
tag-Lands key v tagged = refl
tag-Lands key v started = tt
tag-Lands key v fielded = tt
tag-Lands key v stamped = tt

field-Lands : (key v : Bytes) (p : Phase) (n : ℕ) → 3 ≤ n → n ≤ 6 → Lands (write_field key v p) n
field-Lands key v measured n lo hi = (lo, hi)
field-Lands key v tagged n lo hi = (lo, hi)
field-Lands key v fielded n lo hi = (lo, hi)
field-Lands key v started n lo hi = tt
field-Lands key v stamped n lo hi = tt

time-Lands : (time : ℤ) (p : Phase) (n : ℕ) → 7 ≤ n → Lands (write_time time p) n
time-Lands time fielded n h = h
time-Lands time started n h = tt
time-Lands time measured n h = tt
time-Lands time tagged n h = tt
time-Lands time stamped n h = tt

advance :
    (spec : Option (Phase × Bytes)) (m : Run Line) (text : Bytes) (last n : ℕ)
    → Meets last text spec m
    → Lands spec n
    → Follows text spec (m >>= λ l'. ok (record l' { last_type = n }))
advance none m text last n h k = GaveUp-bind m _ h
advance (some (q, out)) m text last n h k =
    Ensures-bind (LineHolds (text ++ out) last) (LineAt q (text ++ out)) m _ h λ l' v. record {
      last = n;
      holds = record { holds = v.holds; large = v.large; last_is = refl };
      phase = k;
    }

join-Follows :
    (spec : Option (Phase × Bytes)) (m : Run Line) (text out : Bytes)
    → Follows (text ++ out) spec m
    → Follows text (joined out spec) m
join-Follows none m text out h = h
join-Follows (some (r, rest)) m text out h = rw (append_assoc text out rest) at h

then_nil : (spec : Option (Phase × Bytes)) → joined [] spec ≡ spec
then_nil none = refl
then_nil (some (r, rest)) = refl

pub chain :
    (spec : Option (Phase × Bytes)) (next : Phase → Option (Phase × Bytes)) (m : Run Line)
    (f : Line → Run Line) (text : Bytes)
    → Follows text spec m
    → ((q : Phase) (t : Bytes) (l : Line) → LineAt q t l → Follows t (next q) (f l))
    → Follows text (then_write spec next) (m >>= f)
chain none next m f text h k = GaveUp-bind m f h
chain (some (q, out)) next (ok l) f text h k =
    join-Follows (next q) (f l) text out (k q (text ++ out) l h)
chain (some (q, out)) next (ret r l) f text h k = absurd h
chain (some (q, out)) next fault f text h k = absurd h

module _ {D : Type 0} (alloc : ℕ → Bool) (print_float : ℤ → D → Bytes) (now : ℤ)
    (plenty : (n : ℕ) → alloc n ≡ true) where
  value-Meets :
      (arg : Arg D) (text : Bytes) (p : Phase) (last : ℕ) (l : Line)
      → LineHolds text last l
      → At p last
      → FitsArg print_float now arg
      → Meets last text (write print_float now p arg) (format_value alloc print_float now arg l)
  unfolding format_value
  value-Meets (meas name) text p last l hl phase h =
      measurement-Meets alloc plenty name text p last l hl phase h
  value-Meets (tag key v) text p last l hl phase h =
      tag-Meets alloc plenty last key v text p l hl phase h.0 h.1
  value-Meets (field_string key v) text p last l hl phase h =
      field-Meets alloc plenty 3 last key _ text p l _ hl phase (omega arith) h.0
        λ before l' hl'. quoted-LineHolds alloc plenty v before last l' hl' h.1
  value-Meets (field_float key d precision) text p last l hl phase h =
      field-Meets alloc plenty 4 last key (print_float precision d) text p l _ hl phase
        (omega arith) h.0
        λ before l' hl'.
          append-LineHolds alloc plenty (print_float precision d) before last l' hl' h.1
  value-Meets (field_integer key i) text p last l hl phase h =
      field-Meets alloc plenty 5 last key (print_int i ++ codes "i") text p l _ hl phase
        (omega arith) h.0
        λ before l' hl'.
          append-LineHolds alloc plenty (print_int i ++ codes "i") before last l' hl'
            (omega (arith, h.1, length-append (print_int i) (codes "i")))
  value-Meets (field_boolean key b) text p last l hl phase h =
      field-Meets alloc plenty 6 last key (boolean_text b) text p l _ hl phase (omega arith) h
        λ before l' hl'.
          append-LineHolds alloc plenty (boolean_text b) before last l' hl' (boolean_short b)
  value-Meets (timestamp i) text p last l hl phase h =
      time-Meets alloc plenty i last text p l hl phase h
  value-Meets timestamp_now text p last l hl phase h =
      time-Meets alloc plenty now last text p l hl phase h
  value-Meets other text p last l hl phase h = give_up-GaveUp l

  write-Lands : (arg : Arg D) (p : Phase) → Lands (write print_float now p arg) (type_of arg)
  write-Lands (meas name) p = measurement-Lands name p
  write-Lands (tag key v) p = tag-Lands key v p
  write-Lands (field_string key v) p = field-Lands key _ p 3 (omega arith) (omega arith)
  write-Lands (field_float key d precision) p = field-Lands key _ p 4 (omega arith) (omega arith)
  write-Lands (field_integer key i) p = field-Lands key _ p 5 (omega arith) (omega arith)
  write-Lands (field_boolean key b) p = field-Lands key _ p 6 (omega arith) (omega arith)
  write-Lands (timestamp i) p = time-Lands i p 7 (omega arith)
  write-Lands timestamp_now p = time-Lands now p 8 (omega arith)
  write-Lands other p = tt

  arg-Follows :
      (arg : Arg D) (text : Bytes) (p : Phase) (l : Line)
      → LineAt p text l
      → FitsArg print_float now arg
      → Follows text (write print_float now p arg) (format_arg alloc print_float now arg l)
  unfolding format_arg
  arg-Follows arg text p l v h =
      advance (write print_float now p arg) _ text v.last (type_of arg)
        (value-Meets arg text p v.last l v.holds v.phase h) (write-Lands arg p)

  -- From a text that ends in phase `p`, the arguments are written as the grammar says; where it
  -- forbids one of them, the call fails with -1 and the buffer is freed.
  pub format_args-Follows :
      (args : List (Arg D)) (text : Bytes) (p : Phase) (l : Line)
      → LineAt p text l
      → FitsArgs print_float now args
      → Follows text (write_all print_float now p args) (format_args alloc print_float now args l)
  unfolding format_args write_all
  format_args-Follows [] text p l v h = rw append-nil v
  format_args-Follows (arg ∷ args) text p l v h =
      chain (write print_float now p arg) (λ q. write_all print_float now q args) _ _ text
        (arg-Follows arg text p l v h.0) λ q t l' v'. format_args-Follows args t q l' v' h.1

  -- Either no buffer yet, or a line that holds `text`.
  abbrev pub Ready : Phase → Bytes → Line → Type 0
  Ready p text l =
      LineAt p text l
      ⊎ (l.influx_buf ≡ none) × (256 ≤ l.last_needed_buffer_size) × (p ≡ started) × (text ≡ [])

  start-going : (l : Line) (block : Bytes) → l.influx_buf ≡ some block → start alloc l ≡ ok l
  unfolding start
  start-going l block e = ground arith

  start-fresh :
      (l : Line)
      → l.influx_buf ≡ none
      → 256 ≤ l.last_needed_buffer_size
      → start alloc l
        ≡ ok (record {
          buffer = record {
            influx_buf = some (0 ∷ []);
            influx_buf_used = 0;
            influx_buf_len = l.last_needed_buffer_size;
            last_needed_buffer_size = l.last_needed_buffer_size;
          };
          last_type = 0;
        })
  unfolding start begin_line
  start-fresh l fresh large = ground (arith, plenty l.last_needed_buffer_size)

  start-LineAt :
      (p : Phase) (text : Bytes) (l : Line)
      → Ready p text l
      → Ensures (LineAt p text) (start alloc l)
  start-LineAt p text l (inl v) = rw (start-going l v.holds.holds.block v.holds.holds.owned) v
  start-LineAt p text l (inr (fresh, large, e, t)) =
      rw (start-fresh l fresh large, e, t)
        (record {
          last = 0;
          holds = record {
            holds = record {
              block = 0 ∷ [];
              owned = refl;
              used_text = refl;
              used_length = refl;
              room = omega arith;
              nonempty = omega arith;
            };
            large = large;
            last_is = refl;
          };
          phase = refl;
        })

  -- Let memory suffice, let the names and the texts of strings have at most 256 bytes, the texts of
  -- floats less than 255 and those of integers and times less than 254, and let there be a line that
  -- holds a text, or no buffer yet and a first size of at least 256. `influxdb_format_line` then
  -- writes the grammar's text behind what the buffer holds, beginning a buffer where there is none;
  -- where the grammar forbids one of the parts it fails with -1 and frees the buffer. It makes no
  -- store outside the block.
  pub format_line-Follows :
      (args : List (Arg D)) (text : Bytes) (p : Phase) (l : Line)
      → Ready p text l
      → FitsArgs print_float now args
      → Follows text (write_all print_float now p args) (format_line alloc print_float now args l)
  unfolding format_line
  format_line-Follows args text p l v h = rw (then_nil (write_all print_float now p args)) at (
      chain (some (p, [])) (λ q. write_all print_float now q args) (start alloc l) _ text
        (rw (append-nil text) (start-LineAt p text l v))
        λ q t l' v'. format_args-Follows args t q l' v' h)
