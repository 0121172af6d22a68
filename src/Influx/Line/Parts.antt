-- ===== src/Influx/Line/Parts.antt =====
-- Each case of the switch of `_format_line2` against the grammar's verdict on it.
use emmbus2influx.Base.{
  ℕ, ◌≤◌, ◌<◌, ◌≡◌, Bool, true, false, ◌&&◌, ◌||◌, Option, none, some, ◌++◌, append_assoc, arith,
  ltb, leb, ◌==◌, if◌then◌else◌, length, Bytes, codes, ℤ, negsuc, Run, ◌>>=◌, Ensures, Ensures-bind,
  inl, inr, print_int,
}
use emmbus2influx.Influx.Buffer.Escape.{escaped}
use emmbus2influx.Influx.Line.Grammar.{
  Phase, started, measured, tagged, fielded, stamped, At, key_text, write_measurement, write_tag,
  write_field, write_time, boolean_text,
}
use emmbus2influx.Influx.Line.Steps.{
  LineHolds, GaveUp, GaveUp-bind, append-LineHolds, escape-LineHolds, format_key-LineHolds,
  format_key-GaveUp, format_time-LineHolds, format_time-GaveUp, format_measurement-first,
  format_measurement-next, format_measurement-GaveUp,
}
use emmbus2influx.Influx.Line.{Line, append, escape, format_key, format_time, format_measurement}

-- The outcome that the grammar's verdict asks of a run from `text`, with `last_type` as it was.
abbrev pub Meets : ℕ → Bytes → Option (Phase × Bytes) → Run Line → Type 0
Meets last text none run = GaveUp run
Meets last text (some (q, out)) run = Ensures (LineHolds (text ++ out) last) run

regroup : (a b c d : Bytes) → ((a ++ b) ++ c) ++ d ≡ a ++ (b ++ (c ++ d))
regroup a b c d = simp append_assoc

pub boolean_short : (b : Bool) → length (boolean_text b) < 255
boolean_short true = omega arith
boolean_short false = omega arith

module _ (alloc : ℕ → Bool) (plenty : (n : ℕ) → alloc n ≡ true) where
  pub measurement-Meets :
      (name text : Bytes) (p : Phase) (last : ℕ) (l : Line)
      → LineHolds text last l
      → At p last
      → length name ≤ 256
      → Meets last text (write_measurement name p) (format_measurement alloc name l)
  measurement-Meets name text started last l v phase h =
      rw phase (format_measurement-first alloc plenty name text l (rw phase at v) h)
  measurement-Meets name text measured last l v phase h =
      format_measurement-GaveUp alloc plenty name text last l v (omega arith) (omega arith)
  measurement-Meets name text tagged last l v phase h =
      format_measurement-GaveUp alloc plenty name text last l v (omega arith) (omega arith)
  measurement-Meets name text fielded last l v phase h =
      format_measurement-next alloc plenty name text last l v phase.0 h
  measurement-Meets name text stamped last l v phase h =
      format_measurement-next alloc plenty name text last l v (omega arith) h

  -- A key and what `body` writes behind it.
  key-then :
      (type last : ℕ) (sep key v text : Bytes) (l : Line) (body : Line → Run Line)
      → LineHolds text last l
      → (ltb l.last_type 1 || ltb (if type == 2 then 2 else 6) l.last_type) ≡ false
      → (if leb l.last_type 2 && ltb 2 type then codes " " else codes ",") ≡ sep
      → length sep < 255
      → length key ≤ 256
      → ((before : Bytes) (l' : Line)
          → LineHolds before last l'
          → Ensures (LineHolds (before ++ v) last) (body l'))
      → Ensures
          (LineHolds (text ++ (key_text sep key ++ v)) last)
          (format_key alloc type key l >>= body)
  key-then type last sep key v text l body hl free e short h k =
      Ensures-bind (LineHolds (text ++ key_text sep key) last)
        (LineHolds (text ++ (key_text sep key ++ v)) last) (format_key alloc type key l) body
        (format_key-LineHolds alloc plenty type last sep key text l hl free e short h)
        λ l' hl'.
          rw (append_assoc text (key_text sep key) v) at (k (text ++ key_text sep key) l' hl')

  pub field-Meets :
      (type last : ℕ) (key v text : Bytes) (p : Phase) (l : Line) (body : Line → Run Line)
      → LineHolds text last l
      → At p last
      → 3 ≤ type
      → length key ≤ 256
      → ((before : Bytes) (l' : Line)
          → LineHolds before last l'
          → Ensures (LineHolds (before ++ v) last) (body l'))
      → Meets last text (write_field key v p) (format_key alloc type key l >>= body)
  field-Meets type last key v text started l body hl phase t h k =
      GaveUp-bind _ body (format_key-GaveUp alloc plenty type key l (ground (arith, hl.last_is)))
  field-Meets type last key v text measured l body hl phase t h k =
      key-then type last (codes " ") key v text l body hl (ground (arith, hl.last_is))
        (ground (arith, hl.last_is)) (omega arith) h k
  field-Meets type last key v text tagged l body hl phase t h k =
      key-then type last (codes " ") key v text l body hl (ground (arith, hl.last_is))
        (ground (arith, hl.last_is)) (omega arith) h k
  field-Meets type last key v text fielded l body hl phase t h k =
      key-then type last (codes ",") key v text l body hl (ground (arith, hl.last_is))
        (ground (arith, hl.last_is)) (omega arith) h k
  field-Meets type last key v text stamped l body hl phase t h k =
      GaveUp-bind _ body (format_key-GaveUp alloc plenty type key l (ground (arith, hl.last_is)))

  pub tag-Meets :
      (last : ℕ) (key v text : Bytes) (p : Phase) (l : Line)
      → LineHolds text last l
      → At p last
      → length key ≤ 256
      → length v ≤ 256
      → Meets last text
          (write_tag key v p)
          (format_key alloc 2 key l >>= λ l₁. escape alloc (negsuc 3) v (codes ",= ") l₁)
  tag-Meets last key v text measured l hl phase h hv =
      key-then 2 last (codes ",") key (escaped (codes ",= ") v) text l _ hl
        (ground (arith, hl.last_is)) (ground (arith, hl.last_is)) (omega arith) h
        λ before l' hl'.
          escape-LineHolds alloc plenty (negsuc 3) v (codes ",= ") before last l' hl' hv
  tag-Meets last key v text tagged l hl phase h hv =
      key-then 2 last (codes ",") key (escaped (codes ",= ") v) text l _ hl
        (ground (arith, hl.last_is)) (ground (arith, hl.last_is)) (omega arith) h
        λ before l' hl'.
          escape-LineHolds alloc plenty (negsuc 3) v (codes ",= ") before last l' hl' hv
  tag-Meets last key v text started l hl phase h hv =
      GaveUp-bind _ _ (format_key-GaveUp alloc plenty 2 key l (ground (arith, hl.last_is)))
  tag-Meets last key v text fielded l hl phase h hv =
      GaveUp-bind _ _ (format_key-GaveUp alloc plenty 2 key l (ground (arith, hl.last_is)))
  tag-Meets last key v text stamped l hl phase h hv =
      GaveUp-bind _ _ (format_key-GaveUp alloc plenty 2 key l (ground (arith, hl.last_is)))

  pub time-Meets :
      (time : ℤ) (last : ℕ) (text : Bytes) (p : Phase) (l : Line)
      → LineHolds text last l
      → At p last
      → length (print_int time) < 254
      → Meets last text (write_time time p) (format_time alloc time l)
  time-Meets time last text fielded l hl phase h =
      format_time-LineHolds alloc plenty time last text l hl phase.0 phase.1 h
  time-Meets time last text started l hl phase h =
      format_time-GaveUp alloc plenty time l (inl (omega (arith, hl.last_is)))
  time-Meets time last text measured l hl phase h =
      format_time-GaveUp alloc plenty time l (inl (omega (arith, hl.last_is)))
  time-Meets time last text tagged l hl phase h =
      format_time-GaveUp alloc plenty time l (inl (omega (arith, hl.last_is)))
  time-Meets time last text stamped l hl phase h =
      format_time-GaveUp alloc plenty time l (inr (omega (arith, hl.last_is)))

  -- A string between its quotes.
  pub quoted-LineHolds :
      (v before : Bytes) (last : ℕ) (l : Line)
      → LineHolds before last l
      → length v ≤ 256
      → Ensures
          (LineHolds (before ++ (codes "\"" ++ (escaped (codes "\"") v ++ codes "\""))) last)
          (append alloc (codes "\"") l >>= λ l₂.
            escape alloc (negsuc 4) v (codes "\"") l₂ >>= λ l₃. append alloc (codes "\"") l₃)
  quoted-LineHolds v before last l hl h =
      let q = codes "\"" in
      let e = escaped (codes "\"") v in
      let done = before ++ (q ++ (e ++ q)) in
      Ensures-bind (LineHolds (before ++ q) last) (LineHolds done last) (append alloc q l) _
        (append-LineHolds alloc plenty q before last l hl (omega arith))
        λ l₂ hl₂.
          Ensures-bind (LineHolds ((before ++ q) ++ e) last) (LineHolds done last)
            (escape alloc (negsuc 4) v q l₂) _
            (escape-LineHolds alloc plenty (negsuc 4) v q (before ++ q) last l₂ hl₂ h)
            λ l₃ hl₃.
              rw (regroup before q e q) at
                (append-LineHolds alloc plenty q ((before ++ q) ++ e) last l₃ hl₃ (omega arith))
