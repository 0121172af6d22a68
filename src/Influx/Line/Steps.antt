-- ===== src/Influx/Line/Steps.antt =====
-- What each call of `_format_line2` does to a buffer that holds a text.
use emmbus2influx.Base.{
  ℕ, ◌≤◌, ◌<◌, ◌≡◌, refl, Bool, true, false, ◌&&◌, ◌||◌, print_int, none, ◌∷◌, ◌++◌, append_assoc,
  arith, ltb, leb, ◌==◌, if◌then◌else◌, length, Bytes, codes, ℤ, negsuc, Run, ok, ret, fault, ◌>>=◌,
  Ensures, Ensures-bind, ◌⊎◌,
}
use emmbus2influx.Influx.Buffer.{Buffer, free_buffer, append_to_buf, escaped_append}
use emmbus2influx.Influx.Buffer.Escape.{escaped, escaped_append-Extends}
use emmbus2influx.Influx.Buffer.Laws.{Holds, Extends, ExtendsString, append_to_buf-ExtendsString}
use emmbus2influx.Influx.Line.Grammar.{key_text}
use emmbus2influx.Influx.Line.{
  Line, give_up, or_give_up, or_return, append, escape, format_key, format_time, format_measurement,
}

-- The line holds `text`, in a block of the initial size at least.
pub record LineHolds (text : Bytes) (last : ℕ) (l : Line) : Type 0 where
  pub holds : Holds l.buffer text
  pub large : 256 ≤ l.influx_buf_len
  pub last_is : l.last_type ≡ last

-- The call has failed with -1, and the buffer has been freed.
abbrev pub GaveUp : Run Line → Type 0
GaveUp (ok l) = ⊥
GaveUp (ret r l) =
    (r ≡ negsuc 0) × (l.influx_buf ≡ none) × (l.influx_buf_used ≡ 0) × (l.influx_buf_len ≡ 0)
GaveUp fault = ⊥

pub GaveUp-bind : (m : Run Line) (f : Line → Run Line) → GaveUp m → GaveUp (m >>= f)
GaveUp-bind (ok l) f h = absurd h
GaveUp-bind (ret r l) f h = h
GaveUp-bind fault f h = absurd h

pub GaveUp-later :
    (P : Line → Type 0) (m : Run Line) (f : Line → Run Line)
    → Ensures P m
    → ((l : Line) → P l → GaveUp (f l))
    → GaveUp (m >>= f)
GaveUp-later P (ok l) f h k = k l h
GaveUp-later P (ret r l) f h k = absurd h
GaveUp-later P fault f h k = absurd h

pub give_up-GaveUp : (l : Line) → GaveUp (give_up l)
unfolding give_up free_buffer
give_up-GaveUp l = (refl, refl, refl, refl)

or_give_up-LineHolds :
    (l : Line) (m : Run Buffer) (text : Bytes) (size last : ℕ)
    → 256 ≤ size
    → l.last_type ≡ last
    → Ensures (ExtendsString size text) m
    → Ensures (LineHolds text last) (or_give_up l m)
unfolding or_give_up
or_give_up-LineHolds l (ok b) text size last s e (h, k) = record {
  holds = h.holds;
  large = omega arith;
  last_is = e;
}
or_give_up-LineHolds l (ret r b) text size last s e h = absurd h
or_give_up-LineHolds l fault text size last s e h = absurd h

or_return-LineHolds :
    (code : ℤ) (l : Line) (m : Run Buffer) (text : Bytes) (size last : ℕ)
    → 256 ≤ size
    → l.last_type ≡ last
    → Ensures (Extends size text) m
    → Ensures (LineHolds text last) (or_return code l m)
unfolding or_return
or_return-LineHolds code l (ok b) text size last s e (h, k) = record {
  holds = h;
  large = omega arith;
  last_is = e;
}
or_return-LineHolds code l (ret r b) text size last s e h = absurd h
or_return-LineHolds code l fault text size last s e h = absurd h

regroup : (a b c d : Bytes) → ((a ++ b) ++ c) ++ d ≡ a ++ (b ++ (c ++ d))
regroup a b c d = simp append_assoc

module _ (alloc : ℕ → Bool) (plenty : (n : ℕ) → alloc n ≡ true) where
  pub append-LineHolds :
      (t text : Bytes) (last : ℕ) (l : Line)
      → LineHolds text last l
      → length t < 255
      → Ensures (LineHolds (text ++ t) last) (append alloc t l)
  unfolding append
  append-LineHolds t text last l v h =
      let short : leb 255 (length t) ≡ false = ground arith in
      rw short (
        or_give_up-LineHolds l (append_to_buf alloc t l.buffer) (text ++ t) l.influx_buf_len last
          v.large v.last_is (append_to_buf-ExtendsString alloc l.buffer t text v.holds (plenty _)))

  pub escape-LineHolds :
      (code : ℤ) (src escape_seq text : Bytes) (last : ℕ) (l : Line)
      → LineHolds text last l
      → length src ≤ 256
      → Ensures
          (LineHolds (text ++ escaped escape_seq src) last)
          (escape alloc code src escape_seq l)
  unfolding escape
  escape-LineHolds code src escape_seq text last l v h =
      or_return-LineHolds code l (escaped_append alloc src escape_seq l.buffer)
        (text ++ escaped escape_seq src) l.influx_buf_len last v.large v.last_is
        (escaped_append-Extends alloc src escape_seq l.buffer text plenty v.holds
          (omega (arith, v.large)) (omega (arith, v.large)))

  -- A key where it may stand: the separator, the escaped key and the equals sign.
  pub format_key-LineHolds :
      (type last : ℕ) (sep key text : Bytes) (l : Line)
      → LineHolds text last l
      → (ltb l.last_type 1 || ltb (if type == 2 then 2 else 6) l.last_type) ≡ false
      → (if leb l.last_type 2 && ltb 2 type then codes " " else codes ",") ≡ sep
      → length sep < 255
      → length key ≤ 256
      → Ensures (LineHolds (text ++ key_text sep key) last) (format_key alloc type key l)
  unfolding format_key
  format_key-LineHolds type last sep key text l v open_ e short h =
      rw (open_, e)
        (Ensures-bind (LineHolds (text ++ sep) last) (LineHolds (text ++ key_text sep key) last)
          (append alloc sep l) _ (append-LineHolds sep text last l v short)
          λ l₁ v₁.
            Ensures-bind (LineHolds ((text ++ sep) ++ escaped (codes ",= ") key) last)
              (LineHolds (text ++ key_text sep key) last)
              (escape alloc (negsuc 1) key (codes ",= ") l₁) _
              (escape-LineHolds (negsuc 1) key (codes ",= ") (text ++ sep) last l₁ v₁ h)
              λ l₂ v₂. rw (regroup text sep (escaped (codes ",= ") key) (codes "=")) at (
                append-LineHolds (codes "=") ((text ++ sep) ++ escaped (codes ",= ") key) last l₂ v₂
                  (omega arith)))

  pub format_key-GaveUp :
      (type : ℕ) (key : Bytes) (l : Line)
      → (ltb l.last_type 1 || ltb (if type == 2 then 2 else 6) l.last_type) ≡ true
      → GaveUp (format_key alloc type key l)
  unfolding format_key
  format_key-GaveUp type key l e = rw e (give_up-GaveUp l)

  pub format_time-LineHolds :
      (time : ℤ) (last : ℕ) (text : Bytes) (l : Line)
      → LineHolds text last l
      → 3 ≤ last
      → last ≤ 6
      → length (print_int time) < 254
      → Ensures (LineHolds (text ++ b' ' ∷ print_int time) last) (format_time alloc time l)
  unfolding format_time
  format_time-LineHolds time last text l v lo hi h =
      let inside : (ltb l.last_type 3 || ltb 6 l.last_type) ≡ false = ground (arith, v.last_is) in
      rw inside (append-LineHolds (b' ' ∷ print_int time) text last l v (omega arith))

  pub format_time-GaveUp :
      (time : ℤ) (l : Line)
      → (l.last_type < 3) ⊎ (6 < l.last_type)
      → GaveUp (format_time alloc time l)
  unfolding format_time
  format_time-GaveUp time l h =
      let outside : (ltb l.last_type 3 || ltb 6 l.last_type) ≡ true = ground arith in
      rw outside (give_up-GaveUp l)

  -- The first measurement, and one behind a field or a timestamp.
  pub format_measurement-first :
      (name text : Bytes) (l : Line)
      → LineHolds text 0 l
      → length name ≤ 256
      → Ensures (LineHolds (text ++ escaped (codes ", ") name) 0) (format_measurement alloc name l)
  unfolding format_measurement
  format_measurement-first name text l v h =
      let begun : (l.last_type == 0) ≡ true = ground (arith, v.last_is) in
      let free : (ltb 0 l.last_type && leb l.last_type 2) ≡ false = ground (arith, v.last_is) in
      rw (begun, free) (escape-LineHolds (negsuc 2) name (codes ", ") text 0 l v h)

  pub format_measurement-next :
      (name text : Bytes) (last : ℕ) (l : Line)
      → LineHolds text last l
      → 3 ≤ last
      → length name ≤ 256
      → Ensures
          (LineHolds (text ++ (codes "\n" ++ escaped (codes ", ") name)) last)
          (format_measurement alloc name l)
  unfolding format_measurement
  format_measurement-next name text last l v lo h =
      let begun : (l.last_type == 0) ≡ false = ground (arith, v.last_is) in
      let done = text ++ (codes "\n" ++ escaped (codes ", ") name) in
      rw begun (
        Ensures-bind (LineHolds (text ++ codes "\n") last) (LineHolds done last)
          (append alloc (codes "\n") l) _
          (append-LineHolds (codes "\n") text last l v (omega arith))
          λ l₁ v₁.
            let free : (ltb 0 l₁.last_type && leb l₁.last_type 2) ≡ false =
              ground (arith, v₁.last_is) in
            rw free (
              rw (append_assoc text (codes "\n") (escaped (codes ", ") name)) at
                (escape-LineHolds (negsuc 2) name (codes ", ") (text ++ codes "\n") last l₁ v₁ h)))

  -- A line with no field cannot be followed by another.
  pub format_measurement-GaveUp :
      (name text : Bytes) (last : ℕ) (l : Line)
      → LineHolds text last l
      → 1 ≤ last
      → last ≤ 2
      → GaveUp (format_measurement alloc name l)
  unfolding format_measurement
  format_measurement-GaveUp name text last l v lo hi =
      let begun : (l.last_type == 0) ≡ false = ground (arith, v.last_is) in
      rw begun (
        GaveUp-later (LineHolds (text ++ codes "\n") last) (append alloc (codes "\n") l) _
          (append-LineHolds (codes "\n") text last l v (omega arith))
          λ l₁ v₁.
            let held : (ltb 0 l₁.last_type && leb l₁.last_type 2) ≡ true =
              ground (arith, v₁.last_is) in
            rw held (give_up-GaveUp l₁))
