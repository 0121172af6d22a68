-- ===== src/Writer/Batch.antt =====
-- The rows of all meters that are to be written: the loop over the meters in the main loop.
use emmbus2influx.Base.{
  ℕ, ◌≡◌, ◌≢◌, refl, sym, subst, Bool, true, false, not, List, [], ◌∷◌, ◌++◌, append-nil,
  if◌then◌else◌, ◌&&◌, Bytes, ℤ, pos, eqb_ℤ, is_zero, ◌==◌, Run, ok, ◌>>=◌, inl, Bool-cases, inr,
  arith,
}
use emmbus2influx.Influx.Line.Grammar.{Phase, FitsArgs, write_all}
use emmbus2influx.Influx.Line.Laws.{LineAt, Follows, Ready, chain}
use emmbus2influx.Influx.Line.{Arg, Line}
use emmbus2influx.Meter.Floats.{Floats}
use emmbus2influx.Meter.{Meter}
use emmbus2influx.Writer.{influx_append_data, is_to_write, append_rows}
use emmbus2influx.Writer.Row.{row_args}
use emmbus2influx.Writer.Laws.{
  influx_append_data-Follows, write_all-concat, FitsArgs-left, FitsArgs-right,
}

both : (a b : Bool) → (a && b) ≡ true → (a ≡ true) × (b ≡ true)
both true b h = (refl, h)
both false b h = ground arith

not-true : (b : Bool) → not b ≡ true → b ≡ false
not-true true h = ground arith
not-true false h = refl

module _ {D : Type 0} (F : Floats D) (measurement tag_name : Bytes) (alloc : ℕ → Bool)
    (print_float : ℤ → D → Bytes) (now : ℤ) (plenty : (n : ℕ) → alloc n ≡ true) where
  -- Whether the meter gives a row: it has been read, its countdown stands at 0, it is enabled, and
  -- it has registers for InfluxDB.
  abbrev pub has_row : Meter D → Bool
  has_row m =
      (not (m.meter_has_been_read == 0) && eqb_ℤ m.influx_write_countdown (pos 0))
      && (eqb_ℤ m.disabled (pos 0) && not (eqb_ℤ m.num_enabled_registers_influx (pos 0)))

  -- The parts of the rows of those meters.
  abbrev pub batch_args : List (Meter D) → ℤ → List (Arg D)
  batch_args [] time = []
  batch_args (m ∷ rest) time =
      if has_row m
      then row_args F measurement tag_name m time ++ batch_args rest time
      else batch_args rest time

  step : Meter D → ℤ → Line → Run Line
  step m time l =
      if is_to_write m
      then influx_append_data F measurement tag_name alloc print_float now m time l
      else ok l

  step_idle : (m : Meter D) (time : ℤ) (l : Line) → has_row m ≡ false → step m time l ≡ ok l
  unfolding step influx_append_data
  step_idle m time l h = elim (Bool-cases (is_to_write m)) [
    | inr off ↦ rw off refl
    | inl on ↦ rw on (idle m time l (rw on at h))
  ]
    where
      idle :
          (m : Meter D) (time : ℤ) (l : Line)
          → (is_zero m.disabled && not (is_zero m.num_enabled_registers_influx)) ≡ false
          → influx_append_data F measurement tag_name alloc print_float now m time l ≡ ok l
      idle m time l h = elim (Bool-cases (is_zero m.disabled)) [
        | inr off ↦ rw (influx_append_data, off) refl
        | inl on ↦ elim (Bool-cases (is_zero m.num_enabled_registers_influx)) [
          | inl none_there ↦ rw (influx_append_data, on, none_there) refl
          | inr some_there ↦ let wrong = rw (on, some_there) at h in cc
        ]
      ]

  step_row :
      (m : Meter D) (time : ℤ) (text : Bytes) (p : Phase) (l : Line)
      → has_row m ≡ true
      → Ready alloc print_float now plenty p text l
      → FitsArgs print_float now (row_args F measurement tag_name m time)
      → Follows text
          (write_all print_float now p (row_args F measurement tag_name m time))
          (step m time l)
  unfolding step
  step_row m time text p l h r fits =
      let (due, h') = both (is_to_write m) _ h in
      let (on, h'') = both (is_zero m.disabled) _ h' in
      rw due (
        influx_append_data-Follows F measurement tag_name alloc print_float now plenty m time text p
          l on (not-true (is_zero m.num_enabled_registers_influx) h'') r fits)

  abbrev rows : List (Meter D) → ℤ → Line → Run Line
  rows = append_rows F measurement tag_name alloc print_float now

  abbrev args : Meter D → ℤ → List (Arg D)
  args = row_args F measurement tag_name

  abbrev RestFollows : List (Meter D) → ℤ → Type 0
  RestFollows ms time =
      (text : Bytes) (p : Phase) (l : Line)
      → LineAt p text l
      → FitsArgs print_float now (batch_args ms time)
      → Follows text (write_all print_float now p (batch_args ms time)) (rows ms time l)

  -- a meter that gives a row, and then the others
  row-Follows :
      (m : Meter D) (ms : List (Meter D)) (time : ℤ) (text : Bytes) (p : Phase) (l : Line)
      → has_row m ≡ true
      → Ready alloc print_float now plenty p text l
      → FitsArgs print_float now (args m time ++ batch_args ms time)
      → RestFollows ms time
      → Follows text
          (write_all print_float now p (args m time ++ batch_args ms time))
          (step m time l >>= rows ms time)
  row-Follows m ms time text p l on r fits rest =
      let split = write_all-concat print_float now p (args m time) (batch_args ms time) in
      let fits_row = FitsArgs-left print_float now (args m time) (batch_args ms time) fits in
      let fits_rest = FitsArgs-right print_float now (args m time) (batch_args ms time) fits in
      subst (λ s. Follows text s (step m time l >>= rows ms time)) (sym split)
        (chain (write_all print_float now p (args m time))
          (λ q. write_all print_float now q (batch_args ms time)) (step m time l) (rows ms time)
          text (step_row m time text p l on r fits_row) (λ q t l' v. rest t q l' v fits_rest))

  -- From a line that has a text already.
  rows-At : (ms : List (Meter D)) (time : ℤ) → RestFollows ms time
  unfolding append_rows write_all step
  rows-At [] time text p l v fits = subst (λ t. LineAt p t l) (sym (append-nil text)) v
  rows-At (m ∷ ms) time text p l v fits = go (rows-At ms time) (has_row m) refl fits
    where
      go :
          RestFollows ms time
          → (b : Bool) → has_row m ≡ b
          → FitsArgs print_float now
              (if b then args m time ++ batch_args ms time else batch_args ms time)
          → Follows text
              (write_all print_float now p
                (if b then args m time ++ batch_args ms time else batch_args ms time))
              (step m time l >>= rows ms time)
      go rest true on fits = row-Follows m ms time text p l on (inl v) fits rest
      go rest false off fits =
          subst
            (λ run.
              Follows text (write_all print_float now p (batch_args ms time))
                (run >>= rows ms time))
            (sym (step_idle m time l off)) (rest text p l v fits)

  -- Let some meter give a row, let the texts of the rows fit the buffer's growth, and let memory
  -- suffice. The loop over the meters then writes, behind what the buffer holds or in a new buffer,
  -- what the grammar of line protocol makes of the rows of all meters that have been read, whose
  -- countdown stands at 0, that are enabled and that have registers for InfluxDB, in the order of the meters, and nothing of the others;
  -- where the grammar forbids this, the program ends with the buffer freed.
  pub append_rows-Follows :
      (ms : List (Meter D)) (time : ℤ) (text : Bytes) (p : Phase) (l : Line)
      → Ready alloc print_float now plenty p text l
      → FitsArgs print_float now (batch_args ms time)
      → batch_args ms time ≢ []
      → Follows text
          (write_all print_float now p (batch_args ms time))
          (append_rows F measurement tag_name alloc print_float now ms time l)
  unfolding append_rows step
  append_rows-Follows [] time text p l r fits some_row = absurd (some_row refl)
  append_rows-Follows (m ∷ ms) time text p l r fits some_row =
      go (append_rows-Follows ms time text p l r) (has_row m) refl fits some_row
    where
      go :
          (FitsArgs print_float now (batch_args ms time)
            → batch_args ms time ≢ []
            → Follows text (write_all print_float now p (batch_args ms time)) (rows ms time l))
          → (b : Bool) → has_row m ≡ b
          → FitsArgs print_float now
              (if b then args m time ++ batch_args ms time else batch_args ms time)
          → (if b then args m time ++ batch_args ms time else batch_args ms time) ≢ []
          → Follows text
              (write_all print_float now p
                (if b then args m time ++ batch_args ms time else batch_args ms time))
              (step m time l >>= rows ms time)
      go later true on fits some_row = row-Follows m ms time text p l on r fits (rows-At ms time)
      go later false off fits some_row =
          subst
            (λ run.
              Follows text (write_all print_float now p (batch_args ms time))
                (run >>= rows ms time))
            (sym (step_idle m time l off)) (later fits some_row)
