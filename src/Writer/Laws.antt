-- ===== src/Writer/Laws.antt =====
-- The text of a meter's row: the calls of `influxdb_format_line` add up to one row of the grammar.
use emmbus2influx.Base.{
  ℕ, ◌≡◌, refl, sym, ap, subst, ◌∙◌, Bool, true, false, Option, none, some, List, [], ◌∷◌, ◌++◌,
  append_assoc, append-nil, Bytes, ℤ, is_zero, Run, ◌>>=◌, inl,
}
use emmbus2influx.Influx.Line.Grammar.{Phase, FitsArgs, write, write_all, then_write, joined}
use emmbus2influx.Influx.Line.Laws.{LineAt, Follows, Ready, chain, format_line-Follows}
use emmbus2influx.Influx.Line.{Arg, Line, format_line}
use emmbus2influx.Meter.Floats.{Floats}
use emmbus2influx.Meter.{Meter}
use emmbus2influx.Writer.Row.{concat, row_args, row_args-calls}
use emmbus2influx.Writer.{first_call, later_calls, run_calls, influx_append_data}

module _ {D : Type 0} (print_float : ℤ → D → Bytes) (now : ℤ) where
  joined-then_write :
      (out : Bytes) (spec : Option (Phase × Bytes)) (next : Phase → Option (Phase × Bytes))
      → joined out (then_write spec next) ≡ then_write (joined out spec) next
  joined-then_write out none next = refl
  joined-then_write out (some (q, t)) next = joined-joined out t (next q)
    where
      joined-joined :
          (out t : Bytes) (spec : Option (Phase × Bytes))
          → joined out (joined t spec) ≡ joined (out ++ t) spec
      joined-joined out t none = refl
      joined-joined out t (some (r, rest)) = ap (λ x. some (r, x)) (sym (append_assoc out t rest))

  then_write_assoc :
      (spec : Option (Phase × Bytes)) (f g : Phase → Option (Phase × Bytes))
      → then_write spec (λ q. then_write (f q) g) ≡ then_write (then_write spec f) g
  then_write_assoc none f g = refl
  then_write_assoc (some (q, t)) f g = joined-then_write t (f q) g

  then_write-agree :
      (spec : Option (Phase × Bytes)) (f g : Phase → Option (Phase × Bytes))
      → ((q : Phase) → f q ≡ g q)
      → then_write spec f ≡ then_write spec g
  then_write-agree none f g h = refl
  then_write-agree (some (q, t)) f g h = ap (joined t) (h q)

  joined-nil : (spec : Option (Phase × Bytes)) → spec ≡ joined [] spec
  joined-nil none = refl
  joined-nil (some r) = refl

  pub write_all-concat :
      (p : Phase) (a b : List (Arg D))
      → write_all print_float now p (a ++ b)
        ≡ then_write (write_all print_float now p a) (λ q. write_all print_float now q b)
  unfolding write_all
  write_all-concat p [] b = joined-nil (write_all print_float now p b)
  write_all-concat p (x ∷ a) b =
      then_write-agree (write print_float now p x) _ _ (λ q. write_all-concat q a b)
      ∙ then_write_assoc (write print_float now p x) (λ q. write_all print_float now q a)
          (λ q. write_all print_float now q b)

  pub FitsArgs-left :
      (a b : List (Arg D)) → FitsArgs print_float now (a ++ b) → FitsArgs print_float now a
  FitsArgs-left [] b h = tt
  FitsArgs-left (x ∷ a) b (h, hs) = (h, FitsArgs-left a b hs)

  pub FitsArgs-right :
      (a b : List (Arg D)) → FitsArgs print_float now (a ++ b) → FitsArgs print_float now b
  FitsArgs-right [] b h = h
  FitsArgs-right (x ∷ a) b (h, hs) = FitsArgs-right a b hs

module _ {D : Type 0} (F : Floats D) (measurement tag_name : Bytes) (alloc : ℕ → Bool)
    (print_float : ℤ → D → Bytes) (now : ℤ) (plenty : (n : ℕ) → alloc n ≡ true) where
  pub call-Follows :
      (call rest : List (Arg D)) (f : Line → Run Line) (text : Bytes) (p : Phase) (l : Line)
      → Ready alloc print_float now plenty p text l
      → FitsArgs print_float now call
      → ((q : Phase) (t : Bytes) (l' : Line)
          → LineAt q t l'
          → Follows t (write_all print_float now q rest) (f l'))
      → Follows text
          (write_all print_float now p (call ++ rest))
          (format_line alloc print_float now call l >>= f)
  call-Follows call rest f text p l r h k =
      let split = write_all-concat print_float now p call rest in
      let first = format_line-Follows alloc print_float now plenty call text p l r h in
      let run = format_line alloc print_float now call l >>= f in
      subst (λ s. Follows text s run) (sym split)
        (chain (write_all print_float now p call) (λ q. write_all print_float now q rest)
          (format_line alloc print_float now call l) f text first k)

  pub run_calls-Follows :
      (calls : List (List (Arg D))) (text : Bytes) (p : Phase) (l : Line)
      → LineAt p text l
      → FitsArgs print_float now (concat calls)
      → Follows text
          (write_all print_float now p (concat calls))
          (run_calls F measurement tag_name alloc print_float now calls l)
  unfolding run_calls write_all
  run_calls-Follows [] text p l v h = subst (λ t. LineAt p t l) (sym (append-nil text)) v
  run_calls-Follows (call ∷ calls) text p l v h =
      call-Follows call (concat calls)
        (run_calls F measurement tag_name alloc print_float now calls) text p l (inl v)
        (FitsArgs-left print_float now call (concat calls) h)
        (λ q t l' v'.
          run_calls-Follows calls t q l' v' (FitsArgs-right print_float now call (concat calls) h))

  -- Let a meter be enabled and have registers that are enabled for InfluxDB, let the texts of its
  -- row fit the buffer's growth, and let memory suffice. Behind what the buffer holds, or in a new
  -- buffer, `influxAppendData` writes what the grammar of line protocol makes of the measurement,
  -- the tag, the fields of the enabled registers, those of all formulas and the time, in this
  -- order; where the grammar forbids this, the program ends with the buffer freed.
  pub influx_append_data-Follows :
      (m : Meter D) (time : ℤ) (text : Bytes) (p : Phase) (l : Line)
      → is_zero m.disabled ≡ true
      → is_zero m.num_enabled_registers_influx ≡ false
      → Ready alloc print_float now plenty p text l
      → FitsArgs print_float now (row_args F measurement tag_name m time)
      → Follows text
          (write_all print_float now p (row_args F measurement tag_name m time))
          (influx_append_data F measurement tag_name alloc print_float now m time l)
  unfolding influx_append_data
  influx_append_data-Follows m time text p l enabled registers r h =
      let first = first_call F measurement tag_name m in
      let later = later_calls F measurement tag_name time m in
      let calls = row_args-calls F measurement tag_name m time in
      let fits = subst (FitsArgs print_float now) calls h in
      let rest = run_calls F measurement tag_name alloc print_float now later in
      rw (influx_append_data, enabled, registers, run_calls)
        (subst
          (λ parts.
            Follows text (write_all print_float now p parts)
              (format_line alloc print_float now first l >>= rest))
          (sym calls)
          (call-Follows first (concat later) rest text p l r
            (FitsArgs-left print_float now first (concat later) fits)
            (λ q t l' v'.
              run_calls-Follows later t q l' v'
                (FitsArgs-right print_float now first (concat later) fits))))
