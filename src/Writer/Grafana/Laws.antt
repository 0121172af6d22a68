-- ===== src/Writer/Grafana/Laws.antt =====
-- The text of a meter's row for Grafana, and the name that is too long.
use emmbus2influx.Base.{
  ℕ, ◌+◌, ◌≤◌, ◌<◌, ◌≡◌, refl, sym, subst, ◌>>=◌, Bool, true, false, List, [], ◌∷◌, length,
  length-append, length-take, take, codes, ltb, Bytes, ℤ, is_zero, fault, arith,
}
use emmbus2influx.Influx.Line.Grammar.{Phase, FitsArgs, write_all}
use emmbus2influx.Influx.Line.Laws.{Follows, Ready}
use emmbus2influx.Influx.Line.{Arg, meas, Line, format_line}
use emmbus2influx.Meter.Floats.{Floats}
use emmbus2influx.Meter.{Meter}
use emmbus2influx.Writer.Grafana.{with_slash, channel_name, grafana_calls, grafana_append_data}
use emmbus2influx.Writer.Grafana.Row.{channel, grafana_args, channel-name, grafana_args-calls}
use emmbus2influx.Writer.Row.{concat}
use emmbus2influx.Writer.Laws.{call-Follows, run_calls-Follows}
use emmbus2influx.Writer.{run_calls, or_else}

is_short : (n : ℕ) → n < 255 → ltb n 255 ≡ true
is_short n h = ground arith

is_long : (n : ℕ) → 255 ≤ n → ltb n 255 ≡ false
is_long n h = ground arith

module _ {D : Type 0} (F : Floats D) (use_measurement : Bool) (measurement : Bytes)
    (alloc : ℕ → Bool) (print_float : ℤ → D → Bytes) (now : ℤ)
    (plenty : (n : ℕ) → alloc n ≡ true) where
  -- Let a meter be enabled and have registers that are enabled for Grafana, let its name and its
  -- measurement make a channel of less than 255 bytes, let the texts of its row fit the buffer's
  -- growth, and let memory suffice. Then `grafanaAppendData` writes what the grammar of line
  -- protocol makes of the channel, the fields of the enabled registers, those of the enabled
  -- formulas and the time, in this order; where the grammar forbids this, the program ends with
  -- the buffer freed.
  pub grafana_append_data-Follows :
      (m : Meter D) (time : ℤ) (text : Bytes) (p : Phase) (l : Line)
      → is_zero m.disabled ≡ true
      → is_zero m.num_enabled_registers_grafana ≡ false
      → length (channel F use_measurement measurement m) < 255
      → Ready alloc print_float now plenty p text l
      → FitsArgs print_float now (grafana_args F use_measurement measurement m time)
      → Follows text
          (write_all print_float now p (grafana_args F use_measurement measurement m time))
          (grafana_append_data F use_measurement measurement alloc print_float now m time l)
  unfolding grafana_append_data
  grafana_append_data-Follows m time text p l enabled registers short r h =
      let name = channel_name F use_measurement measurement m in
      let first : List (Arg D) = meas name ∷ [] in
      let later = grafana_calls F use_measurement measurement time m in
      let rest = run_calls F measurement [] alloc print_float now later in
      let calls = grafana_args-calls F use_measurement measurement m time in
      let inside =
        subst (λ c. length c < 255) (channel-name F use_measurement measurement m) short in
      let fits = subst (FitsArgs print_float now) calls h in
      rw (grafana_append_data, enabled, registers, is_short (length name) inside, run_calls)
        (subst
          (λ parts.
            Follows text (write_all print_float now p parts)
              (format_line alloc print_float now first l >>= rest))
          (sym calls)
          (call-Follows F measurement [] alloc print_float now plenty first (concat later) rest text
            p l r (fits.0, tt)
            (λ q t l' v'.
              run_calls-Follows F measurement [] alloc print_float now plenty later t q l' v'
                fits.1)))

module _ {D : Type 0} (F : Floats D) (measurement : Bytes) (alloc : ℕ → Bool)
    (print_float : ℤ → D → Bytes) (now : ℤ) where
  length-with_slash :
      (head : Bytes)
      → 0 < length head
      → length (with_slash F true measurement head) ≡ length head + 1
  length-with_slash [] h = absurd (omega arith)
  length-with_slash (c ∷ cs) h = length-append (c ∷ cs) (codes "/")

  length-channel_name :
      (m : Meter D)
      → 140 ≤ length (or_else m.influx_measurement measurement)
      → 114 ≤ length (or_else m.gname (or_else m.name []))
      → 255 ≤ length (channel_name F true measurement m)
  length-channel_name m long_measurement long_name =
      let head = take 140 (or_else m.influx_measurement measurement) in
      let tail = take 140 (or_else m.gname (or_else m.name [])) in
      let heads : length head ≡ 140 =
        omega (arith, length-take 140 (or_else m.influx_measurement measurement)) in
      let tails : 114 ≤ length tail =
        omega (arith, length-take 140 (or_else m.gname (or_else m.name []))) in
      let slashed = length-with_slash head (omega (arith, heads)) in
      omega (arith, length-append (with_slash F true measurement head) tail, heads, tails, slashed)

  -- A meter that has a measurement of at least 140 bytes and a name of at least 114, where the
  -- measurement is used for the channel: `grafanaAppendData` puts a channel name together that
  -- goes past the end of its array.
  pub grafana_append_data_overflow :
      (m : Meter D) (time : ℤ) (l : Line)
      → is_zero m.disabled ≡ true
      → is_zero m.num_enabled_registers_grafana ≡ false
      → 140 ≤ length (or_else m.influx_measurement measurement)
      → 114 ≤ length (or_else m.gname (or_else m.name []))
      → grafana_append_data F true measurement alloc print_float now m time l ≡ fault
  unfolding grafana_append_data
  grafana_append_data_overflow m time l enabled registers long_measurement long_name =
      let full =
        is_long (length (channel_name F true measurement m))
          (length-channel_name m long_measurement long_name) in
      rw (grafana_append_data, enabled, registers, full) refl
