-- ===== src/Meter/Window.antt =====
-- What a meter writes to InfluxDB: `executeInfluxWriteCalc` over the rounds of `cron_queryMeters`
-- between two writes.
pub mod Values
pub mod Extremes
use mathlib.Core.List.{foldl, map-map, map-id}
use mathlib.Core.Path.{fun_ext}
use emmbus2influx.Base.{
  ℕ, zero, suc, ◌+◌, ◌-◌, ◌≤◌, ◌<◌, ◌≡◌, ◌≢◌, refl, sym, ap, ◌∙◌, Bool, true, false, Option, none,
  some, List, [], ◌∷◌, map, arith, if◌then◌else◌, length, Bytes, ℤ, pos, negsuc, eqb_ℤ, is_zero,
  pred_ℤ,
}
use emmbus2influx.Meter.Floats.{Floats}
use emmbus2influx.Meter.Values.{
  set_meter_fvalue_influx_last, set_meter_fvalue_influx, execute_influx_write_calc, mult_process,
  keep_last, take_value, process_register, keep_last_formula, take_formula, process_formula,
}
use emmbus2influx.Meter.{
  InfluxMultProcessing, MeterRegister, MeterRegisterRead, MeterFormula, Meter,
}

map-map3 :
    {A : Type 0} (h g f : A → A) (xs : List A)
    → map h (map g (map f xs)) ≡ map (λ x. h (g (f x))) xs
map-map3 h g f xs = ap (map h) (map-map g f xs) ∙ map-map h (λ x. g (f x)) xs

map-same : {A : Type 0} (f : A → A) → ((x : A) → f x ≡ x) → (xs : List A) → map f xs ≡ xs
map-same f h xs = ap (λ g. map g xs) (fun_ext h) ∙ map-id xs

-- What one query gives each register and each formula.
pub record Reading (D : Type 0) : Type 0 where
  pub of_register : MeterRegister → D
  pub of_formula : Bytes → D

module _ {D : Type 0} (F : Floats D) where
  abbrev read_register : Reading D → MeterRegisterRead D → MeterRegisterRead D
  read_register rd rr = record rr { fvalue = rd.of_register rr.register_def }

  abbrev read_formula : Reading D → MeterFormula D → MeterFormula D
  read_formula rd mf = record mf { fvalue = rd.of_formula mf.name }

  -- The query and the formulas set `fvalue` alone.
  abbrev pub read : Reading D → Meter D → Meter D
  read rd m = record m {
    register_read = map (read_register rd) m.register_read;
    meter_formula = map (read_formula rd) m.meter_formula;
  }

  -- A round of the model's own, for one enabled meter that is due and has been read: the functions
  -- that `cron_queryMeters` calls for it, in their order, with the query and the formulas taken as
  -- the new values they set.
  pub round : Reading D → Meter D → Meter D
  round rd m =
      execute_influx_write_calc F
        (set_meter_fvalue_influx F (read rd (set_meter_fvalue_influx_last F m)))

  unfoldable pub rounds : List (Reading D) → Meter D → Meter D
  rounds [] m = m
  rounds (rd ∷ rds) m = rounds rds (round rd m)

  -- The value to be written: all values since the last write, oldest first, put together.
  abbrev pub window : InfluxMultProcessing → D → List D → D
  window pr v vs = foldl (λ last value. mult_process F pr value last) v vs

  abbrev pub first_register : Reading D → MeterRegisterRead D → MeterRegisterRead D
  first_register rd rr = take_value F (read_register rd (keep_last F rr))

  abbrev pub first_formula : Reading D → MeterFormula D → MeterFormula D
  first_formula rd mf = take_formula F (read_formula rd (keep_last_formula F mf))

  abbrev pub later_registers : List (Reading D) → MeterRegisterRead D → MeterRegisterRead D
  later_registers [] rr = rr
  later_registers (rd ∷ rds) rr = later_registers rds (process_register F (first_register rd rr))

  abbrev pub later_formulas : List (Reading D) → MeterFormula D → MeterFormula D
  later_formulas [] mf = mf
  later_formulas (rd ∷ rds) mf = later_formulas rds (process_formula F (first_formula rd mf))

  calc-first :
      (m : Meter D) (n : ℕ)
      → m.influx_write_mult ≡ pos (suc n)
      → m.influx_write_countdown ≡ pos (suc n)
      → execute_influx_write_calc F m ≡ record m { influx_write_countdown = pos n }
  unfolding execute_influx_write_calc
  calc-first m n e c =
      let running : is_zero m.influx_write_mult ≡ false = rw e (ground arith) in
      let here : eqb_ℤ m.influx_write_countdown m.influx_write_mult ≡ true =
        rw (e, c) (ground arith) in
      rw (running, here) (λ i. record m { influx_write_countdown = pred_ℤ (c i) })

  calc-later :
      (m : Meter D) (n k : ℕ)
      → m.influx_write_mult ≡ pos n
      → m.influx_write_countdown ≡ pos (suc k)
      → suc k < n
      → execute_influx_write_calc F m ≡ record m {
        influx_write_countdown = pos k;
        register_read = map (process_register F) m.register_read;
        meter_formula = map (process_formula F) m.meter_formula;
      }
  unfolding execute_influx_write_calc
  calc-later m n k e c h =
      let running : is_zero m.influx_write_mult ≡ false = rw e (ground arith) in
      let past : eqb_ℤ m.influx_write_countdown m.influx_write_mult ≡ false =
        rw (e, c) (ground arith) in
      let begun : eqb_ℤ m.influx_write_countdown (negsuc 0) ≡ false = rw c refl in
      let left : is_zero m.influx_write_countdown ≡ false = rw c (ground arith) in
      rw (running, past, begun, left)
        (λ i. record m {
          influx_write_countdown = pred_ℤ (c i);
          register_read = map (process_register F) m.register_read;
          meter_formula = map (process_formula F) m.meter_formula;
        })

  -- The round after a write: the countdown stands at the multiplier.
  pub round-first :
      (rd : Reading D) (m : Meter D) (n : ℕ)
      → m.influx_write_mult ≡ pos (suc n)
      → m.influx_write_countdown ≡ pos (suc n)
      → round rd m ≡ record m {
        influx_write_countdown = pos n;
        register_read = map (first_register rd) m.register_read;
        meter_formula = map (first_formula rd) m.meter_formula;
      }
  unfolding round set_meter_fvalue_influx set_meter_fvalue_influx_last
  round-first rd m n e c = calc-first _ n e c ∙ λ i. record m {
    influx_write_countdown = pos n;
    register_read = map-map3 (take_value F) (read_register rd) (keep_last F) m.register_read i;
    meter_formula =
        map-map3 (take_formula F) (read_formula rd) (keep_last_formula F) m.meter_formula i;
  }

  -- Any other round, with some queries left.
  round-later :
      (rd : Reading D) (m : Meter D) (n k : ℕ)
      → m.influx_write_mult ≡ pos n
      → m.influx_write_countdown ≡ pos (suc k)
      → suc k < n
      → round rd m ≡ record m {
        influx_write_countdown = pos k;
        register_read = map (λ rr. process_register F (first_register rd rr)) m.register_read;
        meter_formula = map (λ mf. process_formula F (first_formula rd mf)) m.meter_formula;
      }
  unfolding round set_meter_fvalue_influx set_meter_fvalue_influx_last
  round-later rd m n k e c h = calc-later _ n k e c h ∙ λ i. record m {
    influx_write_countdown = pos k;
    register_read =
        (ap (map (process_register F))
              (map-map3 (take_value F) (read_register rd) (keep_last F) m.register_read)
            ∙ map-map (process_register F) (first_register rd) m.register_read)
          i;
    meter_formula =
        (ap (map (process_formula F))
              (map-map3 (take_formula F) (read_formula rd) (keep_last_formula F) m.meter_formula)
            ∙ map-map (process_formula F) (first_formula rd) m.meter_formula)
          i;
  }

  -- The later rounds up to the next write.
  pub rounds-later :
      (rds : List (Reading D)) (m : Meter D) (n k : ℕ)
      → m.influx_write_mult ≡ pos n
      → m.influx_write_countdown ≡ pos k
      → k < n
      → length rds ≤ k
      → rounds rds m ≡ record m {
        influx_write_countdown = pos (k - length rds);
        register_read = map (later_registers rds) m.register_read;
        meter_formula = map (later_formulas rds) m.meter_formula;
      }
  unfolding rounds
  rounds-later [] m n k e c h l =
      let none_left : k ≡ k - 0 = omega arith in
      λ i. record m {
        influx_write_countdown = (c ∙ ap pos none_left) i;
        register_read = sym (map-same (later_registers []) (λ rr. refl) m.register_read) i;
        meter_formula = sym (map-same (later_formulas []) (λ mf. refl) m.meter_formula) i;
      }
  rounds-later (rd ∷ rds) m n zero e c h l = absurd (omega arith)
  rounds-later (rd ∷ rds) m n (suc k) e c h l =
      let left : k - length rds ≡ suc k - suc (length rds) = omega arith in
      ap (rounds rds) (round-later rd m n k e c h)
      ∙ rounds-later rds _ n k e refl (omega arith) (omega arith)
      ∙ λ i. record m {
        influx_write_countdown = pos (left i);
        register_read =
            map-map (later_registers rds) (λ rr. process_register F (first_register rd rr))
              m.register_read i;
        meter_formula =
            map-map (later_formulas rds) (λ mf. process_formula F (first_formula rd mf))
              m.meter_formula i;
      }
