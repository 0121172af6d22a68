-- ===== src/Initial/Laws.antt =====
-- What the first query leaves of each meter: its countdown, from which the first write begins.
use mathlib.Core.Option.{some-injective, some-ne-none}
use emmbus2influx.Base.{
  ℕ, zero, suc, ◌≡◌, refl, sym, ap, ◌∙◌, subst, true, Option, none, some, List, [], ◌∷◌, map,
  get_elem?, get_elem?-map, if◌then◌else◌, pos, negsuc, is_zero, arith, bind-some, ◌⊎◌, inl, inr,
  if_either,
}
use emmbus2influx.Meter.Floats.{Floats}
use emmbus2influx.Meter.Values.{
  set_fvalue_influx_last, set_meter_fvalue_influx_last, set_fvalue_influx, set_meter_fvalue_influx,
  execute_influx_write_calc,
}
use emmbus2influx.Meter.Connections.{Connection}
use emmbus2influx.Meter.Query.{Bus, Formulas, Ended, back, exited, aborted, World, query_meter}
use emmbus2influx.Meter.Query.Kept.{IsKept, query_meter-Keeps}
use emmbus2influx.Meter.Query.Counts.{Returning}
use emmbus2influx.Meter.{Meter}
use emmbus2influx.Meter.GlobalFormulas.Laws.{HasIn, eval_formulas-Has}
use emmbus2influx.Cron.{Site}
use emmbus2influx.Initial.{query_one, query_each, execute_enabled, execute_each, calc, query_meters}

-- The settings of the write multiplier and the countdown.
abbrev pub SameCountdown : {D : Type 0} → Meter D → Meter D → Type 0
SameCountdown m m' =
    (m'.disabled ≡ m.disabled)
    × (m'.influx_write_mult ≡ m.influx_write_mult)
    × (m'.influx_write_countdown ≡ m.influx_write_countdown)

-- The countdown of a meter as `parseMeter` leaves it.
abbrev pub IsFresh : {D : Type 0} → Meter D → Type 0
IsFresh m =
    ((m.influx_write_mult ≡ pos 0) × (m.influx_write_countdown ≡ pos 0))
    ⊎ ((k : ℕ) × (m.influx_write_mult ≡ pos (suc k)) × (m.influx_write_countdown ≡ negsuc 0))

module _ {W Handle Frame D : Type 0} (F : Floats D) (P : Formulas D) (B : Bus W Handle Frame D)
    (serial : Option Handle) where
  -- What is true of the meter in a result, if there is one.
  abbrev Leaves : Meter D → Option (ℕ × Meter D × List (Connection Handle) × W) → Type 0
  Leaves m none = Unit
  Leaves m (some r) = SameCountdown m r.1

  query_one-Leaves :
      (m : Meter D) (c : List (Connection Handle)) (w : W) → Leaves m (query_one F P B serial m c w)
  unfolding query_one
  query_one-Leaves m c w =
      if_either (Leaves m) m.is_formula_only _ _ (refl, refl, refl)
        (ended (query_meter F P B serial (record { meter = m; connections = c; bus = w })) (
          query_meter-Keeps F P B serial m (record { meter = m; connections = c; bus = w })
            (refl, refl, refl, refl, refl, refl)))
    where
      ended :
          (e : Ended (World W Handle D))
          → Returning (λ r s. IsKept m s.meter) e
          → Leaves m (elim e [
            | back r s ↦ some (if is_zero r then 1 else 0, s.meter, s.connections, s.bus)
            | exited ↦ none
            | aborted ↦ none
          ])
      ended (back r s) k = (k.0, k.2, k.3)
      ended exited k = tt
      ended aborted k = tt

  query_each-cons :
      (x : Meter D) (ms : List (Meter D)) (c : List (Connection Handle)) (w : W)
      (s : Site W Handle D)
      → query_each F P B serial (x ∷ ms) c w ≡ some s
      → (r : ℕ × Meter D × List (Connection Handle) × W) × (query_one F P B serial x c w ≡ some r)
        × (s' : Site W Handle D) × (query_each F P B serial ms r.2 r.3 ≡ some s')
        × (s.meters ≡ r.1 ∷ s'.meters)
  unfolding query_each
  query_each-cons x ms c w s q =
      let (r, e, q1) = bind-some (query_one F P B serial x c w) _ s q in
      let (s', e', q2) = bind-some (query_each F P B serial ms r.2 r.3) _ s q1 in
      (r, e, s', e', sym (ap (λ s. s.meters) (some-injective _ s q2)))

  -- The meter at a place, with the countdown of another.
  abbrev pub At : List (Meter D) → ℕ → Meter D → Type 0
  At ms i m = (m' : Meter D) × (get_elem? ms i ≡ some m') × SameCountdown m m'

  query_each-At :
      (ms : List (Meter D)) (c : List (Connection Handle)) (w : W) (s : Site W Handle D) (i : ℕ)
      (m : Meter D)
      → query_each F P B serial ms c w ≡ some s
      → get_elem? ms i ≡ some m
      → At s.meters i m
  query_each-At [] c w s i m q h = absurd (some-ne-none m (sym h))
  query_each-At (x ∷ ms) c w s zero m q h =
      let (r, e, s', e', es) = query_each-cons x ms c w s q in
      let left = subst (Leaves x) e (query_one-Leaves x c w) in
      (
        r.1,
        ap (λ (l : List (Meter D)). get_elem? l 0) es,
        subst (λ y. SameCountdown y r.1) (some-injective x m h) left,
      )
  query_each-At (x ∷ ms) c w s (suc i) m q h =
      let (r, e, s', e', es) = query_each-cons x ms c w s q in
      rw es (query_each-At ms r.2 r.3 s' i m e' h)

  execute_each-At :
      (k i : ℕ) (rest ms ys : List (Meter D)) (m0 : Meter D)
      → execute_each F P B serial k rest ms ≡ some ys
      → At ms i m0
      → At ys i m0
  unfolding execute_each execute_enabled
  execute_each-At k i [] ms ys m0 q h = subst (λ l. At l i m0) (some-injective ms ys q) h
  execute_each-At k i (x ∷ rest) ms ys m0 q h =
      let (ms', e, q') = bind-some (execute_enabled F P B serial k x ms) _ ys q in
      let Q = SameCountdown m0 in
      let formulas =
        eval_formulas-Has Q (λ m rs on same old. old) P k 0 i x.meter_formula ms
          (inr (λ j v m old. old)) h in
      let left : HasIn Q i (execute_enabled F P B serial k x ms) =
        if_either (HasIn Q i) (is_zero x.disabled) _ _ formulas h in
      execute_each-At (suc k) i rest ms' ys m0 q' (subst (HasIn Q i) e left)

  refreshed :
      (m m' : Meter D)
      → m'.influx_write_mult ≡ m.influx_write_mult
      → m'.influx_write_countdown ≡ m.influx_write_countdown
      → IsFresh m
      → IsFresh m'
  refreshed m m' a b (inl (c, d)) = inl (a ∙ c, b ∙ d)
  refreshed m m' a b (inr (k, c, d)) = inr (k, a ∙ c, b ∙ d)

  calc-Fresh :
      (m : Meter D)
      → is_zero m.disabled ≡ true
      → IsFresh m
      → (calc F P B serial m).influx_write_countdown ≡ pos 0
  unfolding calc execute_influx_write_calc
  calc-Fresh m on (inl (a, b)) = ground arith
  calc-Fresh m on (inr (k, a, b)) = ground arith

  -- Let `queryMeters` run to its end. An enabled meter whose countdown is as `parseMeter` leaves it,
  -- 0 where there is no write multiplier and -1 where there is one, then has the countdown 0.
  pub query_meters-Due :
      (s s' : Site W Handle D) (i : ℕ) (m : Meter D)
      → query_meters F P B serial s ≡ some s'
      → get_elem? s.meters i ≡ some m
      → is_zero m.disabled ≡ true
      → IsFresh m
      → (m' : Meter D) × (get_elem? s'.meters i ≡ some m') × (m'.influx_write_countdown ≡ pos 0)
  unfolding query_meters set_fvalue_influx_last set_fvalue_influx set_meter_fvalue_influx_last
      set_meter_fvalue_influx
  query_meters-Due s s' i m q h on fresh =
      let last = set_meter_fvalue_influx_last F in
      let (q1, e1, r1) =
        bind-some (query_each F P B serial (map last s.meters) s.connections s.bus) _ _ q in
      let (ms, e2, r2) = bind-some (execute_each F P B serial 0 q1.meters q1.meters) _ _ r1 in
      let (m1, h1, k1) =
        query_each-At (map last s.meters) s.connections s.bus q1 i (last m) e1
          (get_elem?-map last s.meters i m h) in
      let (m2, h2, k2) = execute_each-At 0 i q1.meters q1.meters ms (last m) e2 (m1, h1, k1) in
      let current = set_meter_fvalue_influx F in
      let all = sym (ap (λ (r : Site W Handle D). r.meters) (some-injective _ _ r2)) in
      (
        calc F P B serial (current m2),
        ap (λ (l : List (Meter D)). get_elem? l i) all
            ∙ get_elem?-map (calc F P B serial) (map current ms) i _
                (get_elem?-map current ms i m2 h2),
        calc-Fresh (current m2) (ap is_zero k2.0 ∙ on) (refreshed m m2 k2.1 k2.2 fresh),
      )
