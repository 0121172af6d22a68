-- ===== src/Config/Meters/Laws.antt =====
-- A section for a meter ends, and gives a meter that is well-formed.
use emmbus2influx.Base.{
  length, ℕ, zero, suc, ap, ◌<◌, ◌&&◌, not, ◌≡◌, ◌⊎◌, refl, Bool, true, false, Option, none, some,
  List, [], ◌∷◌, ◌++◌, map, ltb, if◌then◌else◌, Bytes, ℤ, pos, negsuc, is_zero, ltb_ℤ, arith, inl,
  inr,
}
use emmbus2influx.Cron.{CronLibrary, CronDef}
use emmbus2influx.Meter.{MeterRegister, MeterType, Meter}
use emmbus2influx.Initial.Laws.{IsFresh}
use emmbus2influx.Config.Lexer.{tk_eol, Parser}
use emmbus2influx.Config.Lexer.Branches.{size, IsTable, Leaves}
use emmbus2influx.Config.Expect.Laws.{
  Ends, Ends-bind, refuse-then-Ends, next_token-Ends, expect-Ends, left-Leaves,
}
use emmbus2influx.Config.Section.Laws.{Section, ends_section, entries-Ends}
use emmbus2influx.Config.MeterType.{is_given}
use emmbus2influx.Config.MeterType.Sections.{IsMult}
use emmbus2influx.Config.Meters.{
  MeterSection, new_section, new_register_read, or_text, type_prefix, finished_meter,
  has_no_formulas,
}
use emmbus2influx.Config.Meters.Parse.{parse_formula, meter_key, parse_meter}
use emmbus2influx.Config.Schedules.Members.{AreMembers, AreMembers-suc}
use emmbus2influx.Config.Meters.Formulas.{AreFormulas, parse_formula-Ends}
use emmbus2influx.Config.Meters.Keys.{IsName, IsKnown, AreMults, IsMeter, IsGood, meter_key-Keeps}

-- The meter reads the registers of its type, and it is a formula only if its type is.
abbrev pub Follows : {D : Type 0} → Option MeterType → Meter D → Type 0
Follows none m = (m.register_read ≡ []) × (m.is_formula_only ≡ true) × (has_no_formulas m ≡ false)
Follows (some t) m =
    (map (λ r. r.register_def) m.register_read ≡ t.meter_registers)
    × (m.is_formula_only ≡ t.is_formula_only)

-- A meter behind its section, from the types and the meters in front of it.
abbrev pub IsCompleteMeter : {D : Type 0} → List MeterType → List (Meter D) → Meter D → Type 0
IsCompleteMeter types meters m =
    (is_given m.name ≡ true)
    × IsName meters m.name
    × AreFormulas m.meter_formula
    × IsKnown types m.meter_type
    × (m.is_tcp ≡ is_given m.hostname)
    × (is_given m.mqttprefix ≡ true)
    × IsFresh m
    × Follows m.meter_type m

-- What a section for a meter leaves of `n`, and that it adds a complete meter.
abbrev pub MeterRead :
    {D E : Type 0}
    → List MeterType
    → List (Meter D)
    → ℕ
    → ℤ × List (CronDef E) × List (Meter D)
    → Parser D
    → Type 0
MeterRead {D = D} types meters n o pa =
    IsTable pa.tokens
    × (size pa < n)
    × (ends_section o.0 ≡ true)
    × (m : Meter D) × (o.2 ≡ meters ++ m ∷ [])
    × IsCompleteMeter types meters m
    × AreMembers (suc (length meters)) o.1

map_defs :
    {D : Type 0} (nought : D) (rs : List MeterRegister)
    → map (λ r. r.register_def) (map (new_register_read nought) rs) ≡ rs
map_defs nought [] = refl
map_defs nought (r ∷ rs) = ap (◌∷◌ r) (map_defs nought rs)

or_text-some : (a b : Option Bytes) (c : Bytes) → is_given (or_text a (or_text b (some c))) ≡ true
or_text-some (some a) b c = refl
or_text-some none (some b) c = refl
or_text-some none none c = refl

countdown_fresh :
    (n : ℤ)
    → IsMult n
    → ((n ≡ pos 0) × ((if is_zero n then pos 0 else negsuc 0) ≡ pos 0))
      ⊎ ((k : ℕ) × (n ≡ pos (suc k)) × ((if is_zero n then pos 0 else negsuc 0) ≡ negsuc 0))
countdown_fresh (pos zero) ok = inl (refl, refl)
countdown_fresh (pos (suc k)) ok = inr (k, refl, ground arith)
countdown_fresh (negsuc n) ok = absurd ok

module _ {D E : Type 0} (alloc : ℕ → Bool) (scan_float : Bytes → Option D) (C : CronLibrary E)
    (nought : D) (types : List MeterType) (meters : List (Meter D)) where
  follows :
      (o : Option MeterType) (m : Meter D) (prefix : Option Bytes) (countdown : ℤ)
      → (not (is_given o) && has_no_formulas m) ≡ false
      → Follows o (record m {
        mqttprefix = prefix;
        influx_write_countdown = countdown;
        register_read = elim o [
          | none ↦ []
          | some t ↦ map (new_register_read nought) t.meter_registers
        ];
        is_formula_only = elim o [ none ↦ true | some t ↦ t.is_formula_only ];
      })
  follows none m prefix countdown h = (refl, refl, h)
  follows (some t) m prefix countdown h = (map_defs nought t.meter_registers, refl)

  finished_meter-IsCompleteMeter :
      (prefix : Bytes) (m : Meter D)
      → is_given m.name ≡ true
      → (not (is_given m.meter_type) && has_no_formulas m) ≡ false
      → IsMeter types meters m
      → IsCompleteMeter types meters (finished_meter nought prefix m)
  unfolding finished_meter
  finished_meter-IsCompleteMeter prefix m named used (name, mult, formulas, type, countdown, tcp) =
      (
        named,
        name,
        formulas,
        type,
        tcp,
        or_text-some m.mqttprefix (type_prefix m) prefix,
        countdown_fresh m.influx_write_mult mult,
        follows m.meter_type m _ _ used,
      )

  named_meter : (m : Meter D) → not (is_given m.name) ≡ false → is_given m.name ≡ true
  named_meter m h = ground arith

  -- Let no word of the table stand for a comma or an end of line, the fuel be more than what is
  -- left of the file, the multipliers, the global one and those of the types, be 0 or at least 2,
  -- and the members of the schedules be places of earlier meters. Then `parseMeter` does not run out
  -- of fuel. If it comes back, where it does not end the program by an error or its lexer does
  -- what C leaves undefined, it has left less of the file and stands at a section or the end of the
  -- file,
  -- and it has put exactly one meter behind the earlier ones: its name is of allowed characters and
  -- that of no earlier meter in use; the names of its formulas are of allowed characters and
  -- pairwise different; its type, if it has one, is found among the types, and it then reads exactly
  -- the registers of the type and is a formula only if and only if the type is; without a type it
  -- has a formula and no registers to read, and is a formula only; it is a TCP meter exactly if it
  -- has a host name; it has a topic prefix; and its countdown is 0 without a multiplier and -1 with
  -- one. The members of the schedules are then places of the earlier meters or of this one.
  pub parse_meter-Ends :
      (fuel : ℕ) (mqttprefix : Bytes) (influx_write_mult : ℤ) (schedules : List (CronDef E))
      (pa : Parser D)
      → IsTable pa.tokens
      → size pa < fuel
      → IsMult influx_write_mult
      → AreMults types
      → AreMembers (length meters) schedules
      → Ends (MeterRead types meters (size pa)) (
          parse_meter alloc scan_float C nought fuel mqttprefix influx_write_mult types schedules
            meters pa)
  unfolding parse_meter
  parse_meter-Ends fuel mqttprefix mult schedules pa t f k mults members =
      let Q = MeterRead {D = D} {E = E} types meters (size pa) in
      let Good = IsGood alloc scan_float C nought types mults meters in
      Ends-bind (λ u pa1. Leaves (size pa) tk_eol pa1) Q _ _
        (expect-Ends alloc scan_float tk_eol (size pa) pa (t, omega arith))
        (λ u pa1 (t1, l1, less1).
          Ends-bind (Leaves (size pa1)) Q _ _
            (next_token-Ends alloc scan_float (size pa1) pa1 (t1, omega arith))
            (λ tk pa2 l2.
              let smaller : size pa1 < size pa = less1 refl in
              Ends-bind (Section Good (size pa1)) Q _ _
                (entries-Ends alloc scan_float Good (parse_formula alloc scan_float C nought)
                  (meter_key alloc scan_float C nought types meters)
                  (parse_formula-Ends alloc scan_float C nought Good
                    (λ s ((name, mult, formulas, type, countdown, tcp), members). formulas)
                    (λ s f ((name, mult, formulas, type, countdown, tcp), members) longer.
                      ((name, mult, longer, type, countdown, tcp), members)))
                  (meter_key-Keeps alloc scan_float C nought types mults meters) fuel (size pa1) tk
                  (new_section mult schedules) pa2 l2.0 (left-Leaves (size pa1) tk pa2 l2)
                  (omega arith)
                  ((tt, k, tt, tt, refl, refl), AreMembers-suc (length meters) schedules members))
                (λ (o : ℤ × MeterSection D E) pa3 ((t3, l3), end, (ok, members')).
                  let m = o.1.meter in
                  refuse-then-Ends Q (not (is_given m.name)) _ pa3 (λ named.
                    refuse-then-Ends Q (not (is_given m.meter_type) && has_no_formulas m) _ pa3
                      (λ used.
                        refuse-then-Ends Q
                          (ltb m.mbus_address 0 && ltb_ℤ m.mbus_id (pos 0) && is_given m.meter_type)
                          _ pa3
                          (λ addressed. (
                            t3,
                            omega arith,
                            end,
                            finished_meter nought mqttprefix m,
                            refl,
                            finished_meter-IsCompleteMeter mqttprefix m (named_meter m named) used
                                ok,
                            members',
                          )))))))
