-- ===== src/Config/Definitions/Laws.antt =====
-- The reading of the configuration file ends, and gives types and meters that are well-formed.
use emmbus2influx.Base.{
  length-append, ◌++◌, ℕ, zero, suc, ◌+◌, ◌*◌, ◌≤◌, ◌<◌, ◌&&◌, not, ◌≡◌, ◌⊎◌, refl, sym, subst,
  Bool, true, false, Option, List, [], ◌∷◌, length, if_either, Bytes, codes, ℤ, pos, eqb_ℤ, ltb_ℤ,
  arith, inl, inr, Bool-cases, Option-cases,
}
use emmbus2influx.Meter.{Meter}
use emmbus2influx.Cron.{CronLibrary, CronDef}
use emmbus2influx.Config.Lexer.{
  tk_eof, tk_eol, tk_section, Parser, Lexed, token, parser_error, fault, get_next_line,
}
use emmbus2influx.Config.Lexer.Branches.{size, separates, IsTable, Leaves}
use emmbus2influx.Config.Lexer.Tokens.{Shrinks, get_next_line-Shrinks}
use emmbus2influx.Config.Expect.{Reads, parsed, stopped, overrun, done, expect_section}
use emmbus2influx.Config.Expect.Laws.{
  Ends, Within, Ends-bind, Ends-weaken, refuse-then-Ends, next_token-Ends,
}
use emmbus2influx.Config.MeterType.Sections.{IsMult}
use emmbus2influx.Config.MeterType.Laws.{TypeRead, parse_meter_type-Ends}
use emmbus2influx.Config.Meters.Laws.{MeterRead, parse_meter-Ends}
use emmbus2influx.Config.Schedules.Laws.{SchedulesRead, parse_cron-Ends}
use emmbus2influx.Config.Definitions.{
  Definitions, same_word, meter_tokens, new_parser, begins_section, skip_to_section, parse_section,
  parse_sections, read_sections,
}
use emmbus2influx.Config.Schedules.Members.{AreMembers, cron_add-AreMembers}
use emmbus2influx.Config.Definitions.Lists.{
  AreTypes, no_types, one_type, AreMeters, no_meters, one_meter, types_mults, AreMeters-append,
}

-- whether no word stands for a comma or an end of line
abbrev plain_words : List (Bytes × ℤ) → Bool
plain_words [] = true
plain_words (t ∷ ts) = not (separates t.1) && plain_words ts

plain_words-IsTable : (ts : List (Bytes × ℤ)) → plain_words ts ≡ true → IsTable ts
plain_words-IsTable [] h = tt
plain_words-IsTable (t ∷ ts) h = (ground arith, plain_words-IsTable ts (ground arith))

pub words : IsTable meter_tokens
words = plain_words-IsTable meter_tokens refl

eol-separates : (tk : ℤ) → eqb_ℤ tk tk_eol ≡ true → separates tk ≡ true
eol-separates tk e = ground arith

other_line : (rc : ℤ) → ltb_ℤ rc (pos 0) ≡ false → ltb_ℤ rc (pos 0) ≡ true → ⊥
other_line rc line end = cc

-- The next line of an open file leaves less.
abbrev Next : {D : Type 0} → ℕ → Lexed D → Type 0
Next n (token rc pa) = (ltb_ℤ rc (pos 0) ≡ true) ⊎ (IsTable pa.tokens × (size pa < n))
Next n parser_error = Unit {0}
Next n fault = Unit {0}

module _ {D E : Type 0} (alloc : ℕ → Bool) (scan_float : Bytes → Option D) (C : CronLibrary E)
    (nought : D) where
  Shrinks-Next : (n : ℕ) (r : Lexed D) → Shrinks alloc scan_float n r → Next n r
  Shrinks-Next n (token rc pa) h = inr h
  Shrinks-Next n parser_error h = tt
  Shrinks-Next n fault h = tt

  get_next_line-Next :
      (n : ℕ) (pa : Parser D)
      → IsTable pa.tokens
      → size pa ≤ n
      → Next n (get_next_line alloc scan_float pa)
  unfolding get_next_line
  get_next_line-Next n pa t h = elim (Option-cases pa.file) [
    | inl closed ↦ rw (get_next_line, closed) (inl (ground arith))
    | inr (bytes, opened) ↦
        Shrinks-Next n _ (get_next_line-Shrinks alloc scan_float pa bytes n opened t h)
  ]

  abbrev Less : {A : Type 0} → ℕ → A → Parser D → Type 0
  Less n a pa = IsTable pa.tokens × (size pa < n)

  open_line :
      (n : ℕ) (rc : ℤ) (pa : Parser D)
      → ltb_ℤ rc (pos 0) ≡ false
      → Next n (token rc pa)
      → IsTable pa.tokens × (size pa < n)
  open_line n rc pa line (inl end) = absurd (other_line rc line end)
  open_line n rc pa line (inr h) = h

  skip_step :
      (n : ℕ) (r : Lexed D) (again : Reads D (Unit {0}))
      → Next n r
      → ((pa : Parser D) → IsTable pa.tokens → size pa < n → Ends (Less n) (again pa))
      → Ends (Less n) (elim r [
        | parser_error ↦ stopped
        | fault ↦ overrun
        | token rc pa' ↦ elim (ltb_ℤ rc (pos 0)) [
          | true ↦ overrun
          | false ↦ elim (begins_section pa'.curr_pos) [ true ↦ parsed tt pa' | false ↦ again pa' ]
        ]
      ])
  skip_step n parser_error again h k = tt
  skip_step n fault again h k = tt
  skip_step n (token rc pa) again h k = elim (Bool-cases (ltb_ℤ rc (pos 0))) [
    | inl end ↦ rw end tt
    | inr line ↦
        let (t, less) : IsTable pa.tokens × (size pa < n) = open_line n rc pa line h in
        elim (Bool-cases (begins_section pa.curr_pos)) [
          | inl found ↦ rw (line, found) (t, less)
          | inr other ↦ rw (line, other) (k pa t less)
        ]
  ]

  -- Behind a line that begins a section, less is left.
  skip_to_section-Ends :
      (fuel n : ℕ) (pa : Parser D)
      → IsTable pa.tokens
      → size pa ≤ n
      → n < fuel
      → Ends (Less n) (skip_to_section alloc scan_float C nought fuel pa)
  unfolding skip_to_section
  skip_to_section-Ends zero n pa t h f = absurd (omega arith)
  skip_to_section-Ends (suc fuel) n pa t h f =
      skip_step n (get_next_line alloc scan_float pa)
        (skip_to_section alloc scan_float C nought fuel) (get_next_line-Next n pa t h)
        (λ pa' t' less.
          Ends-weaken (Less (size pa')) (Less n) _
            (skip_to_section-Ends fuel (size pa') pa' t' (omega arith) (omega arith))
            (λ u pa'' (t'', less'). (t'', omega arith)))

  expect_section-Ends :
      (fuel n : ℕ) (pa : Parser D)
      → Within n pa
      → n < fuel
      → Ends (λ tk pa'. Within n pa') (expect_section alloc scan_float fuel pa)
  unfolding expect_section
  expect_section-Ends zero n pa w f = absurd (omega arith)
  expect_section-Ends (suc fuel) n pa w f =
      let Q = λ (tk : ℤ) (pa' : Parser D). Within n pa' in
      Ends-bind (Leaves n) Q _ _ (next_token-Ends alloc scan_float n pa w)
        (λ tk pa1 (t1, l1, less1). elim (Bool-cases (eqb_ℤ tk tk_eol)) [
          | inl line ↦
              let smaller : size pa1 < n = less1 (eol-separates tk line) in
              rw line (
                Ends-weaken (λ tk' pa'. Within (size pa1) pa') Q _
                  (expect_section-Ends fuel (size pa1) pa1 (t1, omega arith) (omega arith))
                  (λ tk' pa' (t', l'). (t', omega arith)))
          | inr other ↦ rw other (
              refuse-then-Ends Q (not (eqb_ℤ tk tk_eof) && not (eqb_ℤ tk tk_section)) (done tk) pa1
                (λ e. (t1, l1)))
        ])

  longer : (ms : List (Meter D)) (m : Meter D) → suc (length ms) ≡ length (ms ++ m ∷ [])
  longer ms m = omega (arith, length-append ms (m ∷ []))

  abbrev AreGood : Definitions D E → Type 0
  AreGood d =
      AreTypes d.types × AreMeters d.types d.meters × AreMembers (length d.meters) d.schedules

  module _ (mqttprefix : Bytes) (influx_write_mult : ℤ) (mult : IsMult influx_write_mult) where
    parse_section-Ends :
        (fuel : ℕ) (name : Bytes) (d : Definitions D E) (pa : Parser D)
        → IsTable pa.tokens
        → size pa < fuel
        → AreGood d
        → Ends
            (λ (o : ℤ × Definitions D E) pa'. Less (size pa) o pa' × AreGood o.1)
            (parse_section alloc scan_float C nought fuel mqttprefix influx_write_mult name d pa)
    unfolding parse_section
    parse_section-Ends fuel name d pa t f (types, meters, members) =
        let Q = λ (o : ℤ × Definitions D E) (pa' : Parser D). Less (size pa) o pa' × AreGood o.1 in
        let P = λ (m : Reads D (ℤ × Definitions D E)). Ends Q (m pa) in
        if_either P (same_word name (codes "MeterType")) _ _
          (Ends-bind (TypeRead d.types (size pa)) Q _ _
            (parse_meter_type-Ends alloc scan_float d.types fuel mqttprefix influx_write_mult pa t f
              mult)
            (λ o pa' (t', less, end, ty, eq, ok). (
              (t', less),
              subst
                  (λ ts.
                    AreTypes ts × AreMeters ts d.meters × AreMembers (length d.meters) d.schedules)
                  (sym eq)
                  (
                    one_type d.types ty types ok,
                    AreMeters-append d.types ty d.meters meters,
                    members,
                  ),
            )))
          (if_either P (same_word name (codes "Meter")) _ _
            (Ends-bind (MeterRead d.types d.meters (size pa)) Q _ _
              (parse_meter-Ends alloc scan_float C nought d.types d.meters fuel mqttprefix
                influx_write_mult d.schedules pa t f mult (types_mults d.types types) members)
              (λ o pa' (t', less, end, m, eq, ok, members'). (
                (t', less),
                subst
                    (λ (ms : List (Meter D)).
                      AreTypes d.types × AreMeters d.types ms × AreMembers (length ms) o.1)
                    (sym eq)
                    (
                      types,
                      one_meter d.meters m meters ok,
                      subst (λ n. AreMembers n o.1) (longer d.meters m) members',
                    ),
              )))
            (if_either P (same_word name (codes "Schedule")) _ _
              (Ends-bind (SchedulesRead (AreMembers (length d.meters)) (size pa)) Q _ _
                (parse_cron-Ends alloc scan_float C (AreMembers (length d.meters))
                  (cron_add-AreMembers C (length d.meters)) fuel d.schedules pa t f members)
                (λ o pa' (t', less, end, ok). ((t', less), (types, meters, ok))))
              tt))

    parse_sections-Ends :
        (fuel : ℕ) (tk : ℤ) (d : Definitions D E) (pa : Parser D)
        → IsTable pa.tokens
        → size pa + 1 < fuel
        → AreGood d
        → Ends
            (λ d' pa'. AreGood d')
            (parse_sections alloc scan_float C nought fuel mqttprefix influx_write_mult tk d pa)
    unfolding parse_sections
    parse_sections-Ends zero tk d pa t f ok = absurd (omega arith)
    parse_sections-Ends (suc fuel) tk d pa t f ok = elim (Bool-cases (eqb_ℤ tk tk_eof)) [
      | inl end ↦ rw (parse_sections, end) ok
      | inr more ↦
          rw (parse_sections, more)
            (Ends-bind (λ (o : ℤ × Definitions D E) pa'. Less (size pa) o pa' × AreGood o.1)
              (λ d' pa'. AreGood d') _ _
              (parse_section-Ends fuel pa.str_val d pa t (omega arith) ok)
              (λ o pa' ((t', less), ok').
                parse_sections-Ends fuel o.0 o.1 pa' t' (omega arith) ok'))
    ]

    -- Let the global multiplier be 0 or at least 2, and the schedules have no members at first. With
    -- fuel of three more than twice the bytes of the file, the reading of a configuration file from
    -- its first section to its end does not run out of fuel. If it comes back, where it neither ends
    -- the program by an error nor does what C leaves undefined, every type is complete behind the
    -- types before it, as `parseMeterType` leaves it, every meter is complete behind the meters
    -- before it, with its type among all the types, as `parseMeter` leaves it, and all members of
    -- the schedules are places of meters.
    pub read_sections-Ends :
        (fuel : ℕ) (schedules : List (CronDef E)) (bytes : Bytes)
        → 3 + 2 * length bytes ≤ fuel
        → AreMembers 0 schedules
        → Ends
            (λ (d : Definitions D E) pa'.
              AreTypes d.types
              × AreMeters d.types d.meters
              × AreMembers (length d.meters) d.schedules)
            (read_sections alloc scan_float C nought fuel mqttprefix influx_write_mult schedules
              (new_parser nought bytes))
    unfolding read_sections
    read_sections-Ends fuel schedules bytes f members =
        let n = 1 + 2 * length bytes in
        let Q = λ (d : Definitions D E) (pa' : Parser D). AreGood d in
        Ends-bind (Less n) Q _ _
          (skip_to_section-Ends fuel n (new_parser nought bytes) words (omega arith) (omega arith))
          (λ u pa1 (t1, l1).
            Ends-bind (λ tk pa2. Within (size pa1) pa2) Q _ _
              (expect_section-Ends fuel (size pa1) pa1 (t1, omega arith) (omega arith))
              (λ tk pa2 (t2, l2).
                parse_sections-Ends fuel tk
                  (record { types = []; schedules = schedules; meters = [] }) pa2 t2 (omega arith)
                  (no_types, no_meters, members)))
