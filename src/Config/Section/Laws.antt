-- ===== src/Config/Section/Laws.antt =====
-- The loops over the entries and the options of a section end, and keep what every entry and every
-- option keeps.
use emmbus2influx.Base.{
  ℕ, zero, suc, ◌+◌, ◌≤◌, ◌<◌, ◌||◌, ◌≡◌, refl, Bool, true, false, Option, if_cases, Bytes, ℤ,
  eqb_ℤ, arith, Bool-cases, inl, inr,
}
use emmbus2influx.Config.Lexer.{tk_eof, tk_eol, tk_strval, tk_section, Parser}
use emmbus2influx.Config.Lexer.Branches.{size, separates, IsTable, Leaves}
use emmbus2influx.Config.Expect.{Reads, tk_comma}
use emmbus2influx.Config.Expect.Laws.{
  Ends, Within, Keeps, Any, Ends-bind, Ends-weaken, next_token-Keeps, expect_or_eol-Ends, left,
  end_entry-Ends,
}
use emmbus2influx.Config.Section.{options, section_entry, entries}

comma-separates : (tk : ℤ) → eqb_ℤ tk tk_comma ≡ true → separates tk ≡ true
comma-separates tk h = ground arith

Leaves-le :
    {D : Type 0} (m n : ℕ) (tk : ℤ) (pa : Parser D) → m ≤ n → Leaves m tk pa → Leaves n tk pa
Leaves-le m n tk pa h (t, left, less) = (t, omega arith, λ s. omega (arith, less s))

left_eol : {D : Type 0} (tk : ℤ) (pa : Parser D) → eqb_ℤ tk tk_eol ≡ true → left tk pa ≡ size pa + 1
left_eol tk pa e = rw e refl

left-size : {D : Type 0} (tk : ℤ) (pa : Parser D) → size pa ≤ left tk pa
left-size tk pa = ground arith

eol-separates : (tk : ℤ) → eqb_ℤ tk tk_eol ≡ true → separates tk ≡ true
eol-separates tk e = ground arith

other_eol : (tk : ℤ) → eqb_ℤ tk tk_eol ≡ false → eqb_ℤ tk tk_eol ≡ true → ⊥
other_eol tk other e = cc

-- The tokens that end a section.
abbrev pub ends_section : ℤ → Bool
ends_section tk = eqb_ℤ tk tk_section || eqb_ℤ tk tk_eof

-- What is left behind a line of the section, and that it keeps the property.
abbrev pub LineRead : {D S : Type 0} → (S → Type 0) → ℕ → ℤ × S → Parser D → Type 0
LineRead P n o pa = Leaves n o.0 pa × P o.1

-- An entry leaves no more than before its token, and less behind the end of its line.
abbrev Entry : {D S : Type 0} → (S → Type 0) → ℕ → ℤ × S → Parser D → Type 0
Entry P n o pa = Within n pa × (eqb_ℤ o.0 tk_eol ≡ true → size pa < n) × P o.1

abbrev pub Section : {D S : Type 0} → (S → Type 0) → ℕ → ℤ × S → Parser D → Type 0
Section P n o pa = Within n pa × (ends_section o.0 ≡ true) × P o.1

module _ {D : Type 0} (alloc : ℕ → Bool) (scan_float : Bytes → Option D) where
  module _ {R : Type 0} (P : R → Type 0) (option : ℤ → R → Reads D R)
      (keeps : (tk : ℤ) (r : R) → P r → Keeps P (option tk r)) where
    -- The fuel is enough when it is more than what is left.
    pub options-Ends :
        (fuel n : ℕ) (tk : ℤ) (r : R) (pa : Parser D)
        → Leaves n tk pa
        → n < fuel
        → P r
        → Ends (LineRead P n) (options alloc scan_float option fuel tk r pa)
    unfolding options
    options-Ends zero n tk r pa l f ok = absurd (omega arith)
    options-Ends (suc fuel) n tk r pa (t, left, less) f ok = elim (Bool-cases (eqb_ℤ tk tk_comma)) [
      | inr other ↦ rw (options, other) ((t, left, less), ok)
      | inl comma ↦
          let smaller : size pa < n = less (comma-separates tk comma) in
          rw (options, comma)
            (Ends-bind (λ option pa1. Within (size pa) pa1 × Any option) _ _ _
              ((next_token-Keeps alloc scan_float).run (size pa) pa (t, omega arith))
              (λ tk' pa1 (w1, v).
                Ends-bind (λ r' pa2. Within (size pa) pa2 × P r') _ _ _
                  ((keeps tk' r ok).run (size pa) pa1 w1)
                  (λ r' pa2 (w2, ok').
                    Ends-bind (λ tk' pa3. IsTable pa3.tokens × (size pa3 < size pa)) _ _ _
                      (expect_or_eol-Ends alloc scan_float (size pa) pa2 w2)
                      (λ tk' pa3 (t3, l3).
                        Ends-weaken (LineRead P (size pa)) _ _
                          (options-Ends fuel (size pa) tk' r' pa3 (t3, omega arith, λ s. l3)
                            (omega arith) ok')
                          (λ o pa' (l, ok'').
                            (Leaves-le (size pa) n o.0 pa' (omega arith) l, ok''))))))
    ]

  module _ {S : Type 0} (P : S → Type 0) (line : ℕ → S → Reads D (ℤ × S)) (key : ℤ → S → Reads D S)
      (line_ends : (fuel n : ℕ) (s : S) (pa : Parser D)
        → Within n pa
        → n < fuel
        → P s
        → Ends (LineRead P n) (line fuel s pa))
      (key_keeps : (tk : ℤ) (s : S) → P s → Keeps P (key tk s)) where
    section_entry-Ends :
        (fuel n : ℕ) (tk : ℤ) (s : S) (pa : Parser D)
        → IsTable pa.tokens
        → left tk pa ≤ n
        → n < fuel
        → P s
        → Ends (Entry P n) (section_entry alloc scan_float line key fuel tk s pa)
    unfolding section_entry
    section_entry-Ends fuel n tk s pa t h f ok =
        let Good = λ (m : Reads D (ℤ × S)). Ends (Entry P n) (m pa) in
        let all = left-size tk pa in
        if_cases Good (eqb_ℤ tk tk_eol) _ _
          (λ end. let l = left_eol tk pa end in ((t, omega arith), (λ e. omega arith), ok))
          (λ other.
            if_cases Good (eqb_ℤ tk tk_strval) _ _
              (λ text.
                Ends-weaken (LineRead P n) (Entry P n) _
                  (line_ends fuel n s pa (t, omega arith) f ok)
                  (λ o pa' (l', ok'). ((l'.0, l'.1), (λ e. l'.2 (eol-separates o.0 e)), ok')))
              (λ word.
                Ends-bind (λ s' pa'. Within n pa' × P s') (Entry P n) _ _
                  ((key_keeps tk s ok).run n pa (t, omega arith))
                  (λ s' pa' (w', ok'). (w', (λ e. absurd (other_eol tk other e)), ok'))))

    -- The fuel is enough when there are two more than what is left.
    pub entries-Ends :
        (fuel n : ℕ) (tk : ℤ) (s : S) (pa : Parser D)
        → IsTable pa.tokens
        → left tk pa ≤ n
        → n + 1 < fuel
        → P s
        → Ends (Section P n) (entries alloc scan_float line key fuel tk s pa)
    unfolding entries
    entries-Ends zero n tk s pa t h f ok = absurd (omega arith)
    entries-Ends (suc fuel) n tk s pa t h f ok = elim (Bool-cases (ends_section tk)) [
      | inl end ↦ rw (entries, end) ((t, omega (arith, left-size tk pa)), end, ok)
      | inr more ↦
          rw (entries, more)
            (Ends-bind (Entry P n) (Section P n) _ _
              (section_entry-Ends fuel n tk s pa t h (omega arith) ok)
              (λ o pa1 (w1, less, ok1).
                Ends-bind (λ tk' pa2. IsTable pa2.tokens × (left tk' pa2 < n)) (Section P n) _ _
                  (end_entry-Ends alloc scan_float n o.0 pa1 w1 less)
                  (λ tk' pa2 (t2, l2).
                    Ends-weaken (Section P (left tk' pa2)) (Section P n) _
                      (entries-Ends fuel (left tk' pa2) tk' o.1 pa2 t2 (omega arith) (omega arith)
                        ok1)
                      (λ o' pa' (w', end, ok'). ((w'.0, omega (arith, w'.1)), end, ok')))))
    ]
