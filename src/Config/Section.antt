-- ===== src/Config/Section.antt =====
-- What the sections of the configuration file have in common, meterDef.cpp and cron.cpp: entries up
-- to the next section, and options behind commas.
pub mod Laws
use emmbus2influx.Base.{
  ℕ, zero, suc, ◌||◌, Bool, true, false, ℤ, pos, eqb_ℤ, if◌then◌else◌, Bytes, Option,
}
use emmbus2influx.Config.Lexer.{tk_eof, tk_eol, tk_strval, tk_section, Parser}
use emmbus2influx.Config.Expect.{
  Parsed, parsed, unfinished, Reads, bind, ◌>>=◌, done, next_token, tk_comma, expect_or_eol,
  end_entry,
}

module _ {D : Type 0} (alloc : ℕ → Bool) (scan_float : Bytes → Option D) where
  -- the loop over the options behind commas: the token behind them, and what they are options of
  unfoldable pub options : {R : Type 0} → (ℤ → R → Reads D R) → ℕ → ℤ → R → Reads D (ℤ × R)
  unfolding next_token expect_or_eol
  options option zero tk r pa = unfinished
  options option (suc fuel) tk r pa = elim (eqb_ℤ tk tk_comma) [
    | false ↦ parsed (tk, r) pa
    | true ↦
        (next_token alloc scan_float >>= λ tk'. option tk' r >>= λ r'.
        expect_or_eol alloc scan_float tk_comma >>= λ tk''. options option fuel tk'' r')
          pa
  ]

  -- the switch over the token of an entry: the token behind the entry, and the section
  unfoldable pub section_entry :
      {S : Type 0} → (ℕ → S → Reads D (ℤ × S)) → (ℤ → S → Reads D S) → ℕ → ℤ → S → Reads D (ℤ × S)
  section_entry line key fuel tk s =
      if eqb_ℤ tk tk_eol
      then done (tk, s)
      else if eqb_ℤ tk tk_strval
      then line fuel s
      else (key tk s >>= λ s'. done (tk, s'))

  -- the loop over the entries
  unfoldable pub entries :
      {S : Type 0} → (ℕ → S → Reads D (ℤ × S)) → (ℤ → S → Reads D S) → ℕ → ℤ → S → Reads D (ℤ × S)
  unfolding section_entry end_entry
  entries line key zero tk s pa = unfinished
  entries {S = S} line key (suc fuel) tk s pa = elim (eqb_ℤ tk tk_section || eqb_ℤ tk tk_eof) [
    | true ↦ parsed (tk, s) pa
    | false ↦
        (section_entry line key fuel tk s >>= λ (r : ℤ × S).
        end_entry alloc scan_float r.0 >>= λ tk'. entries line key fuel tk' r.1)
          pa
  ]
