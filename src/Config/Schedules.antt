-- ===== src/Config/Schedules.antt =====
-- A section of the configuration file for schedules: `parseCron` of cron.cpp.
pub mod Members
pub mod Laws
use mathlib.Core.Option
use emmbus2influx.Base.{ℕ, Bool, Option, none, some, List, if◌then◌else◌, Bytes, ℤ, eqb_ℤ}
use emmbus2influx.Cron.{CronLibrary, CronDef, cron_add}
use emmbus2influx.Config.Lexer.{tk_eol, tk_strval}
use emmbus2influx.Config.Keys.{tk_default}
use emmbus2influx.Config.Expect.{
  Reads, bind, ◌>>=◌, ◌>>◌, done, stop, str_value, next_token, expect, expect_str,
}
use emmbus2influx.Config.Section.{entries}

module _ {D E : Type 0} (alloc : ℕ → Bool) (scan_float : Bytes → Option D) (C : CronLibrary E) where
  -- `cron_add`, whose errors end the program
  unfoldable pub insert_schedule :
      Option Bytes → Bytes → List (CronDef E) → Reads D (List (CronDef E))
  unfolding cron_add
  insert_schedule name text table = elim (cron_add C name text table) [
    | none ↦ stop
    | some table' ↦ done table'
  ]

  -- a schedule with a name
  unfoldable pub parse_schedule : ℕ → List (CronDef E) → Reads D (ℤ × List (CronDef E))
  unfolding expect_str insert_schedule
  parse_schedule fuel table = do
    name ← str_value
    text ← expect_str alloc scan_float
    table' ← insert_schedule (some name) text table
    done (tk_strval, table')

  -- the default schedule
  unfoldable pub schedule_key : ℤ → List (CronDef E) → Reads D (List (CronDef E))
  unfolding expect_str insert_schedule
  schedule_key tk table =
      if eqb_ℤ tk tk_default
      then (expect_str alloc scan_float >>= λ text. insert_schedule none text table)
      else stop

  -- `parseCron`: the token behind the section, and the schedules
  unfoldable pub parse_cron : ℕ → List (CronDef E) → Reads D (ℤ × List (CronDef E))
  unfolding expect next_token entries parse_schedule schedule_key
  parse_cron fuel table = do
    expect alloc scan_float tk_eol
    tk ← next_token alloc scan_float
    entries alloc scan_float parse_schedule schedule_key fuel tk table
