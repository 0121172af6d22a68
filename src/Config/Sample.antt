-- ===== src/Config/Sample.antt =====
-- A configuration file with a type, a meter of the type and a schedule, and its reading.
use emmbus2influx.Base.{
  ℕ, ◌+◌, ◌≡◌, refl, Bool, true, Option, none, some, [], ◌∷◌, ◌++◌, length, map, List, map, Bytes,
  codes, pos,
}
use emmbus2influx.Cron.{CronLibrary}
use emmbus2influx.Config.Lexer.{Parser}
use emmbus2influx.Config.Expect.{Parsed, parsed, stopped, overrun, unfinished, all_allowed}
use emmbus2influx.Config.Definitions.{Definitions, new_parser, read_sections}

abbrev pub enough : ℕ → Bool
enough n = true

abbrev pub no_float : Bytes → Option ℕ
no_float text = none

-- a type with a register, and a meter with a formula
abbrev pub type_text : Bytes
type_text = b'\n' ∷ codes "name=\"t\"" ++ b'\n' ∷ codes "\"e\"=1,dec=2" ++ b'\n' ∷ []

abbrev pub meter_text : Bytes
meter_text = b'\n' ∷ codes "name=\"m\"" ++ b'\n' ∷ codes "\"f\"=\"1\"" ++ b'\n' ∷ []

abbrev pub schedule_text : Bytes
schedule_text = codes "[Schedule]" ++ b'\n' ∷ codes "\"s\"=\"*\"" ++ b'\n' ∷ []

abbrev pub config_text : Bytes
config_text =
    schedule_text
    ++ codes "[MeterType]"
    ++ type_text
    ++ codes "[Meter]"
    ++ meter_text
    ++ codes "type=\"t\""
    ++ b'\n' ∷ codes "schedule=\"s\""

abbrev pub no_cron : CronLibrary ℕ
no_cron = record { cron_parse_expr = λ text. some 1; cron_next = λ e t. t + 1 }

-- behind the name of a section
abbrev pub section_at : Bytes → Parser ℕ
section_at text = record (new_parser 0 text) { curr_line_no = 1 }

-- how many types, meters and schedules there are, and the members of the schedules
abbrev counts : Parsed ℕ (Definitions ℕ ℕ) → Option (ℕ × ℕ × List (List ℕ))
counts (parsed d pa) = some (length d.types, length d.meters, map (λ cd. cd.members) d.schedules)
counts stopped = none
counts overrun = none
counts unfinished = none

abbrev run : Parsed ℕ (Definitions ℕ ℕ)
run = read_sections enough no_float no_cron 0 300 [] (pos 0) [] (new_parser 0 config_text)

run_counts : counts run ≡ some (1, 1, (0 ∷ []) ∷ [])
unfolding read_sections all_allowed
run_counts = refl
