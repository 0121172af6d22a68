-- ===== src/Config/Definitions.antt =====
-- The configuration file as a whole: `readMeterDefinitions` of meterDef.cpp and `parserBegin` of
-- parser.c. `none` for the file is one that cannot be opened; `serial_open` is whether the program
-- has the handle of the serial bus.
pub mod Lists
pub mod Laws
use mathlib.Core.Option
use emmbus2influx.Base.{
  ℕ, zero, suc, ◌==◌, ◌+◌, ◌&&◌, ◌||◌, not, Bool, true, false, Option, none, some, List, [], ◌∷◌,
  map, ltb, leb, if◌then◌else◌, Bytes, codes, same_text, ℤ, pos, negsuc, is_zero, eqb_ℤ, ltb_ℤ,
}
use emmbus2influx.Meter.{MeterType, Meter}
use emmbus2influx.Cron.{CronLibrary, CronDef}
use emmbus2influx.Config.Lexer.{tk_eof, Parser, Lexed, token, parser_error, fault, get_next_line}
use emmbus2influx.Config.Expect.{
  Parsed, parsed, stopped, overrun, unfinished, Reads, bind, ◌>>=◌, ◌>>◌, done, stop, refuse,
  str_value, expect_section,
}
use emmbus2influx.Config.MeterType.{parse_meter_type}
use emmbus2influx.Config.Meters.Parse.{parse_meter}
use emmbus2influx.Config.Schedules.{parse_cron}

-- what the sections have defined
pub record Definitions (D E : Type 0) : Type 0 where
  pub types : List MeterType
  pub schedules : List (CronDef E)
  pub meters : List (Meter D)

-- `tolower` and `strcasecmp`
abbrev pub lower_case : ℕ → ℕ
lower_case c = if leb b'A' c && leb c b'Z' then c + 32 else c

abbrev pub same_word : Bytes → Bytes → Bool
same_word text other = same_text (map lower_case text) (map lower_case other)

abbrev pub char_tokens : Bytes
char_tokens = codes ",;()={}+-*/&%$"

-- the words of the file and their tokens
abbrev pub meter_tokens : List (Bytes × ℤ)
meter_tokens =
    (codes "floatabcd", pos 301)
    ∷ (codes "floatbadc", pos 302)
    ∷ (codes "float", pos 300)
    ∷ (codes "floatdcba", pos 303)
    ∷ (codes "int", pos 304)
    ∷ (codes "int16", pos 304)
    ∷ (codes "int32", pos 305)
    ∷ (codes "int48", pos 306)
    ∷ (codes "int64", pos 307)
    ∷ (codes "uint", pos 308)
    ∷ (codes "uint16", pos 308)
    ∷ (codes "uint32", pos 309)
    ∷ (codes "uint48", pos 310)
    ∷ (codes "uint64", pos 311)
    ∷ (codes "int32l", pos 312)
    ∷ (codes "int48l", pos 313)
    ∷ (codes "int64l", pos 314)
    ∷ (codes "uint32l", pos 315)
    ∷ (codes "uint48l", pos 316)
    ∷ (codes "uint64l", pos 317)
    ∷ (codes "dec", pos 500)
    ∷ (codes "div", pos 501)
    ∷ (codes "mul", pos 502)
    ∷ (codes "arr", pos 550)
    ∷ (codes "array", pos 550)
    ∷ (codes "force", pos 605)
    ∷ (codes "name", pos 600)
    ∷ (codes "type", pos 602)
    ∷ (codes "address", pos 603)
    ∷ (codes "hostname", pos 604)
    ∷ (codes "measurement", pos 606)
    ∷ (codes "port", pos 607)
    ∷ (codes "id", pos 609)
    ∷ (codes "formula", pos 551)
    ∷ (codes "meters", pos 614)
    ∷ (codes "disabled", pos 615)
    ∷ (codes "mqtt", pos 504)
    ∷ (codes "influx", pos 505)
    ∷ (codes "mqttqos", pos 616)
    ∷ (codes "mqttretain", pos 617)
    ∷ (codes "mqttprefix", pos 552)
    ∷ (codes "influxwritemult", pos 618)
    ∷ (codes "imax", pos 619)
    ∷ (codes "imin", pos 620)
    ∷ (codes "iavg", pos 621)
    ∷ (codes "default", pos 625)
    ∷ (codes "schedule", pos 626)
    ∷ (codes "iname", pos 627)
    ∷ (codes "grafana", pos 506)
    ∷ (codes "gname", pos 630)
    ∷ []

abbrev pub new_parser : {D : Type 0} → D → Bytes → Parser D
new_parser nought bytes = record {
  char_tokens = char_tokens;
  tokens = meter_tokens;
  curr_pos = [];
  curr_line_no = 0;
  file = some bytes;
  i_val = pos 0;
  f_val = nought;
  str_val = [];
  first_token_in_line = false;
}

-- whether the line begins a section
abbrev pub begins_section : Bytes → Bool
begins_section [] = false
begins_section (c ∷ cs) = c == b'['

-- the handle of the serial bus for a meter in use that has an address or an id
abbrev pub connect_meter : {D : Type 0} → Bool → Meter D → Option (Meter D)
connect_meter serial_open m =
    if m.is_tcp
    then some m
    else if (ltb 0 m.mbus_address || ltb_ℤ (negsuc 0) m.mbus_id) && is_zero m.disabled
    then (if serial_open then some (record m { mb = true }) else none)
    else some m

unfoldable pub connect_meters : {D : Type 0} → Bool → List (Meter D) → Option (List (Meter D))
connect_meters serial_open [] = some []
connect_meters serial_open (m ∷ ms) = elim (connect_meter serial_open m) [
  | none ↦ none
  | some m' ↦ Option.map (◌∷◌ m') (connect_meters serial_open ms)
]

abbrev pub has_no_meters : {D E : Type 0} → Definitions D E → Bool
has_no_meters d = elim d.meters [ [] ↦ true | m ∷ ms ↦ false ]

module _ {D E : Type 0} (alloc : ℕ → Bool) (scan_float : Bytes → Option D) (C : CronLibrary E)
    (nought : D) where
  -- the loop of `parserBeginInt`; at the end of the file it closes the file that is closed already
  unfoldable pub skip_to_section : ℕ → Reads D (Unit {0})
  unfolding get_next_line
  skip_to_section zero pa = unfinished
  skip_to_section (suc fuel) pa = elim (get_next_line alloc scan_float pa) [
    | parser_error ↦ stopped
    | fault ↦ overrun
    | token rc pa' ↦ elim (ltb_ℤ rc (pos 0)) [
      | true ↦ overrun
      | false ↦ elim (begins_section pa'.curr_pos) [
        | true ↦ parsed tt pa'
        | false ↦ skip_to_section fuel pa'
      ]
    ]
  ]

  -- a section, by its name: the token behind it, and what is defined
  unfoldable pub parse_section :
      ℕ → Bytes → ℤ → Bytes → Definitions D E → Reads D (ℤ × Definitions D E)
  unfolding parse_meter_type parse_meter parse_cron
  parse_section fuel mqttprefix influx_write_mult name d =
      if same_word name (codes "MeterType")
      then (parse_meter_type alloc scan_float fuel mqttprefix influx_write_mult d.types
          >>= λ (o : ℤ × List MeterType). done (o.0, record d { types = o.1 }))
      else if same_word name (codes "Meter")
      then (parse_meter alloc scan_float C nought fuel mqttprefix influx_write_mult d.types
            d.schedules d.meters
          >>= λ (o : ℤ × List (CronDef E) × List (Meter D)).
              done (o.0, record d { schedules = o.1; meters = o.2 }))
      else if same_word name (codes "Schedule")
      then (parse_cron alloc scan_float C fuel d.schedules >>= λ (o : ℤ × List (CronDef E)).
          done (o.0, record d { schedules = o.1 }))
      else stop

  -- the loop over the sections
  unfoldable pub parse_sections : ℕ → Bytes → ℤ → ℤ → Definitions D E → Reads D (Definitions D E)
  unfolding parse_section
  parse_sections zero mqttprefix influx_write_mult tk d pa = unfinished
  parse_sections (suc fuel) mqttprefix influx_write_mult tk d pa = elim (eqb_ℤ tk tk_eof) [
    | true ↦ parsed d pa
    | false ↦
        (str_value >>= λ name.
        parse_section fuel mqttprefix influx_write_mult name d >>= λ (o : ℤ × Definitions D E).
        parse_sections fuel mqttprefix influx_write_mult o.0 o.1)
          pa
  ]

  -- the file from its first section on
  unfoldable pub read_sections : ℕ → Bytes → ℤ → List (CronDef E) → Reads D (Definitions D E)
  unfolding skip_to_section expect_section parse_sections
  read_sections fuel mqttprefix influx_write_mult schedules = do
    skip_to_section fuel
    tk ← expect_section alloc scan_float fuel
    parse_sections fuel mqttprefix influx_write_mult tk
        (record { types = []; schedules = schedules; meters = [] })

  -- `readMeterDefinitions`
  unfoldable pub read_meter_definitions :
      ℕ → Bytes → ℤ → Bool → List (CronDef E) → Option Bytes → Parsed D (Definitions D E)
  unfolding read_sections connect_meters
  read_meter_definitions fuel mqttprefix influx_write_mult serial_open schedules none = stopped
  read_meter_definitions fuel mqttprefix influx_write_mult serial_open schedules (some bytes) =
      (read_sections fuel mqttprefix influx_write_mult schedules >>= λ (d : Definitions D E).
      refuse (has_no_meters d) >> (elim (connect_meters serial_open d.meters) [
        | none ↦ stop
        | some meters ↦ done (record d { meters = meters })
      ]))
        (new_parser nought bytes)
