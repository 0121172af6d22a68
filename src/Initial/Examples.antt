-- ===== src/Initial/Examples.antt =====
-- The first query of a concrete meter.
use emmbus2influx.Base.{map}
use emmbus2influx.Base.{
  Bytes, codes, ◌++◌, true, arith, is_zero, ℕ, ◌≡◌, refl, none, some, Option, [], ◌∷◌, get_elem?,
  pos, negsuc, inr,
}
use emmbus2influx.Meter.Samples.{numbers, power_meter, answering, no_formulas}
use emmbus2influx.Meter.{Meter}
use emmbus2influx.Meter.Query.{Formulas}
use emmbus2influx.Cron.{Site}
use emmbus2influx.Initial.{query_meters}
use emmbus2influx.Config.Lexer.{Parser}
use emmbus2influx.Config.Expect.{Parsed, parsed, all_allowed}
use emmbus2influx.Config.Definitions.{Definitions, new_parser, read_meter_definitions}
use emmbus2influx.Config.Sample.{enough, no_float, meter_text, no_cron}
use emmbus2influx.Initial.Configured.{query_meters-read_meter_definitions}
use emmbus2influx.Initial.Laws.{query_meters-Due}

abbrev new_meter : Meter ℕ
new_meter = record power_meter { influx_write_countdown = negsuc 0 }

abbrev site : Site ℕ ℕ ℕ
site = record { count = 0; meters = new_meter ∷ []; connections = []; bus = 0 }

abbrev or_site : Option (Site ℕ ℕ ℕ) → Site ℕ ℕ ℕ
or_site none = site
or_site (some s) = s

abbrev result : Option (Site ℕ ℕ ℕ)
result = query_meters numbers no_formulas answering (some 1) site

ends : result ≡ some (or_site result)
unfolding query_meters
ends = refl

-- the meter is queried, and counted
counts : (or_site result).count ≡ 1
unfolding query_meters
counts = refl

query_meters-Due_example :
    (m' : Meter ℕ) × (get_elem? (or_site result).meters 0 ≡ some m')
    × (m'.influx_write_countdown ≡ pos 0)
query_meters-Due_example =
    query_meters-Due numbers no_formulas answering (some 1) site (or_site result) 0 new_meter ends
      refl refl (inr (2, refl, refl))

-- every formula has the value 1
abbrev one_each : Formulas ℕ
one_each = record {
  can_define = λ names. true;
  eval = λ vars text. some 1;
  assigned = λ vars text. map (λ v. v.1) vars;
}

-- a meter of the configuration file, with the global multiplier 3
abbrev virtual_text : Bytes
virtual_text = codes "[Meter]" ++ meter_text

abbrev read : Parsed ℕ (Definitions ℕ ℕ)
read =
    read_meter_definitions enough no_float no_cron 0 200 (codes "ad/") (pos 3) true []
      (some virtual_text)

abbrev or_definitions : Parsed ℕ (Definitions ℕ ℕ) → Definitions ℕ ℕ
or_definitions (parsed d pa) = d
or_definitions _ = record { types = []; schedules = []; meters = [] }

abbrev or_parser : Parsed ℕ (Definitions ℕ ℕ) → Parser ℕ
or_parser (parsed d pa) = pa
or_parser _ = new_parser 0 []

comes_back : read ≡ parsed (or_definitions read) (or_parser read)
unfolding read_meter_definitions all_allowed
comes_back = refl

abbrev first_site : Site ℕ ℕ ℕ
first_site = record { count = 0; meters = (or_definitions read).meters; connections = []; bus = 0 }

abbrev or_meter : Option (Meter ℕ) → Meter ℕ
or_meter none = new_meter
or_meter (some m) = m

abbrev virtual_meter : Meter ℕ
virtual_meter = or_meter (get_elem? first_site.meters 0)

abbrev first_result : Option (Site ℕ ℕ ℕ)
first_result = query_meters numbers one_each answering (some 1) first_site

first_ends : first_result ≡ some (or_site first_result)
unfolding query_meters read_meter_definitions all_allowed
first_ends = refl

first_meter : get_elem? first_site.meters 0 ≡ some virtual_meter
unfolding read_meter_definitions all_allowed
first_meter = refl

in_use : is_zero virtual_meter.disabled ≡ true
unfolding read_meter_definitions all_allowed
in_use = refl

query_meters-read_meter_definitions_example :
    (m' : Meter ℕ) × (get_elem? (or_site first_result).meters 0 ≡ some m')
    × (m'.influx_write_countdown ≡ pos 0)
query_meters-read_meter_definitions_example =
    query_meters-read_meter_definitions enough no_float no_cron 0 (codes "ad/") (pos 3)
      (inr (omega arith)) true [] tt numbers one_each answering (some 1) 200 virtual_text
      (or_definitions read) (or_parser read) first_site (or_site first_result) 0 virtual_meter
      (omega arith) comes_back refl first_ends first_meter in_use
