-- ===== src/Config/Examples.antt =====
-- Concrete runs of the configuration file's reader.
use emmbus2influx.Base.{
  ok, fault, ltb, ◌>>=◌, ℕ, ◌≡◌, refl, true, false, none, some, List, [], ◌∷◌, ◌++◌, if◌then◌else◌,
  length, Bytes, codes, pos, arith, inl,
}
use emmbus2influx.Config.Buf.{buf_init, add_chars}
use emmbus2influx.Config.Buf.Laws.{holding, first_size, buf_init-add_chars}
use emmbus2influx.Config.File.{line, overrun, read_line_from_file, strip_comment}
use emmbus2influx.Config.File.Laws.{
  fills, read_line_from_file_lem, Piece, plain, quoted, pieces_text, strip_comment_lem,
}
use emmbus2influx.Config.Sample.{
  enough, no_float, section_at, type_text, meter_text, config_text, no_cron,
}
use emmbus2influx.Config.Expect.Laws.{Ends}
use emmbus2influx.Config.Lexer.Branches.{size}
use emmbus2influx.Config.MeterType.{parse_meter_type}
use emmbus2influx.Config.MeterType.Laws.{TypeRead, parse_meter_type-Ends}
use emmbus2influx.Config.Meters.Parse.{parse_meter}
use emmbus2influx.Config.Meters.Laws.{MeterRead, parse_meter-Ends}
use emmbus2influx.Config.Definitions.{Definitions, new_parser, read_sections}
use emmbus2influx.Config.Schedules.Members.{AreMembers}
use emmbus2influx.Config.Definitions.Lists.{AreTypes, AreMeters}
use emmbus2influx.Config.Definitions.Laws.{words, read_sections-Ends}
use emmbus2influx.Config.Lexer.{Parser, token, tk_strval, tk_intval, char_token, get_token}
use emmbus2influx.Config.Lexer.Laws.{value, get_token-string, get_token-number}

read_line_from_file_lem_example :
    read_line_from_file enough (codes "ab" ++ b'\n' ∷ codes "c")
    ≡ (if fills (length (codes "ab")) then overrun else line (codes "ab") (codes "c"))
read_line_from_file_lem_example =
    read_line_from_file_lem enough (λ n. refl) (codes "ab") (codes "c")
      ((λ e. ground arith), ((λ e. ground arith), tt))

-- `a="#"` and a comment
abbrev pieces : List Piece
pieces = plain b'a' ∷ plain b'=' ∷ quoted (codes "#") ∷ []

strip_comment_lem_example :
    (strip_comment false (pieces_text pieces ++ b'#' ∷ codes "x") ≡ some (pieces_text pieces))
    × (strip_comment false (pieces_text pieces) ≡ some (pieces_text pieces))
strip_comment_lem_example = strip_comment_lem pieces (codes "x") (
  (λ e. ground arith),
  (λ e. ground arith),
  ((λ e. ground arith), (λ e. ground arith), (((λ e. ground arith), tt), tt)),
)

abbrev parser_at : Bytes → Parser ℕ
parser_at text = record {
  char_tokens = codes ",;()={}+-*/&%$";
  tokens = [];
  curr_pos = text;
  curr_line_no = 1;
  file = some [];
  i_val = pos 0;
  f_val = 0;
  str_val = [];
  first_token_in_line = true;
}

quote_free : char_token b'"' (codes ",;()={}+-*/&%$") ≡ none
unfolding char_token
quote_free = refl

digit_free : char_token b'4' (codes ",;()={}+-*/&%$") ≡ none
unfolding char_token
digit_free = refl

get_token-string_example :
    get_token enough no_float (parser_at (codes " \"ab\","))
    ≡ token tk_strval
        (record (parser_at (codes " \"ab\",")) { curr_pos = codes ","; str_val = codes "ab" })
get_token-string_example =
    get_token-string enough no_float refl (parser_at (codes " \"ab\",")) [] (codes " ") (codes "ab")
      (codes ",") refl quote_free (omega arith, tt)
      (omega arith, (λ e. ground arith), (omega arith, (λ e. ground arith), tt)) (omega arith) refl

get_token-number_example :
    get_token enough no_float (parser_at (codes " 42,"))
    ≡ token tk_intval (record (parser_at (codes " 42,")) {
      curr_pos = codes ",";
      i_val = pos (value 0 (codes "42"));
    })
get_token-number_example =
    get_token-number enough no_float refl (parser_at (codes " 42,")) [] (codes " ") (codes "2")
      (codes ",") b'4' refl digit_free (omega arith, tt) (omega arith)
      (omega arith, omega arith, (omega arith, omega arith, tt)) (refl, (λ e. ground arith))
      (omega arith) (omega arith) refl

buf_init-add_chars_example : (buf_init enough 2 >>= add_chars enough (codes "ab")) ≡ (
    if ltb (length (codes "ab")) (first_size 2)
    then ok (holding (first_size 2) (codes "ab"))
    else fault)
buf_init-add_chars_example = buf_init-add_chars enough (λ n. refl) 2 (codes "ab")

parse_meter_type-Ends_example :
    Ends
      (TypeRead [] (size (section_at type_text)))
      (parse_meter_type enough no_float 200 (codes "ad/") (pos 0) [] (section_at type_text))
parse_meter_type-Ends_example =
    parse_meter_type-Ends enough no_float [] 200 (codes "ad/") (pos 0) (section_at type_text) words
      (omega arith) (inl refl)

parse_meter-Ends_example : Ends (MeterRead [] [] (size (section_at meter_text))) (
    parse_meter enough no_float no_cron 0 200
      (codes "ad/")
      (pos 0)
      []
      []
      []
      (section_at meter_text))
parse_meter-Ends_example =
    parse_meter-Ends enough no_float no_cron 0 [] [] 200 (codes "ad/") (pos 0) []
      (section_at meter_text) words (omega arith) (inl refl) tt tt

read_sections-Ends_example :
    Ends
      (λ (d : Definitions ℕ ℕ) pa'.
        AreTypes d.types × AreMeters d.types d.meters × AreMembers (length d.meters) d.schedules)
      (read_sections enough no_float no_cron 0 400
        (codes "ad/")
        (pos 0)
        []
        (new_parser 0 config_text))
read_sections-Ends_example =
    read_sections-Ends enough no_float no_cron 0 (codes "ad/") (pos 0) (inl refl) 400 [] config_text
      (omega arith) tt
