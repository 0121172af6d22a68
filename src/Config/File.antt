-- ===== src/Config/File.antt =====
-- The lines of the configuration file: `readLineFromFile` of argparse.c, and the stripping of
-- comments in `parserGetNextLine` of parser.c. A file is the list of the bytes not yet read.
pub mod Laws
use mathlib.Core.Option
use emmbus2influx.Base.{
  ℕ, suc, ◌+◌, ◌==◌, Bool, true, false, Option, none, some, List, [], ◌∷◌, ◌++◌, ltb, if◌then◌else◌,
  Bytes,
}

-- What `readLineFromFile` does: it returns a null pointer, it returns a line, or it stores the NUL
-- behind the end of its block.
pub data ReadLine : Type 0 where
  no_line : Bytes → ReadLine
  line : Bytes → Bytes → ReadLine
  overrun : ReadLine

abbrev pub line_step : ℕ
line_step = 256

-- `lineBuffer[count] = '\0'` and the return
unfoldable pub end_line : ℕ → ℕ → Bytes → Bytes → ReadLine
end_line size count text rest = if ltb count size then line text rest else overrun

-- the loop of `readLineFromFile`; `alloc` is whether `realloc` succeeds
unfoldable pub read_chars : (ℕ → Bool) → ℕ → ℕ → Bytes → Bytes → ReadLine
unfolding end_line
read_chars alloc size count text [] = end_line size count text []
read_chars alloc size count text (ch ∷ rest) =
    let wanted = if count == size then size + line_step else size in
    let more = read_chars alloc wanted (count + 1) (text ++ ch ∷ []) rest in
    if ch == b'\n'
    then end_line size count text rest
    else if count == size
    then (if alloc wanted then more else no_line rest)
    else more

-- `readLineFromFile`
unfoldable pub read_line_from_file : (ℕ → Bool) → Bytes → ReadLine
unfolding read_chars
read_line_from_file alloc [] = no_line []
read_line_from_file alloc (ch ∷ rest) = read_chars alloc line_step 0 [] (ch ∷ rest)

-- the string in a block of text: it ends at the first NUL
unfoldable pub before_nul : Bytes → Bytes
before_nul [] = []
before_nul (c ∷ cs) = if c == 0 then [] else c ∷ before_nul cs

-- the loops for a comment in `parserGetNextLine`, within a string or not; `none` is the error for a
-- string that is not closed
unfoldable pub strip_comment : Bool → Bytes → Option Bytes
strip_comment true [] = none
strip_comment false [] = some []
strip_comment true (c ∷ cs) =
    let outside = strip_comment false cs in
    let inside = strip_comment true cs in Option.map (◌∷◌ c) (if c == b'"' then outside else inside)
strip_comment false (c ∷ cs) =
    let outside = strip_comment false cs in
    let inside = strip_comment true cs in
    if c == b'#' then some [] else Option.map (◌∷◌ c) (if c == b'"' then inside else outside)
