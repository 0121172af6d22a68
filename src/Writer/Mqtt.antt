-- ===== src/Writer/Mqtt.antt =====
-- The text of a meter's values for MQTT: `appendToStr`, `appendValue`, `appendFormulaValue` and the
-- part of `mqttSendData` that builds its text, emmbus2influx.cpp.
pub mod Json
pub mod Bounds
pub mod Tail
pub mod Laws
pub mod Object
pub mod Overflow
use emmbus2influx.Base.{
  ℕ, ◌+◌, ◌*◌, ◌&&◌, ◌||◌, not, Bool, true, false, Option, none, some, List, [], ◌∷◌, ◌++◌, map,
  length, take, ltb, leb, if◌then◌else◌, Bytes, codes, same_text, ℤ, pos, is_zero, print_int, Run,
  ok, ret, fault, ◌>>=◌,
}
use emmbus2influx.Meter.Floats.{Floats}
use emmbus2influx.Meter.{
  TypeForce, force_none, force_int, force_float, MeterRegisterRead, MeterFormula, Meter,
}
use emmbus2influx.Writer.{is_force_int}

-- `*dest`, `*len` and `*bufsize`; the text ends with a zero byte that is not counted
pub record Str : Type 0 where
  pub dest : Bytes
  pub len : ℕ
  pub bufsize : ℕ

-- `INITIAL_BUFFER_LEN`
abbrev pub initial_buffer_len : ℕ
initial_buffer_len = 256

-- `strcat` and what is behind it, in a block of the size
unfoldable pub concat_to : Bytes → ℕ → Str → Run Str
concat_to src size s =
    if ltb size (length s.dest + length src + 1)
    then fault
    else ok (record { dest = s.dest ++ src; len = s.len + length src; bufsize = size })

-- `appendToStr`; `ret` is its `exit(1)`
unfoldable pub append_to_str : (ℕ → Bool) → Bytes → Str → Run Str
unfolding concat_to
append_to_str alloc [] s = ok s
append_to_str alloc (c ∷ cs) s =
    let size = s.bufsize * 2 in
    if ltb s.bufsize (s.len + length (c ∷ cs) + 1)
    then if alloc size then concat_to (c ∷ cs) size s else ret (pos 1) s
    else concat_to (c ∷ cs) s.bufsize s

-- one call of `appendToStr` after the other
unfoldable pub append_all : (ℕ → Bool) → List Bytes → Str → Run Str
unfolding append_to_str
append_all alloc [] s = ok s
append_all alloc (text ∷ rest) s = append_to_str alloc text s >>= append_all alloc rest

-- `while (*p && *p<=32) p++`
unfoldable pub skip_blanks : Bytes → Bytes
skip_blanks [] = []
skip_blanks (c ∷ cs) = let later = skip_blanks cs in if leb c 32 || leb 128 c then later else c ∷ cs

-- `VALBUFLEN`, less the zero byte
abbrev pub valbuf_max : ℕ
valbuf_max = 63

-- what `mqttSendData` reads of a register or of a formula: `enableMqttWrite`, the name of the array,
-- the name, and the text of the value
pub record Item : Type 0 where
  pub enabled : Bool
  pub array_name : Option Bytes
  pub name : Bytes
  pub value : Bytes

module _ {D : Type 0} (F : Floats D) (format_float : ℤ → D → Bytes) where
  -- the text that `appendValue` and `appendFormulaValue` make of a value
  unfoldable pub value_text : Bool → ℤ → D → Bytes
  unfolding skip_blanks
  value_text is_int decimals v =
      if is_int
      then take valbuf_max (print_int (F.to_int v))
      else skip_blanks (take valbuf_max (format_float decimals v))

  unfoldable pub register_item : MeterRegisterRead D → Item
  unfolding value_text
  register_item rr = record {
    enabled = not (is_zero rr.register_def.enable_mqtt_write);
    array_name = rr.register_def.array_name;
    name = rr.register_def.name;
    value = value_text rr.is_int rr.register_def.decimals rr.fvalue;
  }

  unfoldable pub formula_item : MeterFormula D → Item
  unfolding value_text
  formula_item mf = record {
    enabled = not (is_zero mf.enable_mqtt_write);
    array_name = mf.array_name;
    name = mf.name;
    value = value_text (is_force_int mf.force_type) mf.decimals mf.fvalue;
  }

  -- the registers, and behind them the formulas
  abbrev pub items : Meter D → List Item
  items m = map register_item m.register_read ++ map formula_item m.meter_formula

-- the text that is built, and the variables `first` and `arrayName`
pub record Building : Type 0 where
  pub str : Str
  pub first : Bool
  pub array_name : Bytes

abbrev pub quoted_name : Bytes → Bytes
quoted_name name = codes "\"" ++ (name ++ codes "\":")

-- a chain of `APPEND`, after which the variables are `first` and `array_name`
unfoldable pub building : (ℕ → Bool) → List Bytes → Bool → Bytes → Building → Run Building
unfolding append_all
building alloc texts first array_name b = elim (append_all alloc texts b.str) [
  | ok s ↦ ok (record { str = s; first = first; array_name = array_name })
  | ret r s ↦ ret r b
  | fault ↦ fault
]

abbrev pub is_empty : Bytes → Bool
is_empty [] = true
is_empty (c ∷ cs) = false

-- `if (strlen(arrayName)) APPEND("]")`
abbrev pub closing : Bytes → List Bytes
closing name = if is_empty name then [] else codes "]" ∷ []

-- `if (!first) APPEND(", ")`
abbrev pub separator : Bool → List Bytes
separator first = if first then [] else codes ", " ∷ []

-- the body of the loops over the registers and the formulas
unfoldable pub append_item : (ℕ → Bool) → Item → Building → Run Building
unfolding building
append_item alloc item b =
    let alone : List Bytes = quoted_name item.name ∷ item.value ∷ [] in
    if not item.enabled then ok b else elim item.array_name [
      | none ↦ building alloc (closing b.array_name ++ (separator b.first ++ alone)) false [] b
      | some name ↦
          if same_text b.array_name name
          then building alloc (codes ", " ∷ item.value ∷ []) b.first b.array_name b
          else building alloc
              (closing b.array_name
                ++ (separator b.first ++ codes "\"" ∷ name ∷ codes "\":[" ∷ item.value ∷ []))
              false name b
    ]

unfoldable pub append_items : (ℕ → Bool) → List Item → Building → Run Building
unfolding append_item
append_items alloc [] b = ok b
append_items alloc (item ∷ rest) b = append_item alloc item b >>= append_items alloc rest

abbrev pub begin_building : Building
begin_building = record {
  str = record { dest = []; len = 0; bufsize = initial_buffer_len };
  first = true;
  array_name = [];
}

-- `mqttSendData` from its first `APPEND` to its last
unfoldable pub mqtt_text : (ℕ → Bool) → List Item → Run Building
unfolding append_items building
mqtt_text alloc list =
    building alloc (codes "{" ∷ []) true [] begin_building >>= append_items alloc list >>= λ b.
    building alloc (closing b.array_name ++ codes "}" ∷ []) b.first b.array_name b
