-- ===== src/Writer/Mqtt/Overflow.antt =====
-- The names that the text of `mqttSendData` has no room for.
use emmbus2influx.Base.{
  ℕ, ◌≤◌, ◌≡◌, refl, Bool, true, false, none, List, [], ◌∷◌, ◌++◌, length, length-append, ◌∙◌,
  Bytes, codes, arith, fault, ap, Run, ◌>>=◌,
}
use emmbus2influx.Writer.Mqtt.{
  Item, Str, append_to_str, quoted_name, append_all, building, append_item, append_items, mqtt_text,
  Building, closing,
}
use emmbus2influx.Writer.Mqtt.Bounds.{append_to_str_overflow}

abbrev begun : Str
begun = record { dest = codes "{"; len = 1; bufsize = 256 }

abbrev opened : Building
opened = record { str = begun; first = true; array_name = [] }

abbrev finish : (ℕ → Bool) → Building → Run Building
finish alloc b = building alloc (closing b.array_name ++ codes "}" ∷ []) b.first b.array_name b

building_overflow :
    (alloc : ℕ → Bool) (text : Bytes) (texts : List Bytes) (first : Bool) (name : Bytes)
    (b : Building)
    → append_to_str alloc text b.str ≡ fault
    → building alloc (text ∷ texts) first name b ≡ fault
unfolding building append_all
building_overflow alloc text texts first name b h = rw (building, append_all, h) refl

-- Values that are not enabled.
abbrev pub AreOff : List Item → Type 0
AreOff [] = Unit {0}
AreOff (item ∷ items) = (item.enabled ≡ false) × AreOff items

-- They are passed.
append_items-skip :
    (alloc : ℕ → Bool) (before rest : List Item) (b : Building)
    → AreOff before
    → append_items alloc (before ++ rest) b ≡ append_items alloc rest b
unfolding append_items append_item
append_items-skip alloc [] rest b h = refl
append_items-skip alloc (item ∷ before) rest b (off, h) =
    rw off (append_items-skip alloc before rest b h)

-- Let the first enabled value of a meter be in no array and have a name of 508 bytes or more, and let
-- there be memory for 512 bytes. `mqttSendData` then writes the name behind the end of its block:
-- `appendToStr` doubles the block once, whatever the text needs.
pub mqtt_text_overflow :
    (alloc : ℕ → Bool) (before : List Item) (item : Item) (rest : List Item)
    → alloc 512 ≡ true
    → AreOff before
    → item.enabled ≡ true
    → item.array_name ≡ none
    → 508 ≤ length item.name
    → mqtt_text alloc (before ++ item ∷ rest) ≡ fault
unfolding mqtt_text
mqtt_text_overflow alloc before item rest a off on alone long =
    let over =
      append_to_str_overflow alloc (quoted_name item.name) begun (codes "{") a
        (record { same = refl; counted = refl; room = omega arith; large = omega arith })
        (omega (arith, length-append item.name (codes "\":"))) in
    ap (λ r. r >>= finish alloc) (append_items-skip alloc before (item ∷ rest) opened off)
    ∙ rw (on, alone)
        (ap (λ r. r >>= append_items alloc rest >>= finish alloc)
          (building_overflow alloc (quoted_name item.name) (item.value ∷ []) false [] opened over))
