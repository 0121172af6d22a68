-- ===== src/Writer/Mqtt/Json.antt =====
-- The object that a meter's values are published as, described without the loop of `mqttSendData`:
-- the values in their order, where values of one array that follow each other are one member.
use emmbus2influx.Base.{
  none, some, List, [], ◌∷◌, ◌++◌, map, if◌then◌else◌, Bytes, codes, same_text,
}
use emmbus2influx.Writer.Mqtt.{Item}

-- A member of the object: its name, and its value or its values.
pub data Member : Type 0 where
  single : Bytes → Bytes → Member
  array : Bytes → Bytes → List Bytes → Member

-- a value of the array, before the members behind it
abbrev pub join_array : Bytes → Bytes → List Member → List Member
join_array name value [] = array name value [] ∷ []
join_array name value (single other v ∷ rest) = array name value [] ∷ single other v ∷ rest
join_array name value (array other v vs ∷ rest) =
    if same_text name other
    then array name value (v ∷ vs) ∷ rest
    else array name value [] ∷ array other v vs ∷ rest

abbrev pub join_item : Item → List Member → List Member
join_item item members =
    if item.enabled
    then elim item.array_name [
      | none ↦ single item.name item.value ∷ members
      | some name ↦ join_array name item.value members
    ]
    else members

abbrev pub members : List Item → List Member
members [] = []
members (item ∷ rest) = join_item item (members rest)

-- Texts with a comma and a space before each.
abbrev pub each_behind_comma : List Bytes → Bytes
each_behind_comma [] = []
each_behind_comma (text ∷ rest) = codes ", " ++ (text ++ each_behind_comma rest)

abbrev pub separated : List Bytes → Bytes
separated [] = []
separated (text ∷ rest) = text ++ each_behind_comma rest

abbrev pub print_member : Member → Bytes
print_member (single name value) = codes "\"" ++ (name ++ (codes "\":" ++ value))
print_member (array name value values) =
    codes "\"" ++ (name ++ (codes "\":[" ++ (value ++ (each_behind_comma values ++ codes "]"))))

abbrev pub print_object : List Member → Bytes
print_object list = codes "{" ++ (separated (map print_member list) ++ codes "}")
