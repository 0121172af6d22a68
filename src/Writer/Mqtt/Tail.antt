-- ===== src/Writer/Mqtt/Tail.antt =====
-- The text that the loops of `mqttSendData` and its last lines add, as a function of what is to come
-- and of the variables `first` and `arrayName`, and that it is the object of the members.
use emmbus2influx.Base.{
  ◌≡◌, ◌≢◌, refl, sym, ap, ◌∙◌, Bool, true, false, not, none, some, List, [], ◌∷◌, ◌++◌, map,
  append-nil, append_assoc, if◌then◌else◌, Bytes, codes, same_text, same_text_iff, Bool-cases,
  Option-cases, inl, inr,
}
use emmbus2influx.Writer.Mqtt.{Item, closing, separator, quoted_name}
use emmbus2influx.Writer.Mqtt.Json.{
  Member, single, array, join_array, members, each_behind_comma, separated, print_member,
  print_object,
}

abbrev pub flatten : List Bytes → Bytes
flatten [] = []
flatten (text ∷ rest) = text ++ flatten rest

pub flatten-append : (a b : List Bytes) → flatten (a ++ b) ≡ flatten a ++ flatten b
flatten-append [] b = refl
flatten-append (t ∷ a) b = simp (flatten-append a b, append_assoc)

abbrev pub opening : Bytes → Bytes → List Bytes
opening name value = codes "\"" ∷ name ∷ codes "\":[" ∷ value ∷ []

abbrev pub alone : Item → List Bytes
alone item = quoted_name item.name ∷ item.value ∷ []

unfoldable pub tail_text : Bool → Bytes → List Item → Bytes
tail_text first open_name [] = flatten (closing open_name ++ codes "}" ∷ [])
tail_text first open_name (item ∷ rest) =
    if not item.enabled then tail_text first open_name rest else elim item.array_name [
      | none ↦
          flatten (closing open_name ++ (separator first ++ alone item)) ++ tail_text false [] rest
      | some name ↦
          if same_text open_name name
          then flatten (codes ", " ∷ item.value ∷ []) ++ tail_text first open_name rest
          else flatten (closing open_name ++ (separator first ++ opening name item.value))
            ++ tail_text false name rest
    ]

-- The members to come, behind an object that has or has not a member before them.
abbrev behind : Bool → List Member → Bytes
behind true list = separated (map print_member list)
behind false list = each_behind_comma (map print_member list)

-- The same, where the array of the name is still open.
abbrev behind_open : Bytes → List Member → Bytes
behind_open name [] = codes "]"
behind_open name (single n v ∷ rest) = codes "]" ++ behind false (single n v ∷ rest)
behind_open name (array n v vs ∷ rest) =
    if same_text name n
    then each_behind_comma (v ∷ vs) ++ (codes "]" ++ behind false rest)
    else codes "]" ++ behind false (array n v vs ∷ rest)

behind-join_array :
    (first : Bool) (name value : Bytes) (list : List Member)
    → behind first (join_array name value list)
      ≡ flatten (separator first ++ opening name value) ++ behind_open name list
behind-join_array true name value [] = simp (append_assoc, append-nil)
behind-join_array false name value [] = simp (append_assoc, append-nil)
behind-join_array true name value (single n v ∷ rest) = simp (append_assoc, append-nil)
behind-join_array false name value (single n v ∷ rest) = simp (append_assoc, append-nil)
behind-join_array true name value (array n v vs ∷ rest) = elim (Bool-cases (same_text name n)) [
  | inl e ↦ rw e (simp (append_assoc, append-nil))
  | inr e ↦ rw e (simp (append_assoc, append-nil))
]
behind-join_array false name value (array n v vs ∷ rest) = elim (Bool-cases (same_text name n)) [
  | inl e ↦ rw e (simp (append_assoc, append-nil))
  | inr e ↦ rw e (simp (append_assoc, append-nil))
]

behind_open-join_same :
    (name value : Bytes) (list : List Member)
    → behind_open name (join_array name value list) ≡ codes ", " ++ (value ++ behind_open name list)
behind_open-join_same name value [] =
    rw ((same_text_iff name name).1 refl) (simp (append_assoc, append-nil))
behind_open-join_same name value (single n v ∷ rest) =
    rw ((same_text_iff name name).1 refl) (simp (append_assoc, append-nil))
behind_open-join_same name value (array n v vs ∷ rest) = elim (Bool-cases (same_text name n)) [
  | inl e ↦ rw (e, (same_text_iff name name).1 refl) (simp (append_assoc, append-nil))
  | inr e ↦ rw (e, (same_text_iff name name).1 refl) (simp (append_assoc, append-nil))
]

behind_open-join_other :
    (open_name name value : Bytes) (list : List Member)
    → same_text open_name name ≡ false
    → behind_open open_name (join_array name value list)
      ≡ codes "]" ++ behind false (join_array name value list)
behind_open-join_other open_name name value [] h = rw h refl
behind_open-join_other open_name name value (single n v ∷ rest) h = rw h refl
behind_open-join_other open_name name value (array n v vs ∷ rest) h =
    elim (Bool-cases (same_text name n)) [ inl e ↦ rw e (rw h refl) | inr e ↦ rw e (rw h refl) ]

-- No array of an enabled item has the empty name.
abbrev pub HasArrayName : Item → Type 0
HasArrayName item = item.enabled ≡ true → item.array_name ≢ some []

abbrev pub HaveArrayNames : List Item → Type 0
HaveArrayNames [] = Unit
HaveArrayNames (item ∷ rest) = HasArrayName item × HaveArrayNames rest

behind_prefix : (a t u g c : Bytes) → t ≡ u ++ c → g ≡ a ++ u → a ++ t ≡ g ++ c
behind_prefix a t u g c h e =
    ap (λ x. a ++ x) h ∙ sym (append_assoc a u c) ∙ ap (λ x. x ++ c) (sym e)

close_nonempty : (name : Bytes) → name ≢ [] → closing name ≡ codes "]" ∷ []
close_nonempty [] h = absurd (h refl)
close_nonempty (c ∷ cs) h = refl

empty-differs : (name : Bytes) → name ≢ [] → same_text [] name ≡ false
unfolding same_text
empty-differs [] h = absurd (h refl)
empty-differs (c ∷ cs) h = refl

behind-single :
    (first : Bool) (item : Item) (rest : List Member)
    → behind first (single item.name item.value ∷ rest)
      ≡ flatten (separator first ++ alone item) ++ behind false rest
behind-single true item rest = simp (append_assoc, append-nil)
behind-single false item rest = simp (append_assoc, append-nil)

module _ (item : Item) (rest : List Item) (h : HasArrayName item)
    (closed : (first : Bool) → tail_text first [] rest ≡ behind first (members rest) ++ codes "}")
    (opened : (name : Bytes)
      → name ≢ []
      → tail_text false name rest ≡ behind_open name (members rest) ++ codes "}") where
  nonempty : (name : Bytes) → item.enabled ≡ true → item.array_name ≡ some name → name ≢ []
  nonempty name on e z = h on (e ∙ ap some z)

  closed_step :
      (first : Bool)
      → tail_text first [] (item ∷ rest) ≡ behind first (members (item ∷ rest)) ++ codes "}"
  unfolding tail_text
  closed_step first = elim (Bool-cases item.enabled) [
    | inr off ↦ rw off (closed first)
    | inl on ↦ elim (Option-cases item.array_name) [
      | inl e ↦
          rw (on, e)
            (behind_prefix _ _ _ _ _ (closed false) (behind-single first item (members rest)))
      | inr (name, e) ↦
          let n = nonempty name on e in
          rw (on, e, empty-differs name n)
            (behind_prefix _ _ _ _ _ (opened name n)
              (behind-join_array first name item.value (members rest)))
    ]
  ]

  open_same :
      (name name' : Bytes)
      → same_text name name' ≡ true
      → behind_open name (join_array name' item.value (members rest))
        ≡ flatten (codes ", " ∷ item.value ∷ []) ++ behind_open name (members rest)
  open_same name name' same =
      ap (λ x. behind_open name (join_array x item.value (members rest)))
        (sym ((same_text_iff name name').0 same))
      ∙ behind_open-join_same name item.value (members rest)
      ∙ simp (append_assoc, append-nil)

  open_step :
      (name : Bytes)
      → name ≢ []
      → tail_text false name (item ∷ rest) ≡ behind_open name (members (item ∷ rest)) ++ codes "}"
  unfolding tail_text
  open_step name n = elim (Bool-cases item.enabled) [
    | inr off ↦ rw off (opened name n)
    | inl on ↦ elim (Option-cases item.array_name) [
      | inl e ↦
          rw (on, e, close_nonempty name n)
            (behind_prefix (flatten (codes "]" ∷ separator false ++ alone item)) _ _ _ _
              (closed false) (ap (λ x. codes "]" ++ x) (behind-single false item (members rest))))
      | inr (name', e) ↦ elim (Bool-cases (same_text name name')) [
        | inl same ↦
            rw (on, e, same)
              (behind_prefix (flatten (codes ", " ∷ item.value ∷ [])) _ _ _ _ (opened name n)
                (open_same name name' same))
        | inr other ↦
            rw (on, e, other, close_nonempty name n)
              (behind_prefix (flatten (codes "]" ∷ separator false ++ opening name' item.value)) _ _
                _ _ (opened name' (nonempty name' on e))
                (behind_open-join_other name name' item.value (members rest) other
                  ∙ ap (λ x. codes "]" ++ x)
                      (behind-join_array false name' item.value (members rest))))
      ]
    ]
  ]

mutual
  unfolding tail_text

  tail_text-closed :
      (list : List Item) (first : Bool)
      → HaveArrayNames list
      → tail_text first [] list ≡ behind first (members list) ++ codes "}"
  tail_text-closed [] true h = refl
  tail_text-closed [] false h = refl
  tail_text-closed (item ∷ rest) first (h, hs) =
      closed_step item rest h (λ f. tail_text-closed rest f hs)
        (λ n ne. tail_text-open rest n ne hs) first

  tail_text-open :
      (list : List Item) (name : Bytes)
      → name ≢ []
      → HaveArrayNames list
      → tail_text false name list ≡ behind_open name (members list) ++ codes "}"
  tail_text-open [] name n h = rw (close_nonempty name n) refl
  tail_text-open (item ∷ rest) name n (h, hs) =
      open_step item rest h (λ f. tail_text-closed rest f hs) (λ m ne. tail_text-open rest m ne hs)
        name n

-- From the start of the loops on, the object of the members is what is written behind its brace.
pub tail_text-members :
    (list : List Item)
    → HaveArrayNames list
    → codes "{" ++ tail_text true [] list ≡ print_object (members list)
tail_text-members list h = ap (λ x. codes "{" ++ x) (tail_text-closed list true h)
