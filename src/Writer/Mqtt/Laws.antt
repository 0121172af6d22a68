-- ===== src/Writer/Mqtt/Laws.antt =====
-- The text that `mqttSendData` builds for a meter.
use emmbus2influx.Base.{
  ℕ, ◌+◌, ◌≤◌, ◌≡◌, refl, sym, subst, Bool, true, false, some, List, [], ◌∷◌, ◌++◌, length,
  length-append, append_assoc, Bytes, codes, same_text, arith, Bool-cases, Option-cases, inl, inr,
  Run, ok, ret, fault, ◌>>=◌, Ensures, Ensures-bind, Ensures-mono,
}
use emmbus2influx.Writer.Mqtt.{
  Str, append_all, Item, Building, building, closing, separator, quoted_name, append_item,
  append_items, mqtt_text,
}
use emmbus2influx.Writer.Mqtt.Json.{members, print_object}
use emmbus2influx.Writer.Mqtt.Tail.{
  flatten, opening, alone, tail_text, HaveArrayNames, tail_text-members,
}
use emmbus2influx.Writer.Mqtt.Bounds.{Holds, IsShort, AreShort, append_all-Holds}

bind_assoc :
    {S : Type 0} (m : Run S) (f g : S → Run S) → ((m >>= f) >>= g) ≡ (m >>= (λ s. f s >>= g))
bind_assoc (ok s) f g = refl
bind_assoc (ret r s) f g = refl
bind_assoc fault f g = refl

-- The texts of an item fit: its name with its quotes, the name of its array, and its value.
pub record IsShortItem (item : Item) : Type 0 where
  pub name : length item.name + 3 ≤ 256
  pub array_name : (a : Bytes) → item.array_name ≡ some a → IsShort a
  pub value : IsShort item.value

abbrev pub AreShortItems : List Item → Type 0
AreShortItems [] = Unit
AreShortItems (item ∷ rest) = IsShortItem item × AreShortItems rest

AreShort-append : (a b : List Bytes) → AreShort a → AreShort b → AreShort (a ++ b)
AreShort-append [] b h k = k
AreShort-append (t ∷ a) b (h, hs) k = (h, AreShort-append a b hs k)

closing-AreShort : (name : Bytes) → AreShort (closing name)
closing-AreShort [] = tt
closing-AreShort (c ∷ cs) = (omega arith, tt)

separator-AreShort : (first : Bool) → AreShort (separator first)
separator-AreShort true = tt
separator-AreShort false = (omega arith, tt)

placed-AreShort :
    (b : Building) (texts : List Bytes)
    → AreShort texts
    → AreShort (closing b.array_name ++ (separator b.first ++ texts))
placed-AreShort b texts h =
    AreShort-append (closing b.array_name) _ (closing-AreShort b.array_name)
      (AreShort-append (separator b.first) texts (separator-AreShort b.first) h)

quoted_name-IsShort : (name : Bytes) → length name + 3 ≤ 256 → IsShort (quoted_name name)
quoted_name-IsShort name h = omega (arith, length-append name (codes "\":"))

-- What is built: the text, and the variables of the loop.
record Built (b : Building) (text : Bytes) (is_first : Bool) (open_name : Bytes) : Type 0 where
  str : Holds b.str text
  first : b.first ≡ is_first
  array_name : b.array_name ≡ open_name

module _ (alloc : ℕ → Bool) (plenty : (n : ℕ) → alloc n ≡ true) where
  building-Built :
      (texts : List Bytes) (first : Bool) (name : Bytes) (b : Building) (text : Bytes)
      → Holds b.str text
      → AreShort texts
      → Ensures
          (λ b'. Built b' (text ++ flatten texts) first name)
          (building alloc texts first name b)
  unfolding building
  building-Built texts first name b text h short =
      go (append_all alloc texts b.str) (append_all-Holds alloc plenty texts b.str text h short)
    where
      go :
          (m : Run Str)
          → Ensures (λ s. Holds s (text ++ flatten texts)) m
          → Ensures
              (λ b'. Built b' (text ++ flatten texts) first name)
              (elim m [
                | ok s ↦ ok (record { str = s; first = first; array_name = name })
                | ret r s ↦ ret r b
                | fault ↦ fault
              ])
      go (ok s) e = record { str = e; first = refl; array_name = refl }
      go (ret r s) e = absurd e
      go fault e = absurd e

  abbrev finish : Building → Run Building
  finish b = building alloc (closing b.array_name ++ codes "}" ∷ []) b.first b.array_name b

  abbrev EndsWith : Bytes → Run Building → Type 0
  EndsWith text = Ensures (λ b. Holds b.str text)

  finish-EndsWith :
      (b : Building) (text : Bytes)
      → Holds b.str text
      → EndsWith (text ++ tail_text b.first b.array_name []) (finish b)
  unfolding tail_text
  finish-EndsWith b text h =
      Ensures-mono _ _ (finish b) (λ b' e. e.str)
        (building-Built _ b.first b.array_name b text h (
          AreShort-append (closing b.array_name) _ (closing-AreShort b.array_name)
            (omega arith, tt)))

  module _ (rest : List Item)
      (later : (b : Building) (text : Bytes)
        → Holds b.str text
        → EndsWith
            (text ++ tail_text b.first b.array_name rest)
            (append_items alloc rest b >>= finish)) where
    -- a chain of calls, and then the loop
    chain-EndsWith :
        (texts : List Bytes) (first : Bool) (name : Bytes) (b : Building) (text : Bytes)
        → Holds b.str text
        → AreShort texts
        → EndsWith
            (text ++ (flatten texts ++ tail_text first name rest))
            (building alloc texts first name b >>= append_items alloc rest >>= finish)
    chain-EndsWith texts first name b text h short =
        rw (bind_assoc (building alloc texts first name b) (append_items alloc rest) finish) (
          Ensures-bind _ _ (building alloc texts first name b) _
            (building-Built texts first name b text h short)
            (λ b' e.
              rw
                (
                  sym e.first,
                  sym e.array_name,
                  sym (append_assoc text (flatten texts) (tail_text b'.first b'.array_name rest)),
                )
                (later b' (text ++ flatten texts) e.str)))

    item-EndsWith :
        (item : Item) (b : Building) (text : Bytes)
        → IsShortItem item
        → Holds b.str text
        → EndsWith
            (text ++ tail_text b.first b.array_name (item ∷ rest))
            (append_items alloc (item ∷ rest) b >>= finish)
    unfolding append_items append_item tail_text
    item-EndsWith item b text short h = elim (Bool-cases item.enabled) [
      | inr off ↦ rw off (later b text h)
      | inl on ↦ elim (Option-cases item.array_name) [
        | inl e ↦
            rw (on, e)
              (chain-EndsWith (closing b.array_name ++ (separator b.first ++ alone item)) false [] b
                text h
                (placed-AreShort b (alone item)
                  (quoted_name-IsShort item.name short.name, (short.value, tt))))
        | inr (name, e) ↦ elim (Bool-cases (same_text b.array_name name)) [
          | inl same ↦
              rw (on, e, same)
                (chain-EndsWith (codes ", " ∷ item.value ∷ []) b.first b.array_name b text h
                  (omega arith, (short.value, tt)))
          | inr other ↦
              rw (on, e, other)
                (chain-EndsWith
                  (closing b.array_name ++ (separator b.first ++ opening name item.value)) false
                  name b text h
                  (placed-AreShort b (opening name item.value)
                    (omega arith, (short.array_name name e, (omega arith, (short.value, tt))))))
        ]
      ]
    ]

  loop-EndsWith :
      (list : List Item) (b : Building) (text : Bytes)
      → AreShortItems list
      → Holds b.str text
      → EndsWith
          (text ++ tail_text b.first b.array_name list)
          (append_items alloc list b >>= finish)
  unfolding append_items
  loop-EndsWith [] b text short h = finish-EndsWith b text h
  loop-EndsWith (item ∷ rest) b text (short, shorts) h =
      item-EndsWith rest (λ b' t' h'. loop-EndsWith rest b' t' shorts h') item b text short h

-- The text for a list of items.
pub mqtt_text-members :
    (alloc : ℕ → Bool) (list : List Item)
    → ((n : ℕ) → alloc n ≡ true)
    → AreShortItems list
    → HaveArrayNames list
    → Ensures (λ b. Holds b.str (print_object (members list))) (mqtt_text alloc list)
unfolding mqtt_text
mqtt_text-members alloc list plenty short named =
    Ensures-mono _ _ (mqtt_text alloc list)
      (λ b h. subst (Holds b.str) (tail_text-members list named) h)
      (loop-EndsWith alloc plenty list _ (codes "{") short
        (record { same = refl; counted = refl; room = omega arith; large = omega arith }))
