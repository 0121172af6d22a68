-- ===== src/Config/Definitions/Lists.antt =====
-- Lists of well-formed types and meters, and what a further type leaves of them.
use mathlib.Core.Option.{some-ne-none}
use emmbus2influx.Base.{
  ◌≡◌, sym, Bool, true, false, Option, none, some, List, [], ◌∷◌, ◌++◌, if◌then◌else◌, Bytes,
  same_text,
}
use emmbus2influx.Meter.{MeterType, Meter}
use emmbus2influx.Config.MeterType.{find_meter_type}
use emmbus2influx.Config.MeterType.Sections.{IsMult}
use emmbus2influx.Config.MeterType.Laws.{IsCompleteType}
use emmbus2influx.Config.Meters.Keys.{IsKnown, AreMults}
use emmbus2influx.Config.Meters.Laws.{IsCompleteMeter}

-- Types of meters, each complete behind the earlier ones.
pub data AreTypes : List MeterType → Type 0 where
  no_types : AreTypes []
  one_type :
      (ts : List MeterType) (t : MeterType)
      → AreTypes ts
      → IsCompleteType ts t
      → AreTypes (ts ++ t ∷ [])

-- Meters of the types, each complete behind the earlier ones.
pub data AreMeters {D : Type 0} (types : List MeterType) : List (Meter D) → Type 0 where
  no_meters : AreMeters types []
  one_meter :
      (ms : List (Meter D)) (m : Meter D)
      → AreMeters types ms
      → IsCompleteMeter types ms m
      → AreMeters types (ms ++ m ∷ [])

AreMults-append :
    (ts : List MeterType) (t : MeterType)
    → AreMults ts
    → IsMult t.influx_write_mult
    → AreMults (ts ++ t ∷ [])
AreMults-append [] t ok h = (h, tt)
AreMults-append (x ∷ ts) t (first, ok) h = (first, AreMults-append ts t ok h)

pub types_mults : (ts : List MeterType) → AreTypes ts → AreMults ts
types_mults ts no_types = tt
types_mults ts (one_type ts' t ok (named, (name, registers, mult), full, counts)) =
    AreMults-append ts' t (types_mults ts' ok) mult

same_else :
    {A : Type 0} (b : Bool) (o p q : Option A) (x : A)
    → (p ≡ some x → q ≡ some x)
    → (if b then o else p) ≡ some x
    → (if b then o else q) ≡ some x
same_else true o p q x h e = e
same_else false o p q x h e = h e

find-append :
    (name : Bytes) (ts : List MeterType) (t x : MeterType)
    → find_meter_type name ts ≡ some x
    → find_meter_type name (ts ++ t ∷ []) ≡ some x
unfolding find_meter_type
find-append name [] t x = λ h. absurd (some-ne-none x (sym h))
find-append name (y ∷ ts) t x =
    let here : Bool = elim y.name [ none ↦ false | some n ↦ same_text n name ] in
    same_else here (some y) _ _ x (find-append name ts t x)

IsKnown-append :
    (ts : List MeterType) (t : MeterType) (o : Option MeterType)
    → IsKnown ts o
    → IsKnown (ts ++ t ∷ []) o
IsKnown-append ts t none h = tt
IsKnown-append ts t (some x) (name, h) = (name, find-append name ts t x h)

pub AreMeters-append :
    {D : Type 0} (ts : List MeterType) (t : MeterType) (ms : List (Meter D))
    → AreMeters ts ms
    → AreMeters (ts ++ t ∷ []) ms
AreMeters-append ts t ms no_meters = no_meters
AreMeters-append ts t ms
      (one_meter ms' m ok (named, name, formulas, type, tcp, prefix, fresh, follows)) =
    one_meter ms' m (AreMeters-append ts t ms' ok)
      (named, name, formulas, IsKnown-append ts t m.meter_type type, tcp, prefix, fresh, follows)
