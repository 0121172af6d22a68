-- ===== src/Config/Schedules/Members.antt =====
-- The members of the schedules are places of meters.
use emmbus2influx.Base.{
  ℕ, suc, ◌<◌, ◌≡◌, subst, Option, none, some, List, [], ◌∷◌, ◌++◌, if_either, elim_either, Bytes,
  arith,
}
use emmbus2influx.Cron.{CronLibrary, CronDef, same_name, cron_find, update, join, cron_add}

abbrev pub AreBelow : ℕ → List ℕ → Type 0
AreBelow n [] = Unit {0}
AreBelow n (i ∷ is) = (i < n) × AreBelow n is

-- All members of the schedules are less than `n`.
abbrev pub AreMembers : {E : Type 0} → ℕ → List (CronDef E) → Type 0
AreMembers n [] = Unit {0}
AreMembers n (cd ∷ cds) = AreBelow n cd.members × AreMembers n cds

AreBelow-append : (n i : ℕ) (is : List ℕ) → AreBelow n is → i < n → AreBelow n (is ++ i ∷ [])
AreBelow-append n i [] h k = (k, tt)
AreBelow-append n i (j ∷ is) (first, h) k = (first, AreBelow-append n i is h k)

AreBelow-suc : (n : ℕ) (is : List ℕ) → AreBelow n is → AreBelow (suc n) is
AreBelow-suc n [] h = tt
AreBelow-suc n (i ∷ is) (first, h) = (omega arith, AreBelow-suc n is h)

pub AreMembers-suc :
    {E : Type 0} (n : ℕ) (table : List (CronDef E)) → AreMembers n table → AreMembers (suc n) table
AreMembers-suc n [] h = tt
AreMembers-suc n (cd ∷ table) (first, h) =
    (AreBelow-suc n cd.members first, AreMembers-suc n table h)

AreMembers-append :
    {E : Type 0} (n : ℕ) (table : List (CronDef E)) (cd : CronDef E)
    → AreMembers n table
    → AreBelow n cd.members
    → AreMembers n (table ++ cd ∷ [])
AreMembers-append n [] cd h k = (k, tt)
AreMembers-append n (x ∷ table) cd (first, h) k = (first, AreMembers-append n table cd h k)

module _ {E : Type 0} (C : CronLibrary E) (n : ℕ) where
  update-AreMembers :
      (name : Option Bytes) (f : CronDef E → CronDef E) (table : List (CronDef E))
      → ((cd : CronDef E) → AreBelow n cd.members → AreBelow n (f cd).members)
      → AreMembers n table
      → AreMembers n (update C name f table)
  unfolding update
  update-AreMembers name f [] k h = tt
  update-AreMembers name f (cd ∷ table) k (first, h) =
      if_either (AreMembers n) (same_name cd.name name) _ _ (k cd first, h)
        (first, update-AreMembers name f table k h)

  -- `cron_meter_add` of a meter
  pub join-AreMembers :
      (name : Option Bytes) (i : ℕ) (table : List (CronDef E))
      → i < n
      → AreMembers n table
      → AreMembers n (update C name (join C i) table)
  join-AreMembers name i table k =
      update-AreMembers name (join C i) table (λ cd h. AreBelow-append n i cd.members h k)

  abbrev Given : Option (List (CronDef E)) → Type 0
  Given none = Unit {0}
  Given (some table) = AreMembers n table

  cron_add-Given :
      (name : Option Bytes) (text : Bytes) (table : List (CronDef E))
      → AreMembers n table
      → Given (cron_add C name text table)
  unfolding cron_add
  cron_add-Given none text table h =
      elim_either Given (cron_find C none table) _ _
        (elim_either Given (C.cron_parse_expr text) _ _ tt
          (λ expr. AreMembers-append n table _ h tt))
        (λ found.
          elim_either Given (C.cron_parse_expr text) _ _ tt
            (λ expr. update-AreMembers none _ table (λ cd k. k) h))
  cron_add-Given (some name) text table h =
      elim_either Given (cron_find C (some name) table) _ _
        (elim_either Given (C.cron_parse_expr text) _ _ tt
          (λ expr. AreMembers-append n table _ h tt))
        (λ found. tt)

  -- `cron_add` keeps the members.
  pub cron_add-AreMembers :
      (name : Option Bytes) (text : Bytes) (table table' : List (CronDef E))
      → AreMembers n table
      → cron_add C name text table ≡ some table'
      → AreMembers n table'
  cron_add-AreMembers name text table table' h e = subst Given e (cron_add-Given name text table h)
