-- ===== src/Initial/Configured.antt =====
-- From the configuration file to the first write: what `readMeterDefinitions` leaves of the meters is
-- what `queryMeters` starts from.
use mathlib.Core.Option
use mathlib.Core.Option.{some-injective, some-ne-none}
use emmbus2influx.Base.{
  ℕ, zero, suc, ◌+◌, ◌*◌, ◌≤◌, ◌&&◌, ◌||◌, ◌≡◌, sym, subst, Bool, true, Option, none, some, List,
  [], ◌∷◌, ◌++◌, length, get_elem?, if_either, elim_cases, Bytes, ℤ, pos, negsuc, is_zero, ltb,
  ltb_ℤ,
}
use emmbus2influx.Meter.Floats.{Floats}
use emmbus2influx.Meter.Query.{Bus, Formulas}
use emmbus2influx.Meter.{MeterType, Meter}
use emmbus2influx.Cron.{CronLibrary, CronDef, Site}
use emmbus2influx.Initial.{query_meters}
use emmbus2influx.Initial.Laws.{IsFresh, query_meters-Due}
use emmbus2influx.Config.Lexer.{Parser}
use emmbus2influx.Config.Expect.{parsed, Reads}
use emmbus2influx.Config.Expect.Laws.{Ends, Ends-bind, refuse-then-Ends}
use emmbus2influx.Config.MeterType.Sections.{IsMult}
use emmbus2influx.Config.Schedules.Members.{AreMembers}
use emmbus2influx.Config.Definitions.Lists.{AreTypes, AreMeters, no_meters, one_meter}
use emmbus2influx.Config.Definitions.Laws.{read_sections-Ends}
use emmbus2influx.Config.Definitions.{
  Definitions, connect_meter, connect_meters, has_no_meters, read_meter_definitions,
}

abbrev AreFresh : {D : Type 0} → List (Meter D) → Type 0
AreFresh [] = Unit {0}
AreFresh (m ∷ ms) = IsFresh m × AreFresh ms

AreFresh-append :
    {D : Type 0} (ms : List (Meter D)) (m : Meter D)
    → AreFresh ms
    → IsFresh m
    → AreFresh (ms ++ m ∷ [])
AreFresh-append [] m h k = (k, tt)
AreFresh-append (x ∷ ms) m (first, h) k = (first, AreFresh-append ms m h k)

AreMeters-AreFresh :
    {D : Type 0} (types : List MeterType) (ms : List (Meter D)) → AreMeters types ms → AreFresh ms
AreMeters-AreFresh types ms no_meters = tt
AreMeters-AreFresh types ms
      (one_meter ms' m ok (named, name, formulas, type, tcp, prefix, fresh, follows)) =
    AreFresh-append ms' m (AreMeters-AreFresh types ms' ok) fresh

AreFresh-get :
    {D : Type 0} (ms : List (Meter D)) (i : ℕ) (m : Meter D)
    → AreFresh ms
    → get_elem? ms i ≡ some m
    → IsFresh m
AreFresh-get [] i m h e = absurd (some-ne-none m (sym e))
AreFresh-get (x ∷ ms) zero m (first, h) e = subst IsFresh (some-injective x m e) first
AreFresh-get (x ∷ ms) (suc i) m (first, h) e = AreFresh-get ms i m h e

-- A meter, or meters, that are fresh if they are there.
abbrev OneFresh : {D : Type 0} → Option (Meter D) → Type 0
OneFresh none = Unit {0}
OneFresh (some m) = IsFresh m

abbrev AllFresh : {D : Type 0} → Option (List (Meter D)) → Type 0
AllFresh none = Unit {0}
AllFresh (some ms) = AreFresh ms

connect_meter-OneFresh :
    {D : Type 0} (serial_open : Bool) (m : Meter D)
    → IsFresh m
    → OneFresh (connect_meter serial_open m)
connect_meter-OneFresh serial_open m h = if_either OneFresh m.is_tcp _ _ h (
    if_either OneFresh ((ltb 0 m.mbus_address || ltb_ℤ (negsuc 0) m.mbus_id) && is_zero m.disabled)
      _ _ (if_either OneFresh serial_open _ _ h tt) h)

further-AllFresh :
    {D : Type 0} (m : Meter D) (o : Option (List (Meter D)))
    → IsFresh m
    → AllFresh o
    → AllFresh (Option.map (◌∷◌ m) o)
further-AllFresh m none h k = tt
further-AllFresh m (some ms) h k = (h, k)

connect_meters-AllFresh :
    {D : Type 0} (serial_open : Bool) (ms : List (Meter D))
    → AreFresh ms
    → AllFresh (connect_meters serial_open ms)
unfolding connect_meters
connect_meters-AllFresh serial_open [] h = tt
connect_meters-AllFresh serial_open (m ∷ ms) (first, h) =
    elim_cases AllFresh (connect_meter serial_open m) _ _ (λ e. tt)
      (λ m' e.
        further-AllFresh m' _ (subst OneFresh e (connect_meter-OneFresh serial_open m first))
          (connect_meters-AllFresh serial_open ms h))

module _ {D E : Type 0} (alloc : ℕ → Bool) (scan_float : Bytes → Option D) (C : CronLibrary E)
    (nought : D) (mqttprefix : Bytes) (influx_write_mult : ℤ) (mult : IsMult influx_write_mult)
    (serial_open : Bool) (schedules : List (CronDef E)) (unused : AreMembers 0 schedules) where
  read_meter_definitions-Ends :
      (fuel : ℕ) (bytes : Bytes)
      → 3 + 2 * length bytes ≤ fuel
      → Ends
          (λ (d : Definitions D E) pa. AreFresh d.meters)
          (read_meter_definitions alloc scan_float C nought fuel mqttprefix influx_write_mult
            serial_open schedules
            (some bytes))
  unfolding read_meter_definitions
  read_meter_definitions-Ends fuel bytes f =
      let Q = λ (d : Definitions D E) (pa : Parser D). AreFresh d.meters in
      let Put = λ (m : Reads D (Definitions D E)). (pa : Parser D) → Ends Q (m pa) in
      Ends-bind
        (λ (d : Definitions D E) pa.
          AreTypes d.types × AreMeters d.types d.meters × AreMembers (length d.meters) d.schedules)
        Q _ _
        (read_sections-Ends alloc scan_float C nought mqttprefix influx_write_mult mult fuel
          schedules bytes f unused)
        (λ d pa (types, meters, members). refuse-then-Ends Q (has_no_meters d) _ pa (λ used.
          elim_cases Put (connect_meters serial_open d.meters) _ _ (λ e pa. tt)
            (λ ms e pa. subst AllFresh e (
              connect_meters-AllFresh serial_open d.meters
                (AreMeters-AreFresh d.types d.meters meters)))
            pa))

  module _ {W Handle Frame : Type 0} (F : Floats D) (P : Formulas D) (B : Bus W Handle Frame D)
      (serial : Option Handle) where
    -- Let the global multiplier be 0 or at least 2, the schedules have no members at first, and the
    -- fuel be three more than twice the bytes of the configuration file or more. Where
    -- `readMeterDefinitions` comes back and `queryMeters` then runs to its end on the meters, every
    -- meter of the file that is in use has the countdown 0: its values are due to be written.
    pub query_meters-read_meter_definitions :
        (fuel : ℕ) (bytes : Bytes) (d : Definitions D E) (pa : Parser D) (s s' : Site W Handle D)
        (i : ℕ) (m : Meter D)
        → 3 + 2 * length bytes ≤ fuel
        → read_meter_definitions alloc scan_float C nought fuel mqttprefix influx_write_mult
            serial_open schedules
            (some bytes)
          ≡ parsed d pa
        → s.meters ≡ d.meters
        → query_meters F P B serial s ≡ some s'
        → get_elem? s.meters i ≡ some m
        → is_zero m.disabled ≡ true
        → (m' : Meter D) × (get_elem? s'.meters i ≡ some m') × (m'.influx_write_countdown ≡ pos 0)
    query_meters-read_meter_definitions fuel bytes d pa s s' i m f read same ran at on =
        let fresh =
          subst (Ends (λ (d : Definitions D E) pa. AreFresh d.meters)) read
            (read_meter_definitions-Ends fuel bytes f) in
        query_meters-Due F P B serial s s' i m ran at on
          (AreFresh-get s.meters i m (subst AreFresh (sym same) fresh) at)
