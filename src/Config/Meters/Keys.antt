-- ===== src/Config/Meters/Keys.antt =====
-- The keys of a section for a meter keep the meter well-formed.
use mathlib.Core.Option.{some-injective}
use emmbus2influx.Base.{
  ℕ, suc, ◌<◌, ◌==◌, not, ◌≡◌, refl, subst, Bool, true, false, Option, none, some, List, [], ◌∷◌,
  length, ltb, if_either, elim_either, elim_cases, Bytes, same_text, ℤ, pos, eqb_ℤ, arith,
}
use emmbus2influx.Cron.{CronLibrary, cron_find}
use emmbus2influx.Meter.{MeterType, Meter}
use emmbus2influx.Config.Keys.{
  tk_mqtt, tk_influx, tk_grafana, tk_mqttprefix, tk_name, tk_type, tk_address, tk_hostname,
  tk_measurement, tk_port, tk_id, tk_disable, tk_mqttqos, tk_mqttretain, tk_influxwritemult,
  tk_schedule, tk_iname, tk_gname,
}
use emmbus2influx.Config.Expect.{Reads, all_allowed}
use emmbus2influx.Config.Expect.Laws.{
  Keeps, Any, Keeps-bind, done-Keeps, stop-Keeps, refuse-then, expect_str-Keeps, number-Keeps,
  text-Keeps,
}
use emmbus2influx.Config.MeterType.{is_given, find_meter_type}
use emmbus2influx.Config.MeterType.Sections.{IsMult, allowed, expect_mult-Keeps}
use emmbus2influx.Config.Meters.{
  MeterSection, find_meter, set_type, with_meter, conflict, to_uint64,
}
use emmbus2influx.Config.Meters.Parse.{
  add_schedule, parse_type, parse_name, parse_iname, parse_gname, parse_hostname, number_key,
  meter_key,
}
use emmbus2influx.Config.Schedules.Members.{AreMembers, join-AreMembers}
use emmbus2influx.Config.Meters.Formulas.{AreFormulas}

-- A name that formulas can use and that no earlier meter in use has.
abbrev pub IsName : {D : Type 0} → List (Meter D) → Option Bytes → Type 0
IsName meters none = Unit {0}
IsName meters (some name) = (all_allowed name ≡ true) × (is_given (find_meter name meters) ≡ false)

-- A type that is found by a name.
abbrev pub IsKnown : List MeterType → Option MeterType → Type 0
IsKnown types none = Unit {0}
IsKnown types (some t) = (name : Bytes) × (find_meter_type name types ≡ some t)

-- The multipliers of the types.
abbrev pub AreMults : List MeterType → Type 0
AreMults [] = Unit {0}
AreMults (t ∷ ts) = IsMult t.influx_write_mult × AreMults ts

find_meter_type-IsMult :
    (name : Bytes) (types : List MeterType) (t : MeterType)
    → AreMults types
    → find_meter_type name types ≡ some t
    → IsMult t.influx_write_mult
unfolding find_meter_type
find_meter_type-IsMult name [] t ok = λ h. cc
find_meter_type-IsMult name (x ∷ types) t (first, ok) =
    let here : Bool = elim x.name [ none ↦ false | some n ↦ same_text n name ] in
    if_either (λ (o : Option MeterType). o ≡ some t → IsMult t.influx_write_mult) here _ _
      (λ e. subst (λ (t : MeterType). IsMult t.influx_write_mult) (some-injective x t e) first)
      (find_meter_type-IsMult name types t ok)

-- A meter, as the entries leave it.
abbrev pub IsMeter : {D : Type 0} → List MeterType → List (Meter D) → Meter D → Type 0
IsMeter types meters m =
    IsName meters m.name
    × IsMult m.influx_write_mult
    × AreFormulas m.meter_formula
    × IsKnown types m.meter_type
    × (m.influx_write_countdown ≡ pos 0)
    × (m.is_tcp ≡ is_given m.hostname)

module _ {D E : Type 0} (alloc : ℕ → Bool) (scan_float : Bytes → Option D) (C : CronLibrary E)
    (nought : D) (types : List MeterType) (mults : AreMults types) (meters : List (Meter D)) where
  abbrev pub IsGood : MeterSection D E → Type 0
  IsGood s = IsMeter types meters s.meter × AreMembers (suc (length meters)) s.schedules

  add_schedule-Keeps :
      (place : ℕ) (name : Bytes) (s : MeterSection D E)
      → place < suc (length meters)
      → IsGood s
      → Keeps IsGood (add_schedule alloc scan_float C nought place name s)
  unfolding add_schedule
  add_schedule-Keeps place name s k (ok, members) =
      elim_either (Keeps {D = D} IsGood) (cron_find C (some name) s.schedules) _ _
        (stop-Keeps IsGood)
        (λ cd.
          done-Keeps IsGood _
            (ok, join-AreMembers C (suc (length meters)) (some name) place s.schedules k members))

  parse_type-Keeps :
      (s : MeterSection D E)
      → IsGood s
      → Keeps IsGood (parse_type alloc scan_float C nought types s)
  unfolding parse_type set_type
  parse_type-Keeps s ((name, mult, formulas, type, countdown, tcp), members) =
      refuse-then IsGood (not (s.type_conflict == 0)) _ (λ e.
        refuse-then IsGood (is_given s.meter.meter_type) _ (λ e.
          Keeps-bind Any IsGood _ _ (expect_str-Keeps alloc scan_float) (λ text v.
            elim_cases (Keeps {D = D} IsGood) (find_meter_type text types) _ _
              (λ e. stop-Keeps IsGood)
              (λ t found. done-Keeps IsGood _ (
                (
                  name,
                  find_meter_type-IsMult text types t mults found,
                  formulas,
                  (text, found),
                  countdown,
                  tcp,
                ),
                members,
              )))))

  parse_name-Keeps :
      (s : MeterSection D E)
      → IsGood s
      → Keeps IsGood (parse_name alloc scan_float C nought meters s)
  unfolding parse_name
  parse_name-Keeps s ((name, mult, formulas, type, countdown, tcp), members) =
      refuse-then IsGood (is_given s.meter.name) _ (λ e.
        Keeps-bind Any IsGood _ _ (expect_str-Keeps alloc scan_float) (λ text v.
          refuse-then IsGood (is_given (find_meter text meters)) _ (λ free.
            refuse-then IsGood (not (all_allowed text)) _ (λ good. done-Keeps IsGood _ (
              ((allowed alloc scan_float text good, free), mult, formulas, type, countdown, tcp),
              members,
            )))))

  parse_iname-Keeps :
      (s : MeterSection D E) → IsGood s → Keeps IsGood (parse_iname alloc scan_float C nought s)
  unfolding parse_iname
  parse_iname-Keeps s ok = refuse-then IsGood (is_given s.meter.iname) _ (λ e.
      Keeps-bind Any IsGood _ _ (expect_str-Keeps alloc scan_float)
        (λ text v. refuse-then IsGood (not (all_allowed text)) _ (λ good. done-Keeps IsGood _ ok)))

  parse_gname-Keeps :
      (s : MeterSection D E) → IsGood s → Keeps IsGood (parse_gname alloc scan_float C nought s)
  unfolding parse_gname
  parse_gname-Keeps s ok =
      Keeps-bind Any IsGood _ _ (expect_str-Keeps alloc scan_float)
        (λ text v. refuse-then IsGood (ltb (length text) 1) _ (λ e. done-Keeps IsGood _ ok))

  parse_hostname-Keeps :
      (s : MeterSection D E) → IsGood s → Keeps IsGood (parse_hostname alloc scan_float C nought s)
  unfolding parse_hostname
  parse_hostname-Keeps s ((name, mult, formulas, type, countdown, tcp), members) =
      refuse-then IsGood (is_given s.meter.hostname) _ (λ e.
        text-Keeps alloc scan_float IsGood
          (λ text. with_meter s (record s.meter { hostname = some text; is_tcp = true }))
          (λ text. ((name, mult, formulas, type, countdown, refl), members)))

  number_key-Keeps :
      (tk : ℤ) (s : MeterSection D E)
      → IsGood s
      → Keeps IsGood (number_key alloc scan_float C nought tk s)
  unfolding number_key
  number_key-Keeps tk s ((name, mult, formulas, type, countdown, tcp), members) =
      let P : Reads D (MeterSection D E) → Type 0 = Keeps IsGood in
      let ok : IsGood s = ((name, mult, formulas, type, countdown, tcp), members) in
      let m = s.meter in
      if_either P (eqb_ℤ tk tk_influx) _ _
        (number-Keeps alloc scan_float IsGood (λ n. record s { enable_influx_write = n }) (λ n. ok))
        (if_either P (eqb_ℤ tk tk_mqtt) _ _
          (number-Keeps alloc scan_float IsGood (λ n. record s { enable_mqtt_write = n }) (λ n. ok))
          (if_either P (eqb_ℤ tk tk_grafana) _ _
            (number-Keeps alloc scan_float IsGood (λ n. record s { enable_grafana_write = n })
              (λ n. ok))
            (if_either P (eqb_ℤ tk tk_id) _ _
              (number-Keeps alloc scan_float IsGood (λ n. with_meter s (record m { mbus_id = n }))
                (λ n. ok))
              (if_either P (eqb_ℤ tk tk_influxwritemult) _ _
                (Keeps-bind IsMult IsGood _ _ (expect_mult-Keeps alloc scan_float) (λ n ok'.
                  done-Keeps IsGood (conflict s (record m { influx_write_mult = n }))
                    ((name, ok', formulas, type, countdown, tcp), members)))
                (if_either P (eqb_ℤ tk tk_mqttqos) _ _
                  (number-Keeps alloc scan_float IsGood
                    (λ n. conflict s (record m { mqtt_qos = n })) (λ n. ok))
                  (if_either P (eqb_ℤ tk tk_mqttretain) _ _
                    (number-Keeps alloc scan_float IsGood
                      (λ n. conflict s (record m { mqtt_retain = n })) (λ n. ok))
                    (if_either P (eqb_ℤ tk tk_disable) _ _
                      (number-Keeps alloc scan_float IsGood
                        (λ n. with_meter s (record m { disabled = n })) (λ n. ok))
                      (if_either P (eqb_ℤ tk tk_address) _ _
                        (number-Keeps alloc scan_float IsGood
                          (λ n. with_meter s (record m { mbus_address = to_uint64 n })) (λ n. ok))
                        (stop-Keeps IsGood)))))))))

  pub meter_key-Keeps :
      (tk : ℤ) (s : MeterSection D E)
      → IsGood s
      → Keeps IsGood (meter_key alloc scan_float C nought types meters tk s)
  unfolding meter_key
  meter_key-Keeps tk s ok =
      let P : Reads D (MeterSection D E) → Type 0 = Keeps IsGood in
      let m = s.meter in
      if_either P (eqb_ℤ tk tk_schedule) _ _
        (Keeps-bind Any IsGood _ _ (expect_str-Keeps alloc scan_float)
          (λ text v. add_schedule-Keeps (length meters) text s (omega arith) ok))
        (if_either P (eqb_ℤ tk tk_port) _ _
          (text-Keeps alloc scan_float IsGood (λ text. with_meter s (record m { port = some text }))
            (λ text. ok))
          (if_either P (eqb_ℤ tk tk_mqttprefix) _ _
            (text-Keeps alloc scan_float IsGood
              (λ text. conflict s (record m { mqttprefix = some text })) (λ text. ok))
            (if_either P (eqb_ℤ tk tk_measurement) _ _
              (text-Keeps alloc scan_float IsGood
                (λ text. conflict s (record m { influx_measurement = some text })) (λ text. ok))
              (if_either P (eqb_ℤ tk tk_type) _ _ (parse_type-Keeps s ok) (
                if_either P (eqb_ℤ tk tk_name) _ _ (parse_name-Keeps s ok) (
                  if_either P (eqb_ℤ tk tk_iname) _ _ (parse_iname-Keeps s ok) (
                    if_either P (eqb_ℤ tk tk_gname) _ _ (parse_gname-Keeps s ok) (
                      if_either P (eqb_ℤ tk tk_hostname) _ _ (parse_hostname-Keeps s ok)
                        (number_key-Keeps tk s ok)))))))))
