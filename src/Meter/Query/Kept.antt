-- ===== src/Meter/Query/Kept.antt =====
-- What `queryMeter` of mbusread.cpp leaves alone, over all its branches.
use emmbus2influx.Base.{
  ℕ, zero, suc, ◌+◌, ◌%◌, ◌^◌, ◌≡◌, true, Option, none, some, List, [], ◌∷◌, Bytes, pos, negsuc,
  is_zero, eqb_ℤ, not, if_either, elim_either,
}
use emmbus2influx.Meter.Floats.{Floats}
use emmbus2influx.Meter.Connections.{mbus_tcp_open}
use emmbus2influx.Meter.{Meter}
use emmbus2influx.Meter.Query.{
  Bus, Formulas, FrameData, data_fixed, data_variable, data_unknown, Ended, back, exited, aborted,
  World, complete, process, process_records, parse_reply, request, start_query, query_serial,
  query_tcp, with_handle, dial, dialled, query_meter, execute_meter_type_formulas, eval_registers,
  reset_registers, count_error,
}
use emmbus2influx.Meter.Query.Counts.{Returning}

-- The settings of a meter, its countdown and its schedule are those of another.
abbrev pub IsKept : {D : Type 0} → Meter D → Meter D → Type 0
IsKept before after =
    (after.disabled ≡ before.disabled)
    × (after.is_formula_only ≡ before.is_formula_only)
    × (after.influx_write_mult ≡ before.influx_write_mult)
    × (after.influx_write_countdown ≡ before.influx_write_countdown)
    × (after.is_due ≡ before.is_due)
    × (after.meter_formula ≡ before.meter_formula)

module _ {W Handle Frame D : Type 0} (F : Floats D) (P : Formulas D) (B : Bus W Handle Frame D)
    (serial : Option Handle) (m0 : Meter D) where
  abbrev Keeps : Ended (World W Handle D) → Type 0
  Keeps = Returning (λ r s. IsKept m0 s.meter)

  complete-Keeps : (s : World W Handle D) → IsKept m0 s.meter → Keeps (complete F P B serial s)
  unfolding complete execute_meter_type_formulas
  complete-Keeps s h =
      let done : Meter D = record s.meter {
        register_read = eval_registers F P B serial 0 s.meter.register_read s.meter.register_read;
      } in
      if_either
        (λ (m : Option (Meter D)). Keeps (elim m [
          | none ↦ exited
          | some m' ↦ back (pos 0) (record s { meter = record m' { meter_has_been_read = 1 } })
        ]))
        _ none (some done) tt h

  records_keep :
      (i : ℕ) (vs : List Bytes) (m : Meter D)
      → IsKept m0 m
      → IsKept m0 (process_records F P B serial i vs m)
  unfolding process_records
  records_keep i [] m h = h
  records_keep i (v ∷ vs) m h = records_keep (suc i) vs _ h

  process-Keeps :
      (d : FrameData D) (s : World W Handle D)
      → IsKept m0 s.meter
      → Keeps (process F P B serial d s)
  unfolding process
  process-Keeps (data_fixed v0 v1) s h = tt
  process-Keeps (data_variable rs) s h =
      complete-Keeps (record s { meter = process_records F P B serial 0 rs s.meter })
        (records_keep 0 rs s.meter h)
  process-Keeps data_unknown s h = h

  parse-Keeps :
      (reply : Frame) (s : World W Handle D)
      → IsKept m0 s.meter
      → Keeps (parse_reply F P B serial reply s)
  unfolding parse_reply
  parse-Keeps reply s h =
      let parsed = B.frame_data_parse reply in
      if_either Keeps (eqb_ℤ parsed.0 (negsuc 0)) _ _ h
        (if_either Keeps (B.is_error_frame reply) _ _ h (process-Keeps parsed.1 s h))

  request-Keeps :
      (n : ℕ) (mb : Handle) (reply : Frame) (s : World W Handle D)
      → IsKept m0 s.meter
      → Keeps (request F P B serial n mb reply s)
  unfolding request
  request-Keeps zero mb reply s h = parse-Keeps reply s h
  request-Keeps (suc n) mb reply s h =
      let sent = B.send_request_frame mb s.meter.mbus_address s.bus in
      let got = B.recv_frame mb reply sent.1 in
      let after = record s { bus = got.2 } in
      if_either Keeps (eqb_ℤ sent.0 (negsuc 0)) _ _ h (
        if_either Keeps (is_zero got.0) _ _ (parse-Keeps got.1 after h)
          (request-Keeps n mb got.1 (count_error F P B serial after) h))

  start-Keeps :
      (mb : Handle) (s : World W Handle D)
      → IsKept m0 s.meter
      → Keeps (start_query F P B serial mb s)
  unfolding start_query
  start-Keeps mb s h =
      request-Keeps 2 mb B.garbage (record s { meter = reset_registers F P B serial s.meter }) h

  serial-Keeps : (s : World W Handle D) → IsKept m0 s.meter → Keeps (query_serial F P B serial s)
  unfolding query_serial
  serial-Keeps s h =
      if_either Keeps s.meter.mb _ _
        (elim_either Keeps serial aborted (λ mb. start_query F P B serial mb s) tt
          (λ mb. start-Keeps mb s h))
        tt

  tcp-Keeps : (s : World W Handle D) → IsKept m0 s.meter → Keeps (query_tcp F P B serial s)
  unfolding query_tcp
  tcp-Keeps s h = elim_either Keeps s.meter.hostname aborted (dial F P B serial s) tt (λ host.
      elim_either Keeps (mbus_tcp_open B.mbus host s.meter.port s.connections s.bus) exited
        (dialled F P B serial s) tt
        (λ (connections, opened, bus).
          elim_either Keeps opened _
            (λ mb. start_query F P B serial mb (with_handle F P B serial s true connections bus)) h
            (λ mb. start-Keeps mb (with_handle F P B serial s true connections bus) h)))

  pub query_meter-Keeps :
      (s : World W Handle D) → IsKept m0 s.meter → Keeps (query_meter F P B serial s)
  unfolding query_meter
  query_meter-Keeps s h =
      let counted = record s {
        meter = record s.meter { num_queries = (s.meter.num_queries + 1) % 2 ^ 32 };
      } in
      if_either Keeps (not (is_zero s.meter.disabled)) _ _ h (
        if_either Keeps s.meter.is_formula_only _ _ h
          (if_either Keeps s.meter.is_tcp _ _ (tcp-Keeps counted h) (serial-Keeps counted h)))
