-- ===== src/Meter/Query/Counts.antt =====
-- The counters and the flag that `queryMeter` of mbusread.cpp leaves, over all its branches.
use emmbus2influx.Base.{
  ℕ, zero, suc, ◌+◌, ◌%◌, ◌^◌, ◌≤◌, ◌<◌, ◌≡◌, ◌≢◌, refl, ◌⊎◌, inl, inr, true, false, Option, none,
  some, List, [], ◌∷◌, if◌then◌else◌, Bytes, ℤ, pos, negsuc, is_zero, eqb_ℤ, arith, if_either,
  elim_either,
}
use emmbus2influx.Meter.Floats.{Floats}
use emmbus2influx.Meter.Connections.{mbus_tcp_open}
use emmbus2influx.Meter.{Meter}
use emmbus2influx.Meter.Query.{
  Bus, Formulas, FrameData, data_fixed, data_variable, data_unknown, Ended, back, exited, aborted,
  World, complete, process, process_records, parse_reply, request, start_query, query_serial,
  query_tcp, with_handle, dial, dialled, query_meter, execute_meter_type_formulas, eval_registers,
  reset_registers, fail, count_error,
}

-- What holds of a call that returns.
abbrev pub Returning : {S : Type 0} → (ℤ → S → Type 0) → Ended S → Type 0
Returning P (back r s) = P r s
Returning P exited = Unit
Returning P aborted = Unit

-- A query ended with the code `r`, with `q` queries counted, from `e` errors: one to three more
-- errors are counted and the meter is not marked as read, or the code is 0, at most two more
-- errors are counted and the meter is marked as read.
abbrev pub Answered : {D : Type 0} → ℕ → ℕ → ℤ → Meter D → Type 0
Answered q e r m =
    (m.num_queries ≡ q)
    × (((r ≢ pos 0)
          × (m.meter_has_been_read ≡ 0)
          × (k : ℕ) × (1 ≤ k)
          × (k ≤ 3)
          × (m.num_errs ≡ (e + k) % 2 ^ 32))
        ⊎ ((r ≡ pos 0)
            × (m.meter_has_been_read ≡ 1)
            × (k : ℕ) × (k ≤ 2)
            × (m.num_errs ≡ (e + k) % 2 ^ 32)))

-- On the way: `k` errors have been counted.
abbrev Underway : {D : Type 0} → ℕ → ℕ → ℕ → Meter D → Type 0
Underway q e k m =
    (m.num_queries ≡ q) × (m.meter_has_been_read ≡ 0) × (m.num_errs ≡ (e + k) % 2 ^ 32)

one_more : (a e k : ℕ) → a ≡ (e + k) % 2 ^ 32 → (a + 1) % 2 ^ 32 ≡ (e + suc k) % 2 ^ 32
one_more a e k h = omega arith

negative : (n : ℕ) → negsuc n ≢ pos 0
negative n = λ e. ground arith

module _ {W Handle Frame D : Type 0} (F : Floats D) (P : Formulas D) (B : Bus W Handle Frame D)
    (serial : Option Handle) where
  abbrev Ends : ℕ → ℕ → Ended (World W Handle D) → Type 0
  Ends q e = Returning (λ r s. Answered q e r s.meter)

  fail_lem :
      (q e k n : ℕ) (s : World W Handle D)
      → k ≤ 2
      → Underway q e k s.meter
      → Ends q e (fail F P B serial (negsuc n) s)
  fail_lem q e k n s h (hq, hr, he) =
      (hq, inl (negative n, hr, suc k, omega arith, omega arith, one_more s.meter.num_errs e k he))

  complete_lem :
      (q e k : ℕ) (s : World W Handle D)
      → k ≤ 2
      → Underway q e k s.meter
      → Ends q e (complete F P B serial s)
  unfolding complete execute_meter_type_formulas
  complete_lem q e k s h (hq, hr, he) =
      let done : Meter D = record s.meter {
        register_read = eval_registers F P B serial 0 s.meter.register_read s.meter.register_read;
      } in
      if_either
        (λ (m : Option (Meter D)). Ends q e (elim m [
          | none ↦ exited
          | some m' ↦ back (pos 0) (record s { meter = record m' { meter_has_been_read = 1 } })
        ]))
        _ none (some done) tt (hq, inr (refl, refl, k, h, he))

  records_lem :
      (q e k i : ℕ) (vs : List Bytes) (m : Meter D)
      → Underway q e k m
      → Underway q e k (process_records F P B serial i vs m)
  unfolding process_records
  records_lem q e k i [] m u = u
  records_lem q e k i (v ∷ vs) m u = records_lem q e k (suc i) vs _ u

  process_lem :
      (q e k : ℕ) (d : FrameData D) (s : World W Handle D)
      → k ≤ 2
      → Underway q e k s.meter
      → Ends q e (process F P B serial d s)
  unfolding process
  process_lem q e k (data_fixed v0 v1) s h u = tt
  process_lem q e k (data_variable rs) s h u =
      complete_lem q e k (record s { meter = process_records F P B serial 0 rs s.meter }) h
        (records_lem q e k 0 rs s.meter u)
  process_lem q e k data_unknown s h u = fail_lem q e k 0 s h u

  parse_lem :
      (q e k : ℕ) (reply : Frame) (s : World W Handle D)
      → k ≤ 2
      → Underway q e k s.meter
      → Ends q e (parse_reply F P B serial reply s)
  unfolding parse_reply
  parse_lem q e k reply s h u =
      let parsed = B.frame_data_parse reply in
      let failed = fail F P B serial (negsuc 0) s in
      let processed = process F P B serial parsed.1 s in
      if_either (Ends q e) (eqb_ℤ parsed.0 (negsuc 0)) failed
        (if B.is_error_frame reply then failed else processed) (fail_lem q e k 0 s h u)
        (if_either (Ends q e) (B.is_error_frame reply) failed processed (fail_lem q e k 0 s h u)
          (process_lem q e k parsed.1 s h u))

  request_lem :
      (q e n k : ℕ) (mb : Handle) (reply : Frame) (s : World W Handle D)
      → n + k ≤ 2
      → Underway q e k s.meter
      → Ends q e (request F P B serial n mb reply s)
  unfolding request
  request_lem q e zero k mb reply s h u = parse_lem q e k reply s (omega arith) u
  request_lem q e (suc n) k mb reply s h (hq, hr, he) =
      let sent = B.send_request_frame mb s.meter.mbus_address s.bus in
      let got = B.recv_frame mb reply sent.1 in
      let after = record s { bus = got.2 } in
      let unsent = record s { bus = sent.1 } in
      let parsed = parse_reply F P B serial got.1 after in
      let again = request F P B serial n mb got.1 (count_error F P B serial after) in
      if_either (Ends q e) (eqb_ℤ sent.0 (negsuc 0)) (fail F P B serial (negsuc 0) unsent)
        (if is_zero got.0 then parsed else again)
        (fail_lem q e k 0 unsent (omega arith) (hq, hr, he))
        (if_either (Ends q e) (is_zero got.0) parsed again
          (parse_lem q e k got.1 after (omega arith) (hq, hr, he))
          (request_lem q e n (suc k) mb got.1 (count_error F P B serial after) (omega arith)
            (hq, hr, one_more s.meter.num_errs e k he)))

  start_lem :
      (q e : ℕ) (mb : Handle) (s : World W Handle D)
      → Underway q e 0 s.meter
      → Ends q e (start_query F P B serial mb s)
  unfolding start_query
  start_lem q e mb s (hq, hr, he) =
      request_lem q e 2 0 mb B.garbage (record s { meter = reset_registers F P B serial s.meter })
        (omega arith) (hq, refl, he)

  serial_lem :
      (q e : ℕ) (s : World W Handle D)
      → Underway q e 0 s.meter
      → Ends q e (query_serial F P B serial s)
  unfolding query_serial
  serial_lem q e s u =
      if_either (Ends q e) s.meter.mb _ aborted
        (elim_either (Ends q e) serial aborted (λ mb. start_query F P B serial mb s) tt
          (λ mb. start_lem q e mb s u))
        tt

  tcp_lem :
      (q e : ℕ) (s : World W Handle D)
      → Underway q e 0 s.meter
      → Ends q e (query_tcp F P B serial s)
  unfolding query_tcp
  tcp_lem q e s (hq, hr, he) =
      elim_either (Ends q e) s.meter.hostname aborted (dial F P B serial s) tt (λ host.
        elim_either (Ends q e) (mbus_tcp_open B.mbus host s.meter.port s.connections s.bus) exited
          (dialled F P B serial s) tt
          (λ (connections, opened, bus).
            elim_either (Ends q e) opened _
              (λ mb. start_query F P B serial mb (with_handle F P B serial s true connections bus))
              (fail_lem q e 0 554 (with_handle F P B serial s false connections bus) (omega arith)
                (hq, hr, he))
              (λ mb.
                start_lem q e mb (with_handle F P B serial s true connections bus) (hq, hr, he))))

  -- Let a meter be enabled, not of formulas only, not marked as read and with its error counter a
  -- 32-bit number. If `queryMeter` returns, then the query is counted, and either the code is 0,
  -- the meter is marked as read and at most two errors are counted, or the code is not 0, the
  -- meter is not marked as read and one to three errors are counted; the counters wrap at 2 ^ 32.
  pub query_meter-Answered :
      (s : World W Handle D)
      → is_zero s.meter.disabled ≡ true
      → s.meter.is_formula_only ≡ false
      → s.meter.meter_has_been_read ≡ 0
      → s.meter.num_errs < 2 ^ 32
      → Ends ((s.meter.num_queries + 1) % 2 ^ 32) s.meter.num_errs (query_meter F P B serial s)
  unfolding query_meter
  query_meter-Answered s enabled real unread small =
      let start : s.meter.num_errs ≡ (s.meter.num_errs + 0) % 2 ^ 32 = omega arith in
      let counted = record s {
        meter = record s.meter { num_queries = (s.meter.num_queries + 1) % 2 ^ 32 };
      } in
      rw (enabled, real)
        (if_either (Ends counted.meter.num_queries s.meter.num_errs) s.meter.is_tcp
          (query_tcp F P B serial counted) (query_serial F P B serial counted)
          (tcp_lem _ _ counted (refl, unread, start))
          (serial_lem _ _ counted (refl, unread, start)))
