-- ===== src/Meter/Query.antt =====
-- One query of a meter: `executeMeterTypeFormulas`, `process_mbus_data_fixed`,
-- `process_mbus_data_variable`, `queryMeter` and `queryMeters` of mbusread.cpp. The functions of
-- libmbus are the fields of `Bus`, with those that open a connection in `Mbus`; muParser is
-- `Formulas`. Messages and the time that a query takes are left out.
pub mod Counts
pub mod Kept
use mathlib.Core.List.{foldl}
use emmbus2influx.Base.{
  ℕ, zero, suc, ◌+◌, ◌-◌, ◌%◌, ◌^◌, ◌==◌, ◌&&◌, not, Bool, true, false, Option, none, some, List,
  [], ◌∷◌, ◌++◌, map, if◌then◌else◌, Bytes, ℤ, pos, negsuc, is_zero, eqb_ℤ,
}
use emmbus2influx.Meter.Places.{modify_at}
use emmbus2influx.Meter.Floats.{Floats}
use emmbus2influx.Meter.Values.{
  apply_divider, set_register_value, set_fvalue_influx_last, set_fvalue_influx,
  execute_influx_write_calc,
}
use emmbus2influx.Meter.Connections.{Mbus, Connection, mbus_tcp_open}
use emmbus2influx.Meter.{MeterRegister, MeterRegisterRead, MeterFormula, Meter}

-- what `mbus_frame_data_parse` finds in a frame: the fixed structure, as its two values, the list of
-- the values of the records, or another type
pub data FrameData (D : Type 0) : Type 0 where
  data_fixed : D → D → FrameData D
  data_variable : List Bytes → FrameData D
  data_unknown : FrameData D

-- what `queryMeter` calls of libmbus
pub record Bus (W Handle Frame D : Type 0) : Type 0 where
  pub mbus : Mbus W Handle
  pub open mbus use *
  pub send_request_frame : Handle → ℕ → W → ℤ × W
  -- the frame is what it was where nothing is received
  pub recv_frame : Handle → Frame → W → ℤ × Frame × W
  pub frame_data_parse : Frame → ℤ × FrameData D
  -- `reply.type == MBUS_DATA_TYPE_ERROR`
  pub is_error_frame : Frame → Bool
  -- what an uninitialised `mbus_frame` holds
  pub garbage : Frame

-- what the program calls of muParser: whether the variables can be defined; the value of a formula,
-- `none` where it throws; and the values of the variables, in their order, behind the evaluation:
-- the operator `=` writes through the pointers that were given to `DefineVar`
pub record Formulas (D : Type 0) : Type 0 where
  pub can_define : List Bytes → Bool
  pub eval : List (Bytes × D) → Bytes → Option D
  pub assigned : List (Bytes × D) → Bytes → List D

-- the values of the variables, put into the registers they point to; and the values that are left
unfoldable pub store_values :
    {D : Type 0} → List D → List (MeterRegisterRead D) → List D × List (MeterRegisterRead D)
store_values vs [] = (vs, [])
store_values [] (rr ∷ rest) = ([], rr ∷ rest)
store_values (v ∷ vs) (rr ∷ rest) =
    let (left, stored) = store_values vs rest in (left, record rr { fvalue = v } ∷ stored)

-- A call returns a code and a state, or it ends the program: by `exit` or by a failed assertion.
pub data Ended (S : Type 0) : Type 0 where
  back : ℤ → S → Ended S
  exited : Ended S
  aborted : Ended S

-- The meter that is queried, the connections and the state of the buses.
pub record World (W Handle D : Type 0) : Type 0 where
  pub meter : Meter D
  pub connections : List (Connection Handle)
  pub bus : W

abbrev pub query_retries : ℕ
query_retries = 2

module _ {W Handle Frame D : Type 0} (F : Floats D) (P : Formulas D) (B : Bus W Handle Frame D)
    (serial : Option Handle) where
  abbrev variables : List (MeterRegisterRead D) → List (Bytes × D)
  variables = map (λ rr. (rr.register_def.name, rr.fvalue))

  -- the value of the register at a place, from its formula; `none` is an exception that is caught
  abbrev pub take_result : ℕ → Option D → List (MeterRegisterRead D) → List (MeterRegisterRead D)
  take_result i none registers = registers
  take_result i (some v) registers =
      modify_at i (λ rr. apply_divider F (record rr { fvalue = v })) registers

  -- the formula of the register at a place
  abbrev pub eval_register :
      ℕ → Option Bytes → List (MeterRegisterRead D) → List (MeterRegisterRead D)
  eval_register i none registers = registers
  eval_register i (some text) registers =
      let vars = variables registers in
      take_result i (P.eval vars text) (store_values (P.assigned vars text) registers).1

  -- the loop of `executeMeterTypeFormulas`, from a place on
  unfoldable pub eval_registers :
      ℕ → List (MeterRegisterRead D) → List (MeterRegisterRead D) → List (MeterRegisterRead D)
  unfolding store_values
  eval_registers i [] registers = registers
  eval_registers i (rr ∷ rest) registers =
      eval_registers (suc i) rest (eval_register i rr.register_def.formula registers)

  abbrev has_formula : List (MeterRegisterRead D) → Bool
  has_formula [] = false
  has_formula (rr ∷ rest) = elim rr.register_def.formula [ none ↦ has_formula rest | some t ↦ true ]

  -- `executeMeterTypeFormulas`; `none` is the `exit(1)` of `initLocalParser`
  unfoldable pub execute_meter_type_formulas : Meter D → Option (Meter D)
  unfolding eval_registers
  execute_meter_type_formulas m =
      let names = map (λ rr. rr.register_def.name) m.register_read in
      if has_formula m.register_read && not (P.can_define names)
      then none
      else some (record m { register_read = eval_registers 0 m.register_read m.register_read })

  abbrev set_value : ℤ → Option Bytes → D → Meter D → Meter D
  set_value i value fvalue m = record m {
    register_read = set_register_value F i value fvalue m.register_read;
  }

  -- the loop of `process_mbus_data_variable`
  unfoldable pub process_records : ℕ → List Bytes → Meter D → Meter D
  unfolding set_register_value
  process_records i [] m = m
  process_records i (value ∷ rest) m =
      process_records (suc i) rest (set_value (pos i) (some value) F.zero_value m)

  -- `numErrs++`
  abbrev pub count_error : World W Handle D → World W Handle D
  count_error s = record s { meter = record s.meter { num_errs = (s.meter.num_errs + 1) % 2 ^ 32 } }

  abbrev pub fail : ℤ → World W Handle D → Ended (World W Handle D)
  fail code s = back code (count_error s)

  -- `queryMeter` from `executeMeterTypeFormulas` on
  unfoldable pub complete : World W Handle D → Ended (World W Handle D)
  unfolding execute_meter_type_formulas
  complete s = elim (execute_meter_type_formulas s.meter) [
    | none ↦ exited
    | some m ↦ back (pos 0) (record s { meter = record m { meter_has_been_read = 1 } })
  ]

  -- `queryMeter` from the tests of `reply_data.type` on; the fixed data is processed by a function
  -- that ends with `exit(1)`
  unfoldable pub process : FrameData D → World W Handle D → Ended (World W Handle D)
  unfolding complete process_records
  process (data_fixed v0 v1) s = exited
  process (data_variable records) s =
      complete (record s { meter = process_records 0 records s.meter })
  process data_unknown s = fail (negsuc 0) s

  -- `queryMeter` from `mbus_frame_data_parse` on, which is also reached where nothing was received
  unfoldable pub parse_reply : Frame → World W Handle D → Ended (World W Handle D)
  unfolding process
  parse_reply reply s =
      let parsed = B.frame_data_parse reply in
      if eqb_ℤ parsed.0 (negsuc 0)
      then fail (negsuc 0) s
      else if B.is_error_frame reply
      then fail (negsuc 0) s
      else process parsed.1 s

  -- the loop that sends the request and receives the reply, for the tries that are left
  unfoldable pub request : ℕ → Handle → Frame → World W Handle D → Ended (World W Handle D)
  unfolding parse_reply
  request zero mb reply s = parse_reply reply s
  request (suc n) mb reply s =
      let sent = B.send_request_frame mb s.meter.mbus_address s.bus in
      let got = B.recv_frame mb reply sent.1 in
      let after = record s { bus = got.2 } in
      let again = request n mb got.1 (count_error after) in
      if eqb_ℤ sent.0 (negsuc 0)
      then fail (negsuc 0) (record s { bus = sent.1 })
      else if is_zero got.0
      then parse_reply got.1 after
      else again

  -- the loop that resets the read flags
  abbrev pub reset_registers : Meter D → Meter D
  reset_registers m =
      let reset : MeterRegisterRead D → MeterRegisterRead D =
        λ rr. record rr { has_been_read = false; fvalue = F.zero_value } in
      record m { meter_has_been_read = 0; register_read = map reset m.register_read }

  unfoldable pub start_query : Handle → World W Handle D → Ended (World W Handle D)
  unfolding request
  start_query mb s =
      request query_retries mb B.garbage (record s { meter = reset_registers s.meter })

  -- the two assertions
  unfoldable pub query_serial : World W Handle D → Ended (World W Handle D)
  unfolding start_query
  query_serial s =
      if s.meter.mb then elim serial [ none ↦ aborted | some mb ↦ start_query mb s ] else aborted

  abbrev pub with_handle : World W Handle D → Bool → List (Connection Handle) → W → World W Handle D
  with_handle s mb connections bus = record s {
    meter = record s.meter { mb = mb };
    connections = connections;
    bus = bus;
  }

  -- what `queryMeter` does with what `mbusTCP_open` returns
  abbrev pub dialled :
      World W Handle D → List (Connection Handle) × Option Handle × W → Ended (World W Handle D)
  dialled s (connections, opened, bus) = elim opened [
    | none ↦ fail (negsuc 554) (with_handle s false connections bus)
    | some mb ↦ start_query mb (with_handle s true connections bus)
  ]

  abbrev pub dial : World W Handle D → Bytes → Ended (World W Handle D)
  dial s host = elim (mbus_tcp_open B.mbus host s.meter.port s.connections s.bus) [
    | none ↦ exited
    | some r ↦ dialled s r
  ]

  -- the branch of a meter behind a gateway; `hostname` is set wherever `isTCP` is
  unfoldable pub query_tcp : World W Handle D → Ended (World W Handle D)
  unfolding mbus_tcp_open start_query
  query_tcp s = elim s.meter.hostname [ none ↦ aborted | some host ↦ dial s host ]

  -- `queryMeter`
  unfoldable pub query_meter : World W Handle D → Ended (World W Handle D)
  unfolding query_serial query_tcp
  query_meter s =
      let counted = record s {
        meter = record s.meter { num_queries = (s.meter.num_queries + 1) % 2 ^ 32 };
      } in
      if not (is_zero s.meter.disabled)
      then back (pos 0) s
      else if s.meter.is_formula_only
      then back (pos 0) (record s { meter = record s.meter { meter_has_been_read = 1 } })
      else if s.meter.is_tcp
      then query_tcp counted
      else query_serial counted
