-- ===== src/Meter/Probe.antt =====
-- The search for a serial meter: `mbus_ping_address` and `testSerialpresent` of mbusread.cpp, with
-- the serial port open.
pub mod Laws
use emmbus2influx.Base.{
  ℕ, zero, suc, ◌+◌, ◌-◌, ◌%◌, ◌^◌, ◌==◌, ltb, ◌&&◌, ◌||◌, not, Bool, true, false, Option, none,
  some, List, [], ◌∷◌, map, if◌then◌else◌, ℤ, pos, negsuc, is_zero, eqb_ℤ,
}
use emmbus2influx.Meter.{Meter}

-- What the search calls of libmbus.
pub record Pinger (W Handle Frame : Type 0) : Type 0 where
  pub max_search_retry : Handle → ℕ
  pub send_ping_frame : Handle → ℤ → W → ℤ × W
  pub recv_frame : Handle → Frame → W → ℤ × Frame × W
  pub purge_frames : Handle → W → Bool × W
  pub is_ack : Frame → Bool
  -- a frame filled with zeros
  pub zero_frame : Frame

module _ {W Handle Frame : Type 0} (B : Pinger W Handle Frame) where
  -- the loop of `mbus_ping_address` for the tries that are left, with the last result
  unfoldable pub ping_loop : ℕ → ℤ → Handle → ℤ → Frame → W → ℤ × Frame × W
  ping_loop zero last mb address reply w = (last, reply, w)
  ping_loop (suc left) last mb address reply w =
      let sent = B.send_ping_frame mb address w in
      let got = B.recv_frame mb reply sent.1 in
      let again = ping_loop left got.0 mb address got.1 got.2 in
      if eqb_ℤ sent.0 (negsuc 0)
      then (negsuc 0, reply, sent.1)
      else if eqb_ℤ got.0 (negsuc 2)
      then again
      else got

  -- `mbus_ping_address`
  unfoldable pub mbus_ping_address : Handle → ℤ → W → ℤ × Frame × W
  unfolding ping_loop
  mbus_ping_address mb address w =
      ping_loop (B.max_search_retry mb + 1) (negsuc 0) mb address B.zero_frame w

  -- whether `testSerialpresent` looks for the meter
  abbrev pub is_serial : {D : Type 0} → Meter D → Bool
  is_serial m = not m.is_tcp && (not (m.mbus_address == 0) || not m.is_formula_only)

  -- the address as an argument of type `int`
  abbrev pub address_int : ℕ → ℤ
  address_int n =
      let low = n % 2 ^ 32 in if ltb low (2 ^ 31) then pos low else negsuc (2 ^ 32 - 1 - low)

  -- `testSerialpresent`: its result and the state of the bus; the frames that are purged after an
  -- answer are only reported
  unfoldable pub test_serial_present : {D : Type 0} → Handle → List (Meter D) → W → ℤ × W
  unfolding mbus_ping_address
  test_serial_present mb [] w = (pos 0, w)
  test_serial_present mb (m ∷ rest) w =
      let pinged = mbus_ping_address mb (address_int m.mbus_address) w in
      let purged = B.purge_frames mb pinged.2 in
      let skipped = test_serial_present mb rest w in
      let silent = test_serial_present mb rest pinged.2 in
      let clean = test_serial_present mb rest purged.1 in
      if not (is_serial m)
      then skipped
      else if eqb_ℤ pinged.0 (negsuc 1)
      then (pos 0, purged.1)
      else if not (B.is_ack pinged.1)
      then silent
      else if purged.0
      then (pos 0, purged.1)
      else clean
