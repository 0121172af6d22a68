-- ===== src/Meter/Probe/Laws.antt =====
-- What the search for a serial meter returns.
use emmbus2influx.Base.{
  not, ◌≡◌, refl, Bool, true, false, List, [], ◌∷◌, if◌then◌else◌, ℤ, pos, negsuc, eqb_ℤ,
}
use emmbus2influx.Meter.Probe.{
  Pinger, mbus_ping_address, test_serial_present, is_serial, address_int,
}
use emmbus2influx.Meter.{Meter}

if_same :
    {A : Type 0} {B : Type 0} (f : A → B) (b : Bool) (x y : A) (r : B)
    → f x ≡ r
    → f y ≡ r
    → f (if b then x else y) ≡ r
if_same f true x y r p q = p
if_same f false x y r p q = q

module _ {W Handle Frame D : Type 0} (B : Pinger W Handle Frame) where
  -- `testSerialpresent` returns 0, whatever meters are defined and whatever is on the bus.
  pub test_serial_present_lem :
      (mb : Handle) (ms : List (Meter D)) (w : W) → (test_serial_present B mb ms w).0 ≡ pos 0
  unfolding test_serial_present
  test_serial_present_lem mb [] w = refl
  test_serial_present_lem mb (m ∷ ms) w =
      let pinged = mbus_ping_address B mb (address_int B m.mbus_address) w in
      let purged = B.purge_frames mb pinged.2 in
      let collision : ℤ × W = (pos 0, purged.1) in
      let code : ℤ × W → ℤ = λ r. r.0 in
      let last =
        if_same code purged.0 collision (test_serial_present B mb ms purged.1) (pos 0) refl
          (test_serial_present_lem mb ms purged.1) in
      let answered =
        if_same code (not (B.is_ack pinged.1)) (test_serial_present B mb ms pinged.2) _ (pos 0)
          (test_serial_present_lem mb ms pinged.2) last in
      if_same code (not (is_serial B m)) (test_serial_present B mb ms w) _ (pos 0)
        (test_serial_present_lem mb ms w)
        (if_same code (eqb_ℤ pinged.0 (negsuc 1)) collision _ (pos 0) refl answered)
