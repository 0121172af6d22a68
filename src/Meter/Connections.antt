-- ===== src/Meter/Connections.antt =====
-- The connections to M-Bus gateways: `meterIPConnection_t` and `mbusTCP_open` of mbusread.cpp.
-- The functions of libmbus are the fields of `Mbus`: each takes the state `W` of the buses and
-- gives its result with the new state.
pub mod Retry
use emmbus2influx.Base.{
  ℕ, ◌-◌, ◌==◌, ◌&&◌, Bool, true, false, Option, none, some, List, [], ◌∷◌, ◌++◌, if◌then◌else◌,
  Bytes, codes, same_text, ℤ, is_zero,
}

-- what the program calls of libmbus; `Handle` is a pointer to a context
pub record Mbus (W Handle : Type 0) : Type 0 where
  pub context_tcp : Bytes → Bytes → W → Option Handle × W
  pub connect : Handle → W → ℤ × W

-- `meterIPConnection_t`
pub record Connection (Handle : Type 0) : Type 0 where
  pub hostname : Bytes
  pub port : Bytes
  pub mb : Handle
  pub is_connected : Bool
  pub retry_count : ℕ

abbrev pub tcp_open_retry_delay : ℕ
tcp_open_retry_delay = 30

abbrev pub def_port : Bytes
def_port = codes "502"

module _ {W Handle : Type 0} (M : Mbus W Handle) where
  -- the tail that the first call for an entry and a later one share: connect, or wait
  unfoldable pub try_connect : Connection Handle → W → Connection Handle × Option Handle × W
  try_connect mc w =
      let res = M.connect mc.mb w in
      if is_zero res.0
      then (record mc { is_connected = true }, some mc.mb, res.1)
      else (record mc { retry_count = tcp_open_retry_delay }, none, res.1)

  -- the body of the loop for the entry of the host and the port
  unfoldable pub open_entry : Connection Handle → W → Connection Handle × Option Handle × W
  unfolding try_connect
  open_entry mc w =
      if mc.is_connected
      then (mc, some mc.mb, w)
      else if mc.retry_count == 0
      then try_connect mc w
      else (record mc { retry_count = mc.retry_count - 1 }, none, w)

  abbrev pub is_for : Bytes → Bytes → Connection Handle → Bool
  is_for device port mc = same_text device mc.hostname && same_text port mc.port

  -- the loop over the entries: `none` where no entry is for the host and the port
  unfoldable pub find_entry :
      Bytes
      → Bytes
      → List (Connection Handle)
      → W
      → Option (List (Connection Handle) × Option Handle × W)
  unfolding open_entry
  find_entry device port [] w = none
  find_entry device port (mc ∷ rest) w =
      let later = find_entry device port rest w in
      if is_for device port mc
      then (let (mc', mb, w') = open_entry mc w in some (mc' ∷ rest, mb, w'))
      else elim later [ none ↦ none | some (rest', mb, w') ↦ some (mc ∷ rest', mb, w') ]

  -- `mbusTCP_open`; `none` is `exit(1)`
  unfoldable pub mbus_tcp_open :
      Bytes
      → Option Bytes
      → List (Connection Handle)
      → W
      → Option (List (Connection Handle) × Option Handle × W)
  unfolding find_entry try_connect
  mbus_tcp_open device given_port entries w =
      let port : Bytes = elim given_port [ none ↦ def_port | some p ↦ p ] in
      elim (find_entry device port entries w) [
        | some found ↦ some found
        | none ↦ new_entry device port (M.context_tcp device port w)
      ]
    where
      new_entry :
          Bytes → Bytes → Option Handle × W → Option (List (Connection Handle) × Option Handle × W)
      new_entry device port (none, w1) = none
      new_entry device port (some mb, w1) =
          let fresh : Connection Handle = record {
            hostname = device;
            port = port;
            mb = mb;
            is_connected = false;
            retry_count = 0;
          } in
          let (mc, opened, w2) = try_connect fresh w1 in some (entries ++ mc ∷ [], opened, w2)
