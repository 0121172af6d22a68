-- ===== src/Meter/Connections/Retry.antt =====
-- The behaviour of `mbusTCP_open` over several calls for one host and port.
use mathlib.Core.Option.{some-injective}
use emmbus2influx.Base.{
  ℕ, zero, suc, ◌-◌, ◌==◌, ◌≡◌, refl, sym, ap, ◌∙◌, true, false, Option, none, some, List, [], ◌∷◌,
  Bytes, arith, if◌then◌else◌, Bool-cases, inl, inr, is_zero,
}
use emmbus2influx.Meter.Connections.{
  Mbus, Connection, is_for, open_entry, try_connect, find_entry, mbus_tcp_open,
}

module _ {W Handle : Type 0} (M : Mbus W Handle) (device port : Bytes) where
  -- The entry for the host and the port.
  unfoldable pub entry : List (Connection Handle) → Option (Connection Handle)
  entry [] = none
  entry (mc ∷ rest) = if is_for M device port mc then some mc else entry rest

  -- The entries with that one put anew.
  unfoldable pub renew : Connection Handle → List (Connection Handle) → List (Connection Handle)
  renew mc' [] = []
  renew mc' (mc ∷ rest) = if is_for M device port mc then mc' ∷ rest else mc ∷ renew mc' rest

  -- `n` calls of `mbusTCP_open`, and what each returns.
  unfoldable pub calls :
      ℕ
      → List (Connection Handle)
      → W
      → Option (List (Connection Handle) × List (Option Handle) × W)
  calls zero es w = some (es, [], w)
  calls (suc n) es w = elim (mbus_tcp_open M device (some port) es w) [
    | none ↦ none
    | some (es1, mb, w1) ↦ elim (calls n es1 w1) [
      | none ↦ none
      | some (es2, mbs, w2) ↦ some (es2, mb ∷ mbs, w2)
    ]
  ]

  unfoldable pub all_none : ℕ → List (Option Handle)
  all_none zero = []
  all_none (suc n) = none ∷ all_none n

  find-entry :
      (es : List (Connection Handle)) (mc : Connection Handle) (w : W)
      → entry es ≡ some mc
      → find_entry M device port es w
        ≡ some (renew (open_entry M mc w).0 es, (open_entry M mc w).1, (open_entry M mc w).2)
  unfolding find_entry entry renew
  find-entry [] mc w h = ground arith
  find-entry (x ∷ es) mc w h = elim (Bool-cases (is_for M device port x)) [
    | inl e ↦ let same : x ≡ mc = some-injective x mc (rw e at h) in rw e (rw same refl)
    | inr e ↦ rw e (rw (find-entry es mc w (rw e at h)) refl)
  ]

  entry-renew :
      (es : List (Connection Handle)) (mc mc' : Connection Handle)
      → entry es ≡ some mc
      → is_for M device port mc' ≡ true
      → entry (renew mc' es) ≡ some mc'
  unfolding entry renew
  entry-renew [] mc mc' h f = ground arith
  entry-renew (x ∷ es) mc mc' h f = elim (Bool-cases (is_for M device port x)) [
    | inl e ↦ rw (e, f) refl
    | inr e ↦ rw (e, e) (entry-renew es mc mc' (rw e at h) f)
  ]

  renew-renew :
      (es : List (Connection Handle)) (mc mc' : Connection Handle)
      → is_for M device port mc ≡ true
      → renew mc' (renew mc es) ≡ renew mc' es
  unfolding renew
  renew-renew [] mc mc' f = refl
  renew-renew (x ∷ es) mc mc' f = elim (Bool-cases (is_for M device port x)) [
    | inl e ↦ rw (e, f) refl
    | inr e ↦ rw (e, e) (ap (◌∷◌ x) (renew-renew es mc mc' f))
  ]

  renew-same :
      (es : List (Connection Handle)) (mc : Connection Handle)
      → entry es ≡ some mc
      → renew mc es ≡ es
  unfolding entry renew
  renew-same [] mc h = refl
  renew-same (x ∷ es) mc h = elim (Bool-cases (is_for M device port x)) [
    | inl e ↦ let same : x ≡ mc = some-injective x mc (rw e at h) in rw (e, same) refl
    | inr e ↦ rw e (ap (◌∷◌ x) (renew-same es mc (rw e at h)))
  ]

  entry-for :
      (es : List (Connection Handle)) (mc : Connection Handle)
      → entry es ≡ some mc
      → is_for M device port mc ≡ true
  unfolding entry
  entry-for [] mc h = ground arith
  entry-for (x ∷ es) mc h = elim (Bool-cases (is_for M device port x)) [
    | inl e ↦ let same : x ≡ mc = some-injective x mc (rw e at h) in rw same at e
    | inr e ↦ entry-for es mc (rw e at h)
  ]

  open-known :
      (es : List (Connection Handle)) (mc : Connection Handle) (w : W)
      → entry es ≡ some mc
      → mbus_tcp_open M device (some port) es w
        ≡ some (renew (open_entry M mc w).0 es, (open_entry M mc w).1, (open_entry M mc w).2)
  unfolding mbus_tcp_open
  open-known es mc w h = rw (mbus_tcp_open, find-entry es mc w h) refl

  renewed :
      (es : List (Connection Handle)) (r r' : Connection Handle × Option Handle × W)
      → r ≡ r'
      → Path
          (Option (List (Connection Handle) × Option Handle × W))
          (some (renew r.0 es, r.1, r.2))
          (some (renew r'.0 es, r'.1, r'.2))
  renewed es r r' e = λ i. some (renew (e i).0 es, (e i).1, (e i).2)

  calls_then :
      (n : ℕ) (es : List (Connection Handle)) (w : W) {es1 es2 : List (Connection Handle)}
      {mb : Option Handle} {mbs : List (Option Handle)} {w1 w2 : W}
      → mbus_tcp_open M device (some port) es w ≡ some (es1, mb, w1)
      → calls n es1 w1 ≡ some (es2, mbs, w2)
      → calls (suc n) es w ≡ some (es2, mb ∷ mbs, w2)
  unfolding calls
  calls_then n es w e e' = rw (calls, e) (rw e' refl)

  open_entry-waits :
      (mc : Connection Handle) (w : W) (n : ℕ)
      → mc.is_connected ≡ false
      → mc.retry_count ≡ suc n
      → open_entry M mc w ≡ (record mc { retry_count = n }, none, w)
  unfolding open_entry
  open_entry-waits mc w n c r =
      let counting : (mc.retry_count == 0) ≡ false = rw r (ground arith) in
      let one_less : mc.retry_count - 1 ≡ n = omega arith in
      rw (c, counting)
        (λ i. (record mc { is_connected = false; retry_count = one_less i }, none, w))

  open_entry-fails :
      (mc : Connection Handle) (w : W)
      → mc.is_connected ≡ false
      → mc.retry_count ≡ 0
      → is_zero (M.connect mc.mb w).0 ≡ false
      → open_entry M mc w ≡ (record mc { retry_count = 30 }, none, (M.connect mc.mb w).1)
  unfolding open_entry try_connect
  open_entry-fails mc w c r failed =
      let over : (mc.retry_count == 0) ≡ true = rw r (ground arith) in rw (c, over, failed) refl

  -- Calls before the delay is over: none of them connects.
  waits :
      (n : ℕ) (es : List (Connection Handle)) (mc : Connection Handle) (w : W)
      → entry es ≡ some mc
      → mc.is_connected ≡ false
      → mc.retry_count ≡ n
      → calls n es w ≡ some (renew (record mc { retry_count = 0 }) es, all_none n, w)
  unfolding calls all_none
  waits zero es mc w h c r =
      let done =
        renew-same es (record mc { retry_count = 0 })
          (h ∙ λ i. some (record mc { retry_count = r i })) in
      λ i. some (sym done i, [], w)
  waits (suc n) es mc w h c r =
      let next : Connection Handle = record mc { retry_count = n } in
      let f = entry-for es mc h in
      let step = open-known es mc w h ∙ renewed es _ _ (open_entry-waits mc w n c r) in
      calls_then n es w step (waits n (renew next es) next w (entry-renew es mc next h f) c refl)
      ∙ λ i. some (renew-renew es next (record next { retry_count = 0 }) f i, all_none (suc n), w)

  -- Let the pool have an entry for the host and the port, not connected and with no delay left,
  -- and let connecting it fail. Then this call and the next 30 calls for the host and the port
  -- return no handle, libmbus is asked to connect once in all of them, by the first, and after
  -- them the entry has no delay left again, with all other entries as they were.
  pub calls-Delayed :
      (es : List (Connection Handle)) (mc : Connection Handle) (w : W)
      → entry es ≡ some mc
      → mc.is_connected ≡ false
      → mc.retry_count ≡ 0
      → is_zero (M.connect mc.mb w).0 ≡ false
      → calls 31 es w
        ≡ some (renew (record mc { retry_count = 0 }) es, all_none 31, (M.connect mc.mb w).1)
  unfolding all_none
  calls-Delayed es mc w h c r failed =
      let w1 = (M.connect mc.mb w).1 in
      let next : Connection Handle = record mc { retry_count = 30 } in
      let f = entry-for es mc h in
      let step = open-known es mc w h ∙ renewed es _ _ (open_entry-fails mc w c r failed) in
      calls_then 30 es w step (waits 30 (renew next es) next w1 (entry-renew es mc next h f) c refl)
      ∙ λ i. some (renew-renew es next (record next { retry_count = 0 }) f i, all_none 31, w1)
