-- ===== src/Influx/Queue/Draining.antt =====
-- `influxdb_post_deInit` posts what waits until nothing is left or a post is refused.
use emmbus2influx.Base.{
  ℕ, zero, suc, ◌+◌, ◌<◌, ◌≡◌, refl, sym, ap, subst, ◌∙◌, ◌⊎◌, inl, inr, true, false, none, some,
  List, [], ◌++◌, append_assoc, arith, length, length-append, Bytes, ℤ, pos, ltb_ℤ, Bool-cases,
}
use emmbus2influx.Influx.Queue.Laws.{
  IsQueue, Delivers, nothing, next, Returns, Returns-mono, Refused, Dequeued, de_queue-Dequeued,
}
use emmbus2influx.Influx.Queue.{InfluxClient, Outcome, de_queue, de_init, influx_dequeue_at_once}

module _ {W : Type 0} (send : Bytes → W → ℤ × W) where
  -- What remains of a queue of `texts` when posting stops for good.
  pub record Drained (w : W) (texts : List Bytes) (code : ℤ) (c' : InfluxClient) (w' : W)
      : Type 0 where
    pub sent : List Bytes
    pub rest : List Bytes
    pub reached : W
    pub split : texts ≡ sent ++ rest
    pub delivered : Delivers send w sent reached
    pub kept : IsQueue c' rest
    pub ending : ((rest ≡ []) × (w' ≡ reached)) ⊎ Refused send reached rest w'

  Delivers-append :
      {w w' w'' : W} {xs ys : List Bytes}
      → Delivers send w xs w'
      → Delivers send w' ys w''
      → Delivers send w (xs ++ ys) w''
  Delivers-append nothing e = e
  Delivers-append (next s d) e = next s (Delivers-append d e)

  Returns-view :
      (P : ℤ → InfluxClient → W → Type 0) (m : Outcome W)
      → Returns send P m
      → (code : ℤ) × (c : InfluxClient) × (w : W) × (m ≡ some (code, c, w)) × P code c w
  Returns-view P none h = absurd h
  Returns-view P (some (code, c, w)) h = (code, c, w, refl, h)

  module _ (fuel : ℕ) (c c' : InfluxClient) (w w' : W) (code : ℤ)
      (round : de_queue send c w ≡ some (code, c', w')) where
    de_init-again :
        ltb_ℤ (pos 0) code ≡ true → de_init send (suc fuel) c w ≡ de_init send fuel c' w'
    unfolding de_init
    de_init-again h = ground arith

    de_init-stops : ltb_ℤ (pos 0) code ≡ false → de_init send (suc fuel) c w ≡ some (pos 0, c', w')
    unfolding de_init
    de_init-stops h = ground arith

  -- What a round has posted, and what the later rounds do.
  join :
      {w : W} {texts : List Bytes} {code : ℤ} {c' : InfluxClient} {w' : W} (sent rest : List Bytes)
      (reached : W)
      → texts ≡ sent ++ rest
      → Delivers send w sent reached
      → Drained reached rest code c' w'
      → Drained w texts code c' w'
  join sent rest reached e d r = record {
    sent = sent ++ r.sent;
    rest = r.rest;
    reached = r.reached;
    split = e ∙ ap (◌++◌ sent) r.split ∙ sym (append_assoc sent r.sent r.rest);
    delivered = Delivers-append d r.delivered;
    kept = r.kept;
    ending = r.ending;
  }

  -- One round, before later rounds that drain any shorter queue.
  module _ (fuel : ℕ) (c c' : InfluxClient) (w w' : W) (code : ℤ) (texts : List Bytes)
      (round : de_queue send c w ≡ some (code, c', w'))
      (d : Dequeued send influx_dequeue_at_once 0 c w texts code c' w') where
    stops-Drained :
        ltb_ℤ (pos 0) code ≡ false
        → ((d.rest ≡ []) × (w' ≡ d.reached)) ⊎ Refused send d.reached d.rest w'
        → Returns send (Drained w texts) (de_init send (suc fuel) c w)
    stops-Drained h e = rw (de_init-stops fuel c c' w w' code round h) (record {
      sent = d.sent;
      rest = d.rest;
      reached = d.reached;
      split = d.split;
      delivered = d.delivered;
      kept = d.kept;
      ending = e;
    })

    again-Drained :
        ltb_ℤ (pos 0) code ≡ true
        → w' ≡ d.reached
        → Returns send (Drained w' d.rest) (de_init send fuel c' w')
        → Returns send (Drained w texts) (de_init send (suc fuel) c w)
    again-Drained h here r = rw (de_init-again fuel c c' w w' code round h) (
        Returns-mono send (Drained w' d.rest) (Drained w texts) (de_init send fuel c' w')
          (λ code' c'' w'' k.
            join d.sent d.rest w' d.split (subst (Delivers send w d.sent) (sym here) d.delivered) k)
          r)

    round-Drained :
        ((length d.rest < length texts)
          → Returns send (Drained w' d.rest) (de_init send fuel c' w'))
        → Returns send (Drained w texts) (de_init send (suc fuel) c w)
    round-Drained later = elim d.ending [
      | inl (all, here, why) ↦ elim (Bool-cases (ltb_ℤ (pos 0) code)) [
        | inl more ↦ again-Drained more here (later (ground (arith, more, all, shorter)))
        | inr none_ ↦ stops-Drained none_ (inl (ground (arith, none_, all, why), here))
      ]
      | inr (failed, refused) ↦ stops-Drained (rw failed refl) (inr refused)
    ]
      where
        shorter : length texts ≡ length d.sent + length d.rest
        shorter = ap length d.split ∙ length-append d.sent d.rest

  -- `influxdb_post_deInit` ends, as soon as the fuel exceeds the length of the queue: every row has
  -- been delivered, in order, or posting stopped at one that was refused.
  pub de_init-Drained :
      (fuel : ℕ) (c : InfluxClient) (w : W) (texts : List Bytes)
      → IsQueue c texts
      → length texts < fuel
      → Returns send (Drained w texts) (de_init send fuel c w)
  de_init-Drained zero c w texts q h = absurd (omega arith)
  de_init-Drained (suc fuel) c w texts q h =
      let (code, c', w', e, d) =
        Returns-view (Dequeued send influx_dequeue_at_once 0 c w texts) (de_queue send c w)
          (de_queue-Dequeued send c w texts q) in
      round-Drained fuel c c' w w' code texts e d
        (λ less. de_init-Drained fuel c' w' d.rest d.kept (omega arith))
