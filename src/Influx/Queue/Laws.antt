-- ===== src/Influx/Queue/Laws.antt =====
-- The queue is a first-in first-out list of rows: what leaves it has been delivered, in order.
use emmbus2influx.Base.{
  ℕ, zero, suc, ◌+◌, ◌-◌, ◌≤◌, ◌≡◌, refl, ap, ◌∙◌, ◌≢◌, ◌⊎◌, inl, inr, Bool, true, false, Option,
  none, some, List, [], ◌∷◌, ◌++◌, arith, ltb, ◌==◌, length, length-append, Bytes, ℤ, pos, negsuc,
  ltb_ℤ, eqb_ℤ_iff, is_zero, Bool-cases,
}
use emmbus2influx.Influx.Queue.{
  InfluxClient, influx_dequeue_at_once, row_size, row_text, add_to_queue, Outcome, deliver,
  de_queue_loop, de_queue,
}

-- The texts behind the pointers of the rows.
abbrev pub Rows : List (Option Bytes) → List Bytes → Type 0
Rows [] [] = Unit {0}
Rows (row ∷ rows) (text ∷ texts) = (row_text row ≡ some text) × Rows rows texts
Rows _ _ = ⊥

-- The counter counts the rows, which stay within the limit.
pub record IsQueue (c : InfluxClient) (texts : List Bytes) : Type 0 where
  pub rows : Rows c.first_entry texts
  pub counted : c.num_entries_queued ≡ length texts
  pub bounded : c.num_entries_queued ≤ c.max_num_entries_to_queue

Rows-concat :
    (rows : List (Option Bytes)) (texts : List Bytes) (row : Option Bytes) (text : Bytes)
    → Rows rows texts
    → row_text row ≡ some text
    → Rows (rows ++ row ∷ []) (texts ++ text ∷ [])
Rows-concat [] [] row text h e = (e, tt)
Rows-concat [] (t ∷ ts) row text h e = absurd h
Rows-concat (r ∷ rs) [] row text h e = absurd h
Rows-concat (r ∷ rs) (t ∷ ts) row text h e = (h.0, Rows-concat rs ts row text h.1 e)

-- A row is put behind the others where there is room and memory, and the queue is left alone
-- otherwise.
pub add_to_queue-IsQueue :
    (alloc : ℕ → Bool) (c : InfluxClient) (texts : List Bytes) (text : Bytes)
    → IsQueue c texts
    → row_text c.influx_buf ≡ some text
    → let (code, c') = add_to_queue alloc c in
      ((code ≡ pos 0) × IsQueue c' (texts ++ text ∷ []) × (c'.influx_buf ≡ none))
      ⊎ ((ltb_ℤ code (pos 0) ≡ true)
          × (c' ≡ c)
          × ((alloc row_size ≡ false) ⊎ (c.max_num_entries_to_queue ≡ length texts)))
unfolding add_to_queue
add_to_queue-IsQueue alloc c texts text q e =
    elim (Bool-cases (ltb c.num_entries_queued c.max_num_entries_to_queue)) [
      | inl free ↦ elim (Bool-cases (alloc row_size)) [
        | inl some_ ↦
            rw (free, some_)
              (inl (
                refl,
                record {
                  rows = Rows-concat c.first_entry texts c.influx_buf text q.rows e;
                  counted = omega (arith, q.counted, length-append texts (text ∷ []));
                  bounded = ground arith;
                },
                refl,
              ))
        | inr none_ ↦ rw (free, none_) (inr (refl, refl, inl refl))
      ]
      | inr full ↦ rw full (inr (refl, refl, inr (ground (arith, q.counted, q.bounded))))
    ]

length_zero : (texts : List Bytes) → length texts ≡ 0 → texts ≡ []
length_zero [] h = refl
length_zero (t ∷ ts) h = absurd (omega arith)

module _ {W : Type 0} (send : Bytes → W → ℤ × W) where
  -- The texts are posted one after the other, each with the code 0.
  pub data Delivers : W → List Bytes → W → Type 0 where
    nothing : {w : W} → Delivers w [] w
    next :
        {w w' w'' : W} {text : Bytes} {texts : List Bytes}
        → send text w ≡ (pos 0, w')
        → Delivers w' texts w''
        → Delivers w (text ∷ texts) w''

  abbrev pub Returns : (ℤ → InfluxClient → W → Type 0) → Outcome W → Type 0
  Returns P none = ⊥
  Returns P (some (code, c, w)) = P code c w

  pub Returns-mono :
      (P Q : ℤ → InfluxClient → W → Type 0) (m : Outcome W)
      → ((code : ℤ) (c : InfluxClient) (w : W) → P code c w → Q code c w)
      → Returns P m
      → Returns Q m
  Returns-mono P Q none k h = absurd h
  Returns-mono P Q (some (code, c, w)) k h = k code c w h

  -- The post of the first of the rows `rest` was answered with an error.
  pub record Refused (reached : W) (rest : List Bytes) (w : W) : Type 0 where
    pub text : Bytes
    pub later : List Bytes
    pub answer : ℤ
    pub first : rest ≡ text ∷ later
    pub posted : send text reached ≡ (answer, w)
    pub error : answer ≢ pos 0

  -- What a run that may post `limit` rows, behind `before` ones, makes of a queue of `texts`.
  pub record Dequeued (limit before : ℕ) (c : InfluxClient) (w : W) (texts : List Bytes) (code : ℤ)
      (c' : InfluxClient) (w' : W) : Type 0 where
    pub sent : List Bytes
    pub rest : List Bytes
    pub reached : W
    pub split : texts ≡ sent ++ rest
    pub delivered : Delivers w sent reached
    pub kept : IsQueue c' rest
    pub line_same : c'.line ≡ c.line
    pub max_same : c'.max_num_entries_to_queue ≡ c.max_num_entries_to_queue
    pub ending :
        ((code ≡ pos (before + length sent))
          × (w' ≡ reached)
          × ((rest ≡ []) ⊎ (length sent ≡ limit)))
        ⊎ ((code ≡ negsuc 0) × Refused reached rest w')

  module _ (c : InfluxClient) (row : Option Bytes) (rows : List (Option Bytes)) (w : W)
      (more : InfluxClient → W → Outcome W) (text : Bytes) (read : row_text row ≡ some text) where
    deliver-delivered :
        is_zero (send text w).0 ≡ true
        → deliver send c (row ∷ rows) w more
          ≡ more
              (record c { first_entry = rows; num_entries_queued = c.num_entries_queued - 1 })
              (send text w).1
    unfolding deliver
    deliver-delivered h = ground arith

    deliver-refused :
        is_zero (send text w).0 ≡ false
        → deliver send c (row ∷ rows) w more ≡ some (negsuc 0, c, (send text w).1)
    unfolding deliver
    deliver-refused h = ground arith

  deliver-Returns :
      (P : ℤ → InfluxClient → W → Type 0) (c : InfluxClient) (rows : List (Option Bytes)) (w : W)
      (more : InfluxClient → W → Outcome W) (text : Bytes) (texts : List Bytes)
      → Rows rows (text ∷ texts)
      → ((rows' : List (Option Bytes)) (w' : W)
          → Rows rows' texts
          → send text w ≡ (pos 0, w')
          → Returns P (
              more
                (record c { first_entry = rows'; num_entries_queued = c.num_entries_queued - 1 })
                w'))
      → ((answer : ℤ) (w' : W) → send text w ≡ (answer, w') → answer ≢ pos 0 → P (negsuc 0) c w')
      → Returns P (deliver send c rows w more)
  unfolding deliver
  deliver-Returns P c [] w more text texts h good bad = absurd h
  deliver-Returns P c (row ∷ rows) w more text texts h good bad =
      elim (Bool-cases (is_zero (send text w).0)) [
        | inl done ↦
            let answer : (send text w).0 ≡ pos 0 = (eqb_ℤ_iff _ _).0 done in
            rw (deliver-delivered c row rows w more text h.0 done)
              (good rows (send text w).1 h.1 (λ i. (answer i, (send text w).1)))
        | inr error ↦ rw (deliver-refused c row rows w more text h.0 error) (
            bad (send text w).0 (send text w).1 refl
              (λ e. cc (error, (eqb_ℤ_iff (send text w).0 (pos 0)).1 e)))
      ]

  stays-Dequeued :
      (limit before : ℕ) (c : InfluxClient) (w w' : W) (texts : List Bytes)
      → IsQueue c texts
      → Refused w texts w'
      → Dequeued limit before c w texts (negsuc 0) c w'
  stays-Dequeued limit before c w w' texts q r = record {
    sent = [];
    rest = texts;
    reached = w;
    split = refl;
    delivered = nothing;
    kept = q;
    line_same = refl;
    max_same = refl;
    ending = inr (refl, r);
  }

  -- The row that is posted, and what the later rounds do.
  extend-Dequeued :
      (limit before : ℕ) (c c₁ : InfluxClient) (w w₁ : W) (text : Bytes) (texts : List Bytes)
      (code : ℤ) (c' : InfluxClient) (w' : W)
      → send text w ≡ (pos 0, w₁)
      → c₁.line ≡ c.line
      → c₁.max_num_entries_to_queue ≡ c.max_num_entries_to_queue
      → Dequeued limit (before + 1) c₁ w₁ texts code c' w'
      → Dequeued (suc limit) before c w (text ∷ texts) code c' w'
  extend-Dequeued limit before c c₁ w w₁ text texts code c' w' e line max d = record {
    sent = text ∷ d.sent;
    rest = d.rest;
    reached = d.reached;
    split = ap (◌∷◌ text) d.split;
    delivered = next e d.delivered;
    kept = d.kept;
    line_same = d.line_same ∙ line;
    max_same = d.max_same ∙ max;
    ending = ground (arith, d.ending);
  }

  -- Nothing is left to be posted, or no round is left.
  ends-Dequeued :
      (limit before : ℕ) (c : InfluxClient) (w : W) (texts : List Bytes)
      → IsQueue c texts
      → (texts ≡ []) ⊎ (limit ≡ 0)
      → Dequeued limit before c w texts (pos before) c w
  ends-Dequeued limit before c w texts q h = record {
    sent = [];
    rest = texts;
    reached = w;
    split = refl;
    delivered = nothing;
    kept = q;
    line_same = refl;
    max_same = refl;
    ending = inl (ap pos (omega arith), refl, ground arith);
  }

  loop-Returns :
      (left before : ℕ) (c : InfluxClient) (w : W) (texts : List Bytes)
      → IsQueue c texts
      → texts ≢ []
      → Returns (Dequeued left before c w texts) (de_queue_loop send left before c w)
  unfolding de_queue_loop
  loop-Returns zero before c w texts q ne = ends-Dequeued 0 before c w texts q (inr refl)
  loop-Returns (suc left) before c w [] q ne = absurd (ne refl)
  loop-Returns (suc left) before c w (text ∷ texts) q ne =
      deliver-Returns (Dequeued (suc left) before c w (text ∷ texts)) c c.first_entry w _ text texts
        q.rows
        (λ rows' w' h e.
          let c₁ = record c {
            first_entry = rows';
            num_entries_queued = c.num_entries_queued - 1;
          } in
          let q₁ : IsQueue c₁ texts = record {
            rows = h;
            counted = omega (arith, q.counted);
            bounded = omega (arith, q.bounded);
          } in
          elim (Bool-cases (c.num_entries_queued - 1 == 0)) [
            | inl last ↦ rw last (
                extend-Dequeued left before c c₁ w w' text texts _ c₁ w' e refl refl (
                  ends-Dequeued left (before + 1) c₁ w' texts q₁
                    (inl (length_zero texts (ground (arith, q.counted))))))
            | inr more ↦ rw more (
                Returns-mono (Dequeued left (before + 1) c₁ w' texts)
                  (Dequeued (suc left) before c w (text ∷ texts)) _
                  (λ code c' w'' d.
                    extend-Dequeued left before c c₁ w w' text texts code c' w'' e refl refl d)
                  (loop-Returns left (before + 1) c₁ w' texts q₁
                    (λ nil. ground (arith, q.counted, ap length nil))))
          ])
        (λ answer w' e ne'. stays-Dequeued (suc left) before c w w' (text ∷ texts) q (record {
          text = text;
          later = texts;
          answer = answer;
          first = refl;
          posted = e;
          error = ne';
        }))

  -- `influxdb_deQueue` posts rows from the front of the queue, each answered with 0, and takes just
  -- these off it: it ends where the queue is empty or 50 are posted, with their number, or at the
  -- first row that is refused, with -1.
  pub de_queue-Dequeued :
      (c : InfluxClient) (w : W) (texts : List Bytes)
      → IsQueue c texts
      → Returns (Dequeued influx_dequeue_at_once 0 c w texts) (de_queue send c w)
  unfolding de_queue
  de_queue-Dequeued c w texts q = elim (Bool-cases (c.num_entries_queued == 0)) [
    | inl empty ↦ rw empty (
        ends-Dequeued influx_dequeue_at_once 0 c w texts q
          (inl (length_zero texts (ground (arith, q.counted)))))
    | inr some_ ↦ rw some_ (
        loop-Returns influx_dequeue_at_once 0 c w texts q
          (λ nil. ground (arith, q.counted, ap length nil)))
  ]
