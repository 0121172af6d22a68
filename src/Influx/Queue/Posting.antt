-- ===== src/Influx/Queue/Posting.antt =====
-- Where a row goes: to the server, to the end of the queue, or nowhere if the queue is full.
use mathlib.Core.Option
use emmbus2influx.Base.{
  ℕ, zero, suc, ◌<◌, ◌≤◌, ◌≢◌, ap, ltb, negsuc, eqb_ℤ, eqb_ℤ_iff, ◌≡◌, refl, ◌⊎◌, inl, inr, Bool,
  true, false, none, some, List, [], ◌∷◌, ◌++◌, arith, length, Bytes, ℤ, pos, ltb_ℤ, Bool-cases, ok,
}
use emmbus2influx.Influx.Buffer.{free_buffer}
use emmbus2influx.Influx.Line.{Arg, Line, format_line}
use emmbus2influx.Influx.Queue.Laws.{
  IsQueue, add_to_queue-IsQueue, Returns, Dequeued, de_queue-Dequeued,
}
use emmbus2influx.Influx.Queue.{
  InfluxClient, row_size, row_text, free_client_buffer, forget_buffer, add_to_queue, Outcome,
  de_queue, flush, send_twice, is_kept, settle, post_http_line, post_formatted, post_http,
  with_line, influx_dequeue_at_once,
}

free-IsQueue :
    (c : InfluxClient) (texts : List Bytes) → IsQueue c texts → IsQueue (free_client_buffer c) texts
unfolding free_client_buffer
free-IsQueue c texts q = record { rows = q.rows; counted = q.counted; bounded = q.bounded }

free-buffer : (c : InfluxClient) → (free_client_buffer c).influx_buf ≡ none
unfolding free_client_buffer free_buffer
free-buffer c = refl

forget-IsQueue :
    (c : InfluxClient) (texts : List Bytes) → IsQueue c texts → IsQueue (forget_buffer c) texts
forget-IsQueue c texts q = record { rows = q.rows; counted = q.counted; bounded = q.bounded }

-- The codes after which a row waits: all but 0 and those from 200 to 499.
pub data Waits : ℤ → Type 0 where
  failed : (n : ℕ) → Waits (negsuc n)
  unanswered : (n : ℕ) → 0 < n → n < 200 → Waits (pos n)
  unable : (n : ℕ) → 500 ≤ n → Waits (pos n)

-- The codes after which a row is dropped.
pub data Answers : ℤ → Type 0 where
  accepted : Answers (pos 0)
  dropped : (n : ℕ) → 200 ≤ n → n < 500 → Answers (pos n)

kept-Waits : (code : ℤ) → is_kept code ≡ true → Waits code
unfolding is_kept
kept-Waits (negsuc n) h = failed n
kept-Waits (pos n) h = elim (Bool-cases (ltb n 200)) [
  | inl small ↦ unanswered n (ground arith) (ground arith)
  | inr large ↦ unable n (ground arith)
]

settled-Answers : (code : ℤ) → is_kept code ≡ false → Answers code
unfolding is_kept
settled-Answers (negsuc n) h = absurd (ground arith)
settled-Answers (pos zero) h = accepted
settled-Answers (pos (suc n)) h = dropped (suc n) (ground arith) (ground arith)

module _ {W : Type 0} (send : Bytes → W → ℤ × W) (alloc : ℕ → Bool) where
  -- The posts of a row: one, or a second one where the first gives -1.
  pub data Sent (text : Bytes) (w : W) (code : ℤ) (w' : W) : Type 0 where
    once : send text w ≡ (code, w') → code ≢ negsuc 0 → Sent text w code w'
    again :
        (w₁ : W) → send text w ≡ (negsuc 0, w₁) → send text w₁ ≡ (code, w') → Sent text w code w'

  -- What becomes of the row `text` that is posted from a queue of `texts`.
  pub data Posted (c : InfluxClient) (w : W) (text : Bytes) (texts : List Bytes) (code : ℤ)
      (c' : InfluxClient) (w' : W) : Type 0 where
    queued :
        Sent text w code w'
        → Waits code
        → IsQueue c' (texts ++ text ∷ [])
        → Posted c w text texts code c' w'
    lost :
        Sent text w code w'
        → Waits code
        → (alloc row_size ≡ false) ⊎ (c.max_num_entries_to_queue ≡ length texts)
        → IsQueue c' texts
        → Posted c w text texts code c' w'
    settled :
        (w₁ : W) (code' : ℤ)
        → Sent text w code w₁
        → Answers code
        → Dequeued send influx_dequeue_at_once 0 (free_client_buffer c) w₁ texts code' c' w'
        → Posted c w text texts code c' w'

  send_twice-Sent :
      (text : Bytes) (w : W) → Sent text w (send_twice send text w).0 (send_twice send text w).1
  unfolding send_twice
  send_twice-Sent text w =
      let first = send text w in
      elim (Bool-cases (eqb_ℤ first.0 (negsuc 0))) [
        | inl e ↦
            let lost = (eqb_ℤ_iff first.0 (negsuc 0)).0 e in
            rw e (again first.1 (ap (λ code. (code, first.1)) lost) refl)
        | inr e ↦ rw e (once refl (λ same. let is = (eqb_ℤ_iff first.0 (negsuc 0)).1 same in cc))
      ]

  -- The outcome of a call whose code is replaced by `res`.
  relabel :
      (P Q : ℤ → InfluxClient → W → Type 0) (m : Outcome W) (res : ℤ)
      → ((code : ℤ) (c' : InfluxClient) (w' : W) → P code c' w' → Q res c' w')
      → Returns send P m
      → Returns send Q (Option.map (λ r. (res, r.1, r.2)) m)
  relabel P Q none res k h = absurd h
  relabel P Q (some (code, c', w')) res k h = k code c' w' h

  module _ (c : InfluxClient) (w w₁ : W) (text : Bytes) (texts : List Bytes) (res : ℤ)
      (q : IsQueue c texts) (s : Sent text w res w₁) where
    kept-Posted :
        row_text c.influx_buf ≡ some text
        → is_kept res ≡ true
        → Returns send (Posted c w text texts) (settle send alloc res c w₁)
    unfolding settle
    kept-Posted e kept = elim (add_to_queue-IsQueue alloc c texts text q e) [
      | inl (code, q', none_) ↦
          let done : ltb_ℤ (add_to_queue alloc c).0 (pos 0) ≡ false = rw code refl in
          rw (kept, done)
            (queued s (kept-Waits res kept) (free-IsQueue _ _ (forget-IsQueue _ _ q')))
      | inr (code, same, why) ↦
          rw (kept, code) (lost s (kept-Waits res kept) why (free-IsQueue _ _ (rw same q)))
    ]

    answered-Posted :
        is_kept res ≡ false → Returns send (Posted c w text texts) (settle send alloc res c w₁)
    unfolding settle flush
    answered-Posted e = rw e (
        relabel _ (Posted c w text texts) (de_queue send (free_client_buffer c) w₁) res
          (λ code c' w' d. settled w₁ code s (settled-Answers res e) d)
          (de_queue-Dequeued send (free_client_buffer c) w₁ texts (free-IsQueue c texts q)))

  post_http_line-settle :
      (c : InfluxClient) (w : W) (text : Bytes)
      → row_text c.influx_buf ≡ some text
      → post_http_line send alloc c w
        ≡ settle send alloc (send_twice send text w).0 c (send_twice send text w).1
  unfolding post_http_line
  post_http_line-settle c w text e = ground arith

  -- Let the client's queue hold the rows it counts, no more than its limit, and its buffer a string.
  -- `influxdb_post_http_line` posts the row once, and once more after -1. A code other than 0 and
  -- 200 to 499 puts the row behind those that wait, or drops it if the queue is full or there is no
  -- memory; any other code drops the row and posts the waiting rows.
  pub post_http_line-Posted :
      (c : InfluxClient) (w : W) (text : Bytes) (texts : List Bytes)
      → IsQueue c texts
      → row_text c.influx_buf ≡ some text
      → Returns send (Posted c w text texts) (post_http_line send alloc c w)
  post_http_line-Posted c w text texts q e =
      let res = (send_twice send text w).0 in
      let w₁ = (send_twice send text w).1 in
      let s = send_twice-Sent text w in
      rw (post_http_line-settle c w text e) (elim (Bool-cases (is_kept res)) [
        | inl kept ↦ kept-Posted c w w₁ text texts res q s e kept
        | inr answered ↦ answered-Posted c w w₁ text texts res q s answered
      ])

  formatted-drops :
      (c : InfluxClient) (w : W)
      → send [] w ≡ (pos 0, w)
      → c.num_entries_queued ≡ 0
      → post_formatted send alloc c w ≡ some (pos 0, free_client_buffer c, w)
  unfolding post_formatted de_queue
  formatted-drops c w idle empty = ground arith

  -- `_format_line2` returns 0 where it succeeds, and `influxdb_post_http` posts as many bytes: with
  -- no row in the queue, over a connection that gives 0 and sends nothing for a length of 0, the
  -- formatted line is dropped, and 0 is returned as if it had been posted.
  pub post_http_drops :
      {D : Type 0} (print_float : ℤ → D → Bytes) (now : ℤ) (args : List (Arg D)) (c : InfluxClient)
      (l : Line) (w : W)
      → ((w' : W) → send [] w' ≡ (pos 0, w'))
      → format_line alloc print_float now args c.line ≡ ok l
      → IsQueue c []
      → post_http send alloc print_float now args c w
        ≡ some (pos 0, free_client_buffer (with_line c l), w)
  unfolding post_http
  post_http_drops print_float now args c l w idle e q =
      ground (arith, e, formatted-drops (with_line c l) w (idle w) q.counted)
