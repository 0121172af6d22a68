-- ===== src/Influx/Queue.antt =====
-- The rows that wait for the server, and the posting of a row: `addToQueue`, `influxdb_deQueue`,
-- `influxdb_post_http`, `influxdb_post_http_line` and `influxdb_post_deInit` of
-- influxdb-post/influxdb-post.c. `post_http_send_line` is the parameter `send`: it takes the bytes
-- of a post and the state of the connection, and gives its return code and the new state. `none` is
-- a fault: a null pointer is read, or a string that no NUL ends.
pub mod Laws
pub mod Posting
pub mod Draining
use mathlib.Core.Option
use emmbus2influx.Base.{
  ℕ, zero, suc, ◌+◌, ◌-◌, ◌≡◌, Bool, true, false, not, ◌&&◌, ◌||◌, Option, none, some, List, [],
  ◌∷◌, ◌++◌, ltb, ◌==◌, if◌then◌else◌, Bytes, ℤ, pos, negsuc, ltb_ℤ, eqb_ℤ, is_zero, Run, ok, ret,
  fault,
}
use emmbus2influx.Influx.Buffer.{free_buffer}
use emmbus2influx.Influx.Line.{Arg, Line, format_line}

-- The fields of `influx_client_t` that the queue and the buffer use.
pub record InfluxClient : Type 0 where
  pub line : Line
  pub open line use *
  pub max_num_entries_to_queue : ℕ
  pub num_entries_queued : ℕ
  pub first_entry : List (Option Bytes)

abbrev pub influx_dequeue_at_once : ℕ
influx_dequeue_at_once = 50

abbrev pub row_size : ℕ
row_size = 16

-- the string in a block: the bytes up to the first NUL
unfoldable pub c_string : Bytes → Option Bytes
c_string [] = none
c_string (c ∷ cs) = if c == 0 then some [] else Option.map (◌∷◌ c) (c_string cs)

-- what `strlen` and the reads of `send` see behind a pointer
unfoldable pub row_text : Option Bytes → Option Bytes
row_text none = none
row_text (some block) = c_string block

abbrev pub with_line : InfluxClient → Line → InfluxClient
with_line c l = record c { line = l }

unfoldable pub free_client_buffer : InfluxClient → InfluxClient
free_client_buffer c = with_line c (record c.line { buffer = free_buffer c.buffer })

-- `c->influxBuf = NULL`
abbrev pub forget_buffer : InfluxClient → InfluxClient
forget_buffer c = with_line c (record c.line { buffer = record c.buffer { influx_buf = none } })

-- what a call returns: a fault, or its code, the client and the connection
abbrev pub Outcome : Type 0 → Type 0
Outcome W = Option (ℤ × InfluxClient × W)

-- `addToQueue`
unfoldable pub add_to_queue : (ℕ → Bool) → InfluxClient → ℤ × InfluxClient
add_to_queue alloc c =
    if ltb c.num_entries_queued c.max_num_entries_to_queue
    then (if alloc row_size
        then (
          pos 0,
          record c {
            line = record c.line {
              buffer = record c.buffer {
                influx_buf = none;
                influx_buf_len = 0;
                influx_buf_used = 0;
              };
            };
            first_entry = c.first_entry ++ c.influx_buf ∷ [];
            num_entries_queued = c.num_entries_queued + 1;
          },
        )
        else (negsuc 0, c))
    else (negsuc 1, c)

-- the code of a post that is kept for later: an error that is not the server's refusal
unfoldable pub is_kept : ℤ → Bool
is_kept res = not (is_zero res) && (ltb_ℤ res (pos 200) || not (ltb_ℤ res (pos 500)))

module _ {W : Type 0} (send : Bytes → W → ℤ × W) where
  -- the body of the loop of `influxdb_deQueue` for the first row, and `more` for the later rounds
  pub deliver : InfluxClient → List (Option Bytes) → W → (InfluxClient → W → Outcome W) → Outcome W
  deliver c [] w more = none
  deliver c (row ∷ rows) w more = elim (row_text row) [
    | none ↦ none
    | some text ↦
        let (res, w') = send text w in
        if is_zero res
        then more (record c { first_entry = rows; num_entries_queued = c.num_entries_queued - 1 })
            w'
        else some (negsuc 0, c, w')
  ]

  -- the `do … while` of `influxdb_deQueue`: `left` is INFLUX_DEQUEUE_AT_ONCE - numDequeued
  pub de_queue_loop : ℕ → ℕ → InfluxClient → W → Outcome W
  unfolding deliver
  de_queue_loop zero num_dequeued c w = some (pos num_dequeued, c, w)
  de_queue_loop (suc left) num_dequeued c w = deliver c c.first_entry w (λ c' w'.
      elim (c'.num_entries_queued == 0) [
        | true ↦ some (pos (num_dequeued + 1), c', w')
        | false ↦ de_queue_loop left (num_dequeued + 1) c' w'
      ])

  -- `influxdb_deQueue`
  unfoldable pub de_queue : InfluxClient → W → Outcome W
  unfolding de_queue_loop
  de_queue c w =
      if c.num_entries_queued == 0
      then some (pos 0, c, w)
      else de_queue_loop influx_dequeue_at_once 0 c w

  -- a call of `influxdb_deQueue` for its effect, before `code` is returned
  pub flush : ℤ → InfluxClient → W → Outcome W
  unfolding de_queue
  flush code c w = Option.map (λ r. (code, r.1, r.2)) (de_queue c w)

  -- one post, and one more if the first returned -1
  pub send_twice : Bytes → W → ℤ × W
  send_twice text w =
      let (res, w') = send text w in if eqb_ℤ res (negsuc 0) then send text w' else (res, w')

  -- `influxdb_post_http_line`, behind its posts
  pub settle : (ℕ → Bool) → ℤ → InfluxClient → W → Outcome W
  unfolding flush
  settle alloc res c w =
      if is_kept res
      then (let (queued, c') = add_to_queue alloc c in
          if ltb_ℤ queued (pos 0)
          then some (res, free_client_buffer c', w)
          else some (res, free_client_buffer (forget_buffer c'), w))
      else flush res (free_client_buffer c) w

  -- `influxdb_post_http_line`
  unfoldable pub post_http_line : (ℕ → Bool) → InfluxClient → W → Outcome W
  unfolding send_twice settle
  post_http_line alloc c w = elim (row_text c.influx_buf) [
    | none ↦ none
    | some text ↦ let (res, w') = send_twice text w in settle alloc res c w'
  ]

  -- `influxdb_post_http` behind the formatting, which has returned 0: that is the length it posts
  pub post_formatted : (ℕ → Bool) → InfluxClient → W → Outcome W
  unfolding de_queue
  post_formatted alloc c w =
      let retried = (λ (res : ℤ). not (is_zero res) && ltb_ℤ res (pos 400)) in
      let (first, w₁) = send [] w in
      let (res, w₂) = if retried first then send [] w₁ else (first, w₁) in
      if retried res
      then some (res, free_client_buffer (forget_buffer (add_to_queue alloc c).1), w₂)
      else Option.map (λ r. (res, free_client_buffer r.1, r.2)) (de_queue c w₂)

  -- `influxdb_post_http`
  unfoldable pub post_http :
      {D : Type 0} → (ℕ → Bool) → (ℤ → D → Bytes) → ℤ → List (Arg D) → InfluxClient → W → Outcome W
  unfolding post_formatted
  post_http alloc print_float now args c w = elim (format_line alloc print_float now args c.line) [
    | ok l ↦ post_formatted alloc (with_line c l) w
    | ret code l ↦ let (_, w') = send [] w in some (pos 0, with_line c l, w')
    | fault ↦ none
  ]

  -- `influxdb_post_deInit`: `while (influxdb_deQueue (c) > 0)`, on fuel; `none` also if it runs out
  unfoldable pub de_init : ℕ → InfluxClient → W → Outcome W
  unfolding de_queue
  de_init zero c w = none
  de_init (suc fuel) c w = elim (de_queue c w) [
    | none ↦ none
    | some (res, c', w') ↦ elim (ltb_ℤ (pos 0) res) [
      | true ↦ de_init fuel c' w'
      | false ↦ some (pos 0, c', w')
    ]
  ]
