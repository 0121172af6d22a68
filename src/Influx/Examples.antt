-- ===== src/Influx/Examples.antt =====
-- Concrete runs of the sender: the buffer, the line and the queue.
use emmbus2influx.Base.{
  ℕ, suc, same_text, ◌<◌, ◌≤◌, ◌+◌, ◌≡◌, refl, Bool, true, false, Option, none, some, List, [], ◌∷◌,
  ◌++◌, arith, Bytes, codes, ℤ, pos, negsuc, ltb_ℤ, inr, ◌⊎◌, length, Ensures, ok, fault, print_int,
  print_nat, digits_fuel, contains,
}
use emmbus2influx.Influx.Buffer.{Buffer, append_to_buf, escaped_append}
use emmbus2influx.Influx.Buffer.Laws.{Holds, ExtendsString, Extends, append_to_buf-ExtendsString}
use emmbus2influx.Influx.Buffer.Escape.{escaped, escaped_append-Extends, escaped_append_overflow}
use emmbus2influx.Influx.Line.{Arg, meas, tag, field_integer, timestamp, Line, start, format_line}
use emmbus2influx.Influx.Line.Grammar.{started, write_all}
use emmbus2influx.Influx.Line.Laws.{Follows, format_line-Follows}
use emmbus2influx.Influx.Queue.{
  InfluxClient, row_size, c_string, row_text, add_to_queue, de_queue, post_http_line, post_http,
  de_init, free_client_buffer, with_line,
}
use emmbus2influx.Influx.Queue.Laws.{
  IsQueue, Returns, Dequeued, add_to_queue-IsQueue, de_queue-Dequeued,
}
use emmbus2influx.Influx.Queue.Posting.{Posted, post_http_line-Posted, post_http_drops}
use emmbus2influx.Influx.Queue.Draining.{Drained, de_init-Drained}
use emmbus2influx.Influx.Transport.{
  proto_wss, get_transport_proto, change_transport_proto, new_size, new_url,
}
use emmbus2influx.Influx.Transport.Laws.{change_transport_proto-Read}
use emmbus2influx.Influx.Transport.Fits.{new_url-Fits}

abbrev enough : ℕ → Bool
enough n = true

abbrev block_ab : Buffer
block_ab = record {
  influx_buf = some (codes "ab");
  influx_buf_used = 2;
  influx_buf_len = 4;
  last_needed_buffer_size = 256;
}

block_ab-Holds : Holds block_ab (codes "ab")
block_ab-Holds = record {
  block = codes "ab";
  owned = refl;
  used_text = refl;
  used_length = refl;
  room = omega arith;
  nonempty = omega arith;
}

append_to_buf-ExtendsString_example :
    Ensures
      (ExtendsString 4 (codes "ab" ++ codes "cdef"))
      (append_to_buf enough (codes "cdef") block_ab)
append_to_buf-ExtendsString_example =
    append_to_buf-ExtendsString enough block_ab (codes "cdef") (codes "ab") block_ab-Holds refl

escaped_append-Extends_example :
    Ensures
      (Extends 4 (codes "ab" ++ escaped (codes ", ") (codes "c d")))
      (escaped_append enough (codes "c d") (codes ", ") block_ab)
escaped_append-Extends_example =
    escaped_append-Extends enough (codes "c d") (codes ", ") block_ab (codes "ab") (λ n. refl)
      block_ab-Holds (omega arith) (omega arith)

escaped_append_overflow_example :
    escaped_append enough (codes "cdefghi") (codes ",") block_ab ≡ fault
unfolding contains
escaped_append_overflow_example =
    escaped_append_overflow enough (codes "cdefghi") (codes ",") block_ab (codes "ab") refl
      block_ab-Holds (refl, (refl, (refl, (refl, (refl, (refl, (refl, tt))))))) (λ e. ground arith)
      (omega arith)

abbrev no_digits : ℤ → ℕ → Bytes
no_digits precision d = codes "1.5"

abbrev no_line : Line
no_line = record {
  buffer = record {
    influx_buf = none;
    influx_buf_used = 0;
    influx_buf_len = 0;
    last_needed_buffer_size = 256;
  };
  last_type = 0;
}

abbrev power_args : List (Arg ℕ)
power_args =
    meas (codes "meter")
    ∷ tag (codes "id") (codes "a b")
    ∷ field_integer (codes "power") (pos 5)
    ∷ timestamp (pos 7)
    ∷ []

short_power : length (print_int (pos 5)) < 254
unfolding print_int print_nat digits_fuel
short_power = omega arith

short_time : length (print_int (pos 7)) < 254
unfolding print_int print_nat digits_fuel
short_time = omega arith

format_line-Follows_example :
    Follows []
      (write_all no_digits (pos 0) started power_args)
      (format_line enough no_digits (pos 0) power_args no_line)
format_line-Follows_example =
    format_line-Follows enough no_digits (pos 0) (λ n. refl) power_args [] started no_line
      (inr (refl, omega arith, refl, refl))
      (omega arith, ((omega arith, omega arith), ((omega arith, short_power), (short_time, tt))))

-- A server that answers with 0, and counts the posts.
abbrev accepts : Bytes → ℕ → ℤ × ℕ
accepts text w = (pos 0, suc w)

-- A server that cannot be reached.
abbrev refuses : Bytes → ℕ → ℤ × ℕ
refuses text w = (negsuc 0, suc w)

-- A connection that sends nothing.
abbrev idles : Bytes → ℕ → ℤ × ℕ
idles text w = (pos 0, w)

abbrev waiting : List (Option Bytes) → ℕ → InfluxClient
waiting rows n = record {
  line = record {
    buffer = record {
      influx_buf = some (codes "now" ++ 0 ∷ []);
      influx_buf_used = 3;
      influx_buf_len = 256;
      last_needed_buffer_size = 256;
    };
    last_type = 7;
  };
  max_num_entries_to_queue = 2;
  num_entries_queued = n;
  first_entry = rows;
}

abbrev one_row : InfluxClient
one_row = waiting (some (codes "old" ++ 0 ∷ []) ∷ []) 1

one_row-IsQueue : IsQueue one_row (codes "old" ∷ [])
unfolding row_text c_string
one_row-IsQueue = record { rows = (refl, tt); counted = refl; bounded = omega arith }

row_text_now : row_text one_row.influx_buf ≡ some (codes "now")
unfolding row_text c_string
row_text_now = refl

add_to_queue-IsQueue_example :
    let (code, c') = add_to_queue enough one_row in
    ((code ≡ pos 0) × IsQueue c' (codes "old" ∷ codes "now" ∷ []) × (c'.influx_buf ≡ none))
    ⊎ ((ltb_ℤ code (pos 0) ≡ true)
        × (c' ≡ one_row)
        × ((enough row_size ≡ false)
            ⊎ (one_row.max_num_entries_to_queue ≡ length (codes "old" ∷ []))))
add_to_queue-IsQueue_example =
    add_to_queue-IsQueue enough one_row (codes "old" ∷ []) (codes "now") one_row-IsQueue
      row_text_now

de_queue-Dequeued_example :
    Returns accepts
      (Dequeued accepts 50 0 one_row 0 (codes "old" ∷ []))
      (de_queue accepts one_row 0)
de_queue-Dequeued_example = de_queue-Dequeued accepts one_row 0 (codes "old" ∷ []) one_row-IsQueue

post_http_line-Posted_example :
    Returns refuses
      (Posted refuses enough one_row 0 (codes "now") (codes "old" ∷ []))
      (post_http_line refuses enough one_row 0)
post_http_line-Posted_example =
    post_http_line-Posted refuses enough one_row 0 (codes "now") (codes "old" ∷ []) one_row-IsQueue
      row_text_now

de_init-Drained_example :
    Returns accepts (Drained accepts 0 (codes "old" ∷ [])) (de_init accepts 2 one_row 0)
de_init-Drained_example =
    de_init-Drained accepts 2 one_row 0 (codes "old" ∷ []) one_row-IsQueue (omega arith)

no_row-IsQueue : IsQueue (waiting [] 0) []
no_row-IsQueue = record { rows = tt; counted = refl; bounded = omega arith }

abbrev meter_args : List (Arg ℕ)
meter_args = meas (codes "m") ∷ []

-- What the line is after the measurement.
abbrev begun : Line
begun = record {
  buffer = record {
    influx_buf = some (codes "now\nm");
    influx_buf_used = 5;
    influx_buf_len = 256;
    last_needed_buffer_size = 256;
  };
  last_type = 1;
}

format_meter : format_line enough no_digits (pos 0) meter_args (waiting [] 0).line ≡ ok begun
unfolding format_line start escaped_append append_to_buf contains
format_meter = refl

post_http_drops_example :
    post_http idles enough no_digits (pos 0) meter_args (waiting [] 0) 0
    ≡ some (pos 0, free_client_buffer (with_line (waiting [] 0) begun), 0)
post_http_drops_example =
    post_http_drops idles enough no_digits (pos 0) meter_args (waiting [] 0) begun 0 (λ w. refl)
      format_meter no_row-IsQueue

to_wss :
    change_transport_proto (codes "HTTP://db:86/api") proto_wss
    ≡ (proto_wss, codes "wss://db:86/api")
unfolding change_transport_proto get_transport_proto new_url same_text
to_wss = refl

change_transport_proto-Read_example :
    ((change_transport_proto (codes "http://db") proto_wss).0 ≡ proto_wss)
    × (get_transport_proto (change_transport_proto (codes "http://db") proto_wss).1 ≡ proto_wss)
change_transport_proto-Read_example =
    change_transport_proto-Read proto_wss (codes "wss") (codes "http://db") refl

new_url-Fits_example :
    length (new_url (codes "wss") (codes "http://db")) + 1
    ≤ new_size (codes "http://db") (get_transport_proto (codes "http://db")) proto_wss
new_url-Fits_example = new_url-Fits proto_wss (codes "wss") (codes "http://db") refl
