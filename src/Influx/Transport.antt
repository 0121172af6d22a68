-- ===== src/Influx/Transport.antt =====
-- The protocol of a URL: `getTransportProto` and `changeTransportProto` of
-- influxdb-post/influxdb-post.c.
pub mod Fits
pub mod Laws
use mathlib.Core.Option
use emmbus2influx.Base.{
  ℕ, ◌+◌, ◌-◌, ◌==◌, ◌&&◌, Bool, true, false, Option, none, some, List, [], ◌∷◌, ◌++◌, leb, length,
  if◌then◌else◌, Bytes, codes, same_text,
}

-- `transport_proto_t`
pub data TransportProto : Type 0 where
  proto_http proto_https proto_ws proto_wss proto_none proto_unknown : TransportProto

-- `protocolsStr` and `protoPrefixLen`
abbrev pub protocols_str : TransportProto → Option Bytes
protocols_str proto_http = some (codes "http")
protocols_str proto_https = some (codes "https")
protocols_str proto_ws = some (codes "ws")
protocols_str proto_wss = some (codes "wss")
protocols_str proto_none = none
protocols_str proto_unknown = none

abbrev pub proto_prefix_len : TransportProto → ℕ
proto_prefix_len proto_http = 4
proto_prefix_len proto_https = 5
proto_prefix_len proto_ws = 2
proto_prefix_len proto_wss = 3
proto_prefix_len proto_none = 0
proto_prefix_len proto_unknown = 0

-- what is behind `://`, if the text begins with it
unfoldable pub behind_separator : Bytes → Option Bytes
behind_separator (a ∷ b ∷ c ∷ rest) =
    if a == b':' && (b == b'/' && c == b'/') then some rest else none
behind_separator _ = none

-- `strstr (url, "://")`: the text before it and the text behind it
unfoldable pub find_separator : Bytes → Option (Bytes × Bytes)
unfolding behind_separator
find_separator [] = none
find_separator (c ∷ cs) =
    let later = Option.map (λ (r : Bytes × Bytes). (c ∷ r.0, r.1)) (find_separator cs) in
    elim (behind_separator (c ∷ cs)) [ some rest ↦ some ([], rest) | none ↦ later ]

-- `tolower`, and `strncasecmp` on texts of one length
abbrev pub to_lower : ℕ → ℕ
to_lower c = if leb b'A' c && leb c b'Z' then c + 32 else c

unfoldable pub lower : Bytes → Bytes
lower [] = []
lower (c ∷ cs) = to_lower c ∷ lower cs

-- the loop over `protocolsStr`
unfoldable pub proto_of : Bytes → TransportProto
unfolding lower
proto_of prefix =
    if same_text (lower prefix) (codes "http")
    then proto_http
    else if same_text (lower prefix) (codes "https")
    then proto_https
    else if same_text (lower prefix) (codes "ws")
    then proto_ws
    else if same_text (lower prefix) (codes "wss")
    then proto_wss
    else proto_none

-- `getTransportProto` of a URL that is not NULL
unfoldable pub get_transport_proto : Bytes → TransportProto
unfolding find_separator proto_of
get_transport_proto url = elim (find_separator url) [ none ↦ proto_unknown | some r ↦ proto_of r.0 ]

unfoldable pub same_proto : TransportProto → TransportProto → Bool
same_proto proto_http proto_http = true
same_proto proto_https proto_https = true
same_proto proto_ws proto_ws = true
same_proto proto_wss proto_wss = true
same_proto proto_none proto_none = true
same_proto proto_unknown proto_unknown = true
same_proto _ _ = false

-- the size that is given to `malloc` for the new URL
unfoldable pub new_size : Bytes → TransportProto → TransportProto → ℕ
new_size url old t =
    let size = length url - proto_prefix_len old + proto_prefix_len t + 1 in
    let extra : ℕ = elim old [ proto_none ↦ 4 | proto_unknown ↦ 8 | _ ↦ 0 ] in size + extra + 1

-- the new URL for the name of a protocol
unfoldable pub new_url : Bytes → Bytes → Bytes
unfolding find_separator
new_url name url =
    let rest : Bytes = elim (find_separator url) [ none ↦ url | some r ↦ r.1 ] in
    name ++ (codes "://" ++ rest)

-- `changeTransportProto`, for an allocation that succeeds: its result and the URL
unfoldable pub change_transport_proto : Bytes → TransportProto → TransportProto × Bytes
unfolding same_proto get_transport_proto new_url
change_transport_proto url t = elim (protocols_str t) [
  | none ↦ (proto_unknown, url)
  | some name ↦ if same_proto t (get_transport_proto url) then (t, url) else (t, new_url name url)
]
