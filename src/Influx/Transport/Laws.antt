-- ===== src/Influx/Transport/Laws.antt =====
-- The URL that `changeTransportProto` makes has the protocol, and fits the block for it.
use mathlib.Core.Option.{some-injective}
use emmbus2influx.Base.{
  ◌≡◌, refl, sym, ap, Bool, true, false, none, some, ◌++◌, Bytes, codes, arith, same_text,
}
use emmbus2influx.Influx.Transport.{
  TransportProto, proto_http, proto_https, proto_ws, proto_wss, proto_none, proto_unknown,
  protocols_str, behind_separator, find_separator, proto_of, lower, get_transport_proto, same_proto,
  new_url, change_transport_proto,
}

same_proto_lem : (t u : TransportProto) → same_proto t u ≡ true → u ≡ t
unfolding same_proto
same_proto_lem proto_http proto_http h = refl
same_proto_lem proto_https proto_https h = refl
same_proto_lem proto_ws proto_ws h = refl
same_proto_lem proto_wss proto_wss h = refl
same_proto_lem proto_none proto_none h = refl
same_proto_lem proto_unknown proto_unknown h = refl
same_proto_lem _ _ h = ground arith

-- a protocol's name, `://` and any text are read as that protocol
named-proto :
    (t : TransportProto) (name rest : Bytes)
    → protocols_str t ≡ some name
    → get_transport_proto (name ++ (codes "://" ++ rest)) ≡ t
unfolding get_transport_proto find_separator behind_separator proto_of lower same_text
named-proto proto_http name rest h =
    ap (λ (n : Bytes). get_transport_proto (n ++ (codes "://" ++ rest)))
      (sym (some-injective _ _ h))
named-proto proto_https name rest h =
    ap (λ (n : Bytes). get_transport_proto (n ++ (codes "://" ++ rest)))
      (sym (some-injective _ _ h))
named-proto proto_ws name rest h =
    ap (λ (n : Bytes). get_transport_proto (n ++ (codes "://" ++ rest)))
      (sym (some-injective _ _ h))
named-proto proto_wss name rest h =
    ap (λ (n : Bytes). get_transport_proto (n ++ (codes "://" ++ rest)))
      (sym (some-injective _ _ h))
named-proto proto_none name rest h = ground arith
named-proto proto_unknown name rest h = ground arith

-- the text of the URL that stays
abbrev behind : Bytes → Bytes
behind url = elim (find_separator url) [ none ↦ url | some r ↦ r.1 ]

-- For a protocol that has a name, whatever the URL is, `changeTransportProto` returns the protocol
-- that is asked for, and `getTransportProto` reads it from the URL that it leaves.
pub change_transport_proto-Read :
    (t : TransportProto) (name url : Bytes)
    → protocols_str t ≡ some name
    → ((change_transport_proto url t).0 ≡ t)
      × (get_transport_proto (change_transport_proto url t).1 ≡ t)
unfolding change_transport_proto get_transport_proto
change_transport_proto-Read t name url h = go (same_proto t (get_transport_proto url)) refl
  where
    go :
        (b : Bool)
        → same_proto t (get_transport_proto url) ≡ b
        → ((change_transport_proto url t).0 ≡ t)
          × (get_transport_proto (change_transport_proto url t).1 ≡ t)
    go true same = rw (change_transport_proto, h, same) (refl, same_proto_lem t _ same)
    go false other =
        rw (change_transport_proto, h, other, new_url) (refl, named-proto t name (behind url) h)
