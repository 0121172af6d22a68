-- ===== src/Influx/Transport/Fits.antt =====
-- The block that `changeTransportProto` allocates holds the new URL.
use mathlib.Core.Option.{some-injective, some-ne-none}
use emmbus2influx.Base.{
  ℕ, suc, ◌+◌, ◌≤◌, ◌==◌, ◌&&◌, ◌≡◌, refl, sym, ap, Bool, true, false, Option, none, some, [], ◌∷◌,
  ◌++◌, length, length-append, if◌then◌else◌, Bytes, codes, arith, same_text, same_text_iff,
}
use emmbus2influx.Influx.Transport.{
  TransportProto, proto_http, proto_https, proto_ws, proto_wss, proto_none, proto_unknown,
  protocols_str, proto_prefix_len, behind_separator, find_separator, proto_of, lower,
  get_transport_proto, new_size, new_url,
}

behind_separator-length :
    (s rest : Bytes) → behind_separator s ≡ some rest → length s ≡ 3 + length rest
unfolding behind_separator
behind_separator-length [] rest h = ground arith
behind_separator-length (a ∷ []) rest h = ground arith
behind_separator-length (a ∷ b ∷ []) rest h = ground arith
behind_separator-length (a ∷ b ∷ c ∷ s) rest h = go (a == b':' && (b == b'/' && c == b'/')) refl
  where
    go :
        (t : Bool)
        → (a == b':' && (b == b'/' && c == b'/')) ≡ t
        → length (a ∷ b ∷ c ∷ s) ≡ 3 + length rest
    go true e = omega (arith, ap (λ (x : Bytes). length x) (some-injective _ _ (rw e at h)))
    go false e = ground arith

find_separator-length :
    (url : Bytes) (r : Bytes × Bytes)
    → find_separator url ≡ some r
    → length url ≡ length r.0 + (3 + length r.1)
unfolding find_separator
find_separator-length [] r h = ground arith
find_separator-length (c ∷ cs) r h =
    go (find_separator-length cs) (behind_separator (c ∷ cs)) refl (find_separator cs) refl
  where
    go :
        ((x : Bytes × Bytes)
          → find_separator cs ≡ some x
          → length cs ≡ length x.0 + (3 + length x.1))
        → (b : Option Bytes) → behind_separator (c ∷ cs) ≡ b
        → (later : Option (Bytes × Bytes)) → find_separator cs ≡ later
        → suc (length cs) ≡ length r.0 + (3 + length r.1)
    go hs (some rest) e later e' =
        let same : length r.1 ≡ length rest =
          ap (λ (x : Bytes × Bytes). length x.1)
            (sym (some-injective ([], rest) r (rw (find_separator, e) at h))) in
        let first : length r.0 ≡ 0 =
          ap (λ (x : Bytes × Bytes). length x.0)
            (sym (some-injective ([], rest) r (rw (find_separator, e) at h))) in
        let all = behind_separator-length (c ∷ cs) rest e in omega arith
    go hs none e none e' = absurd (some-ne-none r (sym (rw (find_separator, e, e') at h)))
    go hs none e (some x) e' =
        let same : length r.1 ≡ length x.1 =
          ap (λ (x : Bytes × Bytes). length x.1)
            (sym (some-injective (c ∷ x.0, x.1) r (rw (find_separator, e, e') at h))) in
        let first : length r.0 ≡ suc (length x.0) =
          ap (λ (x : Bytes × Bytes). length x.0)
            (sym (some-injective (c ∷ x.0, x.1) r (rw (find_separator, e, e') at h))) in
        let all = hs x e' in omega arith

length-lower : (s : Bytes) → length (lower s) ≡ length s
unfolding lower
length-lower [] = refl
length-lower (c ∷ cs) = ap suc (length-lower cs)

same_lower-length : (s name : Bytes) → same_text (lower s) name ≡ true → length name ≤ length s
same_lower-length s name h =
    let same : length (lower s) ≡ length name =
      ap (λ (x : Bytes). length x) ((same_text_iff _ _).0 h) in
    omega (arith, length-lower s)

prefix-if :
    (n : ℕ) (b : Bool) (p q : TransportProto)
    → (b ≡ true → proto_prefix_len p ≤ n)
    → proto_prefix_len q ≤ n
    → proto_prefix_len (if b then p else q) ≤ n
prefix-if n true p q h k = h refl
prefix-if n false p q h k = k

proto_of-length : (s : Bytes) → proto_prefix_len (proto_of s) ≤ length s
unfolding proto_of
proto_of-length s = prefix-if (length s) _ _ _ (same_lower-length s (codes "http")) (
    prefix-if (length s) _ _ _ (same_lower-length s (codes "https")) (
      prefix-if (length s) _ _ _ (same_lower-length s (codes "ws"))
        (prefix-if (length s) _ _ _ (same_lower-length s (codes "wss")) (omega arith))))

named-length :
    (t : TransportProto) (name : Bytes)
    → protocols_str t ≡ some name
    → length name ≡ proto_prefix_len t
named-length proto_http name h = ap (λ (n : Bytes). length n) (sym (some-injective _ _ h))
named-length proto_https name h = ap (λ (n : Bytes). length n) (sym (some-injective _ _ h))
named-length proto_ws name h = ap (λ (n : Bytes). length n) (sym (some-injective _ _ h))
named-length proto_wss name h = ap (λ (n : Bytes). length n) (sym (some-injective _ _ h))
named-length proto_none name h = ground arith
named-length proto_unknown name h = ground arith

new_size-holds :
    (url : Bytes) (old t : TransportProto) (k rest : ℕ)
    → length url ≡ k + (3 + rest)
    → proto_prefix_len old ≤ k
    → proto_prefix_len t + 3 + rest + 1 ≤ new_size url old t
unfolding new_size
new_size-holds url proto_http t k rest whole h = omega arith
new_size-holds url proto_https t k rest whole h = omega arith
new_size-holds url proto_ws t k rest whole h = omega arith
new_size-holds url proto_wss t k rest whole h = omega arith
new_size-holds url proto_none t k rest whole h = omega arith
new_size-holds url proto_unknown t k rest whole h = omega arith

unknown-holds :
    (url : Bytes) (t : TransportProto) (name : Bytes)
    → length name ≡ proto_prefix_len t
    → length (name ++ (codes "://" ++ url)) + 1 ≤ new_size url proto_unknown t
unfolding new_size
unknown-holds url t name h = omega (arith, length-append name (codes "://" ++ url))

-- For a protocol that has a name, the new URL of `changeTransportProto` and the zero byte behind it
-- fit the block of `newSize + 1` bytes that it allocates, whatever the URL is.
pub new_url-Fits :
    (t : TransportProto) (name url : Bytes)
    → protocols_str t ≡ some name
    → length (new_url name url) + 1 ≤ new_size url (get_transport_proto url) t
unfolding new_url get_transport_proto
new_url-Fits t name url h = go (find_separator url) refl
  where
    go :
        (o : Option (Bytes × Bytes))
        → find_separator url ≡ o
        → length (new_url name url) + 1 ≤ new_size url (get_transport_proto url) t
    go none e =
        rw (new_url, get_transport_proto, e) (unknown-holds url t name (named-length t name h))
    go (some r) e =
        let holds =
          new_size-holds url (proto_of r.0) t (length r.0) (length r.1)
            (find_separator-length url r e) (proto_of-length r.0) in
        rw (new_url, get_transport_proto, e)
          (omega (arith, holds, named-length t name h, length-append name (codes "://" ++ r.1)))
