-- ===== src/Network/PeerAddress/Laws.antt =====
-- A list of peers is read back from its bytes, and only from these.
use mathlib.Core.Option.{some-injective}
use mathlib.Core.List.{append_assoc, append-nil}
use forgechain.Prelude.{
  ℕ, zero, suc, ◌+◌, ◌%◌, ◌^◌, ◌<◌, ◌≡◌, ◌↔◌, refl, ap, subst, true, some, List, [], ◌∷◌, ◌++◌,
  Bytes, bytes_eq_iff, length, length-append, All, arith,
}
use forgechain.Core.Wire.{to_le, write_field}
use forgechain.Core.Wire.Laws.{
  IsBytes, read_uint-append, read_field-append, read_field-write_field, taken, read_uint-step,
  read_field-step, at_end-eq-some, >>=-eq-some, length-to_le,
}
use forgechain.Network.PeerAddress.{
  PeerAddress, same_address, serialize_peer_address, deserialize_peer_address, serialize_addresses,
  serialize_peer_list, read_addresses, deserialize_peer_list,
}

pub same_address_iff : (a b : PeerAddress) → (same_address a b ≡ true) ↔ (a ≡ b)
unfolding same_address
same_address_iff a b = ground (arith, bytes_eq_iff a.host b.host)

-- A 16-bit port, and a host whose bytes with the port and the length fit a 32-bit length.
pub record AddressFits (a : PeerAddress) : Type 0 where
  pub port : a.port < 2 ^ 16
  pub host : IsBytes a.host
  pub size : length (serialize_peer_address a) < 2 ^ 32

pub record Fits (addresses : List PeerAddress) : Type 0 where
  pub count : length addresses < 2 ^ 32
  pub each : All AddressFits addresses

length-serialize_peer_address :
    (a : PeerAddress) → length (serialize_peer_address a) ≡ 6 + length a.host
unfolding serialize_peer_address write_field
length-serialize_peer_address a = omega (
  arith,
  length-append (to_le 2 a.port) (to_le 4 (length a.host % 2 ^ 32) ++ a.host),
  length-append (to_le 4 (length a.host % 2 ^ 32)) a.host,
  length-to_le,
)

deserialize-serialize_peer_address :
    (a : PeerAddress) → AddressFits a → deserialize_peer_address (serialize_peer_address a) ≡ some a
unfolding deserialize_peer_address serialize_peer_address
deserialize-serialize_peer_address a h =
    let short : length a.host < 2 ^ 32 = omega (arith, h.size, length-serialize_peer_address a) in
    rw (read_uint-append 2 a.port (write_field a.host) h.port, read_field-write_field a.host short)

read_addresses-append :
    (addresses : List PeerAddress) (rest : Bytes)
    → All AddressFits addresses
    → read_addresses (length addresses) (serialize_addresses addresses ++ rest)
      ≡ some (addresses, rest)
unfolding read_addresses serialize_addresses
read_addresses-append [] rest h = refl
read_addresses-append (a ∷ as') rest (h, hs) = rw (
  append_assoc,
  read_field-append (serialize_peer_address a) _ h.size,
  deserialize-serialize_peer_address a h,
  read_addresses-append as' rest hs,
)

-- A list of peers whose fields fit is read back from its bytes.
pub deserialize-serialize_peer_list :
    (addresses : List PeerAddress)
    → Fits addresses
    → deserialize_peer_list (serialize_peer_list addresses) ≡ some addresses
unfolding deserialize_peer_list serialize_peer_list
deserialize-serialize_peer_list addresses h =
    let small : length addresses % 2 ^ 32 ≡ length addresses = omega (arith, h.count) in
    let all : read_addresses (length addresses) (serialize_addresses addresses)
        ≡ some (addresses, []) =
      subst (λ t. read_addresses (length addresses) t ≡ some (addresses, []))
        (append-nil (serialize_addresses addresses)) (read_addresses-append addresses [] h.each) in
    rw (small, read_uint-append 4 (length addresses) _ h.count, all)

deserialize_peer_address-canonical :
    (payload : Bytes) (a : PeerAddress)
    → IsBytes payload
    → length payload < 2 ^ 32
    → deserialize_peer_address payload ≡ some a
    → (payload ≡ serialize_peer_address a) × AddressFits a
unfolding deserialize_peer_address serialize_peer_address
deserialize_peer_address-canonical payload a bytes size h =
    elim (read_uint-step 2 payload _ bytes h) [
      | taken port r1 s1 h1 f1 k1 ↦ elim (read_field-step r1 _ h1 k1) [
        | taken host r2 s2 h2 f2 k2 ↦
            let (done, found) = at_end-eq-some r2 _ k2 in
            let whole : payload ≡ to_le 2 port ++ write_field host =
              rw (s1, s2, done, append-nil) in
            subst (λ a. (payload ≡ to_le 2 a.port ++ write_field a.host) × AddressFits a) found
              (
                whole,
                record { port = f1; host = f2.1; size = subst (λ t. length t < 2 ^ 32) whole size },
              )
      ]
    ]

read_addresses-inverse :
    (n : ℕ) (rest : Bytes) (p : List PeerAddress × Bytes)
    → IsBytes rest
    → read_addresses n rest ≡ some p
    → (rest ≡ serialize_addresses p.0 ++ p.1) × (length p.0 ≡ n) × All AddressFits p.0
unfolding read_addresses serialize_addresses
read_addresses-inverse zero rest p bytes h =
    subst (λ q. (rest ≡ serialize_addresses q.0 ++ q.1) × (length q.0 ≡ 0) × All AddressFits q.0)
      (some-injective _ _ h) (refl, refl, tt)
read_addresses-inverse (suc n) rest p bytes h = elim (read_field-step rest _ bytes h) [
  | taken entry r1 s1 h1 f1 k1 ↦
      let (a, e2, k2) = >>=-eq-some (deserialize_peer_address entry) _ k1 in
      let (s2, f2) = deserialize_peer_address-canonical entry a f1.1 f1.0 e2 in
      let (q, e3, k3) = >>=-eq-some (read_addresses n r1) _ k2 in
      let (s3, n3, f3) = read_addresses-inverse n r1 q h1 e3 in
      subst
        (λ q. (rest ≡ serialize_addresses q.0 ++ q.1) × (length q.0 ≡ suc n) × All AddressFits q.0)
        (some-injective _ _ k3) (rw (append_assoc, ← s2, ← s3) s1, ap suc n3, (f2, f3))
]

-- Bytes that are read as a list of peers are that list's bytes.
pub deserialize_peer_list-canonical :
    (payload : Bytes) (addresses : List PeerAddress)
    → IsBytes payload
    → deserialize_peer_list payload ≡ some addresses
    → (payload ≡ serialize_peer_list addresses) × Fits addresses
unfolding deserialize_peer_list serialize_peer_list
deserialize_peer_list-canonical payload addresses bytes h =
    elim (read_uint-step 4 payload _ bytes h) [
      | taken count bs split left fits next ↦
          let (q, e, k) = >>=-eq-some (read_addresses count bs) _ next in
          let (s, n, f) = read_addresses-inverse count bs q left e in
          let (done, found) = at_end-eq-some q.1 _ k in
          let small : count % 2 ^ 32 ≡ count = omega arith in
          subst (λ l. (payload ≡ to_le 4 (length l % 2 ^ 32) ++ serialize_addresses l) × Fits l)
            found
            (
              rw (n, small) (rw (s, done, append-nil) at split),
              record { count = rw n fits; each = f },
            )
    ]
