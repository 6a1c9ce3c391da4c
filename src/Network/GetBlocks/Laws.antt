-- ===== src/Network/GetBlocks/Laws.antt =====
-- A locator is read back from its bytes, and only from these.
use forgechain.Prelude.{
  ℕ, zero, suc, ◌+◌, ◌*◌, ◌%◌, ◌^◌, ◌≤◌, ◌<◌, ◌≡◌, refl, sym, ap, ◌∙◌, subst, Bool-cases, inl, inr,
  some, List, [], ◌∷◌, ◌++◌, Bytes, All, length, take, drop, length-append, take-append,
  drop-append, take-append-drop, length-take, ltb, arith,
}
use forgechain.Core.Wire.{to_le}
use forgechain.Core.Wire.Laws.{IsBytes, length-to_le, read_uint-append, taken, read_uint-step}
use forgechain.Network.GetBlocks.{
  max_locator_hashes, concat, serialize_getblocks, read_hashes, locator_of, deserialize_getblocks,
}

abbrev pub IsHash : Bytes → Type 0
IsHash hash = length hash ≡ 32

-- A locator that a GETBLOCKS message can carry.
pub record Fits (locator : List Bytes) : Type 0 where
  pub count : length locator ≤ max_locator_hashes
  pub hashes : All IsHash locator

pub length-concat :
    (hashes : List Bytes) → All IsHash hashes → length (concat hashes) ≡ length hashes * 32
unfolding concat
length-concat [] h = refl
length-concat (hash ∷ hashes) (h, hs) =
    omega (arith, length-append hash (concat hashes), length-concat hashes hs)

read_hashes-concat :
    (hashes : List Bytes) → All IsHash hashes → read_hashes (length hashes) (concat hashes) ≡ hashes
unfolding read_hashes concat
read_hashes-concat [] h = refl
read_hashes-concat (hash ∷ hashes) (h, hs) =
    let front : take 32 (hash ++ concat hashes) ≡ hash =
      subst (λ n. take n (hash ++ concat hashes) ≡ hash) h (take-append hash (concat hashes)) in
    let back : drop 32 (hash ++ concat hashes) ≡ concat hashes =
      subst (λ n. drop n (hash ++ concat hashes) ≡ concat hashes) h
        (drop-append hash (concat hashes)) in
    rw (front, back, read_hashes-concat hashes hs)

-- A locator with at most 1028 hashes of 32 bytes is read back from its bytes.
pub deserialize-serialize_getblocks :
    (locator : List Bytes)
    → Fits locator
    → deserialize_getblocks (serialize_getblocks locator) ≡ some locator
unfolding deserialize_getblocks serialize_getblocks locator_of
deserialize-serialize_getblocks locator h =
    let small : length locator % 2 ^ 32 ≡ length locator = omega (arith, h.count) in
    let size : length (to_le 4 (length locator) ++ concat locator) ≡ length locator * 32 + 4 =
      omega (
        arith,
        length-append (to_le 4 (length locator)) (concat locator),
        length-to_le 4 (length locator),
        length-concat locator h.hashes,
      ) in
    let wide : length locator < 256 ^ 4 = omega (arith, h.count) in
    rw (small, read_uint-append 4 (length locator) (concat locator) wide)
      (ground (arith, h.count, read_hashes-concat locator h.hashes))

pub drop_size :
    (n k : ℕ) (bs : Bytes) → length bs ≡ n + k → (length (take n bs) ≡ n) × (length (drop n bs) ≡ k)
drop_size n k bs h =
    let whole : length (take n bs) + length (drop n bs) ≡ length bs =
      sym (length-append (take n bs) (drop n bs)) ∙ ap length (take-append-drop n bs) in
    let front : length (take n bs) ≡ n = length-take n bs (omega arith) in (front, omega arith)

read_hashes-inverse :
    (n : ℕ) (bs : Bytes)
    → length bs ≡ n * 32
    → (concat (read_hashes n bs) ≡ bs)
      × All IsHash (read_hashes n bs)
      × (length (read_hashes n bs) ≡ n)
unfolding read_hashes concat
read_hashes-inverse zero [] h = (refl, tt, refl)
read_hashes-inverse zero (b ∷ bs) h = absurd (omega arith)
read_hashes-inverse (suc n) bs h =
    let (front, back) = drop_size 32 (n * 32) bs (omega arith) in
    let (e, hs, counted) = read_hashes-inverse n (drop 32 bs) back in
    (rw e (take-append-drop 32 bs), (front, hs), ap suc counted)

-- What the tests on the count let through.
locator_of-eq-some :
    (payload : Bytes) (count : ℕ) (bs : Bytes) {locator : List Bytes}
    → locator_of payload count bs ≡ some locator
    → (count ≤ max_locator_hashes)
      × (length payload ≡ count * 32 + 4)
      × (read_hashes count bs ≡ locator)
unfolding locator_of
locator_of-eq-some payload count bs h = elim (Bool-cases (ltb max_locator_hashes count)) [
  | inl many ↦ ground arith
  | inr few ↦ ground arith
]

-- Bytes that are read as a locator are that locator's bytes, and it has at most 1028 hashes of 32
-- bytes.
pub deserialize_getblocks-canonical :
    (payload : Bytes) (locator : List Bytes)
    → IsBytes payload
    → deserialize_getblocks payload ≡ some locator
    → (payload ≡ serialize_getblocks locator) × Fits locator
unfolding deserialize_getblocks serialize_getblocks
deserialize_getblocks-canonical payload locator bytes h =
    elim (read_uint-step 4 payload _ bytes h) [
      | taken count bs split left fits next ↦
          let (few, size, found) = locator_of-eq-some payload count bs next in
          let counted : length bs ≡ count * 32 = omega (
            arith,
            ap length split,
            length-append (to_le 4 count) bs,
            length-to_le 4 count,
            size,
          ) in
          let (e, hs, n) = read_hashes-inverse count bs counted in
          let small : count % 2 ^ 32 ≡ count = omega (arith, few) in
          subst (λ l. (payload ≡ to_le 4 (length l % 2 ^ 32) ++ concat l) × Fits l) found
            (rw (n, small, e) split, record { count = rw n few; hashes = hs })
    ]
