-- ===== src/Consensus/Target/Bound.antt =====
-- `meets_target` read as a bound on the hash as a number, its first byte the most significant.
use forgechain.Prelude.{
  ℕ, zero, suc, ◌+◌, ◌*◌, ◌-◌, ◌^◌, ◌<◌, ◌≤◌, ◌≡◌, ◌⊎◌, inl, inr, Bool, true, false, refl, ap, ◌&&◌,
  [], ◌∷◌, length, All, Bytes, ltb, leb, ◌==◌, arith, Bool-cases, ==→eq, ltb→lt, ltb→le, ◌∙◌, ◌/◌,
}
use forgechain.Prelude.Powers.{pow-eight, pow-byte, pow-pos, pow-split}
use native.Mathlib.Nat.{mul-le-mul_left, pow-le-pow_right, mul-lt-mul_of_pos_right, pow-succ'}
use forgechain.Consensus.Target.{scan_byte, scan_bytes, meets_target}

-- The number that a hash is.
unfoldable pub value : Bytes → ℕ
value [] = 0
value (byte ∷ hash) = byte * 2 ^ (8 * length hash) + value hash

-- What the leading zeros of a byte must be.
abbrev zeros_fit : ℕ → ℕ → Bool → Bool
zeros_fit byte lead true =
    leb ((byte + 1) * 2 ^ lead) 256 && leb 256 (byte * 2 ^ lead * 2) && ltb lead 8
zeros_fit byte lead false = lead == 8 && byte == 0

abbrev is_scanned : ℕ → Bool
is_scanned byte = zeros_fit byte (scan_byte 8 byte 0x80 0).0 (scan_byte 8 byte 0x80 0).1

abbrev all_below : ℕ → (ℕ → Bool) → Bool
all_below zero _ = true
all_below (suc n) test = test n && all_below n test

all_below-lt : (n : ℕ) (test : ℕ → Bool) (i : ℕ) → all_below n test ≡ true → i < n → test i ≡ true
all_below-lt zero test i all h = absurd (omega arith)
all_below-lt (suc n) test i all h = elim (Bool-cases (all_below n test)) [
  | inl e ↦ elim (Bool-cases (i == n)) [
    | inl same ↦ ground (arith, ap test (==→eq i n same))
    | inr other ↦ all_below-lt n test i e (ground arith)
  ]
  | inr e ↦ absurd (ground arith)
]

bytes_scanned : all_below 256 is_scanned ≡ true
unfolding scan_byte
bytes_scanned = refl

-- The count so far is only added to.
scan_byte-lead :
    (rounds byte mask result : ℕ)
    → (scan_byte rounds byte mask result).0 ≡ result + (scan_byte rounds byte mask 0).0
unfolding scan_byte
scan_byte-lead zero byte mask result = ground arith
scan_byte-lead (suc rounds) byte mask result = ground (
  arith,
  scan_byte-lead rounds byte (mask / 2) (result + 1),
  scan_byte-lead rounds byte (mask / 2) 1,
)

scan_byte-found :
    (rounds byte mask result : ℕ)
    → (scan_byte rounds byte mask result).1 ≡ (scan_byte rounds byte mask 0).1
unfolding scan_byte
scan_byte-found zero byte mask result = refl
scan_byte-found (suc rounds) byte mask result = ground (
  arith,
  scan_byte-found rounds byte (mask / 2) (result + 1),
  scan_byte-found rounds byte (mask / 2) 1,
)

-- A byte is 0, with eight zeros counted, or has its highest one after its zeros.
data Scanned (byte result : ℕ) : Type 0 where
  blank : byte ≡ 0 → scan_byte 8 byte 0x80 result ≡ (result + 8, false) → Scanned byte result
  marked :
      (lead : ℕ)
      → scan_byte 8 byte 0x80 result ≡ (result + lead, true)
      → (byte + 1) * 2 ^ lead ≤ 256
      → 256 ≤ byte * 2 ^ lead * 2
      → lead < 8
      → Scanned byte result

pair_eq : {p : ℕ × Bool} {a : ℕ} {b : Bool} → p.0 ≡ a → p.1 ≡ b → p ≡ (a, b)
pair_eq h k = cc

zeros_fit-Scanned :
    (byte result lead : ℕ) (found : Bool)
    → zeros_fit byte lead found ≡ true
    → scan_byte 8 byte 0x80 result ≡ (result + lead, found)
    → Scanned byte result
zeros_fit-Scanned byte result lead true h scanned =
    marked lead scanned (ground arith) (ground arith) (ground arith)
zeros_fit-Scanned byte result lead false h scanned = blank (ground arith) (ground arith)

scan_byte-Scanned : (byte result : ℕ) → byte < 256 → Scanned byte result
scan_byte-Scanned byte result h =
    zeros_fit-Scanned byte result (scan_byte 8 byte 0x80 0).0 (scan_byte 8 byte 0x80 0).1
      (all_below-lt 256 is_scanned byte bytes_scanned h)
      (pair_eq (scan_byte-lead 8 byte 0x80 result) (scan_byte-found 8 byte 0x80 result))

scan_bytes-blank :
    (byte : ℕ) (hash : Bytes) (result : ℕ)
    → scan_byte 8 byte 0x80 result ≡ (result + 8, false)
    → scan_bytes (byte ∷ hash) result ≡ scan_bytes hash (result + 8)
unfolding scan_bytes
scan_bytes-blank byte hash result h = rw (h, scan_bytes) refl

scan_bytes-marked :
    (byte : ℕ) (hash : Bytes) (result lead : ℕ)
    → scan_byte 8 byte 0x80 result ≡ (result + lead, true)
    → scan_bytes (byte ∷ hash) result ≡ result + lead
unfolding scan_bytes
scan_bytes-marked byte hash result lead h = rw (h, scan_bytes) refl

blank_times : (byte w v t : ℕ) → byte ≡ 0 → (byte * w + v) * (256 * t) ≡ 256 * (v * t)
blank_times byte w v t h = rw h (omega arith)

times_fits : (v w t : ℕ) → 0 < t → v * t < w → v < w
times_fits v w t pos h = omega (arith, mul-le-mul_left v pos)

marked_fits : (byte w v t : ℕ) → v < w → 0 < t → (byte + 1) * t ≤ 256 → (byte * w + v) * t < 256 * w
marked_fits byte w v t small pos fits =
    let below : byte * w + v < (byte + 1) * w = omega arith in
    let times = mul-lt-mul_of_pos_right below pos in
    let all = mul-le-mul_left w fits in omega (arith, times, all)

marked_whole : (byte w v t : ℕ) → 256 ≤ byte * t * 2 → 256 * w ≤ (byte * w + v) * t * 2
marked_whole byte w v t whole = let all = mul-le-mul_left w whole in omega (arith, all)

scan_bytes-lead :
    (hash : Bytes) (result : ℕ)
    → All (λ byte. byte < 256) hash
    → (z : ℕ) × (scan_bytes hash result ≡ result + z)
      × (z ≤ 8 * length hash)
      × (value hash * 2 ^ z < 2 ^ (8 * length hash))
      × ((z ≡ 8 * length hash) ⊎ (2 ^ (8 * length hash) ≤ value hash * 2 ^ z * 2))
unfolding scan_bytes value
scan_bytes-lead [] result all = (0, omega arith, omega arith, omega arith, inl refl)
scan_bytes-lead (byte ∷ hash) result (small, all) = elim (scan_byte-Scanned byte result small) [
  | blank is_zero scanned ↦
      let (z, counted, le, fits, whole) = scan_bytes-lead hash (result + 8) all in
      let grown = pow-byte (length hash) in
      let times = pow-eight z in
      let blank = blank_times byte (2 ^ (8 * length hash)) (value hash) (2 ^ z) is_zero in
      (
        8 + z,
        scan_bytes-blank byte hash result scanned ∙ counted ∙ omega arith,
        omega arith,
        rw (grown, times) (omega (arith, blank)),
        elim whole [
          | inl h ↦ inl (omega arith)
          | inr h ↦ inr (rw (grown, times) (omega (arith, blank)))
        ],
      )
  | marked lead scanned fits whole few ↦
      let (z, _, _, fits', _) = scan_bytes-lead hash 0 all in
      let grown = pow-byte (length hash) in
      let v = value hash in
      let less : v < 2 ^ (8 * length hash) = times_fits v _ (2 ^ z) (pow-pos z) fits' in
      (
        lead,
        scan_bytes-marked byte hash result lead scanned,
        omega arith,
        omega
            (arith, marked_fits byte (2 ^ (8 * length hash)) v (2 ^ lead) less (pow-pos lead) fits),
        inr (omega (arith, marked_whole byte (2 ^ (8 * length hash)) v (2 ^ lead) whole)),
      )
]

enough_below : (v n d z : ℕ) → d ≤ n → d ≤ z → v * 2 ^ z < 2 ^ n → v < 2 ^ (n - d)
enough_below v n d z le enough fits = elim (Bool-cases (ltb v (2 ^ (n - d)))) [
  | inl e ↦ ltb→lt v (2 ^ (n - d)) e
  | inr e ↦
      let big = mul-le-mul_left (2 ^ d) (ltb→le v (2 ^ (n - d)) e) in
      let more = mul-le-mul_left v (pow-le-pow_right {n = 2} (omega arith) enough) in
      absurd (omega (arith, big, more, pow-split d n le))
]

below_enough : (v n d z : ℕ) → d ≤ n → (z ≡ n) ⊎ (2 ^ n ≤ v * 2 ^ z * 2) → v < 2 ^ (n - d) → d ≤ z
below_enough v n d z le whole below = elim (Bool-cases (ltb z d)) [
  | inr e ↦ ltb→le z d e
  | inl e ↦
      let up : suc z ≤ d = ltb→lt z d e in
      elim whole [
        | inl h ↦ absurd (omega arith)
        | inr h ↦
            let more = mul-le-mul_left v (pow-le-pow_right {n = 2} (omega arith) up) in
            let small = mul-lt-mul_of_pos_right below (pow-pos d) in
            absurd
              (omega (arith, h, more, small, pow-split d n le, ap (λ k. v * k) (pow-succ' 2 z)))
      ]
]

-- For a hash of bytes and a difficulty of at most its bits, `meets_target` says yes just when the
-- hash, read as a number with its first byte the most significant, is below `2 ^ (bits - difficulty)`.
pub meets_target_iff :
    (hash : Bytes) (difficulty : ℕ)
    → All (λ byte. byte < 256) hash
    → difficulty ≤ 8 * length hash
    → (meets_target hash difficulty ≡ true → value hash < 2 ^ (8 * length hash - difficulty))
      × (value hash < 2 ^ (8 * length hash - difficulty) → meets_target hash difficulty ≡ true)
unfolding meets_target
meets_target_iff hash difficulty all le =
    let (z, counted, _, fits, whole) = scan_bytes-lead hash 0 all in
    let n = 8 * length hash in
    (
      λ met. enough_below (value hash) n difficulty z le (ground arith) fits,
      λ below. ground (arith, below_enough (value hash) n difficulty z le whole below),
    )
