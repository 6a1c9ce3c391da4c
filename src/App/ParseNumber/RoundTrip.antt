-- ===== src/App/ParseNumber/RoundTrip.antt =====
-- Numbers that a server prints and a wallet parses.
use forgechain.Prelude.{
  ℕ, zero, suc, ◌+◌, ◌-◌, ◌*◌, ◌/◌, ◌%◌, ◌^◌, ◌<◌, ◌≡◌, refl, ◌∙◌, true, false, some, [], ◌∷◌, ◌++◌,
  Bytes, All, All-append, ltb, ◌==◌, arith, List-cases, Bool-cases, inl, inr,
}
use forgechain.Prelude.Outcome.{on_branches}
use forgechain.Prelude.Int.{pos}
use forgechain.App.RpcServer.{digits, to_string}
use forgechain.App.ParseNumber.{is_digit, value, magnitude, positive, parse_number}

abbrev AreDigits : Bytes → Type 0
AreDigits = All (λ b. is_digit b ≡ true)

digits-AreDigits : (k n : ℕ) → AreDigits (digits k n)
unfolding digits
digits-AreDigits zero n = tt
digits-AreDigits (suc k) n =
    on_branches AreDigits (ltb n 10) _ _ (λ small. (ground arith, tt))
      λ _. All-append _ (digits k (n / 10)) _ (digits-AreDigits k (n / 10)) (ground arith, tt)

value-append_one :
    (acc : ℕ) (ds : Bytes) (v : ℕ)
    → AreDigits ds
    → v < 10
    → value acc (ds ++ (b'0' + v) ∷ []) ≡ value acc ds * 10 + v
unfolding value
value-append_one acc [] v h small = ground arith
value-append_one acc (d ∷ ds) v (h, hs) small =
    rw (value, h) (value-append_one (acc * 10 + (d - b'0')) ds v hs small)

one_digit : (n : ℕ) → n < 10 → value 0 ((b'0' + n) ∷ []) ≡ n
unfolding value
one_digit n h = ground arith

-- Numbers of so many digits.
abbrev limit : ℕ → ℕ
limit zero = 1
limit (suc k) = 10 * limit k

value-digits : (k n : ℕ) → n < limit k → value 0 (digits k n) ≡ n
unfolding digits value
value-digits zero n h = omega (arith, h)
value-digits (suc k) n h = elim (Bool-cases (ltb n 10)) [
  | inl small ↦ rw (digits, small) (one_digit n (ground arith))
  | inr large ↦
      let lower : n / 10 < limit k = omega (arith, h) in
      let last =
        value-append_one 0 (digits k (n / 10)) (n % 10) (digits-AreDigits k (n / 10))
          (omega arith) in
      rw (digits, large) (last ∙ omega (arith, value-digits k (n / 10) lower))
]

parse_number-value :
    (d : ℕ) (ds : Bytes)
    → AreDigits (d ∷ ds)
    → parse_number (d ∷ ds) ≡ positive (some (value 0 (d ∷ ds)))
unfolding parse_number magnitude
parse_number-value d ds (h, hs) =
    let plain : (d == b'-') ≡ false = ground arith in rw (parse_number, plain, magnitude, h) refl

first_digit : (k n : ℕ) → (d : ℕ) × (ds : Bytes) × (digits (suc k) n ≡ d ∷ ds)
unfolding digits
first_digit k n = elim (Bool-cases (ltb n 10)) [
  | inl small ↦ (b'0' + n, [], rw (digits, small) refl)
  | inr large ↦ elim (List-cases (digits k (n / 10))) [
    | inl e ↦ (b'0' + n % 10, [], rw (digits, large, e) refl)
    | inr (d, ds, e) ↦ (d, ds ++ (b'0' + n % 10) ∷ [], rw (digits, large, e) refl)
  ]
]

-- A number that fits an `int` is parsed as it was printed.
pub parse_number-to_string : (n : ℕ) → n < 2 ^ 31 → parse_number (to_string n) ≡ some (pos n)
parse_number-to_string n h =
    let (d, ds, e) = first_digit 19 n in
    let all : AreDigits (d ∷ ds) = rw e at (digits-AreDigits 20 n) in
    let number : value 0 (d ∷ ds) ≡ n = rw e at (value-digits 20 n (omega (arith, h))) in
    let small : ltb n (2 ^ 31) ≡ true = ground arith in
    rw (e, parse_number-value d ds all, number, small) refl
