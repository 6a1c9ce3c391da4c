-- ===== src/Core/Wire/Laws.antt =====
-- What is written is read back, and what is read is what stood there.
use mathlib.Core.List.{append_assoc, append-nil}
use native.Mathlib.Nat.{pow-suc}
use forgechain.Prelude.{
  ℕ, zero, suc, ◌+◌, ◌*◌, ◌/◌, ◌%◌, ◌^◌, ◌<◌, ◌≡◌, refl, ap, subst, ◌∙◌, Option-cases, Option, none,
  some, [], ◌∷◌, ◌++◌, Bytes, length, ltb, arith, All, take-append, drop-append, length-append,
  ltb→le, Bool-cases, inl, inr, take-append-drop, length-take,
}
use forgechain.Core.Wire.{
  to_le, from_le, read_bytes, read_uint, write_field, read_field, at_end, ◌>>=◌,
}

abbrev pub IsBytes : Bytes → Type 0
IsBytes = All (λ b. b < 256)

-- Bytes that a `uint32_t` length can stand before.
abbrev pub IsField : Bytes → Type 0
IsField bs = (length bs < 2 ^ 32) × IsBytes bs

pub length-to_le : (n v : ℕ) → length (to_le n v) ≡ n
unfolding to_le
length-to_le zero v = refl
length-to_le (suc n) v = ap suc (length-to_le n (v / 256))

pub to_le-IsBytes : (n v : ℕ) → IsBytes (to_le n v)
unfolding to_le
to_le-IsBytes zero v = tt
to_le-IsBytes (suc n) v = (omega arith, to_le-IsBytes n (v / 256))

pub from_le-to_le : (n v : ℕ) → v < 256 ^ n → from_le (to_le n v) ≡ v
unfolding to_le from_le
from_le-to_le zero v h = omega arith
from_le-to_le (suc n) v h = omega (arith, from_le-to_le n (v / 256) (omega (arith, pow-suc 256 n)))

pub to_le-from_le : (bs : Bytes) → IsBytes bs → to_le (length bs) (from_le bs) ≡ bs
unfolding to_le from_le
to_le-from_le [] h = refl
to_le-from_le (b ∷ bs) (hb, hbs) =
    let low : (b + 256 * from_le bs) % 256 ≡ b = omega arith in
    let high : (b + 256 * from_le bs) / 256 ≡ from_le bs = omega arith in
    rw (low, high, to_le-from_le bs hbs)

pub read_bytes-append : (bs rest : Bytes) → read_bytes (length bs) (bs ++ rest) ≡ some (bs, rest)
unfolding read_bytes
read_bytes-append bs rest =
    ground (arith, length-append bs rest, take-append bs rest, drop-append bs rest)

pub read_uint-append :
    (n v : ℕ) (rest : Bytes) → v < 256 ^ n → read_uint n (to_le n v ++ rest) ≡ some (v, rest)
unfolding read_uint
read_uint-append n v rest h =
    let found : read_bytes n (to_le n v ++ rest) ≡ some (to_le n v, rest) =
      subst (λ m. read_bytes m (to_le n v ++ rest) ≡ some (to_le n v, rest)) (length-to_le n v)
        (read_bytes-append (to_le n v) rest) in
    rw found (ap (λ w. some (w, rest)) (from_le-to_le n v h))

pub read_field-append :
    (bs rest : Bytes) → length bs < 2 ^ 32 → read_field (write_field bs ++ rest) ≡ some (bs, rest)
unfolding read_field write_field
read_field-append bs rest h =
    let fits : length bs % 2 ^ 32 ≡ length bs = omega arith in
    rw (append_assoc, fits, read_uint-append 4 (length bs) (bs ++ rest) (omega arith))
      (read_bytes-append bs rest)

-- What a successful read took, and what it left.
pub read_bytes-inverse :
    (n : ℕ) (rest : Bytes) {bs rest' : Bytes}
    → read_bytes n rest ≡ some (bs, rest')
    → (rest ≡ bs ++ rest') × (length bs ≡ n)
unfolding read_bytes
read_bytes-inverse n rest h = elim (Bool-cases (ltb (length rest) n)) [
  | inl short ↦ ground arith
  | inr long ↦
      ground (arith, take-append-drop n rest, length-take n rest (ltb→le (length rest) n long))
]

IsBytes-parts : (xs ys : Bytes) → IsBytes (xs ++ ys) → IsBytes xs × IsBytes ys
IsBytes-parts [] ys h = (tt, h)
IsBytes-parts (x ∷ xs) ys h = let (hx, hy) = IsBytes-parts xs ys h.1 in ((h.0, hx), hy)

pub from_le-lt : (bs : Bytes) → IsBytes bs → from_le bs < 256 ^ length bs
unfolding from_le
from_le-lt [] h = omega arith
from_le-lt (b ∷ bs) h = omega (arith, from_le-lt bs h.1, pow-suc 256 (length bs))

pub read_uint-inverse :
    (n : ℕ) (rest : Bytes) {v : ℕ} {rest' : Bytes}
    → IsBytes rest
    → read_uint n rest ≡ some (v, rest')
    → (rest ≡ to_le n v ++ rest') × IsBytes rest' × (v < 256 ^ n)
unfolding read_uint
read_uint-inverse n rest {v} {rest'} bytes h = elim (Option-cases (read_bytes n rest)) [
  | inl short ↦ ground arith
  | inr ((bs, tail), found) ↦
      let (split, measured) = read_bytes-inverse n rest found in
      let taken : from_le bs ≡ v = ground arith in
      let left : tail ≡ rest' = ground arith in
      let (hb, ht) = IsBytes-parts bs tail (subst IsBytes split bytes) in
      (
        split ∙ cc (to_le-from_le bs hb),
        subst IsBytes left ht,
        subst (λ m. v < 256 ^ m) measured
            (subst (λ w. w < 256 ^ length bs) taken (from_le-lt bs hb)),
      )
]

pub read_field-inverse :
    (rest : Bytes) {bs rest' : Bytes}
    → IsBytes rest
    → read_field rest ≡ some (bs, rest')
    → (rest ≡ write_field bs ++ rest') × IsBytes rest' × IsField bs
unfolding read_field write_field
read_field-inverse rest {bs} {rest'} bytes h = elim (Option-cases (read_uint 4 rest)) [
  | inl short ↦ ground arith
  | inr ((n, tail), found) ↦
      let (split, ht, small) = read_uint-inverse 4 rest bytes found in
      let (split', measured) = read_bytes-inverse n tail (rw found at h) in
      let fits : length bs % 2 ^ 32 ≡ n = omega arith in
      (
        rw (append_assoc, fits) (cc (split, split')),
        (IsBytes-parts bs rest' (subst IsBytes split' ht)).1,
        (omega arith, (IsBytes-parts bs rest' (subst IsBytes split' ht)).0),
      )
]

pub read_field-write_field :
    (bs : Bytes) → length bs < 2 ^ 32 → read_field (write_field bs) ≡ some (bs, [])
read_field-write_field bs h = rw (append-nil (write_field bs)) at (read_field-append bs [] h)

-- Inversion of a successful step of a reader.
pub >>=-eq-some {ℓ κ} :
    {A : Type ℓ} {B : Type κ} (m : Option A) (f : A → Option B) {b : B}
    → (m >>= f) ≡ some b
    → (a : A) × (m ≡ some a) × (f a ≡ some b)
>>=-eq-some none f h = cc
>>=-eq-some (some a) f h = (a, refl, h)

-- The same with the value as a variable, for long chains.
pub data Bound {A B : Type 0} (m : Option A) (f : A → Option B) (b : B) : Type 0 where
  bound : (a : A) → m ≡ some a → f a ≡ some b → Bound m f b

pub bind-step :
    {A B : Type 0} (m : Option A) (f : A → Option B) {b : B} → (m >>= f) ≡ some b → Bound m f b
bind-step m f h = let (a, found, next) = >>=-eq-some m f h in bound a found next

-- One step of a reader taken apart: the value that was written at the front, the bytes after it,
-- and the rest of the reader run on these.
pub data Taken {A B : Type 0} (write : A → Bytes) (Fits : A → Type 0) (rest : Bytes)
    (f : A × Bytes → Option B) (b : B) : Type 0 where
  taken :
      (a : A) (rest' : Bytes)
      → rest ≡ write a ++ rest'
      → IsBytes rest'
      → Fits a
      → f (a, rest') ≡ some b
      → Taken write Fits rest f b

module _ {B : Type 0} where
  pub read_uint-step :
      (n : ℕ) (rest : Bytes) (f : ℕ × Bytes → Option B) {b : B}
      → IsBytes rest
      → (read_uint n rest >>= f) ≡ some b
      → Taken (to_le n) (λ v. v < 256 ^ n) rest f b
  read_uint-step n rest f bytes h =
      let ((v, rest'), found, next) = >>=-eq-some (read_uint n rest) f h in
      let (split, left, fits) = read_uint-inverse n rest bytes found in
      taken v rest' split left fits next

  pub read_field-step :
      (rest : Bytes) (f : Bytes × Bytes → Option B) {b : B}
      → IsBytes rest
      → (read_field rest >>= f) ≡ some b
      → Taken write_field IsField rest f b
  read_field-step rest f bytes h =
      let ((bs, rest'), found, next) = >>=-eq-some (read_field rest) f h in
      let (split, left, fits) = read_field-inverse rest bytes found in
      taken bs rest' split left fits next

pub at_end-eq-some {ℓ} :
    {A : Type ℓ} (rest : Bytes) (a : A) {a' : A} → at_end rest a ≡ some a' → (rest ≡ []) × (a ≡ a')
at_end-eq-some [] a h = (refl, ground arith)
at_end-eq-some (b ∷ bs) a h = cc

pub read_bytes-step :
    {B : Type 0} (n : ℕ) (rest : Bytes) (f : Bytes × Bytes → Option B) {b : B}
    → IsBytes rest
    → (read_bytes n rest >>= f) ≡ some b
    → Taken (λ bs. bs) (λ bs. length bs ≡ n) rest f b
read_bytes-step n rest f bytes h =
    let ((bs, rest'), found, next) = >>=-eq-some (read_bytes n rest) f h in
    let (split, measured) = read_bytes-inverse n rest found in
    taken bs rest' split (IsBytes-parts bs rest' (subst IsBytes split bytes)).1 measured next
