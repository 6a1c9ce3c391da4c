-- ===== src/Network/Socket/Laws.antt =====
-- A socket is a stream of bytes: how the bytes are cut into chunks, and how often a call is
-- interrupted, makes no difference.
use mathlib.Core.List.{append_assoc}
use forgechain.Prelude.{
  ℕ, zero, suc, ◌+◌, ◌-◌, ◌≤◌, ◌≡◌, refl, sym, ap, ◌∙◌, subst, Bool-cases, inl, inr, List, [], ◌∷◌,
  ◌++◌, Bytes, length, take, drop, leb, length-append, take-append-drop, arith,
}
use forgechain.Network.Socket.{
  Arrival, chunk, interrupted, timed_out, closed, failed, Received, received, leave, read_exact,
  Departure, took, refused, Sent, sent, broken, stalled, after, send_exact, send_then,
}

-- The bytes that arrive before the end of the stream or an error.
unfoldable pub carried : List Arrival → Bytes
carried [] = []
carried (chunk b bs ∷ arrivals) = (b ∷ bs) ++ carried arrivals
carried (interrupted ∷ arrivals) = carried arrivals
carried (timed_out ∷ arrivals) = carried arrivals
carried (closed ∷ arrivals) = []
carried (failed ∷ arrivals) = []

-- `n` bytes were read, and the others are still to be read.
abbrev pub ReadsFrom : Bytes → ℕ → Received Bytes → Type 0
ReadsFrom bs n result =
    (arrivals : List Arrival) × (result ≡ received (take n bs) arrivals)
    × (carried arrivals ≡ drop n bs)

carried-leave :
    (bs : Bytes) (arrivals : List Arrival) → carried (leave bs arrivals) ≡ bs ++ carried arrivals
unfolding carried leave
carried-leave [] arrivals = refl
carried-leave (b ∷ bs) arrivals = refl

take-append_le : (n : ℕ) (xs ys : Bytes) → n ≤ length xs → take n (xs ++ ys) ≡ take n xs
take-append_le zero xs ys h = refl
take-append_le (suc n) [] ys h = absurd (omega arith)
take-append_le (suc n) (x ∷ xs) ys h = ap (λ t. x ∷ t) (take-append_le n xs ys (omega arith))

drop-append_le : (n : ℕ) (xs ys : Bytes) → n ≤ length xs → drop n (xs ++ ys) ≡ drop n xs ++ ys
drop-append_le zero xs ys h = refl
drop-append_le (suc n) [] ys h = absurd (omega arith)
drop-append_le (suc n) (x ∷ xs) ys h = drop-append_le n xs ys (omega arith)

take-append_ge :
    (n : ℕ) (xs ys : Bytes) → length xs ≤ n → take n (xs ++ ys) ≡ xs ++ take (n - length xs) ys
take-append_ge n [] ys h = ap (λ m. take m ys) (omega arith)
take-append_ge zero (x ∷ xs) ys h = absurd (omega arith)
take-append_ge (suc n) (x ∷ xs) ys h =
    let e : suc n - suc (length xs) ≡ n - length xs = omega arith in
    ap (λ t. x ∷ t) (rw e (take-append_ge n xs ys (omega arith)))

drop-append_ge :
    (n : ℕ) (xs ys : Bytes) → length xs ≤ n → drop n (xs ++ ys) ≡ drop (n - length xs) ys
drop-append_ge n [] ys h = ap (λ m. drop m ys) (omega arith)
drop-append_ge zero (x ∷ xs) ys h = absurd (omega arith)
drop-append_ge (suc n) (x ∷ xs) ys h =
    let e : suc n - suc (length xs) ≡ n - length xs = omega arith in
    rw e (drop-append_ge n xs ys (omega arith))

-- If at least `n` bytes arrive, in whatever chunks and with whatever interruptions, `read_exact`
-- returns the first `n` of them and leaves the others to the next call.
pub read_exact-carried :
    (n : ℕ) (arrivals : List Arrival)
    → n ≤ length (carried arrivals)
    → ReadsFrom (carried arrivals) n (read_exact n arrivals)
unfolding read_exact carried
read_exact-carried zero arrivals h = (arrivals, refl, refl)
read_exact-carried (suc n) [] h = absurd (omega arith)
read_exact-carried (suc n) (interrupted ∷ arrivals) h = read_exact-carried (suc n) arrivals h
read_exact-carried (suc n) (timed_out ∷ arrivals) h = read_exact-carried (suc n) arrivals h
read_exact-carried (suc n) (closed ∷ arrivals) h = absurd (omega arith)
read_exact-carried (suc n) (failed ∷ arrivals) h = absurd (omega arith)
read_exact-carried (suc n) (chunk b bs ∷ arrivals) h =
    elim (Bool-cases (leb (suc n) (length (b ∷ bs)))) [
      | inl enough ↦ (
        leave (drop n bs) arrivals,
        ground (arith, take-append_le n bs (carried arrivals)),
        carried-leave (drop n bs) arrivals
            ∙ sym (drop-append_le n bs (carried arrivals) (ground arith)),
      )
      | inr short ↦
          let counted : length (carried (chunk b bs ∷ arrivals))
              ≡ suc (length bs + length (carried arrivals)) =
            omega (arith, length-append bs (carried arrivals)) in
          let over : length (b ∷ bs) ≤ suc n = ground arith in
          let (left, e, c) = read_exact-carried (suc n - length (b ∷ bs)) arrivals (omega arith) in
          (
            left,
            rw (short, e)
                (ap (λ t. received t left)
                  (sym (take-append_ge (suc n) (b ∷ bs) (carried arrivals) over))),
            c ∙ sym (drop-append_ge (suc n) (b ∷ bs) (carried arrivals) over),
          )
    ]

-- A call that returned true handed over exactly these bytes, any other a front of them.
abbrev pub FrontOf : Bytes → Sent → Type 0
FrontOf bs (sent out departures) = out ≡ bs
FrontOf bs (broken out) = (rest : Bytes) × (bs ≡ out ++ rest)
FrontOf bs (stalled out) = (rest : Bytes) × (bs ≡ out ++ rest)

after-FrontOf : (bs xs : Bytes) (s : Sent) → FrontOf xs s → FrontOf (bs ++ xs) (after bs s)
after-FrontOf bs xs (sent out departures) h = ap (λ t. bs ++ t) h
after-FrontOf bs xs (broken out) (rest, h) =
    (rest, ap (λ t. bs ++ t) h ∙ sym (append_assoc bs out rest))
after-FrontOf bs xs (stalled out) (rest, h) =
    (rest, ap (λ t. bs ++ t) h ∙ sym (append_assoc bs out rest))

pub send_then-FrontOf :
    (xs ys : Bytes) (s : Sent) (f : List Departure → Sent)
    → FrontOf xs s
    → ((departures : List Departure) → FrontOf ys (f departures))
    → FrontOf (xs ++ ys) (send_then s f)
send_then-FrontOf xs ys (sent out departures) f h k =
    subst (λ t. FrontOf (t ++ ys) (after out (f departures))) h
      (after-FrontOf out ys (f departures) (k departures))
send_then-FrontOf xs ys (broken out) f (rest, h) k =
    (rest ++ ys, ap (λ t. t ++ ys) h ∙ append_assoc out rest ys)
send_then-FrontOf xs ys (stalled out) f (rest, h) k =
    (rest ++ ys, ap (λ t. t ++ ys) h ∙ append_assoc out rest ys)

pub send_exact-FrontOf :
    (bs : Bytes) (departures : List Departure) → FrontOf bs (send_exact bs departures)
unfolding send_exact
send_exact-FrontOf [] departures = refl
send_exact-FrontOf (b ∷ bs) [] = (b ∷ bs, refl)
send_exact-FrontOf (b ∷ bs) (refused ∷ departures) = (b ∷ bs, refl)
send_exact-FrontOf (b ∷ bs) (took n ∷ departures) =
    subst (λ t. FrontOf (b ∷ t) (after (b ∷ take n bs) (send_exact (drop n bs) departures)))
      (take-append-drop n bs)
      (after-FrontOf (b ∷ take n bs) (drop n bs) (send_exact (drop n bs) departures)
        (send_exact-FrontOf (drop n bs) departures))
