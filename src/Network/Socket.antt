-- ===== src/Network/Socket.antt =====
-- network/Socket.cpp: `read_exact` and `send_exact`. What the calls `recv` and `send` of the
-- operating system answer is a list of replies, in order; where it ends, the next call blocks.
pub mod Laws
pub mod Timeout
use forgechain.Prelude.{
  ℕ, zero, suc, ◌+◌, ◌-◌, List, [], ◌∷◌, ◌++◌, Bytes, length, take, drop, leb, if◌then◌else◌,
}

-- An answer of `recv`: a chunk that arrived, of which a call takes as much as it wants and leaves
-- the rest; the errors EINTR, and EAGAIN or EWOULDBLOCK (the receive timeout); an orderly end
-- (0 bytes); another error.
pub data Arrival : Type 0 where
  chunk : ℕ → Bytes → Arrival
  interrupted timed_out closed failed : Arrival

-- `read_exact` returned true or false, or is still in its loop.
pub data Received (A : Type 0) : Type 0 where
  received : A → List Arrival → Received A
  lost waiting : Received A

infixl 5 ◌>>=◌
abbrev pub ◌>>=◌ : {A B : Type 0} → Received A → (A → List Arrival → Received B) → Received B
received a arrivals >>= f = f a arrivals
lost >>= f = lost
waiting >>= f = waiting

-- What a call left of a chunk.
unfoldable pub leave : Bytes → List Arrival → List Arrival
leave [] arrivals = arrivals
leave (b ∷ bs) arrivals = chunk b bs ∷ arrivals

abbrev pub put_first : Bytes → Received Bytes → Received Bytes
put_first bs rest = rest >>= λ more arrivals. received (bs ++ more) arrivals

unfoldable pub read_exact : ℕ → List Arrival → Received Bytes
unfolding leave
read_exact zero arrivals = received [] arrivals
read_exact (suc n) [] = waiting
read_exact (suc n) (chunk b bs ∷ arrivals) =
    let rest = put_first (b ∷ bs) (read_exact (suc n - length (b ∷ bs)) arrivals) in
    if leb (suc n) (length (b ∷ bs))
    then received (take (suc n) (b ∷ bs)) (leave (drop (suc n) (b ∷ bs)) arrivals)
    else rest
read_exact (suc n) (interrupted ∷ arrivals) = read_exact (suc n) arrivals
read_exact (suc n) (timed_out ∷ arrivals) = read_exact (suc n) arrivals
read_exact (suc n) (closed ∷ arrivals) = lost
read_exact (suc n) (failed ∷ arrivals) = lost

-- An answer of `send`: it took one byte more than the number, or all if there are fewer; or it
-- answered 0 or less.
pub data Departure : Type 0 where
  took : ℕ → Departure
  refused : Departure

-- `send_exact` returned true or false, or is still in its loop, with the bytes handed over so far.
pub data Sent : Type 0 where
  sent : Bytes → List Departure → Sent
  broken stalled : Bytes → Sent

-- Handed over before the rest.
abbrev pub after : Bytes → Sent → Sent
after bs (sent more departures) = sent (bs ++ more) departures
after bs (broken more) = broken (bs ++ more)
after bs (stalled more) = stalled (bs ++ more)

unfoldable pub send_exact : Bytes → List Departure → Sent
send_exact [] departures = sent [] departures
send_exact (b ∷ bs) [] = stalled []
send_exact (b ∷ bs) (took n ∷ departures) =
    after (take (suc n) (b ∷ bs)) (send_exact (drop (suc n) (b ∷ bs)) departures)
send_exact (b ∷ bs) (refused ∷ departures) = broken []

-- `send_exact`, then another call if it returned true.
abbrev pub send_then : Sent → (List Departure → Sent) → Sent
send_then (sent bs departures) f = after bs (f departures)
send_then (broken bs) f = broken bs
send_then (stalled bs) f = stalled bs
