-- ===== src/Consensus/Coinbase/Amount.antt =====
-- What `validate_coinbase_amount` accepts.
use forgechain.Prelude.{
  ℕ, ◌+◌, ◌^◌, ◌<◌, ◌≤◌, ◌≡◌, inl, inr, true, false, refl, none, some, List, [], ◌∷◌, ◌++◌, length,
  get_elem?, All, leb, arith, Bool-cases, ap,
}
use native.Mathlib.Nat.{zero-add}
use forgechain.Core.Transaction.{Transaction, is_coinbase}
use forgechain.Consensus.Params.{mining_reward}
use forgechain.Consensus.Coinbase.{find_coinbase, sum_fees, amount_at, validate_coinbase_amount}

-- No transaction of the list is a coinbase.
abbrev pub IsPlain : List Transaction → Type 0
IsPlain txs = All (λ tx. is_coinbase tx ≡ false) txs

-- The sum of the fees, as a number.
unfoldable pub fees : List Transaction → ℕ
fees [] = 0
fees (tx ∷ txs) = tx.fee + fees txs

-- The list's one coinbase, between the transactions before it and those after it.
pub record HasCoinbase (txs : List Transaction) : Type 0 where
  pub before : List Transaction
  pub coinbase : Transaction
  pub after : List Transaction
  pub is_split : txs ≡ before ++ coinbase ∷ after
  pub plain_before : IsPlain before
  pub is_one : is_coinbase coinbase ≡ true
  pub plain_after : IsPlain after

find_coinbase-some :
    (txs : List Transaction) (i index : ℕ)
    → IsPlain txs
    → find_coinbase txs i (some index) ≡ some (some index)
unfolding find_coinbase
find_coinbase-some [] i index plain = refl
find_coinbase-some (tx ∷ txs) i index (h, plain) = rw h (find_coinbase-some txs (i + 1) index plain)

pub find_coinbase-plain :
    (txs : List Transaction) (i : ℕ) → IsPlain txs → find_coinbase txs i none ≡ some none
unfolding find_coinbase
find_coinbase-plain [] i plain = refl
find_coinbase-plain (tx ∷ txs) i (h, plain) = rw h (find_coinbase-plain txs (i + 1) plain)

find_coinbase-one :
    (before : List Transaction) (tx : Transaction) (after : List Transaction) (i : ℕ)
    → IsPlain before
    → is_coinbase tx ≡ true
    → IsPlain after
    → find_coinbase (before ++ tx ∷ after) i none ≡ some (some (i + length before))
unfolding find_coinbase
find_coinbase-one [] tx after i pb one pa =
    rw (one, find_coinbase) (ground (arith, find_coinbase-some after (i + 1) i pa))
find_coinbase-one (b ∷ before) tx after i (h, pb) one pa =
    rw (h, find_coinbase) (ground (arith, find_coinbase-one before tx after (i + 1) pb one pa))

-- Every list is rejected for a second coinbase, has none, or has one.
data Scanned (txs : List Transaction) (i : ℕ) : Type 0 where
  two : find_coinbase txs i none ≡ none → Scanned txs i
  plain : IsPlain txs → Scanned txs i
  one : HasCoinbase txs → Scanned txs i

data Rest (txs : List Transaction) (i index : ℕ) : Type 0 where
  another : find_coinbase txs i (some index) ≡ none → Rest txs i index
  plain : IsPlain txs → Rest txs i index

find_coinbase-Rest : (txs : List Transaction) (i index : ℕ) → Rest txs i index
unfolding find_coinbase
find_coinbase-Rest [] i index = Rest.plain tt
find_coinbase-Rest (tx ∷ txs) i index = elim (Bool-cases (is_coinbase tx)) [
  | inl e ↦ another (rw e refl)
  | inr e ↦ elim (find_coinbase-Rest txs (i + 1) index) [
    | another h ↦ another (rw (e, find_coinbase) h)
    | Rest.plain h ↦ Rest.plain (e, h)
  ]
]

find_coinbase-Scanned : (txs : List Transaction) (i : ℕ) → Scanned txs i
unfolding find_coinbase
find_coinbase-Scanned [] i = Scanned.plain tt
find_coinbase-Scanned (tx ∷ txs) i = elim (Bool-cases (is_coinbase tx)) [
  | inl e ↦ elim (find_coinbase-Rest txs (i + 1) i) [
    | another h ↦ two (rw (e, find_coinbase) h)
    | Rest.plain h ↦ one (record {
      before = [];
      coinbase = tx;
      after = txs;
      is_split = refl;
      plain_before = tt;
      is_one = e;
      plain_after = h;
    })
  ]
  | inr e ↦ elim (find_coinbase-Scanned txs (i + 1)) [
    | two h ↦ two (rw (e, find_coinbase) h)
    | Scanned.plain h ↦ Scanned.plain (e, h)
    | one h ↦ one (record {
      before = tx ∷ h.before;
      coinbase = h.coinbase;
      after = h.after;
      is_split = ap (λ t. tx ∷ t) h.is_split;
      plain_before = (e, h.plain_before);
      is_one = h.is_one;
      plain_after = h.plain_after;
    })
  ]
]

-- Past the coinbase, the second loop adds every fee.
sum_fees-past :
    (txs : List Transaction) (i index total : ℕ)
    → index < i
    → total + fees txs < 2 ^ 64
    → sum_fees txs i index total ≡ total + fees txs
unfolding sum_fees fees
sum_fees-past [] i index total h room = omega arith
sum_fees-past (tx ∷ txs) i index total h room =
    ground (arith, sum_fees-past txs (i + 1) index (total + tx.fee) (omega arith) (omega arith))

sum_fees-at :
    (before : List Transaction) (tx : Transaction) (after : List Transaction) (i index total : ℕ)
    → index ≡ i + length before
    → total + fees before + fees after < 2 ^ 64
    → sum_fees (before ++ tx ∷ after) i index total ≡ total + fees before + fees after
unfolding sum_fees fees
sum_fees-at [] tx after i index total at room =
    ground (arith, sum_fees-past after (i + 1) index total (omega arith) (omega arith))
sum_fees-at (b ∷ before) tx after i index total at room =
    ground
      (arith, sum_fees-at before tx after (i + 1) index (total + b.fee) (omega arith) (omega arith))

get_elem?-middle :
    (before : List Transaction) (tx : Transaction) (after : List Transaction)
    → get_elem? (before ++ tx ∷ after) (length before) ≡ some tx
get_elem?-middle [] tx after = refl
get_elem?-middle (b ∷ before) tx after = get_elem?-middle before tx after

-- `validate_coinbase_amount` of a list with one coinbase.
validate-one :
    (txs : List Transaction) (h : HasCoinbase txs)
    → mining_reward + fees h.before + fees h.after < 2 ^ 64
    → validate_coinbase_amount txs
      ≡ leb h.coinbase.amount (mining_reward + fees h.before + fees h.after)
unfolding validate_coinbase_amount
validate-one txs h room =
    let n = length h.before in
    rw (h.is_split) (
      rw
        (
          validate_coinbase_amount,
          find_coinbase-one h.before h.coinbase h.after 0 h.plain_before h.is_one h.plain_after,
          zero-add n,
          amount_at,
          get_elem?-middle h.before h.coinbase h.after,
          sum_fees-at h.before h.coinbase h.after 0 n 0 (omega arith) (omega arith),
        )
        (ap (leb h.coinbase.amount) (omega arith)))

-- What a block's transactions must be: no coinbase at all, or one that claims at most the reward
-- and the fees of the others.
pub data IsPaid (txs : List Transaction) : Type 0 where
  unpaid : IsPlain txs → IsPaid txs
  paid :
      (h : HasCoinbase txs)
      → h.coinbase.amount ≤ mining_reward + fees h.before + fees h.after
      → IsPaid txs

fees-append : (xs ys : List Transaction) → fees (xs ++ ys) ≡ fees xs + fees ys
unfolding fees
fees-append [] ys = omega arith
fees-append (x ∷ xs) ys = omega (arith, fees-append xs ys)

one_fits :
    (txs : List Transaction) (h : HasCoinbase txs)
    → mining_reward + fees txs < 2 ^ 64
    → mining_reward + fees h.before + fees h.after < 2 ^ 64
unfolding fees
one_fits txs h room = omega (arith, ap fees h.is_split, fees-append h.before (h.coinbase ∷ h.after))

accepts→paid :
    (txs : List Transaction)
    → mining_reward + fees txs < 2 ^ 64
    → validate_coinbase_amount txs ≡ true
    → IsPaid txs
unfolding validate_coinbase_amount
accepts→paid txs room accepted = elim (find_coinbase-Scanned txs 0) [
  | two h ↦ cc (h, accepted)
  | Scanned.plain h ↦ unpaid h
  | one h ↦ paid h (ground (arith, validate-one txs h (one_fits txs h room)))
]

paid→accepts :
    (txs : List Transaction)
    → mining_reward + fees txs < 2 ^ 64
    → IsPaid txs
    → validate_coinbase_amount txs ≡ true
unfolding validate_coinbase_amount
paid→accepts txs room (unpaid h) = rw (validate_coinbase_amount, find_coinbase-plain txs 0 h) refl
paid→accepts txs room (paid h le) = ground (arith, validate-one txs h (one_fits txs h room))

-- While the reward and all fees together fit in 64 bits, `validate_coinbase_amount` accepts exactly
-- the lists that have no coinbase, or that have one and only one, which claims at most the mining
-- reward plus the fees of the transactions before and after it.
pub validate_iff :
    (txs : List Transaction)
    → mining_reward + fees txs < 2 ^ 64
    → (validate_coinbase_amount txs ≡ true → IsPaid txs)
      × (IsPaid txs → validate_coinbase_amount txs ≡ true)
validate_iff txs room = (accepts→paid txs room, paid→accepts txs room)
