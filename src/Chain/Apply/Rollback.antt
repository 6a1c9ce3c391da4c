-- ===== src/Chain/Apply/Rollback.antt =====
-- A block is applied to the ledger as a whole or not at all.
use forgechain.Prelude.{
  ℕ, ◌+◌, ◌^◌, ◌<◌, ◌≡◌, inl, inr, Bool, true, false, refl, subst, ◌∙◌, List, [], ◌∷◌, All, arith,
  Bool-cases,
}
use forgechain.Prelude.Outcome.{Outcome, ok, fault, Outcome-cases}
use forgechain.Crypto.{OpenSsl}
use forgechain.Core.Transaction.{Transaction, is_coinbase}
use forgechain.Core.Block.{Block}
use forgechain.Core.Ledger.{Ledger, charge, apply_transaction, reverse_transaction}
use forgechain.Core.Ledger.Undo.{
  Shadows, Shadows-Restores, Restores, IsValid, IsWord, HasRoom, funds-cover, reverse-Shadows-apply,
}
use forgechain.Core.Ledger.Transfer.{reverse-Shadows}
use forgechain.Core.Ledger.Supply.{
  total, minted, burnt, balance-le-total, total-charge, total-apply,
}
use forgechain.Core.Ledger.Nonce.{apply-rejected, next_nonce-apply}
use forgechain.Chain.Apply.{roll_back, verdict, apply_all, apply_block_to_ledger}

Shadows-refl : (l : Ledger) → Shadows l l
Shadows-refl l = record { balances = λ a. refl; nonces = λ a. refl; known = λ a h. h }

Shadows-trans : {l m n : Ledger} → Shadows l m → Shadows m n → Shadows l n
Shadows-trans s t = record {
  balances = λ a. s.balances a ∙ t.balances a;
  nonces = λ a. s.nonces a ∙ t.nonces a;
  known = λ a h. t.known a (s.known a h);
}

-- Reversing the transactions, the last one first, leads from `l` to what `start` shows.
unfoldable Undoable : List Transaction → Ledger → Ledger → Type 0
Undoable [] start l = Shadows start l
Undoable (tx ∷ done) start l =
    ((reverse_transaction tx l).0 ≡ true) × Undoable done start (reverse_transaction tx l).1

Undoable-Shadows :
    (done : List Transaction) (start l m : Ledger)
    → Shadows l m
    → Undoable done start l
    → Undoable done start m
unfolding Undoable
Undoable-Shadows [] start l m s u = Shadows-trans u s
Undoable-Shadows (tx ∷ done) start l m s (reversed, u) =
    let (reversed', s') = reverse-Shadows tx s reversed in
    (reversed', Undoable-Shadows done start _ _ s' u)

roll_back-Shadows :
    (done : List Transaction) (start l : Ledger)
    → Undoable done start l
    → Shadows start (roll_back done l)
unfolding Undoable roll_back
roll_back-Shadows [] start l u = u
roll_back-Shadows (tx ∷ done) start l (reversed, u) = roll_back-Shadows done start _ u

-- What the coinbases of a list make.
unfoldable pub mint : List Transaction → ℕ
mint [] = 0
mint (tx ∷ txs) = minted tx + mint txs

-- What the fees of the others burn.
unfoldable pub burn : List Transaction → ℕ
burn [] = 0
burn (tx ∷ txs) = burnt tx + burn txs

-- The numbers of a transaction are `uint64_t`s, and so is the charge.
abbrev pub IsChargeable : Transaction → Type 0
IsChargeable tx = IsWord tx × (tx.amount + tx.fee < 2 ^ 64)

module _ (tx : Transaction) (l : Ledger) (v : IsValid l) (w : IsChargeable tx)
    (fits : total l + minted tx < 2 ^ 64) (applied : (apply_transaction tx l).0 ≡ true) where
  has_room : HasRoom tx l
  has_room = elim (Bool-cases (is_coinbase tx)) [
    | inl c ↦ rw c (ground (arith, balance-le-total l tx.recipient))
    | inr c ↦ rw c (
        ground (
          arith,
          v.balances tx.sender,
          (funds-cover tx l applied c).0,
          total-charge tx l,
          balance-le-total (charge tx l) tx.recipient,
        ))
  ]

  total-applied : total (apply_transaction tx l).1 + burnt tx ≡ total l + minted tx
  total-applied = total-apply tx l v w.0 has_room applied w.1

  apply-IsValid : IsValid (apply_transaction tx l).1
  apply-IsValid = record {
    balances = λ a. omega (arith, balance-le-total (apply_transaction tx l).1 a, total-applied);
    nonces = λ a. ground (arith, next_nonce-apply tx l applied a, v.nonces a);
  }

  Undoable-apply :
      (done : List Transaction) (start : Ledger)
      → Undoable done start l
      → Undoable (tx ∷ done) start (apply_transaction tx l).1
  unfolding Undoable
  Undoable-apply done start u =
      let (reversed, s) = reverse-Shadows-apply tx l v w.0 has_room applied in
      (reversed, Undoable-Shadows done start _ _ s u)

-- What a list of transactions leaves: the ledger `start` again, or the money that the list is worth.
abbrev Settled : Ledger → Ledger → List Transaction → Bool → Ledger → Type 0
Settled start l txs false l' = Shadows start l'
Settled start l txs true l' = total l' + burn txs ≡ total l + mint txs

-- An exception leaves nothing to say.
abbrev IsSettled : Ledger → Ledger → List Transaction → Outcome (Bool × Ledger) → Type 0
IsSettled start l txs fault = Unit
IsSettled start l txs (ok p) = Settled start l txs p.0 p.1

-- The rest of a list, after its first transaction was applied.
IsSettled-step :
    (tx : Transaction) (txs : List Transaction) (start l l₁ : Ledger) (o : Outcome (Bool × Ledger))
    → total l₁ + burnt tx ≡ total l + minted tx
    → IsSettled start l₁ txs o
    → IsSettled start l (tx ∷ txs) o
unfolding mint burn
IsSettled-step tx txs start l l₁ fault step h = tt
IsSettled-step tx txs start l l₁ (ok (true, l')) step h = omega arith
IsSettled-step tx txs start l l₁ (ok (false, l')) step h = h

module _ ⦃ssl : OpenSsl⦄ where
  apply_all-IsSettled :
      (txs done : List Transaction) (start l : Ledger)
      → IsValid l
      → All IsChargeable txs
      → total l + mint txs < 2 ^ 64
      → Undoable done start l
      → IsSettled start l txs (apply_all txs done l)
  unfolding apply_all mint burn
  apply_all-IsSettled [] done start l v w fits u = refl
  apply_all-IsSettled (tx ∷ txs) done start l v (w, ws) fits u = elim (Outcome-cases (verdict tx)) [
    | inl e ↦ rw (apply_all, e) tt
    | inr (good, e) ↦ elim (Bool-cases good) [
      | inr bad ↦ rw (apply_all, e, bad) (roll_back-Shadows done start l u)
      | inl fine ↦ elim (Bool-cases (apply_transaction tx l).0) [
        | inr refused ↦
            rw (apply_all, e, fine, refused, apply-rejected tx l refused)
              (roll_back-Shadows done start l u)
        | inl applied ↦
            let fits' : total l + minted tx < 2 ^ 64 = omega arith in
            let step = total-applied tx l v w fits' applied in
            rw (apply_all, e, fine, applied)
              (IsSettled-step tx txs start l (apply_transaction tx l).1 _ step (
                apply_all-IsSettled txs (tx ∷ done) start (apply_transaction tx l).1
                  (apply-IsValid tx l v w fits' applied) ws (omega arith)
                  (Undoable-apply tx l v w fits' applied done start u)))
      ]
    ]
  ]

  -- If a block is refused, whatever its transactions and wherever the first bad one stands, every
  -- nonce of the ledger is what it was before, and so is every balance that `get_balance` answers, but
  -- that an account which did not exist may stand with 0 after; provided that the ledger and the
  -- numbers are `uint64_t`s, no charge overflows, and the block's coinbases cannot overflow the total.
  pub apply_block_to_ledger-Restores :
      (block : Block) (l : Ledger) {l' : Ledger}
      → IsValid l
      → All IsChargeable block.transactions
      → total l + mint block.transactions < 2 ^ 64
      → apply_block_to_ledger block l ≡ ok (false, l')
      → Restores l l'
  unfolding apply_block_to_ledger Undoable
  apply_block_to_ledger-Restores block l v w fits h = Shadows-Restores (
      subst (IsSettled l l block.transactions) h
        (apply_all-IsSettled block.transactions [] l l v w fits (Shadows-refl l)))

  -- If a block is applied, the sum of all balances grows by what its coinbases make and shrinks by the
  -- fees of its other transactions, and by nothing else; provided that the ledger and the numbers are
  -- `uint64_t`s, no charge overflows, and the block's coinbases cannot overflow the total.
  pub total-apply_block_to_ledger :
      (block : Block) (l : Ledger) {l' : Ledger}
      → IsValid l
      → All IsChargeable block.transactions
      → total l + mint block.transactions < 2 ^ 64
      → apply_block_to_ledger block l ≡ ok (true, l')
      → total l' + burn block.transactions ≡ total l + mint block.transactions
  unfolding apply_block_to_ledger Undoable
  total-apply_block_to_ledger block l v w fits h =
      subst (IsSettled l l block.transactions) h
        (apply_all-IsSettled block.transactions [] l l v w fits (Shadows-refl l))
