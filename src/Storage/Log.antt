-- ===== src/Storage/Log.antt =====
-- chain/ChainManager.cpp: what each call of a manager writes to its storage.
use mathlib.Core.List.{reverse}
use forgechain.Prelude.{
  zero, ℕ, suc, ◌-◌, ◌≡◌, refl, sym, subst, ◌∙◌, ap, true, not, inl, inr, Option-cases, Option,
  none, some, List, [], ◌∷◌, ◌++◌, Bytes, length, length-append, take, drop, drop-append, map,
  arith,
}
use mathlib.Core.List.{append-nil, append_assoc}
use forgechain.Prelude.Outcome.{
  Outcome, ok, ◌>>=◌, After, After->>=, After-then, on_branches, Outcome-cases,
}
use forgechain.Crypto.{OpenSsl}
use forgechain.Core.Block.{Block}
use forgechain.Core.Blockchain.{
  Blockchain, ForkChain, add_block, add_blocks, truncate, reorganize_to, find_height,
}
use forgechain.Core.Blockchain.Work.{reorganize_to-found, reorganize_to-missing}
use forgechain.Core.ForkResolution.{is_fork_heavier}
use forgechain.Chain.State
use forgechain.Chain.State.{ChainManager, Write, write}
use forgechain.Chain.Reorg.{settle, try_reorg, take_back, spend_hashes, transactions_of, all_signed}
use forgechain.Storage.Mirror.{row_of}

-- What the calls write makes one list of blocks of another: nothing, a block on top, or other blocks
-- from a height on.
pub data Change (bs : List Block) : List Block → List Write → Type 0 where
  keeps : Change bs bs []
  saves :
      (b b' : Block)
      → row_of b' ≡ row_of b
      → Change bs (bs ++ b' ∷ []) (State.save_block b (length bs) ∷ [])
  replaces :
      (n : ℕ) (new : List Block)
      → length (take n bs) ≡ n
      → Change bs (take n bs ++ new) (State.replace_blocks_from n new ∷ [])

-- What was written on the way from one state of the manager to another.
abbrev pub Logged : ChainManager → ChainManager → Type 0
Logged cm cm' =
    (ws : List Write) × (cm'.writes ≡ cm.writes ++ ws)
    × Change cm.blockchain.blocks cm'.blockchain.blocks ws

abbrev pub Logs : {A : Type 0} → ChainManager → Outcome (A × ChainManager) → Type 0
Logs cm = After (λ p. Logged cm p.1)

-- A call that changes neither the chain nor the log.
pub unchanged :
    (cm cm' : ChainManager)
    → cm'.writes ≡ cm.writes
    → cm'.blockchain ≡ cm.blockchain
    → Logged cm cm'
unchanged cm cm' same_log same_chain =
    ([], same_log ∙ sym (append-nil cm.writes), rw same_chain keeps)

-- Blocks are added on top.
blocks-add_blocks :
    (bs : List Block) (c : Blockchain)
    → (new : List Block) × ((add_blocks bs c).blocks ≡ c.blocks ++ new) × (length new ≡ length bs)
unfolding add_blocks add_block
blocks-add_blocks [] c = ([], sym (append-nil c.blocks), refl)
blocks-add_blocks (b ∷ bs) c =
    let (new, e, long) = blocks-add_blocks bs (add_block b c) in
    (_, e ∙ append_assoc c.blocks _ new, omega (arith, long))

take-length-take : {A : Type 0} (n : ℕ) (xs : List A) → take (length (take n xs)) xs ≡ take n xs
take-length-take zero xs = refl
take-length-take (suc n) [] = refl
take-length-take (suc n) (x ∷ xs) = ap (λ t. x ∷ t) (take-length-take n xs)

replaces_kept :
    (bs new blocks tail : List Block) (height n : ℕ)
    → blocks ≡ take height bs ++ new
    → n ≡ length (take height bs)
    → tail ≡ new
    → Change bs blocks (State.replace_blocks_from n tail ∷ [])
replaces_kept bs new blocks tail height n e en et =
    let same = take-length-take height bs in
    let base : Change bs (take (length (take height bs)) bs ++ new)
        (State.replace_blocks_from (length (take height bs)) new ∷ []) =
      replaces (length (take height bs)) new (rw same refl) in
    let change : Change bs (take height bs ++ new)
        (State.replace_blocks_from (length (take height bs)) new ∷ []) =
      rw same at base in
    rw (e, en, et) change

-- The branch as it stands in the chain after a reorganization.
reorganized-Change :
    (fork : ForkChain) (c : Blockchain) (height : ℕ)
    → let c' = add_blocks fork.blocks (truncate height c) in
      let n = length c'.blocks - length fork.blocks in
      Change c.blocks c'.blocks (State.replace_blocks_from n (drop n c'.blocks) ∷ [])
unfolding truncate
reorganized-Change fork c height =
    let c' = add_blocks fork.blocks (truncate height c) in
    let n = length c'.blocks - length fork.blocks in
    let kept = take (suc height) c.blocks in
    let (new, e, long) = blocks-add_blocks fork.blocks (truncate height c) in
    let en : n ≡ length kept = omega (arith, ap length e, length-append kept new, long) in
    let et : drop n c'.blocks ≡ new =
      ap (drop n) e ∙ ap (λ k. drop k (kept ++ new)) en ∙ drop-append kept new in
    replaces_kept c.blocks new c'.blocks (drop n c'.blocks) (suc height) n e en et

module _ ⦃ssl : OpenSsl⦄ where
  settle-Logs :
      (fork : ForkChain) (discarded : List Block) (cm : ChainManager) (height : ℕ)
      → cm.has_storage ≡ true
      → After
          (Logged cm)
          (settle fork discarded (add_blocks fork.blocks (truncate height cm.blockchain)) cm)
  unfolding settle
  settle-Logs fork discarded cm height h =
      let c' = add_blocks fork.blocks (truncate height cm.blockchain) in
      let hashes = spend_hashes (transactions_of fork.blocks) in
      let old = reverse (transactions_of discarded) in
      elim (Outcome-cases (take_back hashes old cm.ledger cm.mempool)) [
        | inl e ↦ rw (settle, e) tt
        | inr (back, e) ↦ rw (settle, e, h) (_, refl, reorganized-Change fork cm.blockchain height)
      ]

  -- What `try_reorg` makes of a reorganization.
  abbrev answered :
      ForkChain
      → ChainManager
      → Option (List Block) × Blockchain
      → Outcome (Option (List Bytes) × ChainManager)
  answered fork cm r = elim r.0 [
    | none ↦ ok (none, cm)
    | some discarded ↦
        settle fork discarded r.1 cm >>= λ cm'. ok (some (map (λ b. b.hash) fork.blocks), cm')
  ]

  reorganized-Logs :
      (fork : ForkChain) (cm : ChainManager)
      → cm.has_storage ≡ true
      → Logs cm (answered fork cm (reorganize_to fork cm.blockchain))
  reorganized-Logs fork cm h =
      elim (Option-cases (find_height cm.blockchain fork.common_ancestor.hash)) [
        | inl missing ↦
            subst (λ r. Logs cm (answered fork cm r))
              (sym (reorganize_to-missing fork cm.blockchain missing)) (unchanged cm cm refl refl)
        | inr (height, found) ↦
            let discarded = drop (suc height) cm.blockchain.blocks in
            let c' = add_blocks fork.blocks (truncate height cm.blockchain) in
            subst (λ r. Logs cm (answered fork cm r))
              (sym (reorganize_to-found fork cm.blockchain height found))
              (After-then (Logged cm) (λ (p : Option (List Bytes) × ChainManager). Logged cm p.1)
                (settle fork discarded c' cm) _ (settle-Logs fork discarded cm height h)
                λ cm' _ logged. logged)
      ]

  pub try_reorg-Logs :
      (fork : ForkChain) (cm : ChainManager) → cm.has_storage ≡ true → Logs cm (try_reorg fork cm)
  unfolding try_reorg
  try_reorg-Logs fork cm h = After->>= _ (is_fork_heavier cm.blockchain fork) _ λ heavier _.
      on_branches (Logs {A = Option (List Bytes)} cm) (not heavier) _ _
        (λ _. unchanged cm cm refl refl)
        λ _. After->>= _ (all_signed (transactions_of fork.blocks)) _ λ signed _.
          on_branches (Logs {A = Option (List Bytes)} cm) (not signed) _ _
            (λ _. unchanged cm cm refl refl) λ _. reorganized-Logs fork cm h
