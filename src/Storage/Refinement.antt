-- ===== src/Storage/Refinement.antt =====
-- After each call of a manager its storage holds its chain.
use forgechain.Core.Blockchain.Index.{hash_at}
use forgechain.Prelude.{
  ℕ, ◌≢◌, some, take, ◌≡◌, subst, ◌∙◌, ap, true, List, [], ◌∷◌, ◌++◌, length, drop, drop-append,
}
use forgechain.Prelude.Outcome.{ok, After}
use forgechain.Crypto.{OpenSsl}
use forgechain.Core.Block.{Block}
use forgechain.Consensus.Difficulty.{Doubles}
use forgechain.Chain.State
use forgechain.Chain.State.{ChainManager, Write}
use forgechain.Storage.{Row, Sqlite, done, perform, perform_all}
use forgechain.Storage.Mirror.{
  Distinct, Mirrors, done-injective, >>=-eq-done, save_block-Mirrors, Distinct-fresh,
  replace_blocks_from-Mirrors,
}
use forgechain.Storage.Log.{Change, keeps, saves, replaces, Logged}
use forgechain.Storage.Calls.{Request, serve, serve-Logged}

module _ ⦃sql : Sqlite⦄ where
  Change-Mirrors :
      (bs bs' : List Block) (ws : List Write) (db db' : sql.Db)
      → Change bs bs' ws
      → Distinct bs'
      → Mirrors bs db
      → perform_all ws db ≡ done db'
      → Mirrors bs' db'
  unfolding perform_all perform
  Change-Mirrors bs bs' ws db db' keeps d m e = subst (Mirrors bs) (done-injective db db' e) m
  Change-Mirrors bs bs' ws db db' (saves b b' same) d m e =
      let (after, saved, end) = >>=-eq-done (perform (State.save_block b (length bs)) db) _ e in
      let fresh : (i : ℕ) → hash_at bs i ≢ some b.hash = λ i.
        subst (λ h. hash_at bs i ≢ some h) (ap (λ (r : Row). r.0) same)
          (Distinct-fresh bs [] b' d i) in
      subst (Mirrors (bs ++ b' ∷ [])) (done-injective after db' end)
        (save_block-Mirrors bs b b' db after same fresh m saved)
  Change-Mirrors bs bs' ws db db' (replaces n new long) d m e =
      let (after, replaced, end) = >>=-eq-done (perform (State.replace_blocks_from n new) db) _ e in
      subst (Mirrors (take n bs ++ new)) (done-injective after db' end)
        (replace_blocks_from-Mirrors bs new n db after long d m replaced)

module _ ⦃ssl : OpenSsl⦄ ⦃doubles : Doubles⦄ ⦃sql : Sqlite⦄ where
  -- A storage that holds the chain of a manager holds it after a block was submitted, a transaction
  -- was submitted or a branch was adopted, too, also where the end of the chain was replaced, once it
  -- has done what the call wrote to it; if no two blocks of the chain after have the same hash.
  pub serve-Mirrors :
      (request : Request) (cm cm' : ChainManager) (db db' : sql.Db)
      → cm.has_storage ≡ true
      → serve request cm ≡ ok cm'
      → Distinct cm'.blockchain.blocks
      → Mirrors cm.blockchain.blocks db
      → perform_all (drop (length cm.writes) cm'.writes) db ≡ done db'
      → Mirrors cm'.blockchain.blocks db'
  serve-Mirrors request cm cm' db db' h served d m e =
      let (ws, log, change) = subst (After (Logged cm)) served (serve-Logged request cm h) in
      let written : drop (length cm.writes) cm'.writes ≡ ws =
        ap (drop (length cm.writes)) log ∙ drop-append cm.writes ws in
      Change-Mirrors cm.blockchain.blocks cm'.blockchain.blocks ws db db' change d m
        (rw written at e)
