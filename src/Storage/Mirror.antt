-- ===== src/Storage/Mirror.antt =====
-- The rows of the storage are the blocks of a chain.
use mathlib.Core.List.{append_assoc, append-nil}
use forgechain.Prelude.{
  length-append, ℕ, zero, suc, ◌-◌, ◌<◌, ◌≡◌, ◌≢◌, refl, sym, ap, subst, ◌∙◌, Option, none, some,
  List, [], ◌∷◌, ◌++◌, Bytes, bytes_eq_iff, length, get_elem?, take, ltb, ◌==◌, if◌then◌else◌,
  arith, Option-cases, inl, inr,
}
use forgechain.Core.Block
use forgechain.Core.Block.{Block}
use forgechain.Core.Blockchain.Index.{hash_at}
use forgechain.Storage.{
  Row, unless_hash, Sqlite, Call, done, thrown, undo, or_throw, ◌>>=◌, save_block, save_blocks,
  replace_blocks_from, delete_blocks_from,
}

abbrev pub row_of : Block → Row
row_of b = (b.hash, Block.serialize b)

-- The row that a chain has at a height.
unfoldable pub row_at : List Block → ℕ → Option Row
row_at bs i = elim (get_elem? bs i) [ none ↦ none | some b ↦ some (row_of b) ]

-- No two blocks have the same hash.
abbrev pub Distinct : List Block → Type 0
Distinct bs = (i j : ℕ) (h : Bytes) → hash_at bs i ≡ some h → hash_at bs j ≡ some h → i ≡ j

row_at-append_one :
    (bs : List Block) (b : Block) (i : ℕ)
    → row_at (bs ++ b ∷ []) i ≡ (if i == length bs then some (row_of b) else row_at bs i)
unfolding row_at
row_at-append_one [] b zero = refl
row_at-append_one [] b (suc i) = ground arith
row_at-append_one (x ∷ bs) b zero = ground arith
row_at-append_one (x ∷ bs) b (suc i) = ground (arith, row_at-append_one bs b i)

row_at-take :
    (n : ℕ) (bs : List Block) (i : ℕ)
    → row_at (take n bs) i ≡ (if ltb i n then row_at bs i else none)
unfolding row_at
row_at-take zero bs i = ground arith
row_at-take (suc n) [] i = ground arith
row_at-take (suc n) (b ∷ bs) zero = ground arith
row_at-take (suc n) (b ∷ bs) (suc i) = ground (arith, row_at-take n bs i)

hash_at-append :
    (xs ys : List Block) (i : ℕ)
    → hash_at (xs ++ ys) i
      ≡ (if ltb i (length xs) then hash_at xs i else hash_at ys (i - length xs))
unfolding hash_at
hash_at-append [] ys i = ground arith
hash_at-append (x ∷ xs) ys zero = ground arith
hash_at-append (x ∷ xs) ys (suc i) = ground (arith, hash_at-append xs ys i)

hash_at-lt : (bs : List Block) (i : ℕ) {h : Bytes} → hash_at bs i ≡ some h → i < length bs
unfolding hash_at
hash_at-lt [] i e = cc
hash_at-lt (b ∷ bs) zero e = omega arith
hash_at-lt (b ∷ bs) (suc i) e = omega (arith, hash_at-lt bs i e)

-- In a list without repeated hashes, none stands before a block with the same hash.
pub Distinct-fresh :
    (bs new : List Block) (b : Block)
    → Distinct (bs ++ b ∷ new)
    → (i : ℕ) → hash_at bs i ≢ some b.hash
unfolding hash_at
Distinct-fresh bs new b d i e = ground (
  arith,
  hash_at-lt bs i e,
  hash_at-append bs (b ∷ new) i,
  hash_at-append bs (b ∷ new) (length bs),
  d i (length bs) b.hash,
)

-- A row of another hash stays when a row is inserted.
unless_hash-row_at :
    (bs : List Block) (h : Bytes) (i : ℕ)
    → hash_at bs i ≢ some h
    → unless_hash h (row_at bs i) ≡ row_at bs i
unfolding row_at hash_at
unless_hash-row_at bs h i other = elim (Option-cases (get_elem? bs i)) [
  | inl e ↦ ground (arith, e)
  | inr (b, e) ↦ ground (arith, bytes_eq_iff b.hash h, e, other)
]

or_throw-eq :
    {Db : Type 0} (db : Db) (answer : Option Db) {db' : Db}
    → or_throw db answer ≡ done db'
    → answer ≡ some db'
or_throw-eq db none e = cc
or_throw-eq db (some x) e = ap (λ c. elim c [ done y ↦ some y | thrown y ↦ some x ]) e

pub done-injective : {Db : Type 0} (db db' : Db) → done db ≡ done db' → db ≡ db'
done-injective db db' e = ap (λ c. elim c [ done x ↦ x | thrown x ↦ x ]) e

module _ ⦃sql : Sqlite⦄ where
  pub record Mirrors (bs : List Block) (db : sql.Db) : Type 0 where
    pub rows : (i : ℕ) → sql.row i db ≡ row_at bs i

  pub save_block-Mirrors :
      (bs : List Block) (b b' : Block) (db db' : sql.Db)
      → row_of b' ≡ row_of b
      → ((i : ℕ) → hash_at bs i ≢ some b.hash)
      → Mirrors bs db
      → save_block b (length bs) db ≡ done db'
      → Mirrors (bs ++ b' ∷ []) db'
  unfolding save_block
  save_block-Mirrors bs b b' db db' same fresh m e = record {
    rows = λ i.
        sql.row-insert_block (length bs) b.hash (Block.serialize b) db db' i (or_throw-eq db _ e)
        ∙ rw (m.rows i, unless_hash-row_at bs b.hash i (fresh i), row_at-append_one bs b' i, same)
            refl;
  }

  -- A loop that ended well began with a call that did.
  pub >>=-eq-done :
      (first : Call sql.Db) (next : sql.Db → Call sql.Db) {db' : sql.Db}
      → (first >>= next) ≡ done db'
      → (db : sql.Db) × (first ≡ done db) × (next db ≡ done db')
  >>=-eq-done (done db) next e = (db, refl, e)
  >>=-eq-done (thrown db) next e = cc

  save_blocks-Mirrors :
      (bs new : List Block) (db db' : sql.Db)
      → Distinct (bs ++ new)
      → Mirrors bs db
      → save_blocks new (length bs) db ≡ done db'
      → Mirrors (bs ++ new) db'
  unfolding save_blocks
  save_blocks-Mirrors bs [] db db' d m e =
      subst (Mirrors (bs ++ [])) (done-injective db db' e) (rw (append-nil bs) m)
  save_blocks-Mirrors bs (b ∷ new) db db' d m e =
      let (between, saved, rest) = >>=-eq-done (save_block b (length bs) db) _ e in
      let m' : Mirrors (bs ++ b ∷ []) between =
        save_block-Mirrors bs b b db between refl (Distinct-fresh bs new b d) m saved in
      let here : length (bs ++ b ∷ []) ≡ suc (length bs) =
        omega (arith, length-append bs (b ∷ [])) in
      let assoc : (bs ++ b ∷ []) ++ new ≡ bs ++ b ∷ new = append_assoc bs (b ∷ []) new in
      rw (sym assoc)
        (save_blocks-Mirrors (bs ++ b ∷ []) new between db' (rw assoc d) m' (rw here rest))

  pub delete_blocks_from-Mirrors :
      (bs : List Block) (n : ℕ) (db db' : sql.Db)
      → Mirrors bs db
      → delete_blocks_from n db ≡ done db'
      → Mirrors (take n bs) db'
  unfolding delete_blocks_from
  delete_blocks_from-Mirrors bs n db db' m e = record {
    rows = λ i.
        sql.row-delete_from n db db' i (or_throw-eq db _ e)
        ∙ rw (m.rows i, row_at-take n bs i) refl;
  }

  Mirrors-begin :
      (bs : List Block) (db db' : sql.Db) → sql.begin db ≡ some db' → Mirrors bs db → Mirrors bs db'
  Mirrors-begin bs db db' e m = record { rows = λ i. sql.row-begin db db' i e ∙ m.rows i }

  Mirrors-commit :
      (bs : List Block) (db db' : sql.Db)
      → sql.commit db ≡ some db'
      → Mirrors bs db
      → Mirrors bs db'
  Mirrors-commit bs db db' e m = record { rows = λ i. sql.row-commit db db' i e ∙ m.rows i }

  undo-done : (call : Call sql.Db) {db : sql.Db} → undo call ≡ done db → call ≡ done db
  undo-done (done x) e = e
  undo-done (thrown x) e = cc

  -- The rows from a height on are replaced.
  pub replace_blocks_from-Mirrors :
      (bs new : List Block) (n : ℕ) (db db' : sql.Db)
      → length (take n bs) ≡ n
      → Distinct (take n bs ++ new)
      → Mirrors bs db
      → replace_blocks_from n new db ≡ done db'
      → Mirrors (take n bs ++ new) db'
  unfolding replace_blocks_from
  replace_blocks_from-Mirrors bs new n db db' long d m e =
      let (saved, before_commit, committed) = >>=-eq-done (or_throw db (sql.begin db) >>= _) _ e in
      let (started, began, within) = >>=-eq-done (or_throw db (sql.begin db)) _ before_commit in
      let (cut_off, deleted, appended) =
        >>=-eq-done (delete_blocks_from n started) (save_blocks new n) (undo-done _ within) in
      let cut =
        delete_blocks_from-Mirrors bs n started cut_off
          (Mirrors-begin bs db started (or_throw-eq db _ began) m) deleted in
      Mirrors-commit (take n bs ++ new) saved db' (or_throw-eq saved _ committed)
        (save_blocks-Mirrors (take n bs) new cut_off saved d cut (rw (sym long) at appended))
