-- ===== src/Network/AddressBook/Backoff.antt =====
-- When an address is dialled again.
use mathlib.Core.Option.{some-injective}
use forgechain.Prelude.{
  subst, Bool, ◌≢◌, Option-cases, ℕ, ◌+◌, ◌*◌, ◌-◌, ◌^◌, min, ◌≤◌, ◌<◌, ◌≡◌, refl, sym, ap, ◌∙◌,
  true, Bool-cases, inl, inr, some, leb, arith,
}
use forgechain.Prelude.Powers.{pow-split, pow-pos}
use forgechain.Network.Clock.{TimePoint, seconds}
use forgechain.Network.PeerAddress.{PeerAddress}
use forgechain.Network.PeerAddress.Laws.{same_address_iff}
use forgechain.Network.AddressBook.{
  AddressEntry, AddressBook, max_failures, find, change, may_try, select_candidate, missed, backoff,
  mark_failure, Inet, add, mark_success, dialled, reached, fresh, select_entry,
}
use forgechain.Network.AddressBook.Entries.{
  IsDistinct, find-change, change-IsDistinct, select_entry-some, select_entry-none, KeepsAddress,
  add-cases, append_one-IsDistinct, find-append_one,
}

-- The pause after a failure doubles from five seconds on and is never longer than ten minutes: the
-- cap on the shift is out of reach.
pub backoff_lem : (n : ℕ) → backoff (n + 1) ≡ min (seconds 5 * 2 ^ n) (seconds 600)
unfolding backoff
backoff_lem n = elim (Bool-cases (leb n 7)) [
  | inl small ↦ let e : min (n + 1 - 1) 7 ≡ n = ground arith in rw e refl
  | inr large ↦
      let e : min (n + 1 - 1) 7 ≡ 7 = ground arith in
      let big : 2 ^ n ≡ 2 ^ 7 * 2 ^ (n - 7) = pow-split 7 n (ground arith) in
      rw e (omega (arith, big, pow-pos (n - 7)))
]

pub backoff_bounds : (n : ℕ) → (seconds 5 ≤ backoff (n + 1)) × (backoff (n + 1) ≤ seconds 600)
backoff_bounds n = omega (arith, backoff_lem n, pow-pos n)

-- A selected address is in the book, is not being dialled, has failed fewer than ten times and is due.
pub select_candidate-may_try :
    (now : TimePoint) (b : AddressBook) (a : PeerAddress)
    → IsDistinct b.book
    → (select_candidate now b).0 ≡ some a
    → (entry : AddressEntry) × (find a b.book ≡ some entry) × (may_try now entry ≡ true)
unfolding select_candidate
select_candidate-may_try now b a d h =
    let (entry, found, may, _) = select_entry-some now b.book a d h in (entry, found, may)

-- The calls that do not concern the entry of an address: anything about other addresses, adding, and
-- selections with another answer.
pub data Elsewhere ⦃inet : Inet⦄ (a : PeerAddress) (b : AddressBook) : AddressBook → Type 0 where
  here : Elsewhere a b b
  adds :
      (now : TimePoint) (q : PeerAddress) (trusted : Bool) {c : AddressBook}
      → Elsewhere a b c
      → Elsewhere a b (add now q trusted c).1
  succeeds :
      (now : TimePoint) (q : PeerAddress) {c : AddressBook}
      → q ≢ a
      → Elsewhere a b c
      → Elsewhere a b (mark_success now q c)
  fails :
      (now : TimePoint) (q : PeerAddress) {c : AddressBook}
      → q ≢ a
      → Elsewhere a b c
      → Elsewhere a b (mark_failure now q c)
  selects :
      (now : TimePoint) {c : AddressBook}
      → (select_candidate now c).0 ≢ some a
      → Elsewhere a b c
      → Elsewhere a b (select_candidate now c).1

-- Distinct addresses, with this entry of an address.
record Holds (a : PeerAddress) (entry : AddressEntry) (b : AddressBook) : Type 0 where
  distinct : IsDistinct b.book
  found : find a b.book ≡ some entry

Holds-change :
    (f : AddressEntry → AddressEntry) (q a : PeerAddress) (entry : AddressEntry) (b : AddressBook)
    → KeepsAddress f
    → q ≢ a
    → Holds a entry b
    → Holds a entry (record { book = change f q b.book })
Holds-change f q a entry b keeps other h = record {
  distinct = change-IsDistinct f q b.book keeps h.distinct;
  found = ground (arith, find-change f q a b.book keeps, same_address_iff q a, h.found);
}

Holds-selects :
    (now : TimePoint) (a : PeerAddress) (entry : AddressEntry) (b : AddressBook)
    → (select_candidate now b).0 ≢ some a
    → Holds a entry b
    → Holds a entry (select_candidate now b).1
unfolding select_candidate
Holds-selects now a entry b other h = elim (Option-cases (select_entry now b.book).0) [
  | inl nothing ↦
      let (_, kept) = select_entry-none now b.book nothing in
      subst (Holds a entry) (ap (λ book. record { book = book }) (sym kept)) h
  | inr (q, chosen) ↦
      let (_, _, _, changed) = select_entry-some now b.book q h.distinct chosen in
      subst (Holds a entry) (ap (λ book. record { book = book }) (sym changed))
        (Holds-change dialled q a entry b (λ _. refl) (λ e. other (chosen ∙ ap (λ x. some x) e)) h)
]

module _ ⦃inet : Inet⦄ where
  Holds-add :
      (now : TimePoint) (q : PeerAddress) (trusted : Bool) (a : PeerAddress) (entry : AddressEntry)
      (b : AddressBook)
      → Holds a entry b
      → Holds a entry (add now q trusted b).1
  Holds-add now q trusted a entry b h = elim (add-cases now q trusted b) [
    | inl kept ↦ rw kept h
    | inr ((_, _, _, absent), grown) ↦ rw grown (record {
      distinct = append_one-IsDistinct (fresh now q) b.book absent h.distinct;
      found = find-append_one (fresh now q) a b.book ∙ rw h.found refl;
    })
  ]

  Elsewhere-Holds :
      (a : PeerAddress) (entry : AddressEntry) (b : AddressBook) {c : AddressBook}
      → Elsewhere a b c
      → Holds a entry b
      → Holds a entry c
  unfolding mark_success mark_failure
  Elsewhere-Holds a entry b here h = h
  Elsewhere-Holds a entry b (adds now q trusted {c} e) h =
      Holds-add now q trusted a entry c (Elsewhere-Holds a entry b e h)
  Elsewhere-Holds a entry b (succeeds now q {c} other e) h =
      Holds-change (reached now) q a entry c (λ _. refl) other (Elsewhere-Holds a entry b e h)
  Elsewhere-Holds a entry b (fails now q {c} other e) h =
      Holds-change (missed now) q a entry c (λ _. refl) other (Elsewhere-Holds a entry b e h)
  Elsewhere-Holds a entry b (selects now {c} other e) h =
      Holds-selects now a entry c other (Elsewhere-Holds a entry b e h)

  failed-Holds :
      (failed_at : TimePoint) (b : AddressBook) (a : PeerAddress) (entry : AddressEntry)
      → IsDistinct b.book
      → find a b.book ≡ some entry
      → Holds a (missed failed_at entry) (mark_failure failed_at a b)
  unfolding mark_failure
  failed-Holds failed_at b a entry d found = record {
    distinct = change-IsDistinct (missed failed_at) a b.book (λ _. refl) d;
    found =
        find-change (missed failed_at) a a b.book (λ _. refl)
        ∙ rw ((same_address_iff a a).1 refl, found);
  }

  -- In a book with distinct addresses the dial of an address failed, and then there were any calls
  -- about other addresses, additions, and selections that did not choose it. The address has an entry
  -- that may be tried exactly when the pause after the failure is over and fewer than ten dials have
  -- failed; the pause doubles with each failure from five seconds on, up to ten minutes. So the next
  -- selection that chooses the address is then.
  pub select_candidate-mark_failure :
      (failed_at now : TimePoint) (b later : AddressBook) (a : PeerAddress) (entry : AddressEntry)
      → IsDistinct b.book
      → find a b.book ≡ some entry
      → Elsewhere a (mark_failure failed_at a b) later
      → let pause = min (seconds 5 * 2 ^ entry.failures) (seconds 600) in
        let IsDue = (failed_at + pause ≤ now) × (entry.failures + 1 < max_failures) in
        (waiting : AddressEntry) × (find a later.book ≡ some waiting)
        × (may_try now waiting ≡ true → IsDue)
        × (IsDue → may_try now waiting ≡ true)
        × ((select_candidate now later).0 ≡ some a → IsDue)
  select_candidate-mark_failure failed_at now b later a entry d found between =
      let h =
        Elsewhere-Holds a (missed failed_at entry) _ between
          (failed-Holds failed_at b a entry d found) in
      let pause = backoff_lem entry.failures in
      let due : may_try now (missed failed_at entry) ≡ true
          → (failed_at + min (seconds 5 * 2 ^ entry.failures) (seconds 600) ≤ now)
            × (entry.failures + 1 < max_failures) =
        λ may. ground (arith, pause) in
      (
        missed failed_at entry,
        h.found,
        due,
        λ is_due. ground (arith, pause),
        λ chosen.
            let (e, at, may) = select_candidate-may_try now later a h.distinct chosen in
            due (ap (may_try now) (some-injective _ _ (sym h.found ∙ at)) ∙ may),
      )
