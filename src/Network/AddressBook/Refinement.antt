-- ===== src/Network/AddressBook/Refinement.antt =====
-- The address book, seen as a function from addresses to entries. The order of the entries is
-- forgotten: it decides only which of the addresses that are due is selected.
use mathlib.Core.Path.{fun_ext}
use mathlib.Core.Option.{some-injective}
use forgechain.Prelude.{
  ◌≢◌, ◌<◌, ◌||◌, length, ap, ◌∙◌, ◌+◌, ◌*◌, ◌^◌, min, ◌≡◌, refl, subst, Bool, true, false,
  Bool-cases, inl, inr, Option-cases, Option, none, some, List, [], ◌∷◌, All, if◌then◌else◌, arith,
}
use forgechain.Network.Clock.{TimePoint, seconds}
use forgechain.Network.AddressBook.Backoff.{backoff_lem}
use forgechain.Network.PeerAddress.{PeerAddress, same_address}
use forgechain.Network.PeerAddress.Laws.{same_address_iff}
use forgechain.Network.AddressBook.{
  Inet, is_empty, is_routable, max_entries, AddressEntry, AddressBook, find, change, fresh, add,
  may_try, dialled, select_entry, select_candidate, reached, mark_success, missed, mark_failure,
}
use forgechain.Network.AddressBook.Entries.{
  IsDistinct, KeepsAddress, find-change, find-append_one, map_option, select_entry-some,
  select_entry-none, add-cases, with_fresh,
}

-- What the book promises: a partial function.
abbrev pub Directory : Type 0
Directory = PeerAddress → Option AddressEntry

abbrev pub view : AddressBook → Directory
view b a = find a b.book

-- A change at one address.
abbrev pub modify :
    (Option AddressEntry → Option AddressEntry) → PeerAddress → Directory → Directory
modify f a dir q = if same_address a q then f (dir q) else dir q

-- A selection answers with nothing where no entry is due, and else with an address whose entry is,
-- which it puts in progress.
abbrev pub Selects : TimePoint → Directory → Option PeerAddress → Directory → Type 0
Selects now dir none dir' =
    ((q : PeerAddress) (entry : AddressEntry) → dir q ≡ some entry → may_try now entry ≡ false)
    × (dir' ≡ dir)
Selects now dir (some a) dir' =
    (entry : AddressEntry) × (dir a ≡ some entry)
    × (may_try now entry ≡ true)
    × (dir' ≡ modify (map_option dialled) a dir)

-- What the book promises of an entry: how a new one starts, and what a report makes of one.
abbrev pub starts : TimePoint → PeerAddress → AddressEntry
starts now a = record {
  address = a;
  next_try = now;
  failures = 0;
  succeeded = false;
  in_progress = false;
}

abbrev pub works : TimePoint → AddressEntry → AddressEntry
works now entry = record {
  address = entry.address;
  next_try = now + seconds 5;
  failures = 0;
  succeeded = true;
  in_progress = false;
}

abbrev pub fails : TimePoint → AddressEntry → AddressEntry
fails now entry = record {
  address = entry.address;
  next_try = now + min (seconds 5 * 2 ^ entry.failures) (seconds 600);
  failures = entry.failures + 1;
  succeeded = entry.succeeded;
  in_progress = false;
}

-- Adding defines the entry of an address that had none, or does nothing.
abbrev pub Adds : TimePoint → PeerAddress → Directory → Bool → Directory → Type 0
Adds now a dir true dir' = (dir a ≡ none) × (dir' ≡ modify (λ _. some (starts now a)) a dir)
Adds now a dir false dir' = dir' ≡ dir

missed-fails : (now : TimePoint) (entry : AddressEntry) → missed now entry ≡ fails now entry
missed-fails now entry =
    ap (λ pause. record (fails now entry) { next_try = now + pause }) (backoff_lem entry.failures)

view-change :
    (f : AddressEntry → AddressEntry) (a : PeerAddress) (book : List AddressEntry)
    → KeepsAddress f
    → view (record { book = change f a book })
      ≡ modify (map_option f) a (view (record { book = book }))
view-change f a book keeps = fun_ext λ q. find-change f a q book keeps

view-with_fresh :
    (now : TimePoint) (a : PeerAddress) (b : AddressBook)
    → find a b.book ≡ none
    → view (with_fresh now a b) ≡ modify (λ _. some (fresh now a)) a (view b)
view-with_fresh now a b absent = fun_ext λ q.
    ground
      (arith, find-append_one (fresh now a) q b.book, same_address_iff a q, same_address_iff q a)

All-find :
    (P : AddressEntry → Type 0) (q : PeerAddress) (book : List AddressEntry) {entry : AddressEntry}
    → All P book
    → find q book ≡ some entry
    → P entry
unfolding find
All-find P q [] h e = cc
All-find P q (x ∷ book) (h, hs) e = elim (Bool-cases (same_address q x.address)) [
  | inl same ↦ subst P (some-injective _ _ (rw same at e)) h
  | inr other ↦ All-find P q book hs (rw other at e)
]

module _ ⦃inet : Inet⦄ where
  add-view :
      (now : TimePoint) (a : PeerAddress) (trusted : Bool) (b : AddressBook)
      → Adds now a (view b) (add now a trusted b).0 (view (add now a trusted b).1)
  add-view now a trusted b = elim (add-cases now a trusted b) [
    | inl kept ↦ rw kept refl
    | inr ((_, _, _, absent), grown) ↦ rw grown (absent, view-with_fresh now a b absent)
  ]

  -- There is room for the address, it can be dialled, and its source is trusted or it is routable.
  abbrev pub IsWanted : PeerAddress → Bool → AddressBook → Type 0
  IsWanted a trusted b =
      (is_empty a.host ≡ false)
      × (a.port ≢ 0)
      × (length b.book < max_entries)
      × ((trusted || is_routable a) ≡ true)

  add-wanted :
      (now : TimePoint) (a : PeerAddress) (trusted : Bool) (b : AddressBook)
      → IsWanted a trusted b
      → view b a ≡ none
      → (add now a trusted b).0 ≡ true
  unfolding add
  add-wanted now a trusted b wanted absent = ground (arith, wanted, absent)

  select-view :
      (now : TimePoint) (b : AddressBook)
      → IsDistinct b.book
      → Selects now (view b) (select_candidate now b).0 (view (select_candidate now b).1)
  unfolding select_candidate
  select-view now b d = elim (Option-cases (select_entry now b.book).0) [
    | inl nothing ↦
        let (none_may, kept) = select_entry-none now b.book nothing in
        rw (nothing, kept)
          (λ q entry e. All-find (λ entry. may_try now entry ≡ false) q b.book none_may e, refl)
    | inr (a, found) ↦
        let (entry, at, may, changed) = select_entry-some now b.book a d found in
        rw (found, changed) (entry, at, may, view-change dialled a b.book (λ _. refl))
  ]

  -- An address book whose addresses are distinct is a partial function from addresses to entries. A
  -- report of success at an address that has an entry makes it one without failures, that worked, is
  -- not in progress and is due in five seconds; a report of failure makes it one with one failure more,
  -- not in progress, due after a pause that doubles from five seconds on and is at most ten minutes.
  -- Adding that answers yes defines the entry of an address that had none, as one that is due at once,
  -- and adding that answers no does nothing; it answers yes for every address without an entry that can
  -- be dialled and is routable, or comes from a trusted source, while there is room. A selection answers with an address whose entry is due,
  -- and puts that in progress, or with nothing where no entry is. No other entry changes.
  pub AddressBook-refines :
      (now : TimePoint) (a : PeerAddress) (trusted : Bool) (b : AddressBook)
      → IsDistinct b.book
      → (view (mark_success now a b) ≡ modify (map_option (works now)) a (view b))
        × (view (mark_failure now a b) ≡ modify (map_option (fails now)) a (view b))
        × Adds now a (view b) (add now a trusted b).0 (view (add now a trusted b).1)
        × (IsWanted a trusted b → view b a ≡ none → (add now a trusted b).0 ≡ true)
        × Selects now (view b) (select_candidate now b).0 (view (select_candidate now b).1)
  unfolding mark_success mark_failure
  AddressBook-refines now a trusted b d = (
    view-change (reached now) a b.book (λ _. refl),
    view-change (missed now) a b.book (λ _. refl)
        ∙ ap (λ f. modify (map_option f) a (view b)) (fun_ext (missed-fails now)),
    add-view now a trusted b,
    add-wanted now a trusted b,
    select-view now b d,
  )
