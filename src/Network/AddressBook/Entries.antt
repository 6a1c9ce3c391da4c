-- ===== src/Network/AddressBook/Entries.antt =====
-- The list of entries: what is found after a change, and what a selection changes.
use mathlib.Core.Option.{some-injective}
use forgechain.Prelude.{
  ◌<◌, ◌≡◌, ◌≢◌, ◌⊎◌, refl, sym, ◌∙◌, Bool, true, false, not, ◌&&◌, ◌||◌, Bool-cases, inl, inr,
  Option, none, some, Option-cases, List, [], ◌∷◌, ◌++◌, All, length, leb, ◌==◌, if◌then◌else◌,
  arith,
}
use forgechain.Network.Clock.{TimePoint}
use forgechain.Network.PeerAddress.{PeerAddress, same_address}
use forgechain.Network.PeerAddress.Laws.{same_address_iff}
use forgechain.Network.AddressBook.{
  Inet, AddressEntry, AddressBook, max_entries, is_empty, is_routable, find, change, fresh, add,
  may_try, dialled, select_entry,
}

-- A change of an entry that keeps its address.
abbrev pub KeepsAddress : (AddressEntry → AddressEntry) → Type 0
KeepsAddress f = (entry : AddressEntry) → (f entry).address ≡ entry.address

abbrev pub map_option {ℓ} : {A : Type ℓ} → (A → A) → Option A → Option A
map_option f none = none
map_option f (some a) = some (f a)

pub find-change :
    (f : AddressEntry → AddressEntry) (a q : PeerAddress) (book : List AddressEntry)
    → KeepsAddress f
    → find q (change f a book)
      ≡ (if same_address a q then map_option f (find q book) else find q book)
unfolding find change
find-change f a q [] keeps = ground arith
find-change f a q (entry ∷ book) keeps = ground (
  arith,
  keeps entry,
  same_address_iff a q,
  same_address_iff a entry.address,
  same_address_iff q entry.address,
  same_address_iff q (f entry).address,
  find-change f a q book keeps,
)

pub find-append_one :
    (entry : AddressEntry) (q : PeerAddress) (book : List AddressEntry)
    → find q (book ++ entry ∷ []) ≡ (elim (find q book) [
      | some found ↦ some found
      | none ↦ if same_address q entry.address then some entry else none
    ])
unfolding find
find-append_one entry q [] = refl
find-append_one entry q (e ∷ book) = ground (arith, find-append_one entry q book)

-- Every address has one entry.
abbrev pub IsDistinct : List AddressEntry → Type 0
IsDistinct [] = Unit {0}
IsDistinct (entry ∷ book) = (find entry.address book ≡ none) × IsDistinct book

pub change-IsDistinct :
    (f : AddressEntry → AddressEntry) (a : PeerAddress) (book : List AddressEntry)
    → KeepsAddress f
    → IsDistinct book
    → IsDistinct (change f a book)
unfolding change
change-IsDistinct f a [] keeps h = tt
change-IsDistinct f a (entry ∷ book) keeps (h, hs) = ground (
  arith,
  keeps entry,
  find-change f a entry.address book keeps,
  change-IsDistinct f a book keeps hs,
)

find-cons :
    (a : PeerAddress) (entry : AddressEntry) (book : List AddressEntry)
    → find a (entry ∷ book) ≡ none
    → (same_address a entry.address ≡ false) × (find a book ≡ none)
unfolding find
find-cons a entry book h = ground arith

same_address_sym : (a b : PeerAddress) → same_address a b ≡ false → same_address b a ≡ false
same_address_sym a b h = ground (arith, same_address_iff a b, same_address_iff b a)

pub append_one-IsDistinct :
    (entry : AddressEntry) (book : List AddressEntry)
    → find entry.address book ≡ none
    → IsDistinct book
    → IsDistinct (book ++ entry ∷ [])
append_one-IsDistinct entry [] h hs = (unfold find in refl, tt)
append_one-IsDistinct entry (e ∷ book) h (he, hs) =
    let (other, rest) = find-cons entry.address e book h in
    let new : find e.address (book ++ entry ∷ []) ≡ none =
      find-append_one entry e.address book
      ∙ rw he (rw (same_address_sym entry.address e.address other)) in
    (new, append_one-IsDistinct entry book rest hs)

find-All :
    (a : PeerAddress) (book : List AddressEntry)
    → find a book ≡ none
    → All (λ entry. same_address a entry.address ≡ false) book
find-All a [] h = tt
find-All a (entry ∷ book) h =
    let (other, rest) = find-cons a entry book h in (other, find-All a book rest)

module _ {P Q : AddressEntry → Type 0} where
  All-weaken :
      (book : List AddressEntry) (a : PeerAddress)
      → All (λ entry. same_address a entry.address ≡ false) book
      → ((entry : AddressEntry) → same_address a entry.address ≡ false → P entry → Q entry)
      → All P book
      → All Q book
  All-weaken [] a others keep h = tt
  All-weaken (entry ∷ book) a (o, os) keep (h, hs) = (keep entry o h, All-weaken book a os keep hs)

  -- A change of the one entry of an address.
  pub All-change :
      (f : AddressEntry → AddressEntry) (a : PeerAddress) (book : List AddressEntry)
      → IsDistinct book
      → All P book
      → ((entry : AddressEntry) → find a book ≡ some entry → P entry → Q (f entry))
      → ((entry : AddressEntry) → same_address a entry.address ≡ false → P entry → Q entry)
      → All Q (change f a book)
  unfolding find change
  All-change f a [] distinct h changed kept = tt
  All-change f a (entry ∷ book) (d, ds) (h, hs) changed kept =
      elim (Bool-cases (same_address a entry.address)) [
        | inl same ↦
            let e : a ≡ entry.address = (same_address_iff a entry.address).0 same in
            rw same
              (changed entry (rw same) h, All-weaken book a (find-All a book (rw e d)) kept hs)
        | inr other ↦ rw other (
          kept entry other h,
          All-change f a book ds hs (λ found e. changed found (rw other e)) kept,
        )
      ]

-- What a selection finds, and what it changes.
pub select_entry-some :
    (now : TimePoint) (book : List AddressEntry) (a : PeerAddress)
    → IsDistinct book
    → (select_entry now book).0 ≡ some a
    → (entry : AddressEntry) × (find a book ≡ some entry)
      × (may_try now entry ≡ true)
      × ((select_entry now book).1 ≡ change dialled a book)
unfolding select_entry find change
select_entry-some now [] a d h = cc
select_entry-some now (e ∷ book) a (d, ds) h = elim (Bool-cases (may_try now e)) [
  | inl may ↦
      let here : e.address ≡ a = some-injective _ _ (rw may at h) in
      let same : same_address a e.address ≡ true = (same_address_iff a e.address).1 (sym here) in
      (e, rw same, may, rw (may, same))
  | inr not_now ↦
      let (entry, found, may, changed) = select_entry-some now book a ds (rw not_now at h) in
      let other : same_address a e.address ≡ false = ground (arith, same_address_iff a e.address) in
      (entry, rw other found, may, rw (not_now, other, changed))
]

pub select_entry-none :
    (now : TimePoint) (book : List AddressEntry)
    → (select_entry now book).0 ≡ none
    → All (λ entry. may_try now entry ≡ false) book × ((select_entry now book).1 ≡ book)
unfolding select_entry
select_entry-none now [] h = (tt, refl)
select_entry-none now (e ∷ book) h = elim (Bool-cases (may_try now e)) [
  | inl may ↦ ground arith
  | inr not_now ↦
      let (rest, kept) = select_entry-none now book (rw not_now at h) in
      ((not_now, rest), rw (not_now, kept))
]

pub length-change :
    (f : AddressEntry → AddressEntry) (a : PeerAddress) (book : List AddressEntry)
    → length (change f a book) ≡ length book
unfolding change
length-change f a [] = refl
length-change f a (entry ∷ book) = ground (arith, length-change f a book)

pub find-address :
    (a : PeerAddress) (book : List AddressEntry) {entry : AddressEntry}
    → find a book ≡ some entry
    → entry.address ≡ a
unfolding find
find-address a [] h = cc
find-address a (e ∷ book) {entry} h = elim (Bool-cases (same_address a e.address)) [
  | inl same ↦ ground (arith, same_address_iff a e.address)
  | inr other ↦ find-address a book (rw other at h)
]

-- What is known of an address that is added.
abbrev pub IsNew : PeerAddress → AddressBook → Type 0
IsNew a b =
    (is_empty a.host ≡ false)
    × (a.port ≢ 0)
    × (length b.book < max_entries)
    × (find a b.book ≡ none)

abbrev pub with_fresh : TimePoint → PeerAddress → AddressBook → AddressBook
with_fresh now a b = record { book = b.book ++ fresh now a ∷ [] }

pub add-cases :
    ⦃inet : Inet⦄ (now : TimePoint) (a : PeerAddress) (trusted : Bool) (b : AddressBook)
    → (add now a trusted b ≡ (false, b))
      ⊎ (IsNew a b × (add now a trusted b ≡ (true, with_fresh now a b)))
unfolding add
add-cases now a trusted b = elim (Bool-cases (is_empty a.host || a.port == 0)) [
  | inl unusable ↦ inl (rw unusable)
  | inr usable ↦ elim (Bool-cases (not trusted && not (is_routable a))) [
    | inl foreign ↦ inl (rw (usable, foreign))
    | inr wanted ↦ elim (Bool-cases (leb max_entries (length b.book))) [
      | inl full ↦ inl (rw (usable, wanted, full))
      | inr room ↦ elim (Option-cases (find a b.book)) [
        | inl absent ↦
            inr (
              (ground arith, ground arith, ground arith, absent),
              rw (usable, wanted, room, absent),
            )
        | inr (entry, known) ↦ inl (rw (usable, wanted, room, known))
      ]
    ]
  ]
]
