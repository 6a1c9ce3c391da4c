-- ===== src/Network/AddressBook/Valid.antt =====
-- Every operation leaves at most one entry for an address, and at most 1000 entries.
use forgechain.Prelude.{
  ◌≤◌, refl, subst, sym, Bool, inl, inr, Option-cases, [], ◌∷◌, length, length-append, arith,
}
use forgechain.Network.Clock.{TimePoint}
use forgechain.Network.PeerAddress.{PeerAddress}
use forgechain.Network.AddressBook.{
  Inet, AddressEntry, AddressBook, max_entries, change, fresh, add, dialled, select_entry,
  select_candidate, reached, mark_success, missed, mark_failure,
}
use forgechain.Network.AddressBook.Entries.{
  IsDistinct, KeepsAddress, change-IsDistinct, append_one-IsDistinct, length-change,
  select_entry-some, select_entry-none, add-cases,
}

pub record IsValid (b : AddressBook) : Type 0 where
  pub distinct : IsDistinct b.book
  pub bounded : length b.book ≤ max_entries

change-IsValid :
    (f : AddressEntry → AddressEntry) (a : PeerAddress) (b : AddressBook)
    → KeepsAddress f
    → IsValid b
    → IsValid (record { book = change f a b.book })
change-IsValid f a b keeps v = record {
  distinct = change-IsDistinct f a b.book keeps v.distinct;
  bounded = subst (λ n. n ≤ max_entries) (sym (length-change f a b.book)) v.bounded;
}

pub mark_success-IsValid :
    (now : TimePoint) (a : PeerAddress) (b : AddressBook)
    → IsValid b
    → IsValid (mark_success now a b)
unfolding mark_success
mark_success-IsValid now a b v = change-IsValid (reached now) a b (λ _. refl) v

pub mark_failure-IsValid :
    (now : TimePoint) (a : PeerAddress) (b : AddressBook)
    → IsValid b
    → IsValid (mark_failure now a b)
unfolding mark_failure
mark_failure-IsValid now a b v = change-IsValid (missed now) a b (λ _. refl) v

pub select_candidate-IsValid :
    (now : TimePoint) (b : AddressBook) → IsValid b → IsValid (select_candidate now b).1
unfolding select_candidate
select_candidate-IsValid now b v = elim (Option-cases (select_entry now b.book).0) [
  | inl nothing ↦
      let (_, kept) = select_entry-none now b.book nothing in
      subst (λ l. IsValid (record { book = l })) (sym kept)
        (record { distinct = v.distinct; bounded = v.bounded })
  | inr (a, found) ↦
      let (_, _, _, changed) = select_entry-some now b.book a v.distinct found in
      subst (λ l. IsValid (record { book = l })) (sym changed)
        (change-IsValid dialled a b (λ _. refl) v)
]

pub add-IsValid :
    ⦃inet : Inet⦄ (now : TimePoint) (a : PeerAddress) (trusted : Bool) (b : AddressBook)
    → IsValid b
    → IsValid (add now a trusted b).1
add-IsValid now a trusted b v = elim (add-cases now a trusted b) [
  | inl kept ↦ subst (λ r. IsValid r.1) (sym kept) v
  | inr ((_, _, room, absent), grown) ↦
      subst (λ r. IsValid r.1) (sym grown)
        (record {
          distinct = append_one-IsDistinct (fresh now a) b.book absent v.distinct;
          bounded = omega (arith, length-append b.book (fresh now a ∷ []));
        })
]
