-- ===== src/Tests/Book.antt =====
-- Theorems on the address book at concrete inputs.
use forgechain.Prelude.{
  none, min, ◌*◌, ◌^◌, ◌+◌, ◌≡◌, ◌≤◌, ◌<◌, refl, true, some, [], ◌∷◌, bytes_eq,
}
use forgechain.Network.Clock.{seconds}
use forgechain.Network.PeerAddress.{PeerAddress, same_address}
use forgechain.Network.AddressBook.{
  Inet, AddressBook, new, fresh, dialled, missed, find, change, add, select_entry, select_candidate,
  mark_success, mark_failure, max_failures, AddressEntry, may_try,
}
use forgechain.Network.AddressBook.Entries.{IsDistinct, map_option}
use forgechain.Network.AddressBook.Backoff.{Elsewhere, select_candidate-mark_failure}
use forgechain.Network.AddressBook.Invariant.{
  Dialler, idle, Step, adds, selects, reports_failure, here, next, IsSound, Reach-IsSound,
}
use forgechain.Network.AddressBook.Refinement.{
  view, modify, works, fails, Adds, IsWanted, Selects, AddressBook-refines,
}

-- Every text is the address 8.8.8.8.
instance abbrev pub toy_inet : Inet
toy_inet = record { pton = λ host. some (record { first = 8; second = 8; third = 8; fourth = 8 }) }

abbrev pub home : PeerAddress
home = record { host = 49 ∷ []; port = 8333 }

-- A book with one address, which is due at 0.
abbrev book : AddressBook
book = record { book = fresh 0 home ∷ [] }

book-IsDistinct : IsDistinct book.book
unfolding find
book-IsDistinct = (refl, tt)

home_found : find home book.book ≡ some (fresh 0 home)
unfolding find same_address bytes_eq
home_found = refl

select_candidate-mark_failure_example :
    let pause = min (seconds 5 * 2 ^ 0) (seconds 600) in
    let IsDue = (0 + pause ≤ seconds 5) × (0 + 1 < max_failures) in
    let later = (add 1 home true (mark_failure 0 home book)).1 in
    (waiting : AddressEntry) × (find home later.book ≡ some waiting)
    × (may_try (seconds 5) waiting ≡ true → IsDue)
    × (IsDue → may_try (seconds 5) waiting ≡ true)
    × ((select_candidate (seconds 5) later).0 ≡ some home → IsDue)
select_candidate-mark_failure_example =
    select_candidate-mark_failure 0 (seconds 5) book _ home (fresh 0 home) book-IsDistinct
      home_found (Elsewhere.adds 1 home true Elsewhere.here)

AddressBook-refines_example :
    (view (mark_success 1 home book) ≡ modify (map_option (works 1)) home (view book))
    × (view (mark_failure 1 home book) ≡ modify (map_option (fails 1)) home (view book))
    × Adds 1 home (view book) (add 1 home true book).0 (view (add 1 home true book).1)
    × (IsWanted home true book → view book home ≡ none → (add 1 home true book).0 ≡ true)
    × Selects 1 (view book) (select_candidate 1 book).0 (view (select_candidate 1 book).1)
AddressBook-refines_example = AddressBook-refines 1 home true book book-IsDistinct

-- The address is added, dialled in vain, and so has one failure.
abbrev after_failure : AddressBook
after_failure = record { book = missed 2 (dialled (fresh 0 home)) ∷ [] }

abbrev dialling_home : Dialler
dialling_home = record {
  addresses = record { book = dialled (fresh 0 home) ∷ [] };
  dialling = some home;
}

added : Step (idle new) (idle book)
unfolding add find
added = adds 0 home true (idle new)

selected : Step (idle book) dialling_home
unfolding select_candidate select_entry
selected = selects 1 book

failed : Step dialling_home (idle after_failure)
unfolding mark_failure change same_address bytes_eq
failed = reports_failure 2 home (record { book = dialled (fresh 0 home) ∷ [] })

Reach-IsSound_example : IsSound (idle after_failure)
Reach-IsSound_example =
    Reach-IsSound (idle after_failure) (next (next (next here added) selected) failed)
