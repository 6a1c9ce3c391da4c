-- ===== src/Network/AddressBook/Invariant.antt =====
-- What holds of an address book in a node: one loop dials the candidates that it selects and then
-- reports on them; other threads add addresses and report successes in between.
use forgechain.Prelude.{
  ◌≤◌, ◌<◌, ◌≡◌, ◌≢◌, refl, sym, ap, subst, Bool, true, false, inl, inr, Option, none, some,
  Option-cases, [], ◌∷◌, All, All-append, length, length-append, arith,
}
use forgechain.Network.Clock.{TimePoint}
use forgechain.Network.PeerAddress.{PeerAddress}
use forgechain.Network.PeerAddress.Laws.{same_address_iff}
use forgechain.Network.AddressBook.{
  Inet, AddressEntry, AddressBook, new, max_entries, max_failures, is_empty, find, change, fresh,
  add, may_try, dialled, select_entry, select_candidate, reached, mark_success, missed,
  mark_failure,
}
use forgechain.Network.AddressBook.Entries.{
  IsDistinct, KeepsAddress, add-cases, change-IsDistinct, find-address, append_one-IsDistinct,
  length-change, All-change, select_entry-some, select_entry-none,
}

-- The book, and the candidate that is being dialled.
pub record Dialler : Type 0 where
  pub addresses : AddressBook
  pub dialling : Option PeerAddress

abbrev pub idle : AddressBook → Dialler
idle b = record { addresses = b; dialling = none }

module _ ⦃inet : Inet⦄ where
  -- The calls of a running node, each at its time.
  pub data Step : Dialler → Dialler → Type 0 where
    adds :
        (now : TimePoint) (a : PeerAddress) (trusted : Bool) (d : Dialler)
        → Step d (record d { addresses = (add now a trusted d.addresses).1 })
    succeeds :
        (now : TimePoint) (a : PeerAddress) (d : Dialler)
        → Step d (record d { addresses = mark_success now a d.addresses })
    selects :
        (now : TimePoint) (b : AddressBook)
        → Step (idle b) (record {
          addresses = (select_candidate now b).1;
          dialling = (select_candidate now b).0;
        })
    reports_success :
        (now : TimePoint) (a : PeerAddress) (b : AddressBook)
        → Step (record { addresses = b; dialling = some a }) (idle (mark_success now a b))
    reports_failure :
        (now : TimePoint) (a : PeerAddress) (b : AddressBook)
        → Step (record { addresses = b; dialling = some a }) (idle (mark_failure now a b))

  pub data Reach (d : Dialler) : Dialler → Type 0 where
    here : Reach d d
    next : {e f : Dialler} → Reach d e → Step e f → Reach d f

-- An address that can be dialled, with no more failures than are counted to; it is in progress only
-- while it is being dialled, and a dialled one has a failure left.
pub record IsUsable (dialling : Option PeerAddress) (entry : AddressEntry) : Type 0 where
  pub host : is_empty entry.address.host ≡ false
  pub port : entry.address.port ≢ 0
  pub failures : entry.failures ≤ max_failures
  pub in_progress : entry.in_progress ≡ true → dialling ≡ some entry.address
  pub failures_left : dialling ≡ some entry.address → entry.failures < max_failures

-- One entry for each address, at most 1000 of them, each usable.
pub record IsSound (d : Dialler) : Type 0 where
  pub distinct : IsDistinct d.addresses.book
  pub bounded : length d.addresses.book ≤ max_entries
  pub usable : All (IsUsable d.dialling) d.addresses.book

module _ ⦃inet : Inet⦄ where
  add-IsSound :
      (now : TimePoint) (a : PeerAddress) (trusted : Bool) (d : Dialler)
      → IsSound d
      → IsSound (record d { addresses = (add now a trusted d.addresses).1 })
  add-IsSound now a trusted d s = elim (add-cases now a trusted d.addresses) [
    | inl kept ↦ subst (λ r. IsSound (record d { addresses = r.1 })) (sym kept) s
    | inr ((host, port, room, absent), grown) ↦
        subst (λ r. IsSound (record d { addresses = r.1 })) (sym grown)
          (record {
            distinct = append_one-IsDistinct (fresh now a) d.addresses.book absent s.distinct;
            bounded = omega (arith, length-append d.addresses.book (fresh now a ∷ []));
            usable = All-append (IsUsable d.dialling) d.addresses.book (fresh now a ∷ []) s.usable (
              record {
                host = host;
                port = port;
                failures = omega arith;
                in_progress = λ h. cc;
                failures_left = λ h. omega arith;
              },
              tt,
            );
          })
  ]

  succeeds-IsSound :
      (now : TimePoint) (a : PeerAddress) (d : Dialler)
      → IsSound d
      → IsSound (record d { addresses = mark_success now a d.addresses })
  unfolding mark_success
  succeeds-IsSound now a d s = record {
    distinct = change-IsDistinct (reached now) a d.addresses.book (λ _. refl) s.distinct;
    bounded = rw (length-change (reached now) a d.addresses.book) s.bounded;
    usable =
        All-change (reached now) a d.addresses.book s.distinct s.usable
          (λ entry _ u. record {
            host = u.host;
            port = u.port;
            failures = omega arith;
            in_progress = λ h. cc;
            failures_left = λ h. omega arith;
          })
          (λ _ _ u. u);
  }

  report_entry :
      (f : AddressEntry → AddressEntry) (a : PeerAddress) (entry : AddressEntry)
      → KeepsAddress f
      → ((entry : AddressEntry) → entry.failures < max_failures → (f entry).failures ≤ max_failures)
      → ((entry : AddressEntry) → (f entry).in_progress ≡ false)
      → a ≡ entry.address
      → IsUsable (some a) entry
      → IsUsable none (f entry)
  report_entry f a entry keeps few done e u = record {
    host = rw (keeps entry) u.host;
    port = rw (keeps entry) u.port;
    failures = few entry (u.failures_left (ap (λ x. some x) e));
    in_progress = λ h. cc (done entry);
    failures_left = λ h. cc;
  }

  -- The dialled address is reported on.
  report-IsSound :
      (f : AddressEntry → AddressEntry) (a : PeerAddress) (b : AddressBook)
      → KeepsAddress f
      → ((entry : AddressEntry) → entry.failures < max_failures → (f entry).failures ≤ max_failures)
      → ((entry : AddressEntry) → (f entry).in_progress ≡ false)
      → IsSound (record { addresses = b; dialling = some a })
      → IsSound (idle (record { book = change f a b.book }))
  report-IsSound f a b keeps few done s = record {
    distinct = change-IsDistinct f a b.book keeps s.distinct;
    bounded = rw (length-change f a b.book) s.bounded;
    usable =
        All-change f a b.book s.distinct s.usable
          (λ entry found u.
            report_entry f a entry keeps few done (sym (find-address a b.book found)) u)
          (λ entry other u. record {
            host = u.host;
            port = u.port;
            failures = u.failures;
            in_progress = λ h. ground (arith, u.in_progress h, same_address_iff a entry.address);
            failures_left = λ h. cc;
          });
  }

  dialled-IsSound :
      (now : TimePoint) (a : PeerAddress) (b : AddressBook) (entry : AddressEntry)
      → find a b.book ≡ some entry
      → may_try now entry ≡ true
      → IsSound (idle b)
      → IsSound
          (record { addresses = record { book = change dialled a b.book }; dialling = some a })
  dialled-IsSound now a b entry at may s = record {
    distinct = change-IsDistinct dialled a b.book (λ _. refl) s.distinct;
    bounded = rw (length-change dialled a b.book) s.bounded;
    usable =
        All-change dialled a b.book s.distinct s.usable
          (λ e found u. record {
            host = u.host;
            port = u.port;
            failures = u.failures;
            in_progress = λ h. ap (λ x. some x) (sym (find-address a b.book found));
            failures_left = λ h. ground (arith, at, found);
          })
          (λ e other u. record {
            host = u.host;
            port = u.port;
            failures = u.failures;
            in_progress = λ h. cc (u.in_progress h);
            failures_left = λ h. ground (arith, same_address_iff a e.address);
          });
  }

  select-IsSound :
      (now : TimePoint) (b : AddressBook)
      → IsSound (idle b)
      → IsSound
          (record { addresses = (select_candidate now b).1; dialling = (select_candidate now b).0 })
  unfolding select_candidate
  select-IsSound now b s = elim (Option-cases (select_entry now b.book).0) [
    | inl nothing ↦
        let (none_may, kept) = select_entry-none now b.book nothing in
        subst (λ d. IsSound d) (ground arith) s
    | inr (a, found) ↦
        let (entry, at, may, changed) = select_entry-some now b.book a s.distinct found in
        subst (λ d. IsSound d) (ground arith) (dialled-IsSound now a b entry at may s)
  ]

  Step-IsSound : {d e : Dialler} → Step d e → IsSound d → IsSound e
  Step-IsSound (adds now a trusted d) s = add-IsSound now a trusted d s
  Step-IsSound (succeeds now a d) s = succeeds-IsSound now a d s
  Step-IsSound (selects now b) s = select-IsSound now b s
  Step-IsSound (reports_success now a b) s =
      unfold mark_success in
      report-IsSound (reached now) a b (λ _. refl) (λ _ _. omega arith) (λ _. refl) s
  Step-IsSound (reports_failure now a b) s =
      unfold mark_failure in
      report-IsSound (missed now) a b (λ _. refl) (λ _ h. omega arith) (λ _. refl) s

  -- Whatever calls a node makes, from an empty book on: no address has two entries, there are at
  -- most 1000, each has a host and a port and at most 10 failures, an entry is in progress only while
  -- its address is being dialled, and an address that is being dialled has fewer than 10 failures.
  pub Reach-IsSound : (d : Dialler) → Reach (idle new) d → IsSound d
  Reach-IsSound d here = record { distinct = tt; bounded = omega arith; usable = tt }
  Reach-IsSound d (next r st) = Step-IsSound st (Reach-IsSound _ r)
