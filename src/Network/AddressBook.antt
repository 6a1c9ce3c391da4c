-- ===== src/Network/AddressBook.antt =====
-- network/AddressBook.hpp, network/AddressBook.cpp: the addresses that a node may dial. The mutex
-- makes each operation one step; the operations that read the clock take the time as an argument.
pub mod Entries
pub mod Valid
pub mod Invariant
pub mod Backoff
pub mod Refinement
use forgechain.Prelude.{
  ℕ, zero, suc, ◌+◌, ◌-◌, ◌*◌, ◌^◌, min, Bool, true, false, not, ◌&&◌, ◌||◌, Option, none, some,
  List, [], ◌∷◌, ◌++◌, Bytes, length, ltb, leb, ◌==◌, map, if◌then◌else◌,
}
use forgechain.Network.Clock.{TimePoint, seconds}
use forgechain.Network.PeerAddress.{PeerAddress, same_address}

-- The four bytes that `inet_pton` writes for an IPv4 address.
pub record Octets : Type 0 where
  pub first : ℕ
  pub second : ℕ
  pub third : ℕ
  pub fourth : ℕ

-- `inet_pton(AF_INET, …)` of the operating system: `none` where it does not return 1.
pub record Inet : Type 0 where
  pub pton : Bytes → Option Octets

abbrev pub max_entries : ℕ
max_entries = 1000

abbrev pub max_failures : ℕ
max_failures = 10

abbrev pub base_backoff : ℕ
base_backoff = seconds 5

abbrev pub max_backoff : ℕ
max_backoff = seconds 600

pub record AddressEntry : Type 0 where
  pub address : PeerAddress
  pub next_try : TimePoint
  pub failures : ℕ
  pub succeeded : Bool
  pub in_progress : Bool

pub record AddressInfo : Type 0 where
  pub address : PeerAddress
  pub verified : Bool
  pub failures : ℕ

pub record AddressBook : Type 0 where
  pub book : List AddressEntry

abbrev pub new : AddressBook
new = record { book = [] }

-- `host.c_str()`, as a C function reads it: up to the first zero byte.
unfoldable pub c_str : Bytes → Bytes
c_str [] = []
c_str (b ∷ bs) = let rest = c_str bs in if b == 0 then [] else b ∷ rest

-- Neither this network, loopback, a private network, link-local, multicast nor reserved.
unfoldable pub octets_routable : Octets → Bool
octets_routable o = not (
    o.first == 0
    || o.first == 127
    || o.first == 10
    || (o.first == 172 && leb 16 o.second && leb o.second 31)
    || (o.first == 192 && o.second == 168)
    || (o.first == 169 && o.second == 254)
    || leb 224 o.first)

abbrev pub is_empty : Bytes → Bool
is_empty [] = true
is_empty (b ∷ bs) = false

module _ ⦃inet : Inet⦄ where
  unfoldable pub is_routable : PeerAddress → Bool
  unfolding c_str octets_routable
  is_routable a =
      if is_empty a.host || a.port == 0
      then false
      else elim (inet.pton (c_str a.host)) [ none ↦ false | some o ↦ octets_routable o ]

-- The entry of an address; the pointer that the source returns is that of the first one.
unfoldable pub find : PeerAddress → List AddressEntry → Option AddressEntry
unfolding same_address
find a [] = none
find a (entry ∷ book) = if same_address a entry.address then some entry else find a book

-- A change through that pointer.
unfoldable pub change :
    (AddressEntry → AddressEntry) → PeerAddress → List AddressEntry → List AddressEntry
unfolding same_address
change f a [] = []
change f a (entry ∷ book) =
    if same_address a entry.address then f entry ∷ book else entry ∷ change f a book

abbrev pub fresh : TimePoint → PeerAddress → AddressEntry
fresh now a = record {
  address = a;
  next_try = now;
  failures = 0;
  succeeded = false;
  in_progress = false;
}

module _ ⦃inet : Inet⦄ where
  unfoldable pub add : TimePoint → PeerAddress → Bool → AddressBook → Bool × AddressBook
  unfolding find
  add now a trusted b =
      if is_empty a.host || a.port == 0
      then (false, b)
      else if not trusted && not (is_routable a)
      then (false, b)
      else if leb max_entries (length b.book)
      then (false, b)
      else elim (find a b.book) [
        | none ↦ (true, record { book = b.book ++ fresh now a ∷ [] })
        | some entry ↦ (false, b)
      ]

abbrev pub may_try : TimePoint → AddressEntry → Bool
may_try now entry =
    not entry.in_progress && ltb entry.failures max_failures && leb entry.next_try now

abbrev pub dialled : AddressEntry → AddressEntry
dialled entry = record entry { in_progress = true }

unfoldable pub select_entry : TimePoint → List AddressEntry → Option PeerAddress × List AddressEntry
select_entry now [] = (none, [])
select_entry now (entry ∷ book) =
    let rest = select_entry now book in
    if may_try now entry
    then (some entry.address, dialled entry ∷ book)
    else (rest.0, entry ∷ rest.1)

unfoldable pub select_candidate : TimePoint → AddressBook → Option PeerAddress × AddressBook
unfolding select_entry
select_candidate now b = let found = select_entry now b.book in (found.0, record { book = found.1 })

abbrev pub reached : TimePoint → AddressEntry → AddressEntry
reached now entry = record entry {
  in_progress = false;
  succeeded = true;
  failures = 0;
  next_try = now + base_backoff;
}

unfoldable pub mark_success : TimePoint → PeerAddress → AddressBook → AddressBook
unfolding change
mark_success now a b = record { book = change (reached now) a b.book }

-- The pause after the last of so many failures.
unfoldable pub backoff : ℕ → ℕ
backoff failures = min (base_backoff * 2 ^ min (failures - 1) 7) max_backoff

abbrev pub missed : TimePoint → AddressEntry → AddressEntry
missed now entry = record entry {
  in_progress = false;
  failures = entry.failures + 1;
  next_try = now + backoff (entry.failures + 1);
}

unfoldable pub mark_failure : TimePoint → PeerAddress → AddressBook → AddressBook
unfolding change backoff
mark_failure now a b = record { book = change (missed now) a b.book }

module _ ⦃inet : Inet⦄ where
  unfoldable pub reachable_entries : Bool → List AddressEntry → List PeerAddress
  unfolding is_routable
  reachable_entries include_local [] = []
  reachable_entries include_local (entry ∷ book) =
      let rest = reachable_entries include_local book in
      if entry.succeeded && (include_local || is_routable entry.address)
      then entry.address ∷ rest
      else rest

  unfoldable pub reachable : Bool → AddressBook → List PeerAddress
  unfolding reachable_entries
  reachable include_local b = reachable_entries include_local b.book

unfoldable pub snapshot : AddressBook → List AddressInfo
snapshot b =
    map
      (λ (entry : AddressEntry). record {
        address = entry.address;
        verified = entry.succeeded;
        failures = entry.failures;
      })
      b.book

unfoldable pub size : AddressBook → ℕ
size b = length b.book
