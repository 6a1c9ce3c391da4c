-- ===== src/Prelude/Dict.antt =====
-- `std::unordered_map` with byte strings for keys, as an association list. The order in which the
-- map is walked is not fixed by the source, and no theorem depends on it.
use mathlib.Core.Path.{◌≡◌, refl}
use mathlib.Core.Logic.{◌≢◌}
use mathlib.Core.Bool.{Bool, true, false}
use mathlib.Core.Option.{Option, none, some}
use mathlib.Core.List.{List, [], ◌∷◌}
use native.Mathlib.Omega.{arith}
use forgechain.Prelude.Tests.{if◌then◌else◌}
use forgechain.Prelude.ByteStrings.{Bytes, bytes_eq, bytes_eq_iff}

abbrev pub Dict {ℓ} : Type ℓ → Type ℓ
Dict V = List (Bytes × V)

module _ {ℓ} {V : Type ℓ} where
  unfoldable pub lookup : Bytes → Dict V → Option V
  unfolding bytes_eq
  lookup k [] = none
  lookup k ((j, v) ∷ d) = if bytes_eq j k then some v else lookup k d

  abbrev pub is_some : Option V → Bool
  is_some none = false
  is_some (some v) = true

  -- `d.contains(k)`
  abbrev pub contains : Bytes → Dict V → Bool
  contains k d = is_some (lookup k d)

  -- `d[k] = v`
  unfoldable pub insert : Bytes → V → Dict V → Dict V
  unfolding bytes_eq
  insert k v [] = (k, v) ∷ []
  insert k v ((j, w) ∷ d) = if bytes_eq j k then (j, v) ∷ d else (j, w) ∷ insert k v d

  -- `d.erase(k)`
  unfoldable pub erase : Bytes → Dict V → Dict V
  unfolding bytes_eq
  erase k [] = []
  erase k ((j, w) ∷ d) = if bytes_eq j k then erase k d else (j, w) ∷ erase k d

  abbrev pub get_or : V → Option V → V
  get_or z none = z
  get_or z (some v) = v

  pub lookup-insert :
      (k j : Bytes) (v : V) (d : Dict V)
      → lookup j (insert k v d) ≡ (if bytes_eq k j then some v else lookup j d)
  unfolding lookup insert
  lookup-insert k j v [] = refl
  lookup-insert k j v ((i, w) ∷ d) =
      ground (arith, lookup-insert k j v d, bytes_eq_iff k j, bytes_eq_iff i k, bytes_eq_iff i j)

  pub lookup-erase :
      (k j : Bytes) (d : Dict V)
      → lookup j (erase k d) ≡ (if bytes_eq k j then none else lookup j d)
  unfolding lookup erase
  lookup-erase k j [] = ground arith
  lookup-erase k j ((i, w) ∷ d) =
      ground (arith, lookup-erase k j d, bytes_eq_iff k j, bytes_eq_iff i k, bytes_eq_iff i j)

  pub lookup-insert_self : (k : Bytes) (v : V) (d : Dict V) → lookup k (insert k v d) ≡ some v
  lookup-insert_self k v d = ground (arith, lookup-insert k k v d, bytes_eq_iff k k)

  pub lookup-insert_ne :
      (k j : Bytes) (v : V) (d : Dict V) → k ≢ j → lookup j (insert k v d) ≡ lookup j d
  lookup-insert_ne k j v d h = ground (arith, lookup-insert k j v d, bytes_eq_iff k j)
