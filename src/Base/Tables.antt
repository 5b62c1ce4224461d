-- ===== src/Base/Tables.antt =====
-- A Go map keyed by identifiers, as an association list in which `insert` overwrites in place.
use Prim.Native.Nat.{ℕ}
use mathlib.Core.Path.{◌≡◌, refl, ap}
use mathlib.Core.Logic.{◌≢◌}
use mathlib.Core.Option.{Option, none, some}
use mathlib.Core.List.{List, [], ◌∷◌}
use native.Mathlib.Omega.{arith}
use mathlib.Core.Bool.{Bool, true, false}
use konumlu.Base.Tests.{◌==◌, if◌then◌else◌, is_none, all, any, keep}

abbrev pub Table {ℓ} : Type ℓ → Type ℓ
Table V = List (ℕ × V)

module _ {ℓ} {V : Type ℓ} where
  abbrev pub lookup : ℕ → Table V → Option V
  lookup k [] = none
  lookup k ((j, v) ∷ m) = if j == k then some v else lookup k m

  abbrev pub insert : ℕ → V → Table V → Table V
  insert k v [] = (k, v) ∷ []
  insert k v ((j, w) ∷ m) = if j == k then (k, v) ∷ m else (j, w) ∷ insert k v m

  abbrev pub delete : ℕ → Table V → Table V
  delete k [] = []
  delete k ((j, w) ∷ m) = let rest = delete k m in if j == k then rest else (j, w) ∷ rest

  abbrev pub values : Table V → List V
  values [] = []
  values ((_, v) ∷ m) = v ∷ values m

  pub lookup-insert :
      (k j : ℕ) (v : V) (m : Table V)
      → lookup j (insert k v m) ≡ (if k == j then some v else lookup j m)
  lookup-insert k j v [] = refl
  lookup-insert k j v ((i, w) ∷ m) = ground (arith, lookup-insert k j v m)

  pub lookup-insert_self : (k : ℕ) (v : V) (m : Table V) → lookup k (insert k v m) ≡ some v
  lookup-insert_self k v m = ground (arith, lookup-insert k k v m)

  pub lookup-insert_ne :
      (k j : ℕ) (v : V) (m : Table V) → k ≢ j → lookup j (insert k v m) ≡ lookup j m
  lookup-insert_ne k j v m h = ground (arith, lookup-insert k j v m)

  pub lookup-delete :
      (k j : ℕ) (m : Table V) → lookup j (delete k m) ≡ (if k == j then none else lookup j m)
  lookup-delete k j [] = ground arith
  lookup-delete k j ((i, w) ∷ m) = ground (arith, lookup-delete k j m)

  -- Deleting a key that is not there changes nothing.
  pub delete_absent : (k : ℕ) (m : Table V) → lookup k m ≡ none → delete k m ≡ m
  delete_absent k [] h = refl
  delete_absent k ((i, w) ∷ m) h = ground (arith, delete_absent k m)

  -- Deleting a new key undoes its insertion.
  pub delete-insert :
      (k : ℕ) (v : V) (m : Table V) → lookup k m ≡ none → delete k (insert k v m) ≡ m
  delete-insert k v [] h = ground arith
  delete-insert k v ((i, w) ∷ m) h = ground (arith, delete-insert k v m)

-- Whether no key stands twice, so that `values` lists what `lookup` finds.
abbrev pub IsFunctional {ℓ} : {V : Type ℓ} → Table V → Type 0
IsFunctional [] = Unit {0}
IsFunctional ((k, _) ∷ m) = (is_none (lookup k m) ≡ true) × IsFunctional m

module _ {ℓ} {V : Type ℓ} where
  pub insert-IsFunctional :
      (k : ℕ) (v : V) (m : Table V) → IsFunctional m → IsFunctional (insert k v m)
  insert-IsFunctional k v [] h = (refl, tt)
  insert-IsFunctional k v ((i, w) ∷ m) h =
      ground (arith, lookup-insert k i v m, insert-IsFunctional k v m)

  pub delete-IsFunctional : (k : ℕ) (m : Table V) → IsFunctional m → IsFunctional (delete k m)
  delete-IsFunctional k [] h = tt
  delete-IsFunctional k ((i, w) ∷ m) h =
      ground (arith, lookup-delete k i m, delete-IsFunctional k m)

  -- What holds of every entry holds of every value.
  pub all-values :
      (p : V → Bool) (m : Table V)
      → ((k : ℕ) (v : V) → lookup k m ≡ some v → p v ≡ true)
      → IsFunctional m
      → all p (values m) ≡ true
  all-values p [] h f = refl
  all-values p ((k, v) ∷ m) h (a, f) =
      ground (arith, h k v (ground arith), all-values p m (λ j w g. h j w (ground (arith, a))) f)

  -- An entry that passes both tests is among those that the one test keeps.
  pub any-keep-values :
      (p q : V → Bool) (m : Table V) (k : ℕ) (v : V)
      → lookup k m ≡ some v
      → q v ≡ true
      → p v ≡ true
      → any p (keep q (values m)) ≡ true
  any-keep-values p q [] k v h a b = ground arith
  any-keep-values p q ((j, w) ∷ m) k v h a b = ground (arith, any-keep-values p q m k v, ap q, ap p)

  -- What no value passes, no entry passes.
  pub any-values_none :
      (p : V → Bool) (m : Table V) (k : ℕ) (v : V)
      → any p (values m) ≡ false
      → lookup k m ≡ some v
      → p v ≡ false
  any-values_none p [] k v a h = absurd (cc)
  any-values_none p ((j, w) ∷ m) k v a h = ground (arith, any-values_none p m k v, ap p)
