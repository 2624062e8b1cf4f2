-- ===== src/Prelude/Assoc.antt =====
-- Maps with numbers as keys, as association lists: std::unordered_map in the order in which a loop
-- over it goes, which the sources do not rely on.
use Prim.Native.Nat.{ℕ}
use mathlib.Core.Path.{◌≡◌, refl}
use mathlib.Core.Option.{Option, none, some}
use native.Mathlib.Omega.{arith}
use cs144_me.Prelude.Tests.{◌==◌, if◌then◌else◌}

pub data Assoc {ℓ} (V : Type ℓ) : Type ℓ where
  leaf : Assoc V
  entry : ℕ → V → Assoc V → Assoc V

module _ {ℓ} {V : Type ℓ} where
  unfoldable pub lookup : ℕ → Assoc V → Option V
  lookup k leaf = none
  lookup k (entry j v m) = if j == k then some v else lookup k m

  -- `m[k] = v`
  unfoldable pub insert : ℕ → V → Assoc V → Assoc V
  insert k v leaf = entry k v leaf
  insert k v (entry j w m) = if j == k then entry j v m else entry j w (insert k v m)

  unfoldable pub erase : ℕ → Assoc V → Assoc V
  erase k leaf = leaf
  erase k (entry j w m) = if j == k then erase k m else entry j w (erase k m)

  pub lookup-insert :
      (k j : ℕ) (v : V) (m : Assoc V)
      → lookup j (insert k v m) ≡ (if k == j then some v else lookup j m)
  unfolding lookup insert
  lookup-insert k j v leaf = refl
  lookup-insert k j v (entry i w m) = ground (arith, lookup-insert k j v m)

  pub lookup-erase :
      (k j : ℕ) (m : Assoc V) → lookup j (erase k m) ≡ (if k == j then none else lookup j m)
  unfolding lookup erase
  lookup-erase k j leaf = ground arith
  lookup-erase k j (entry i w m) = ground (arith, lookup-erase k j m)
