-- ===== src/Common/Maps.antt =====
-- Go maps as association lists, over keys with decidable equality; every key stands there once.
use text.Mathlib.Text
use Prim.Native.Nat.{ℕ}
use Prim.Native.String.{String}
use mathlib.Core.Bool.{Bool, true, false, Bool-discrete}
use mathlib.Core.List.{List, [], ◌∷◌}
use mathlib.Core.Logic.{ite, dite, ◌≢◌, inl, inr}
use mathlib.Core.Option.{Option, none, some}
use mathlib.Core.Path.{◌≡◌, refl, ◌∙◌}
use native.Mathlib.Decide.{ℕ_discrete}
use native.Mathlib.Omega.{arith}
use text.Mathlib.TextEquality.{eq_iff}
use multi_raft.Common.Tests.{Bool-cases, if◌then◌else◌}

pub record Key {ℓ} (K : Type ℓ) : Type ℓ where
  pub dec : Discrete K

instance unfoldable pub nat_key : Key ℕ
unfolding ℕ_discrete
nat_key = record { dec = ℕ_discrete }

-- Shut in proofs, where a split on a test of two strings yields the equation or its negation.
instance unfoldable pub string_key : Key String
string_key = record {
  dec = λ s t.
      dite (Bool-discrete (Text.◌==◌ s t) true) (λ same. yes ((eq_iff s t).0 same))
        (λ differ. no (λ p. differ ((eq_iff s t).1 p)));
}

abbrev pub is_key {ℓ} : {K : Type ℓ} ⦃key : Key K⦄ → K → K → Bool
is_key ⦃key⦄ a b = ite (key.dec a b) true false

abbrev pub Map {ℓ κ} : Type ℓ → Type κ → Type (ℓ ⊔ κ)
Map K V = List (K × V)

module _ {ℓ κ} {K : Type ℓ} {V : Type κ} ⦃key : Key K⦄ where
  unfoldable pub lookup : Map K V → K → Option V
  lookup [] k = none
  lookup ((j, v) ∷ m) k = if is_key j k then some v else lookup m k

  -- `m[k] = v`
  unfoldable pub put : Map K V → K → V → Map K V
  put [] k v = (k, v) ∷ []
  put ((j, w) ∷ m) k v = let rest = put m k v in if is_key j k then (j, v) ∷ m else (j, w) ∷ rest

  -- `delete(m, k)`
  unfoldable pub delete : Map K V → K → Map K V
  delete [] k = []
  delete ((j, w) ∷ m) k = let rest = delete m k in if is_key j k then rest else (j, w) ∷ rest

  pub lookup-put_self : (m : Map K V) (k : K) (v : V) → lookup (put m k v) k ≡ some v
  unfolding lookup put
  lookup-put_self [] k v = ground arith
  lookup-put_self ((j, w) ∷ m) k v = ground (arith, lookup-put_self m k v)

  pub lookup-put_ne :
      (m : Map K V) (k k' : K) (v : V) → k ≢ k' → lookup (put m k v) k' ≡ lookup m k'
  unfolding lookup put
  lookup-put_ne [] k k' v n = ground arith
  lookup-put_ne ((j, w) ∷ m) k k' v n = ground (arith, lookup-put_ne m k k' v n)

  pub lookup-delete_self : (m : Map K V) (k : K) → lookup (delete m k) k ≡ none
  unfolding lookup delete
  lookup-delete_self [] k = refl
  lookup-delete_self ((j, w) ∷ m) k = ground (arith, lookup-delete_self m k)

  pub lookup-delete_ne : (m : Map K V) (k k' : K) → k ≢ k' → lookup (delete m k) k' ≡ lookup m k'
  unfolding lookup delete
  lookup-delete_ne [] k k' n = refl
  lookup-delete_ne ((j, w) ∷ m) k k' n = ground (arith, lookup-delete_ne m k k' n)

  -- Every key stands once.
  abbrev pub IsMap : Map K V → Type κ
  IsMap [] = ◌≡◌ {A = Option V} none none
  IsMap ((k, v) ∷ m) = (lookup m k ≡ none) × IsMap m

  put-none :
      (m : Map K V) (k j : K) (v : V) → k ≢ j → lookup m j ≡ none → lookup (put m k v) j ≡ none
  put-none m k j v n e = lookup-put_ne m k j v n ∙ e

  pub put-IsMap : (m : Map K V) (k : K) (v : V) → IsMap m → IsMap (put m k v)
  unfolding lookup put
  put-IsMap [] k v d = (refl, refl)
  put-IsMap ((j, w) ∷ m) k v (new, d) = elim (Bool-cases (is_key j k)) [
    | inl e ↦ rw (e, put) (new, d)
    | inr e ↦ rw (e, put) (put-none m k j v (ground arith) new, put-IsMap m k v d)
  ]
