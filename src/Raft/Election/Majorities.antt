-- ===== src/Raft/Election/Majorities.antt =====
-- Two majorities of one group have a member in common: counting the votes of src/raft/raft_election.go.
use mathlib.Core.Path.{subst}
use multi_raft.Common.{
  ℕ_discrete, ℕ, zero, suc, ◌+◌, ◌≤◌, ◌<◌, ◌≡◌, ◌⊎◌, inl, inr, List, [], ◌∷◌, arith, ltb, ◌==◌,
  if◌then◌else◌, length, ◌*◌, dec_lt,
}

unfoldable pub occurrences : ℕ → List ℕ → ℕ
occurrences v [] = 0
occurrences v (x ∷ xs) = (if x == v then 1 else 0) + occurrences v xs

-- The elements of a list that are below `n`, each as often as it stands there.
unfoldable total : ℕ → List ℕ → ℕ
total zero xs = 0
total (suc n) xs = occurrences n xs + total n xs

total-empty : (n : ℕ) → total n [] ≡ 0
unfolding total occurrences
total-empty zero = omega arith
total-empty (suc n) = omega (arith, total-empty n)

total-cons : (n x : ℕ) (xs : List ℕ) → total n (x ∷ xs) ≡ (if ltb x n then 1 else 0) + total n xs
unfolding total occurrences
total-cons zero x xs = ground arith
total-cons (suc n) x xs = ground (arith, total-cons n x xs)

abbrev pub IsBelow : ℕ → List ℕ → Type 0
IsBelow n xs = (v : ℕ) → 1 ≤ occurrences v xs → v < n

total-length : (n : ℕ) (xs : List ℕ) → IsBelow n xs → total n xs ≡ length xs
unfolding occurrences
total-length n [] h = total-empty n
total-length n (x ∷ xs) h =
    let below : x < n = h x (ground arith) in
    let rest = total-length n xs (λ v o. h v (ground arith)) in ground (arith, total-cons n x xs)

common :
    (n : ℕ) (xs ys : List ℕ)
    → ((v : ℕ) → occurrences v xs ≤ 1)
    → ((v : ℕ) → occurrences v ys ≤ 1)
    → ((v : ℕ) × (1 ≤ occurrences v xs) × (1 ≤ occurrences v ys)) ⊎ (total n xs + total n ys ≤ n)
unfolding total
common zero xs ys hx hy = inr (omega arith)
common (suc n) xs ys hx hy = elim (common n xs ys hx hy) [
  | inl found ↦ inl found
  | inr few ↦ elim (dec_lt 1 (occurrences n xs + occurrences n ys)) [
    | yes both ↦ inl (n, omega (arith, hx n, hy n), omega (arith, hx n, hy n))
    | no not_both ↦ inr (omega arith)
  ]
]

pub majorities_meet :
    (n : ℕ) (xs ys : List ℕ)
    → IsBelow n xs
    → IsBelow n ys
    → ((v : ℕ) → occurrences v xs ≤ 1)
    → ((v : ℕ) → occurrences v ys ≤ 1)
    → n < 2 * length xs
    → n < 2 * length ys
    → (v : ℕ) × (1 ≤ occurrences v xs) × (1 ≤ occurrences v ys)
majorities_meet n xs ys bx by' hx hy mx my = elim (common n xs ys hx hy) [
  | inl found ↦ found
  | inr few ↦ absurd (omega (arith, total-length n xs bx, total-length n ys by'))
]

pub once-cons :
    (v : ℕ) (xs : List ℕ)
    → occurrences v xs ≡ 0
    → ((w : ℕ) → occurrences w xs ≤ 1)
    → (w : ℕ) → occurrences w (v ∷ xs) ≤ 1
unfolding occurrences
once-cons v xs new once w = elim (ℕ_discrete v w) [
  | yes same ↦ let e = subst (λ u. occurrences u xs ≡ 0) same new in ground arith
  | no other ↦ ground (arith, once w)
]

-- What holds of `v` and of every member of a list holds of every member of the longer list.
pub occurs-cons :
    (P : ℕ → Type 0) (v : ℕ) (xs : List ℕ)
    → P v
    → ((w : ℕ) → 1 ≤ occurrences w xs → P w)
    → (w : ℕ) → 1 ≤ occurrences w (v ∷ xs)
    → P w
unfolding occurrences
occurs-cons P v xs pv rest w o = elim (ℕ_discrete v w) [
  | yes same ↦ subst P same pv
  | no other ↦ rest w (ground arith)
]
