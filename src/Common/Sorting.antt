-- ===== src/Common/Sorting.antt =====
-- `sort.Ints`, and counting what lies at or above a bound.
use Prim.Native.Nat.{ℕ, zero, suc, ◌+◌, ◌≤◌, ◌<◌}
use mathlib.Core.List.{List, [], ◌∷◌}
use mathlib.Core.Option.{some}
use mathlib.Core.Path.{ap, subst, ◌∙◌, sym, ◌≡◌, refl}
use native.Mathlib.Omega.{arith}
use multi_raft.Common.Lists.{length, get_elem?, All, All-get}
use multi_raft.Common.Tests.{leb, if◌then◌else◌}

pub insert : ℕ → List ℕ → List ℕ
insert x [] = x ∷ []
insert x (y ∷ ys) = if leb x y then x ∷ y ∷ ys else y ∷ insert x ys

unfoldable pub sort : List ℕ → List ℕ
unfolding insert
sort [] = []
sort (x ∷ xs) = insert x (sort xs)

-- How many elements are at least `m`.
abbrev pub count_ge : ℕ → List ℕ → ℕ
count_ge m [] = 0
count_ge m (x ∷ xs) = if leb m x then suc (count_ge m xs) else count_ge m xs

abbrev pub IsSorted : List ℕ → Type 0
IsSorted [] = Unit
IsSorted (x ∷ xs) = All (λ y. x ≤ y) xs × IsSorted xs

count_ge-insert : (m x : ℕ) (xs : List ℕ) → count_ge m (insert x xs) ≡ count_ge m (x ∷ xs)
unfolding insert
count_ge-insert m x [] = refl
count_ge-insert m x (y ∷ ys) = ground (arith, count_ge-insert m x ys)

pub count_ge-sort : (m : ℕ) (xs : List ℕ) → count_ge m (sort xs) ≡ count_ge m xs
unfolding sort
count_ge-sort m [] = refl
count_ge-sort m (x ∷ xs) = ground (arith, count_ge-insert m x (sort xs), count_ge-sort m xs)

length-insert : (x : ℕ) (xs : List ℕ) → length (insert x xs) ≡ suc (length xs)
unfolding insert
length-insert x [] = refl
length-insert x (y ∷ ys) = ground (arith, length-insert x ys)

pub length-sort : (xs : List ℕ) → length (sort xs) ≡ length xs
unfolding sort
length-sort [] = refl
length-sort (x ∷ xs) = omega (arith, length-insert x (sort xs), length-sort xs)

All-le_trans : (x y : ℕ) (ys : List ℕ) → x ≤ y → All (λ z. y ≤ z) ys → All (λ z. x ≤ z) ys
All-le_trans x y [] h a = tt
All-le_trans x y (z ∷ ys) h a = (omega (arith, a.0), All-le_trans x y ys h a.1)

All-insert : (b x : ℕ) (xs : List ℕ) → b ≤ x → All (λ z. b ≤ z) xs → All (λ z. b ≤ z) (insert x xs)
unfolding insert
All-insert b x [] h a = (h, tt)
All-insert b x (y ∷ ys) h a = ground (arith, All-insert b x ys h a.1)

insert-IsSorted : (x : ℕ) (xs : List ℕ) → IsSorted xs → IsSorted (insert x xs)
unfolding insert
insert-IsSorted x [] s = (tt, tt)
insert-IsSorted x (y ∷ ys) s =
    ground (arith, insert-IsSorted x ys s.1, All-insert y x ys, All-le_trans x y ys)

pub sort-IsSorted : (xs : List ℕ) → IsSorted (sort xs)
unfolding sort
sort-IsSorted [] = tt
sort-IsSorted (x ∷ xs) = insert-IsSorted x (sort xs) (sort-IsSorted xs)

count_ge-le : (m : ℕ) (xs : List ℕ) → count_ge m xs ≤ length xs
count_ge-le m [] = omega arith
count_ge-le m (x ∷ xs) = ground (arith, count_ge-le m xs)

count_ge-All : (m : ℕ) (xs : List ℕ) → All (λ z. m ≤ z) xs → count_ge m xs ≡ length xs
count_ge-All m [] a = refl
count_ge-All m (x ∷ xs) a = ground (arith, count_ge-All m xs a.1)

-- In a sorted list all that stands from position `i` on is at least the element there.
pub count_ge-get :
    (xs : List ℕ) (i m : ℕ) → IsSorted xs → get_elem? xs i ≡ some m → length xs ≤ i + count_ge m xs
count_ge-get [] i m s h = omega arith
count_ge-get (x ∷ xs) zero m s h = let e : x ≡ m = cc in ground (arith, count_ge-All x xs s.0)
count_ge-get (x ∷ xs) (suc i) m s h = ground (arith, count_ge-get xs i m s.1 h)

-- And a bound above the element at `i` is reached by fewer than `length xs - i` elements.
pub count_ge-above :
    (xs : List ℕ) (i m b : ℕ)
    → IsSorted xs
    → get_elem? xs i ≡ some m
    → m < b
    → i + count_ge b xs < length xs
count_ge-above [] i m b s h lt = absurd (cc)
count_ge-above (x ∷ xs) zero m b s h lt = ground (arith, count_ge-le b xs)
count_ge-above (x ∷ xs) (suc i) m b s h lt =
    ground (arith, count_ge-above xs i m b s.1 h lt, All-get (λ z. x ≤ z) xs i m s.0 h)

count_ge-full : (m : ℕ) (xs : List ℕ) → count_ge m xs ≡ length xs → All (λ z. m ≤ z) xs
count_ge-full m [] e = tt
count_ge-full m (x ∷ xs) e =
    (ground (arith, count_ge-le m xs), count_ge-full m xs (ground (arith, count_ge-le m xs)))

count_ge-zero : (xs : List ℕ) → count_ge 0 xs ≡ length xs
count_ge-zero [] = refl
count_ge-zero (x ∷ xs) = ground (arith, count_ge-zero xs)

head-least :
    (x y : ℕ) (xs ys : List ℕ)
    → IsSorted (x ∷ xs)
    → ((m : ℕ) → count_ge m (x ∷ xs) ≡ count_ge m (y ∷ ys))
    → x ≤ y
head-least x y xs ys s same =
    let long : length (x ∷ xs) ≡ length (y ∷ ys) =
      sym (count_ge-zero (x ∷ xs)) ∙ same 0 ∙ count_ge-zero (y ∷ ys) in
    let all : count_ge x (x ∷ xs) ≡ length (x ∷ xs) = ground (arith, count_ge-All x xs s.0) in
    (count_ge-full x (y ∷ ys) (sym (same x) ∙ all ∙ long)).0

-- Two sorted lists with the same elements are the same.
pub IsSorted-unique :
    (xs ys : List ℕ)
    → IsSorted xs
    → IsSorted ys
    → ((m : ℕ) → count_ge m xs ≡ count_ge m ys)
    → xs ≡ ys
IsSorted-unique [] [] s s' same = refl
IsSorted-unique [] (y ∷ ys) s s' same = absurd (ground (arith, same 0))
IsSorted-unique (x ∷ xs) [] s s' same = absurd (ground (arith, same 0))
IsSorted-unique (x ∷ xs) (y ∷ ys) s s' same =
    let e : x ≡ y =
      omega (arith, head-least x y xs ys s same, head-least y x ys xs s' (λ m. sym (same m))) in
    let rest = IsSorted-unique xs ys s.1 s'.1 (λ m. ground (arith, same m, e)) in
    subst (λ z. x ∷ xs ≡ z ∷ ys) e (ap (λ zs. x ∷ zs) rest)

-- A bound that all elements have passes to any list with the same elements.
pub All-same :
    (b : ℕ) (xs ys : List ℕ)
    → ((m : ℕ) → count_ge m xs ≡ count_ge m ys)
    → All (λ z. b ≤ z) xs
    → All (λ z. b ≤ z) ys
All-same b xs ys same a =
    let long : length xs ≡ length ys = sym (count_ge-zero xs) ∙ same 0 ∙ count_ge-zero ys in
    count_ge-full b ys (sym (same b) ∙ count_ge-All b xs a ∙ long)
