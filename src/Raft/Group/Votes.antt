-- ===== src/Raft/Group/Votes.antt =====
-- The votes given in a group of peers of src/raft: what a peer remembers of its own.
use mathlib.Core.Path.{subst}
use multi_raft.Common.{
  ℕ, ◌≤◌, ◌<◌, ◌≡◌, sym, ◌∙◌, ◌≢◌, ◌⊎◌, inl, inr, Bool, true, ◌&&◌, none, some, List, arith,
  nat_key, string_key, ◌==◌, Bool-cases, if_cases,
}
use multi_raft.Raft.Election.Majorities.{occurrences}
use multi_raft.Raft.Group.{put_at, is_cast, count_at}
use multi_raft.Raft.Peer.{Raft}

pub put_at-elim :
    {A : Type 0} (P : ℕ → A → Type 0) (f : ℕ → A) (i : ℕ) (x : A)
    → P i x
    → ((j : ℕ) → j ≢ i → P j (f j))
    → (j : ℕ) → P j (put_at f i x j)
unfolding put_at
put_at-elim P f i x at_i there j = elim (Bool-cases (j == i)) [
  | inl same ↦ let e : i ≡ j = ground arith in rw same (subst (λ k. P k x) e at_i)
  | inr other ↦ rw other (there j (ground arith))
]

pub is_cast_cases :
    (v t c : ℕ) (cast : ℕ → ℕ → ℕ → Bool) (v' t' a : ℕ)
    → is_cast v t c cast v' t' a ≡ true
    → ((v' ≡ v) × (t' ≡ t) × (a ≡ c)) ⊎ (cast v' t' a ≡ true)
unfolding is_cast
is_cast_cases v t c cast v' t' a h = ground arith

pub is_cast-old :
    (v t c : ℕ) (cast : ℕ → ℕ → ℕ → Bool) (v' t' a : ℕ)
    → cast v' t' a ≡ true
    → is_cast v t c cast v' t' a ≡ true
unfolding is_cast
is_cast-old v t c cast v' t' a h = ground arith

pub is_cast-new : (v t c : ℕ) (cast : ℕ → ℕ → ℕ → Bool) → is_cast v t c cast v t c ≡ true
unfolding is_cast
is_cast-new v t c cast = ground arith

pub count_at-elim :
    (P : ℕ → ℕ → List ℕ → Type 0) (c t : ℕ) (xs : List ℕ) (tally : ℕ → ℕ → List ℕ)
    → P c t xs
    → ((c' t' : ℕ) → P c' t' (tally c' t'))
    → (c' t' : ℕ) → P c' t' (count_at c t xs tally c' t')
unfolding count_at
count_at-elim P c t xs tally new old c' t' =
    if_cases (P c' t') (c' == c && t' == t) _ _
      (λ same.
        subst (λ a. P a t' xs) (sym (ground arith))
          (subst (λ b. P c b xs) (sym (ground arith)) new))
      (λ _. old c' t')

-- The voters that are counted are peers that gave their vote.
abbrev pub IsCounted : ℕ → (ℕ → ℕ → ℕ → Bool) → ℕ → ℕ → List ℕ → Type 0
IsCounted n cast c t xs = (v : ℕ) → 1 ≤ occurrences v xs → (v < n) × (cast v t c ≡ true)

module _ {C : Type 0} where
  -- A peer remembers a vote as long as its term lasts.
  abbrev pub Remembers : (ℕ → ℕ → ℕ → Bool) → ℕ → Raft C → Type 0
  Remembers cast v rf =
      (t c : ℕ)
      → cast v t c ≡ true
      → (t < rf.current_term) ⊎ (t ≡ rf.current_term) × (rf.voted_for ≡ some c)

  -- A vote that a peer may give now: it is in a later term, or has not voted, or voted the same.
  abbrev pub MayVote : Raft C → ℕ → ℕ → Type 0
  MayVote rf term c =
      ((rf.current_term ≤ term) × ((rf.current_term < term) ⊎ (rf.voted_for ≡ none)))
      ⊎ (rf.current_term ≡ term) × (rf.voted_for ≡ some c)

  old_vote :
      (cast : ℕ → ℕ → ℕ → Bool) (rf : Raft C) (v term c : ℕ)
      → Remembers cast v rf
      → MayVote rf term c
      → (v' t' a : ℕ) → v' ≡ v
      → t' ≡ term
      → cast v' t' a ≡ true
      → a ≡ c
  old_vote cast rf v term c r may v' t' a ev et h =
      let told =
        r term a (subst (λ t. cast v t a ≡ true) et (subst (λ w. cast w t' a ≡ true) ev h)) in
      ground arith

  pub new_vote-single :
      (cast : ℕ → ℕ → ℕ → Bool) (rf : Raft C) (v term c : ℕ)
      → Remembers cast v rf
      → ((v t a b : ℕ) → cast v t a ≡ true → cast v t b ≡ true → a ≡ b)
      → MayVote rf term c
      → (v' t' a b : ℕ) → is_cast v term c cast v' t' a ≡ true
      → is_cast v term c cast v' t' b ≡ true
      → a ≡ b
  new_vote-single cast rf v term c r single may v' t' a b ha hb =
      elim (is_cast_cases v term c cast v' t' a ha) [
        | inl (ev, et, ea) ↦ elim (is_cast_cases v term c cast v' t' b hb) [
          | inl (_, _, eb) ↦ ea ∙ sym eb
          | inr old ↦ ea ∙ sym (old_vote cast rf v term c r may v' t' b ev et old)
        ]
        | inr old ↦ elim (is_cast_cases v term c cast v' t' b hb) [
          | inl (ev, et, eb) ↦ old_vote cast rf v term c r may v' t' a ev et old ∙ sym eb
          | inr old' ↦ single v' t' a b old old'
        ]
      ]
