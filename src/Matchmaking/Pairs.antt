-- ===== src/Matchmaking/Pairs.antt =====
-- The search of the matchmaking script (app/core/matchmaking.py): it finds the first pair of
-- players who accept each other, and finds one if there is one.
use game_backend.Base.{
  ◌≡◌, subst, ◌⊎◌, inl, inr, true, false, none, some, List, [], ◌∷◌, arith, Option-cases,
  Bool-cases,
}
use game_backend.Matchmaking.{Candidate, acceptable, first_match, find_pair}

abbrev pub In : Candidate → List Candidate → Type 0
In b [] = ⊥
In b (x ∷ xs) = (x ≡ b) ⊎ In b xs

-- `a` stands before `b`.
abbrev pub Picks : Candidate → Candidate → List Candidate → Type 0
Picks a b [] = ⊥
Picks a b (x ∷ xs) = ((x ≡ a) × In b xs) ⊎ Picks a b xs

first_match_sound :
    (a b : Candidate) (l : List Candidate)
    → first_match a l ≡ some b
    → In b l × (acceptable a b ≡ true)
unfolding first_match
first_match_sound a b [] h = cc
first_match_sound a b (x ∷ xs) h = elim (Bool-cases (acceptable a x)) [
  | inl both ↦ let e : x ≡ b = ground (arith, h, both) in (inl e, ground (arith, both, e))
  | inr one ↦ let r = first_match_sound a b xs (ground (arith, h, one)) in (inr r.0, r.1)
]

first_match_complete :
    (a b : Candidate) (l : List Candidate)
    → first_match a l ≡ none
    → In b l
    → acceptable a b ≡ false
unfolding first_match
first_match_complete a b [] h i = absurd i
first_match_complete a b (x ∷ xs) h (inl e) = ground (arith, h, e)
first_match_complete a b (x ∷ xs) h (inr i) = elim (Bool-cases (acceptable a x)) [
  | inl both ↦ absurd (ground (arith, h, both))
  | inr one ↦ first_match_complete a b xs (ground (arith, h, one)) i
]

-- The pair that the script's two loops find stands in the list in this order, and both players
-- accept the difference of their ratings.
pub find_pair_sound :
    (a b : Candidate) (l : List Candidate)
    → find_pair l ≡ some (a, b)
    → Picks a b l × (acceptable a b ≡ true)
unfolding find_pair
find_pair_sound a b [] h = cc
find_pair_sound a b (x ∷ xs) h = elim (Option-cases (first_match x xs)) [
  | inl nobody ↦ let r = find_pair_sound a b xs (ground (arith, h, nobody)) in (inr r.0, r.1)
  | inr (y, found) ↦
      let ea : x ≡ a = ground (arith, h, found) in
      let eb : y ≡ b = ground (arith, h, found) in
      let r = first_match_sound x y xs found in
      (inl (ea, subst (λ c. In c xs) eb r.0), ground (arith, ea, eb, r.1))
]

-- Where the script's two loops find nobody, no two players of the list accept each other.
pub find_pair_complete :
    (a b : Candidate) (l : List Candidate)
    → find_pair l ≡ none
    → Picks a b l
    → acceptable a b ≡ false
unfolding find_pair
find_pair_complete a b [] h i = absurd i
find_pair_complete a b (x ∷ xs) h i = elim (Option-cases (first_match x xs)) [
  | inr (y, found) ↦ absurd (ground (arith, h, found))
  | inl nobody ↦ elim i [
    | inl first ↦
        subst (λ c. acceptable c b ≡ false) first.0 (first_match_complete x b xs nobody first.1)
    | inr later ↦ find_pair_complete a b xs (ground (arith, h, nobody)) later
  ]
]
