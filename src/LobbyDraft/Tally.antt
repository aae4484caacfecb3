-- ===== src/LobbyDraft/Tally.antt =====
-- The captains are the two with the most votes: `tallyVotes` of
-- apps/bot/src/services/lobby-draft/draft-logic.ts.
use trueskill_bot.Common.{
  ℕ, ◌+◌, ◌-◌, ◌≤◌, leb, ◌≡◌, refl, ◌∙◌, arith, Bool, List, [], ◌∷◌, All, String, count_if, one_if,
  SameItems, ok, Bool-cases, inl, inr, length, subst,
}
use trueskill_bot.Common.Rng.{Rng, count_if-fisher_yates}
use trueskill_bot.LobbyDraft.Types.{LobbyDraftState}
use trueskill_bot.LobbyDraft.Logic.{
  shuffle, votes_for, candidates, insert_by_votes, sort_by_votes, top_two, tally_votes,
}

module _ (votes : String → ℕ) where
  -- Each has as many votes as every later one, or more.
  abbrev pub IsRanked : List String → Type 0
  IsRanked [] = Unit
  IsRanked (x ∷ xs) = All (λ y. votes y ≤ votes x) xs × IsRanked xs

  All-trans :
      (x y : String) (xs : List String)
      → votes y ≤ votes x
      → All (λ z. votes z ≤ votes y) xs
      → All (λ z. votes z ≤ votes x) xs
  All-trans x y [] h hs = tt
  All-trans x y (z ∷ zs) h (hz, hs) = (omega arith, All-trans x y zs h hs)

  All-insert_by_votes :
      (x y : String) (ys : List String)
      → votes x ≤ votes y
      → All (λ z. votes z ≤ votes y) ys
      → All (λ z. votes z ≤ votes y) (insert_by_votes votes x ys)
  unfolding insert_by_votes
  All-insert_by_votes x y [] h hs = (h, tt)
  All-insert_by_votes x y (z ∷ zs) h (hz, hs) = elim (Bool-cases (leb (votes z) (votes x))) [
    | inl here ↦ rw here (h, (hz, hs))
    | inr later ↦ rw later (hz, All-insert_by_votes x y zs h hs)
  ]

  insert_by_votes-IsRanked :
      (x : String) (xs : List String) → IsRanked xs → IsRanked (insert_by_votes votes x xs)
  unfolding insert_by_votes
  insert_by_votes-IsRanked x [] r = (tt, tt)
  insert_by_votes-IsRanked x (y ∷ ys) (hy, r) = elim (Bool-cases (leb (votes y) (votes x))) [
    | inl here ↦
        let more : votes y ≤ votes x = ground arith in
        rw here ((more, All-trans x y ys more hy), (hy, r))
    | inr later ↦
        let less : votes x ≤ votes y = ground arith in
        rw later (All-insert_by_votes x y ys less hy, insert_by_votes-IsRanked x ys r)
  ]

  sort_by_votes-IsRanked : (xs : List String) → IsRanked (sort_by_votes votes xs)
  unfolding sort_by_votes
  sort_by_votes-IsRanked [] = tt
  sort_by_votes-IsRanked (x ∷ xs) =
      insert_by_votes-IsRanked x (sort_by_votes votes xs) (sort_by_votes-IsRanked xs)

  count_if-insert_by_votes :
      (p : String → Bool) (x : String) (xs : List String)
      → count_if p (insert_by_votes votes x xs) ≡ one_if (p x) + count_if p xs
  unfolding insert_by_votes
  count_if-insert_by_votes p x [] = refl
  count_if-insert_by_votes p x (y ∷ ys) = ground (arith, count_if-insert_by_votes p x ys)

  pub sort_by_votes-SameItems : (xs : List String) → SameItems (sort_by_votes votes xs) xs
  unfolding sort_by_votes
  sort_by_votes-SameItems [] p = refl
  sort_by_votes-SameItems (x ∷ xs) p =
      omega
        (arith, count_if-insert_by_votes p x (sort_by_votes votes xs), sort_by_votes-SameItems xs p)

  -- The two have the most votes of all in the list.
  abbrev pub AreTopTwo : List String → String × String → Type 0
  AreTopTwo xs captains =
      (rest : List String) × SameItems (captains.0 ∷ captains.1 ∷ rest) xs
      × (votes captains.1 ≤ votes captains.0)
      × All (λ c. votes c ≤ votes captains.1) rest

  top_two_lem :
      (xs : List String) (captains : String × String)
      → IsRanked xs
      → top_two xs ≡ ok captains
      → AreTopTwo xs captains
  top_two_lem [] captains r h = cc
  top_two_lem (x ∷ []) captains r h = cc
  top_two_lem (x ∷ y ∷ rest) captains r h =
      let e : (x, y) ≡ captains = cc in
      subst (AreTopTwo (x ∷ y ∷ rest)) e (rest, λ p. refl, r.0.0, r.1.0)

-- The captains are two of the candidates, the first with as many votes as the second or more, and
-- nobody else of the candidates has more votes than the second.
pub tally_votes_lem :
    (s : LobbyDraftState) (rng : Rng) (k : ℕ) (captains : String × String)
    → tally_votes s rng k ≡ ok captains
    → AreTopTwo (votes_for s) (candidates s) captains
unfolding tally_votes shuffle
tally_votes_lem s rng k captains h =
    let shuffled = shuffle rng k (candidates s) in
    let (rest, same, first, others) =
      top_two_lem (votes_for s) (sort_by_votes (votes_for s) shuffled) captains
        (sort_by_votes-IsRanked (votes_for s) shuffled) h in
    (
      rest,
      λ p.
          same p
          ∙ sort_by_votes-SameItems (votes_for s) shuffled p
          ∙ count_if-fisher_yates p rng k (length (candidates s) - 1) (candidates s),
      first,
      others,
    )
