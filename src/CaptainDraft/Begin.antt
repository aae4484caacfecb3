-- ===== src/CaptainDraft/Begin.antt =====
-- The teams with which a draft begins: `buildTeamsFromCaptains` over a shuffled order, of
-- apps/bot/src/services/captain-draft/draft-logic.ts.
use trueskill_bot.Common.{
  ℕ, zero, suc, ◌+◌, ◌≡◌, refl, ◌∙◌, ap, Bool, true, false, List, [], ◌∷◌, Option, none, some,
  arith, Option-cases, inl, inr, All, length, get_elem?, ok, one_if, count_if, SameItems, eq_refl,
}
use trueskill_bot.Common.Rng.{Rng}
use trueskill_bot.CaptainDraft.Types.{DraftParticipant, DraftTeam}
use trueskill_bot.CaptainDraft.Logic.{
  range_from, shuffle_pick_order, build_from, build_teams_from_captains, team_of_captain,
}
use trueskill_bot.CaptainDraft.Snake.{shuffle_pick_order-SameItems, length-shuffle_pick_order}
use trueskill_bot.CaptainDraft.Members.{rostered}
use trueskill_bot.CaptainDraft.Turns.{IsIndexed}
use trueskill_bot.CaptainDraft.WellFormed.{IsLed}

abbrev test_of : (DraftParticipant → Bool) → Bool → Option DraftParticipant → Bool
test_of p d (some x) = p x
test_of p d none = d

-- The test of the element at a place, and `d` where there is none.
abbrev test_at : (DraftParticipant → Bool) → Bool → List DraftParticipant → ℕ → Bool
test_at p d xs i = test_of p d (get_elem? xs i)

count_if-range_suc :
    (q : ℕ → Bool) (i n : ℕ)
    → count_if q (range_from (suc i) n) ≡ count_if (λ j. q (suc j)) (range_from i n)
count_if-range_suc q i zero = refl
count_if-range_suc q i (suc n) = ap (λ m. one_if (q (suc i)) + m) (count_if-range_suc q (suc i) n)

-- Counting over all the places of a list is counting over the list.
count_if-range :
    (p : DraftParticipant → Bool) (d : Bool) (xs : List DraftParticipant)
    → count_if (test_at p d xs) (range_from 0 (length xs)) ≡ count_if p xs
count_if-range p d [] = refl
count_if-range p d (x ∷ xs) =
    ap (λ m. one_if (p x) + m)
      (count_if-range_suc (test_at p d (x ∷ xs)) 0 (length xs) ∙ count_if-range p d xs)

count_if-never : (xs : List DraftParticipant) → count_if (λ _. false) xs ≡ 0
count_if-never [] = refl
count_if-never (x ∷ xs) = omega (arith, count_if-never xs)

abbrev IsBuilt : ℕ → List DraftParticipant → List ℕ → List DraftTeam → Type 0
IsBuilt i captains order teams =
    IsIndexed i teams
    × All IsLed teams
    × (length teams ≡ length order)
    × ((p : DraftParticipant → Bool)
        → count_if p (rostered teams) ≡ count_if (test_at p false captains) order)

-- Where no index of the order is out of range, the teams are built: one for each index, in order,
-- with the captain of that index as its one player.
build_from_lem :
    (i : ℕ) (captains : List DraftParticipant) (order : List ℕ)
    → count_if (test_at (λ _. false) true captains) order ≡ 0
    → (teams : List DraftTeam) × (build_from i captains order ≡ ok teams)
      × IsBuilt i captains order teams
unfolding build_from
build_from_lem i captains [] h = ([], refl, (tt, tt, refl, λ p. refl))
build_from_lem i captains (c ∷ order) h = elim (Option-cases (get_elem? captains c)) [
  | inl missing ↦ absurd (ground arith)
  | inr (x, found) ↦
      let (teams, e, (o, l, n, counts)) = build_from_lem (suc i) captains order (ground arith) in
      (
        team_of_captain i x ∷ teams,
        rw (found, e),
        ((refl, o), (eq_refl x.key, l), ap suc n, λ p. rw (found, counts p)),
      )
]

-- A draft always begins: from a shuffled order the teams are built, one for each captain, in pick
-- order, each led by its captain, and the rosters together are the captains.
pub build_teams_from_captains_lem :
    (captains : List DraftParticipant) (rng : Rng) (k : ℕ)
    → (teams : List DraftTeam) × (build_teams_from_captains captains
          (shuffle_pick_order (length captains) rng k)
        ≡ ok teams)
      × IsIndexed 0 teams
      × All IsLed teams
      × (length teams ≡ length captains)
      × SameItems (rostered teams) captains
unfolding build_teams_from_captains
build_teams_from_captains_lem captains rng k =
    let n = length captains in
    let same = shuffle_pick_order-SameItems n rng k in
    let in_range =
      same (test_at (λ _. false) true captains)
      ∙ count_if-range (λ _. false) true captains
      ∙ count_if-never captains in
    let (teams, e, (o, l, len, counts)) =
      build_from_lem 0 captains (shuffle_pick_order n rng k) in_range in
    (
      teams,
      e,
      o,
      l,
      len ∙ length-shuffle_pick_order n rng k,
      λ p. counts p ∙ same (test_at p false captains) ∙ count_if-range p false captains,
    )
