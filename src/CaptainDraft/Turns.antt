-- ===== src/CaptainDraft/Turns.antt =====
-- Whose turn it is, and what a pick and its undo do: `teamIndexForPick`, `applyPick`, `undoLastPick`
-- and `currentCaptainKey` of apps/bot/src/services/captain-draft/draft-logic.ts.
use trueskill_bot.Common.{
  ℕ, zero, suc, ◌+◌, ◌<◌, ◌≡◌, ◌⊎◌, ◌∙◌, subst, String, false, List, [], ◌∷◌, none, some, arith,
  ◌==◌, Option-cases, inl, inr, length, get_elem?, modify, erase_at, find?, find_index?, ok, err,
  find_index?_sound, find_index?-find?, get_elem?-lt,
}
use trueskill_bot.CaptainDraft.Types.{
  DraftParticipant, DraftTeam, DraftState, has_key, player_not_in_pool,
}
use trueskill_bot.CaptainDraft.Logic.{
  captain_index_for_pick, in_pick_order, team_index_for_pick, add_to_roster, apply_pick,
  current_captain_key,
}
use trueskill_bot.CaptainDraft.Snake.{captain_index_for_pick-lt}

-- The teams stand in pick order, counted from `n`.
abbrev pub IsIndexed : ℕ → List DraftTeam → Type 0
IsIndexed n [] = Unit
IsIndexed n (t ∷ ts) = (t.pick_order_index ≡ n) × IsIndexed (suc n) ts

find_index?-IsIndexed :
    (n i : ℕ) (ts : List DraftTeam)
    → IsIndexed n ts
    → i < length ts
    → find_index? (in_pick_order (n + i)) ts ≡ some i
find_index?-IsIndexed n i [] h l = elim l [ ]
find_index?-IsIndexed n zero (t ∷ ts) h l = ground arith
find_index?-IsIndexed n (suc i) (t ∷ ts) h l =
    let ih = find_index?-IsIndexed (suc n) i ts h.1 (omega arith) in
    let e : suc n + i ≡ n + suc i = omega arith in
    let ih' = subst (λ m. find_index? (in_pick_order m) ts ≡ some i) e ih in ground arith

pub IsIndexed-modify :
    (n i : ℕ) (ts : List DraftTeam) (f : DraftTeam → DraftTeam)
    → ((t : DraftTeam) → (f t).pick_order_index ≡ t.pick_order_index)
    → IsIndexed n ts
    → IsIndexed n (modify ts i f)
IsIndexed-modify n i [] f e h = tt
IsIndexed-modify n zero (t ∷ ts) f e h = (e t ∙ h.0, h.1)
IsIndexed-modify n (suc i) (t ∷ ts) f e h = (h.0, IsIndexed-modify (suc n) i ts f e h.1)

-- Every pick has a team: the one whose slot the snake gives.
pub team_index_for_pick-snake :
    (s : DraftState) (n : ℕ)
    → IsIndexed 0 s.teams
    → 0 < length s.teams
    → team_index_for_pick s n ≡ ok (captain_index_for_pick n (length s.teams))
unfolding team_index_for_pick
team_index_for_pick-snake s n h l =
    let i = captain_index_for_pick n (length s.teams) in
    let found =
      find_index?-IsIndexed 0 i s.teams h (captain_index_for_pick-lt (length s.teams) n l) in
    let e : 0 + i ≡ i = omega arith in
    let found' = subst (λ m. find_index? (in_pick_order m) s.teams ≡ some i) e found in rw found'

-- The state after the participant at place `i` of the pool was picked.
abbrev pub after_pick : DraftState → ℕ → DraftParticipant → DraftState
after_pick s i x = record s {
  member_pool = erase_at s.member_pool i;
  teams = modify s.teams (captain_index_for_pick s.pick_index (length s.teams)) (add_to_roster x);
  pick_index = s.pick_index + 1;
}

-- In a draft whose teams stand in pick order a pick succeeds exactly where the key is in the pool:
-- the first of that key leaves the pool for the end of the roster of the team that the snake order
-- puts on the clock, and the next pick is opened.
pub apply_pick_lem :
    (s : DraftState) (key : String)
    → IsIndexed 0 s.teams
    → 0 < length s.teams
    → ((find_index? (has_key key) s.member_pool ≡ none)
        × (apply_pick s key ≡ err player_not_in_pool))
      ⊎ ((i : ℕ) × (x : DraftParticipant) × (find_index? (has_key key) s.member_pool ≡ some i)
          × (get_elem? s.member_pool i ≡ some x)
          × (apply_pick s key ≡ ok (after_pick s i x)))
unfolding apply_pick
apply_pick_lem s key h l = elim (Option-cases (find_index? (has_key key) s.member_pool)) [
  | inl missing ↦ inl (missing, rw missing)
  | inr (i, found) ↦
      let (x, hx, _) = find_index?_sound (has_key key) s.member_pool i found in
      inr (i, x, found, hx, rw (found, team_index_for_pick-snake s s.pick_index h l, hx))
]

-- The captain on the clock is the captain of the very team that the next pick goes to: while the
-- pool is not empty, both are those of the snake slot.
pub current_captain_key_lem :
    (s : DraftState) (u : DraftTeam)
    → IsIndexed 0 s.teams
    → 0 < length s.member_pool
    → get_elem? s.teams (captain_index_for_pick s.pick_index (length s.teams)) ≡ some u
    → (current_captain_key s ≡ some u.captain_key)
      × (team_index_for_pick s s.pick_index
          ≡ ok (captain_index_for_pick s.pick_index (length s.teams)))
unfolding current_captain_key
current_captain_key_lem s u h hp hu =
    let i = captain_index_for_pick s.pick_index (length s.teams) in
    let some_teams : 0 < length s.teams = omega (arith, get_elem?-lt s.teams i hu) in
    let found = find_index?-IsIndexed 0 i s.teams h (get_elem?-lt s.teams i hu) in
    let zero_plus : 0 + i ≡ i = omega arith in
    let found' = subst (λ m. find_index? (in_pick_order m) s.teams ≡ some i) zero_plus found in
    let found_team : find? (in_pick_order i) s.teams ≡ some u =
      find_index?-find? (in_pick_order i) s.teams found' ∙ hu in
    let busy : (length s.member_pool == 0) ≡ false = ground arith in
    let some_teams' : (length s.teams == 0) ≡ false = ground arith in
    (rw (busy, some_teams', found_team), team_index_for_pick-snake s s.pick_index h some_teams)
