-- ===== src/LobbyDraft/Phases.antt =====
-- What each phase of a lobby draft finds: `applySide`, `applyPick` and `autoLastPick` of
-- apps/bot/src/services/lobby-draft/draft-logic.ts.
use trueskill_bot.Common.{
  ℕ, ◌+◌, ◌≤◌, ◌≡◌, refl, ap, sym, ◌∙◌, subst, arith, true, not, List, [], ◌∷◌, filter, length,
  String, str_eq, eq_refl, Bool-cases, inl, inr, Option, none, some, if◌then◌else◌, ok,
  Option-cases, Result-cases, get_or_else, is_some,
}
use trueskill_bot.Common.Rng.{Rng, coin}
use trueskill_bot.LobbyDraft.Types.{
  LobbyDraftState, LobbyDraftPhase, LobbyDraftTeam, TeamIndex, winners, losers, TeamId, one, two,
  CoinChoice, take_first_pick, take_side, pick, side, hero, vote, coin_choice,
}
use trueskill_bot.LobbyDraft.Logic.{
  update, draft_to, take_sides, other_side, picked, pick_once, auto_pick, auto_last_pick,
  apply_pick, apply_side, choose_coin, coin_taken, open_with, close_vote, sided, picking_team,
  same_phase, assert_phase, is_empty, phase_after_picks, tally_votes, calls_of_shuffle, candidates,
}
use trueskill_bot.LobbyDraft.Partition.{pick_once_inv}

-- Both teams have a side, and not the same.
abbrev pub AreSided : Option (LobbyDraftTeam × LobbyDraftTeam) → Type 0
AreSided none = ⊥
AreSided (some (a, b)) = (t : TeamId) × (a.side ≡ some t) × (b.side ≡ some (other_side t))

abbrev pub PhaseInv : LobbyDraftPhase → LobbyDraftState → Type 0
PhaseInv vote s = s.teams ≡ none
PhaseInv coin_choice s = is_some s.teams ≡ true
PhaseInv side s = is_some s.teams ≡ true
PhaseInv pick s = (2 ≤ length s.pool) × AreSided s.teams
PhaseInv hero s = (s.pool ≡ []) × AreSided s.teams

-- Nobody is asked to pick where there is no choice, and heroes are chosen only when everybody is drafted
-- and the sides are settled.
unfoldable pub IsInPhase : LobbyDraftState → Type 0
IsInPhase s = PhaseInv s.phase s

other_side-other_side : (t : TeamId) → other_side (other_side t) ≡ t
other_side-other_side one = refl
other_side-other_side two = refl

take_sides-AreSided :
    (t : TeamIndex) (chosen : TeamId) (teams : LobbyDraftTeam × LobbyDraftTeam)
    → AreSided (some (take_sides t chosen teams))
take_sides-AreSided winners chosen (a, b) = (chosen, refl, refl)
take_sides-AreSided losers chosen (a, b) =
    (other_side chosen, refl, ap some (sym (other_side-other_side chosen)))

update-AreSided :
    (t : TeamIndex) (key : String) (teams : LobbyDraftTeam × LobbyDraftTeam)
    → AreSided (some teams)
    → AreSided (some (update t (draft_to key) teams))
update-AreSided winners key (a, b) h = h
update-AreSided losers key (a, b) h = h

phase_after_picks-hero :
    (teams : LobbyDraftTeam × LobbyDraftTeam)
    → AreSided (some teams)
    → phase_after_picks teams ≡ hero
phase_after_picks-hero (a, b) (t, ha, hb) = rw ha refl

without_itself : (key : String) → filter (λ k. not (str_eq k key)) (key ∷ []) ≡ []
without_itself key = rw (eq_refl key) refl

-- The last player of the pool leaves it empty.
last_pick-IsInPhase :
    (s : LobbyDraftState) (teams : LobbyDraftTeam × LobbyDraftTeam) (key : String)
    → s.pool ≡ key ∷ []
    → AreSided (some teams)
    → IsInPhase (picked s teams key)
unfolding picked IsInPhase
last_pick-IsInPhase s teams key last sides =
    let next = update (picking_team s) (draft_to key) teams in
    let sides' = update-AreSided (picking_team s) key teams sides in
    let gone : filter (λ k. not (str_eq k key)) s.pool ≡ [] =
      ap (filter (λ k. not (str_eq k key))) last ∙ without_itself key in
    rw gone (rw (phase_after_picks-hero next sides') (refl, sides'))

-- A state of which only the last pick may be open: the phase is that of its pool.
auto_pick-IsInPhase :
    (s s' : LobbyDraftState) (pool : List String)
    → s.pool ≡ pool
    → AreSided s.teams
    → s.phase ≡ (if is_empty pool then hero else pick)
    → auto_pick s pool ≡ ok s'
    → IsInPhase s'
unfolding IsInPhase
auto_pick-IsInPhase s s' [] e sides phase h =
    let same : s ≡ s' = cc in subst IsInPhase same (rw phase (e, sides))
auto_pick-IsInPhase s s' (key ∷ l ∷ ls) e sides phase h =
    let same : s ≡ s' = cc in subst IsInPhase same (rw phase (rw e (omega arith), sides))
auto_pick-IsInPhase s s' (key ∷ []) e sides phase h =
    let picking : same_phase s.phase pick ≡ true = ap (λ f. same_phase f pick) phase in
    let (teams, drafted, there, made) = pick_once_inv s s' key (rw picking at h) in
    subst IsInPhase (sym made) (last_pick-IsInPhase s teams key e (subst AreSided drafted sides))

pub apply_side-IsInPhase :
    (s s' : LobbyDraftState) (chosen : TeamId) → apply_side s chosen ≡ ok s' → IsInPhase s'
unfolding apply_side auto_last_pick assert_phase sided
apply_side-IsInPhase s s' chosen h = elim (Bool-cases (same_phase s.phase side)) [
  | inr other ↦ absurd (ground arith)
  | inl fits ↦ elim (Option-cases s.teams) [
    | inl none_yet ↦ absurd (ground arith)
    | inr (teams, drafted) ↦
        let h' = rw fits at h in
        auto_pick-IsInPhase (sided s teams chosen) s' s.pool refl
          (take_sides-AreSided (get_or_else winners s.side_chooser_team) chosen teams) refl
          (rw drafted at h')
  ]
]

pub is_picking : (phase : LobbyDraftPhase) → same_phase phase pick ≡ true → phase ≡ pick
is_picking pick h = refl
is_picking vote h = cc
is_picking coin_choice h = cc
is_picking side h = cc
is_picking hero h = cc

pick_once_phase :
    (s s' : LobbyDraftState) (key : String)
    → pick_once s key ≡ ok s'
    → same_phase s.phase pick ≡ true
unfolding pick_once assert_phase
pick_once_phase s s' key h = elim (Bool-cases (same_phase s.phase pick)) [
  | inl fits ↦ fits
  | inr other ↦ absurd (ground arith)
]

picked-auto-IsInPhase :
    (s s' : LobbyDraftState) (teams : LobbyDraftTeam × LobbyDraftTeam) (key : String)
    → AreSided (some teams)
    → auto_pick (picked s teams key) (picked s teams key).pool ≡ ok s'
    → IsInPhase s'
unfolding picked
picked-auto-IsInPhase s s' teams key sides h =
    let next = update (picking_team s) (draft_to key) teams in
    let sides' = update-AreSided (picking_team s) key teams sides in
    let pool = filter (λ k. not (str_eq k key)) s.pool in
    auto_pick-IsInPhase (picked s teams key) s' pool refl sides'
      (ap (λ ph. if is_empty pool then ph else pick) (phase_after_picks-hero next sides')) h

pub apply_pick-IsInPhase :
    (s s' : LobbyDraftState) (key : String) → IsInPhase s → apply_pick s key ≡ ok s' → IsInPhase s'
unfolding apply_pick auto_last_pick IsInPhase
apply_pick-IsInPhase s s' key p h = elim (Result-cases (pick_once s key)) [
  | inl (e, refused) ↦ absurd (ground arith)
  | inr (next, made) ↦
      let (teams, drafted, there, e) = pick_once_inv s next key made in
      let picking = is_picking s.phase (pick_once_phase s next key made) in
      let (two_left, sides) = subst (λ phase. PhaseInv phase s) picking p in
      let h' = rw made at h in
      picked-auto-IsInPhase s s' teams key (subst AreSided drafted sides)
        (subst (λ n. auto_pick n n.pool ≡ ok s') e h')
]

pub choose_coin-IsInPhase :
    (s s' : LobbyDraftState) (choice : CoinChoice) → choose_coin s choice ≡ ok s' → IsInPhase s'
unfolding choose_coin assert_phase IsInPhase
choose_coin-IsInPhase s s' choice h = elim (Bool-cases (same_phase s.phase coin_choice)) [
  | inr other ↦ absurd (ground arith)
  | inl fits ↦ elim (Option-cases s.teams) [
    | inl none_yet ↦ absurd (ground arith)
    | inr (teams, drafted) ↦
        let h1 = rw fits at h in
        let h2 = rw drafted at h1 in
        let e : coin_taken s choice ≡ s' = cc in
        subst (λ n. PhaseInv n.phase n) e (with_teams choice (ap is_some drafted))
  ]
]
  where
    with_teams :
        (choice : CoinChoice)
        → is_some s.teams ≡ true
        → PhaseInv (coin_taken s choice).phase (coin_taken s choice)
    with_teams take_first_pick d = d
    with_teams take_side d = d

pub close_vote-IsInPhase :
    (s s' : LobbyDraftState) (rng : Rng) (k : ℕ) → close_vote s rng k ≡ ok s' → IsInPhase s'
unfolding close_vote assert_phase IsInPhase open_with
close_vote-IsInPhase s s' rng k h = elim (Bool-cases (same_phase s.phase vote)) [
  | inr other ↦ absurd (ground arith)
  | inl fits ↦ elim (Result-cases (tally_votes s rng k)) [
    | inl (e, refused) ↦ absurd (ground arith)
    | inr (captains, tallied) ↦
        let h1 = rw fits at h in
        let h2 = rw tallied at h1 in
        elim (Bool-cases (coin (rng (k + calls_of_shuffle (length (candidates s)))))) [
          | inl heads ↦
              let h3 = rw heads at h2 in
              let e : open_with s captains.0 captains.1 ≡ s' = cc in
              subst (λ n. PhaseInv n.phase n) e refl
          | inr tails ↦
              let h3 = rw tails at h2 in
              let e : open_with s captains.1 captains.0 ≡ s' = cc in
              subst (λ n. PhaseInv n.phase n) e refl
        ]
  ]
]

auto_pick_settles :
    (s s' : LobbyDraftState) (pool : List String)
    → s.pool ≡ pool
    → auto_pick s pool ≡ ok s'
    → auto_pick s' s'.pool ≡ ok s'
unfolding picked
auto_pick_settles s s' [] e h =
    let same : s ≡ s' = cc in subst (λ n. auto_pick n n.pool ≡ ok n) same (ap (auto_pick s) e)
auto_pick_settles s s' (key ∷ l ∷ ls) e h =
    let same : s ≡ s' = cc in subst (λ n. auto_pick n n.pool ≡ ok n) same (ap (auto_pick s) e)
auto_pick_settles s s' (key ∷ []) e h = elim (Bool-cases (same_phase s.phase pick)) [
  | inr over ↦
      let h' = rw over at h in
      let same : s ≡ s' = cc in
      subst (λ n. auto_pick n n.pool ≡ ok n) same (ap (auto_pick s) e ∙ rw over refl)
  | inl picking ↦
      let (teams, drafted, there, made) = pick_once_inv s s' key (rw picking at h) in
      subst (λ n. auto_pick n n.pool ≡ ok n) (sym made)
        (ap (auto_pick (picked s teams key)) (emptied teams))
]
  where
    emptied : (teams : LobbyDraftTeam × LobbyDraftTeam) → (picked s teams key).pool ≡ []
    emptied teams = ap (filter (λ k. not (str_eq k key))) e ∙ without_itself key

-- An accepted pick leaves nothing for another automatic pick: one more call of `autoLastPick` would
-- change nothing, so its recursion ends after one round.
pub apply_pick-auto_last_pick :
    (s s' : LobbyDraftState) (key : String) → apply_pick s key ≡ ok s' → auto_last_pick s' ≡ ok s'
unfolding apply_pick auto_last_pick
apply_pick-auto_last_pick s s' key h = elim (Result-cases (pick_once s key)) [
  | inl (e, refused) ↦ absurd (ground arith)
  | inr (next, made) ↦ auto_pick_settles next s' next.pool refl (rw made at h)
]
