-- ===== src/LobbyDraft/Deadlines.antt =====
-- Every deadline of a lobby draft that is not over: `applyTimeout` of
-- apps/bot/src/services/lobby-draft/draft-logic.ts in all phases.
use trueskill_bot.Common.{
  ℕ, ◌≤◌, ◌≡◌, refl, none, some, is_some, length, Option-cases, inl, inr, Option, if◌then◌else◌,
  SameItems, true, ◌-◌, arith,
}
use trueskill_bot.Common.Rng.{Rng, coin, count_if-fisher_yates}
use trueskill_bot.Game.{GameProfile, one, two}
use trueskill_bot.LobbyDraft.Types.{
  LobbyDraftState, LobbyDraftPhase, LobbyDraftTeam, vote, coin_choice, pick, side, hero,
  take_first_pick, take_side,
}
use trueskill_bot.LobbyDraft.Logic.{candidates, shuffle}
use trueskill_bot.LobbyDraft.Assign.{Power}
use trueskill_bot.LobbyDraft.Heroes.{heroes_of_team}
use trueskill_bot.LobbyDraft.Partition.{IsPartition}
use trueskill_bot.LobbyDraft.Phases.{IsInPhase, PhaseInv, AreSided}
use trueskill_bot.LobbyDraft.Removal.{apply_timeout, timeout_in}
use trueskill_bot.LobbyDraft.Timeouts.{
  remaining, remaining_in, Advances, close_vote-Advances, choose_coin-Advances, pick_first-Advances,
  apply_side-Advances, resolve_hero_phase-Advances,
}

teams_there :
    (s : LobbyDraftState)
    → is_some s.teams ≡ true
    → (teams : LobbyDraftTeam × LobbyDraftTeam) × (s.teams ≡ some teams)
teams_there s there = elim (Option-cases s.teams) [
  | inl none_yet ↦ absurd (ground arith)
  | inr (teams, e) ↦ (teams, e)
]

sided_there :
    (teams : Option (LobbyDraftTeam × LobbyDraftTeam)) → AreSided teams → is_some teams ≡ true
sided_there none h = absurd h
sided_there (some teams) h = refl

module _ (power : Power) (s : LobbyDraftState) (profile : GameProfile) (rng : Rng) (k : ℕ) where
  shuffled_pool : SameItems (shuffle rng k s.pool) s.pool
  unfolding shuffle
  shuffled_pool q = count_if-fisher_yates q rng k (length s.pool - 1) s.pool

  timeout_in-Advances :
      (phase : LobbyDraftPhase)
      → s.phase ≡ phase
      → PhaseInv phase s
      → IsPartition s
      → s.hero_result ≡ none
      → (s.phase ≡ vote → 2 ≤ length (candidates s))
      → ((a b : LobbyDraftTeam)
          → s.teams ≡ some (a, b)
          → (length a.roster ≤ length (heroes_of_team profile a))
            × (length b.roster ≤ length (heroes_of_team profile b)))
      → Advances (remaining_in phase s) (timeout_in phase power s profile rng k)
  timeout_in-Advances vote e inv p fresh votable fits = close_vote-Advances s rng k e (votable e)
  timeout_in-Advances coin_choice e inv p fresh votable fits =
      choose_coin-Advances s (if coin (rng k) then take_first_pick else take_side) e inv
  timeout_in-Advances pick e inv p fresh votable fits =
      let (teams, drafted) = teams_there s (sided_there s.teams inv.1) in
      pick_first-Advances s teams (shuffle rng k s.pool) e drafted inv.0 shuffled_pool
  timeout_in-Advances side e inv p fresh votable fits =
      let (teams, drafted) = teams_there s inv in
      apply_side-Advances s teams (if coin (rng k) then one else two) e drafted
  timeout_in-Advances hero e inv p fresh votable fits =
      let (teams, drafted) = teams_there s (sided_there s.teams inv.1) in
      let (fits_a, fits_b) = fits teams.0 teams.1 drafted in
      let (s', made, fewer) =
        resolve_hero_phase-Advances power s profile rng k teams.0 teams.1 p e fresh drafted fits_a
          fits_b in
      let rank : remaining_in hero s ≡ 1 = rw fresh refl in (s', made, omega (arith, fewer, rank))

  -- A deadline that passes before the heroes are assigned is never refused, and fewer deadlines are
  -- left after it, if the draft is well formed, two players or more can lead when it still votes,
  -- and the teams that there are fit in their sides.
  pub apply_timeout_progress :
      IsPartition s
      → IsInPhase s
      → s.hero_result ≡ none
      → (s.phase ≡ vote → 2 ≤ length (candidates s))
      → ((a b : LobbyDraftTeam)
          → s.teams ≡ some (a, b)
          → (length a.roster ≤ length (heroes_of_team profile a))
            × (length b.roster ≤ length (heroes_of_team profile b)))
      → Advances (remaining s) (apply_timeout power s profile rng k)
  unfolding apply_timeout IsInPhase
  apply_timeout_progress p inv fresh votable fits =
      timeout_in-Advances s.phase refl inv p fresh votable fits
