-- ===== src/LobbyDraft/Handover.antt =====
-- Nobody is lost when a player of a lobby draft is replaced: `replaceParticipant` of
-- apps/bot/src/services/lobby-draft/draft-logic.ts.
use trueskill_bot.Common.Rng.{Rng}
use trueskill_bot.Game.{GameProfile}
use trueskill_bot.LobbyDraft.Heroes.{
  close_early_if_done, resolve_hero_phase, all_locked_in, resolve_teams, wishers_of, heroes_of_team,
  calls_of_assign,
}
use trueskill_bot.LobbyDraft.Assign.{Power, assign_heroes}
use trueskill_bot.Common.{
  ℕ, ◌+◌, ◌≡◌, arith, some, List, ◌++◌, String, ok, subst, Bool-cases, Option-cases, inl, inr, ◌&&◌,
  ◌==◌, length, Result-cases,
}
use trueskill_bot.LobbyDraft.Types.{LobbyDraftState, LobbyDraftTeam, vote, HeroAssignment}
use trueskill_bot.LobbyDraft.Logic.{same_phase, voted_count, linked_participants}
use trueskill_bot.LobbyDraft.Partition.{IsPartition, members, close_vote-IsPartition}

resolve_teams_inv :
    (power : Power) (s s' : LobbyDraftState) (profile : GameProfile) (rng : Rng) (k : ℕ)
    (teams : LobbyDraftTeam × LobbyDraftTeam)
    → resolve_teams power s profile rng k teams ≡ ok s'
    → (result : List (String × HeroAssignment)) × (record s { hero_result = some result } ≡ s')
resolve_teams_inv power s s' profile rng k teams h =
    let first = wishers_of s teams.0.roster in
    let first_heroes = heroes_of_team profile teams.0 in
    elim (Result-cases (assign_heroes power first first_heroes rng k)) [
      | inl (e, refused) ↦ let h1 = rw refused at h in absurd (ground arith)
      | inr (a, given) ↦
          let h1 = rw given at h in
          elim (Result-cases (
            assign_heroes power (wishers_of s teams.1.roster) (heroes_of_team profile teams.1) rng
              (k + calls_of_assign power first first_heroes rng k))) [
                | inl (e, refused) ↦ let h2 = rw refused at h1 in absurd (ground arith)
                | inr (b, more) ↦ let h2 = rw more at h1 in (a ++ b, cc)
              ]
    ]

resolved-IsPartition :
    (power : Power) (s s' : LobbyDraftState) (profile : GameProfile) (rng : Rng) (k : ℕ)
    → IsPartition s
    → resolve_hero_phase power s profile rng k ≡ ok s'
    → IsPartition s'
unfolding resolve_hero_phase members
resolved-IsPartition power s s' profile rng k p h = elim (Option-cases s.teams) [
  | inl none_yet ↦ absurd (ground arith)
  | inr (teams, drafted) ↦
      let resolved : resolve_teams power s profile rng k teams ≡ ok s' = ground arith in
      let (result, e) = resolve_teams_inv power s s' profile rng k teams resolved in
      subst IsPartition e (record { once = p.once; same = p.same })
]

pub close_early_if_done-IsPartition :
    (power : Power) (s s' : LobbyDraftState) (profile : GameProfile) (rng : Rng) (k : ℕ)
    → IsPartition s
    → close_early_if_done power s profile rng k ≡ ok s'
    → IsPartition s'
unfolding close_early_if_done
close_early_if_done-IsPartition power s s' profile rng k p h =
    elim (Bool-cases
      (same_phase s.phase vote && (voted_count s == length (linked_participants s.participants)))) [
        | inl done ↦ close_vote-IsPartition s s' rng k p (rw done at h)
        | inr not_done ↦
            let h1 = rw not_done at h in
            elim (Bool-cases (all_locked_in s)) [
              | inl locked ↦ resolved-IsPartition power s s' profile rng k p (rw locked at h1)
              | inr choosing ↦
                  let h2 = rw choosing at h1 in let e : s ≡ s' = cc in subst IsPartition e p
            ]
      ]
