-- ===== src/LobbyDraft/Leavers.antt =====
-- Players who leave a lobby draft, and those who replace them: `projectedTeamSizes` and
-- `replaceParticipant` of apps/bot/src/services/lobby-draft/draft-logic.ts.
use trueskill_bot.Common.{
  ℕ, zero, suc, ◌+◌, ltb, Bool, false, not, ◌&&◌, ◌||◌, if◌then◌else◌, Option, none, some, is_some,
  List, [], ◌∷◌, filter, length, map, String, str_eq, ok, ◌>>=◌, ◌>>◌, guard, require,
}
use trueskill_bot.Common.Rng.{Rng}
use trueskill_bot.Game.{GameProfile}
use trueskill_bot.LobbyDraft.Types.{
  LobbyDraftState, LobbyDraftTeam, LobbyDraftParticipant, Throws, TeamIndex, winners, losers,
  stale_action, need_2v2, participant_not_found, already_in_draft, captain_must_be_linked,
  min_linked,
}
use trueskill_bot.LobbyDraft.Logic.{
  find_participant, participant_by_discord_id, linked_participants, is_linked, require_teams,
  picking_team, is_empty,
}
use trueskill_bot.LobbyDraft.Assign.{Power}
use trueskill_bot.LobbyDraft.Heroes.{close_early_if_done}

abbrev pub grow : TeamIndex → ℕ × ℕ → ℕ × ℕ
grow winners (a, b) = (a + 1, b)
grow losers (a, b) = (a, b + 1)

-- The picks that are left, in snake order, from the next one on.
abbrev pub project : LobbyDraftState → ℕ → ℕ × ℕ → ℕ × ℕ
project state zero sizes = sizes
project state (suc n) sizes =
    project (record state { pick_index = state.pick_index + 1 }) n (grow (picking_team state) sizes)

unfoldable pub projected_team_sizes : LobbyDraftState → Throws (ℕ × ℕ)
projected_team_sizes state = do
  teams ← require_teams state
  ok (project state (length state.pool) (length teams.0.roster, length teams.1.roster))

abbrev is_voter : Option String → String → Bool
is_voter none voter = false
is_voter (some voter_id) voter = str_eq voter voter_id

abbrev pub other_than : String → String → Bool
other_than key k = not (str_eq k key)

unfoldable pub without_votes_for :
    List (String × List String) → String → Option String → List (String × List String)
without_votes_for [] key voter_id = []
without_votes_for ((voter, keys) ∷ votes) key voter_id =
    let kept = filter (other_than key) keys in
    let rest = without_votes_for votes key voter_id in
    if is_voter voter_id voter || is_empty kept then rest else (voter, kept) ∷ rest

unfoldable pub without_key {ℓ} : {A : Type ℓ} → List (String × A) → String → List (String × A)
without_key entries key = filter (λ e. other_than key e.0) entries

abbrev pub swap_key : String → String → String → String
swap_key outgoing incoming k = if str_eq k outgoing then incoming else k

abbrev pub swap_in_team : String → String → LobbyDraftTeam → LobbyDraftTeam
swap_in_team outgoing incoming team = record team {
  captain_key = swap_key outgoing incoming team.captain_key;
  roster = map (swap_key outgoing incoming) team.roster;
}

abbrev pub swap_in_teams :
    String
    → String
    → Option (LobbyDraftTeam × LobbyDraftTeam)
    → Option (LobbyDraftTeam × LobbyDraftTeam)
swap_in_teams outgoing incoming none = none
swap_in_teams outgoing incoming (some (a, b)) =
    some (swap_in_team outgoing incoming a, swap_in_team outgoing incoming b)

abbrev leads : String → Option (LobbyDraftTeam × LobbyDraftTeam) → Bool
leads key none = false
leads key (some (a, b)) = str_eq a.captain_key key || str_eq b.captain_key key

abbrev is_in_draft : LobbyDraftState → LobbyDraftParticipant → Bool
is_in_draft state p =
    is_some (find_participant state p.key)
    || elim p.discord_id [ none ↦ false | some d ↦ is_some (participant_by_discord_id state d) ]

abbrev linked_without : String → LobbyDraftState → ℕ
linked_without key state =
    length (filter (λ p. other_than key p.key) (linked_participants state.participants))

unfoldable pub replaced :
    LobbyDraftState → String → LobbyDraftParticipant → Option String → LobbyDraftState
replaced state outgoing_key incoming outgoing_id = record state {
  participants = map (λ p. if str_eq p.key outgoing_key then incoming else p) state.participants;
  pool = map (swap_key outgoing_key incoming.key) state.pool;
  teams = swap_in_teams outgoing_key incoming.key state.teams;
  votes = without_votes_for state.votes outgoing_key outgoing_id;
  hero_prefs = without_key state.hero_prefs outgoing_key;
  hero_locked_in = filter (other_than outgoing_key) state.hero_locked_in;
}

unfoldable pub replace_participant :
    Power
    → LobbyDraftState
    → String
    → LobbyDraftParticipant
    → GameProfile
    → Rng
    → ℕ
    → Throws LobbyDraftState
replace_participant power state outgoing_key incoming profile rng k = do
  guard (not (is_some state.hero_result)) stale_action
  outgoing ← require (find_participant state outgoing_key) participant_not_found
  guard (not (is_in_draft state incoming)) already_in_draft
  guard (not (leads outgoing_key state.teams && not (is_linked incoming))) captain_must_be_linked
  guard
      (not (
        not (is_some state.teams)
        && not (is_linked incoming)
        && ltb (linked_without outgoing_key state) min_linked))
      need_2v2
  close_early_if_done power (replaced state outgoing_key incoming outgoing.discord_id) profile rng k
