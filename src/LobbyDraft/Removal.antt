-- ===== src/LobbyDraft/Removal.antt =====
-- Players who are removed from a lobby draft, and its deadlines: `removeParticipant` and `applyTimeout` of
-- apps/bot/src/services/lobby-draft/draft-logic.ts.
use trueskill_bot.Common.{
  ℕ, ◌+◌, leb, Bool, false, not, ◌&&◌, if◌then◌else◌, Option, none, some, is_some, List, [], ◌∷◌,
  filter, find?, length, String, str_eq, ok, err, ◌>>=◌, ◌>>◌, guard, require,
}
use trueskill_bot.Common.Rng.{Rng, coin}
use trueskill_bot.Game.{GameProfile, one, two}
use trueskill_bot.LobbyDraft.Types.{
  LobbyDraftState, LobbyDraftTeam, Throws, vote, coin_choice, pick, side, hero, take_first_pick,
  take_side, stale_action, need_2v2, participant_not_found, no_successor, player_not_in_pool,
  min_linked, min_players, LobbyDraftPhase,
}
use trueskill_bot.LobbyDraft.Logic.{
  find_participant, linked_participants, is_linked, require_teams, shuffle, calls_of_shuffle,
  same_phase, phase_after_picks, auto_last_pick, close_vote, choose_coin, apply_pick, apply_side,
  is_empty,
}
use trueskill_bot.LobbyDraft.Assign.{Power}
use trueskill_bot.LobbyDraft.Heroes.{includes, close_early_if_done, resolve_hero_phase}
use trueskill_bot.LobbyDraft.Leavers.{
  other_than, without_key, without_votes_for, projected_team_sizes,
}

abbrev pub is_linked_key : LobbyDraftState → String → Bool
is_linked_key state key = elim (find_participant state key) [ none ↦ false | some p ↦ is_linked p ]

-- What a leaver leaves: the team, the pool and how often `rng` was called.
pub record Left : Type 0 where
  pub team : LobbyDraftTeam
  pub pool : List String
  pub calls : ℕ

abbrev pub led_by : String → List String → LobbyDraftTeam → LobbyDraftTeam
led_by successor roster team = record team {
  captain_key = successor;
  roster = successor ∷ filter (other_than successor) roster;
}

-- The first of the shuffled linked players of the pool leads; they leave the pool.
abbrev pub from_pool : List String → List String → List String → LobbyDraftTeam → ℕ → Throws Left
from_pool [] roster pool team calls = err no_successor
from_pool (successor ∷ others) roster pool team calls = ok (record {
  team = led_by successor roster team;
  pool = filter (other_than successor) pool;
  calls = calls;
})

abbrev pub succeed :
    LobbyDraftState → Option String → List String → LobbyDraftTeam → Rng → ℕ → Throws Left
succeed next (some successor) roster team rng k =
    ok (record { team = led_by successor roster team; pool = next.pool; calls = k })
succeed next none roster team rng k =
    let linked = filter (is_linked_key next) next.pool in
    from_pool (shuffle rng k linked) roster next.pool team (k + calls_of_shuffle (length linked))

-- One round of the loop over the teams.
unfoldable pub leave_team : LobbyDraftState → String → LobbyDraftTeam → Rng → ℕ → Throws Left
leave_team next key team rng k =
    let roster = filter (other_than key) team.roster in
    if not (includes key team.roster)
    then ok (record { team = team; pool = next.pool; calls = k })
    else (if not (str_eq team.captain_key key)
        then ok (record { team = record team { roster = roster }; pool = next.pool; calls = k })
        else succeed next (find? (is_linked_key next) roster) roster team rng k)

-- The state without the leaver, the teams still as they were.
unfoldable pub left_out : LobbyDraftState → String → Option String → LobbyDraftState
left_out state key outgoing_id = record state {
  participants = filter (λ p. other_than key p.key) state.participants;
  pool = filter (other_than key) state.pool;
  votes = without_votes_for state.votes key outgoing_id;
  hero_prefs = without_key state.hero_prefs key;
  hero_locked_in = filter (other_than key) state.hero_locked_in;
}

abbrev pub after_last_pick : LobbyDraftState → LobbyDraftTeam × LobbyDraftTeam → LobbyDraftState
after_last_pick next teams =
    if same_phase next.phase pick && is_empty next.pool
    then record next { phase = phase_after_picks teams }
    else next

abbrev pub leave_teams :
    LobbyDraftState
    → String
    → Option (LobbyDraftTeam × LobbyDraftTeam)
    → Rng
    → ℕ
    → Throws (LobbyDraftState × ℕ)
leave_teams next key none rng k = do
  guard (leb min_linked (length (linked_participants next.participants))) need_2v2
  ok (next, k)
leave_teams next key (some (a, b)) rng k = do
  first ← leave_team next key a rng k
  second ← leave_team (record next { pool = first.pool }) key b rng first.calls
  let teams : LobbyDraftTeam × LobbyDraftTeam = (first.team, second.team)
  let now = record next { pool = second.pool; teams = some teams }
  sizes ← projected_team_sizes now
  guard (leb 2 sizes.0 && leb 2 sizes.1) need_2v2
  ok (after_last_pick now teams, second.calls)

unfoldable pub remove_participant :
    Power → LobbyDraftState → String → GameProfile → Rng → ℕ → Throws LobbyDraftState
remove_participant power state key profile rng k = do
  guard (not (is_some state.hero_result)) stale_action
  outgoing ← require (find_participant state key) participant_not_found
  let next = left_out state key outgoing.discord_id
  guard (leb min_players (length next.participants)) need_2v2
  left ← leave_teams next key state.teams rng k
  picked ← auto_last_pick left.0
  close_early_if_done power picked profile rng left.1

-- `applyPick(state, shuffle(state.pool, rng)[0]!)`.
abbrev pub pick_first : LobbyDraftState → List String → Throws LobbyDraftState
pick_first state [] = require_teams state >>= (λ teams. err player_not_in_pool)
pick_first state (key ∷ keys) = apply_pick state key

abbrev pub timeout_in :
    LobbyDraftPhase → Power → LobbyDraftState → GameProfile → Rng → ℕ → Throws LobbyDraftState
timeout_in vote power state profile rng k = close_vote state rng k
timeout_in coin_choice power state profile rng k =
    choose_coin state (if coin (rng k) then take_first_pick else take_side)
timeout_in pick power state profile rng k = pick_first state (shuffle rng k state.pool)
timeout_in side power state profile rng k = apply_side state (if coin (rng k) then one else two)
timeout_in hero power state profile rng k = resolve_hero_phase power state profile rng k

unfoldable pub apply_timeout :
    Power → LobbyDraftState → GameProfile → Rng → ℕ → Throws LobbyDraftState
apply_timeout power state profile rng k = timeout_in state.phase power state profile rng k
