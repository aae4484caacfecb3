-- ===== src/LobbyDraft/Heroes.antt =====
-- The choice of heroes in apps/bot/src/services/lobby-draft/draft-logic.ts. `power` is the one of the
-- order of the players.
use trueskill_bot.Common.{
  ℕ, zero, suc, ◌+◌, ltb, ◌==◌, Bool, true, false, not, ◌&&◌, ◌||◌, if◌then◌else◌, Option, none,
  some, get_or_else, is_some, List, [], ◌∷◌, ◌++◌, any, filter, length, count_if, String, str_eq,
  ok, err, ◌>>=◌, ◌>>◌, guard, require, Result,
}
use trueskill_bot.Common.Rng.{Rng}
use trueskill_bot.Game.{GameProfile, TeamId, one, two, team_for_slot}
use trueskill_bot.LobbyDraft.Types.{
  LobbyDraftState, LobbyDraftTeam, LobbyDraftParticipant, Throws, TeamIndex, winners, losers, vote,
  hero, stale_action, not_in_draft, bad_hero_prefs,
}
use trueskill_bot.LobbyDraft.Logic.{
  assert_phase, same_phase, participant_by_discord_id, linked_participants, voted_count, close_vote,
  require_teams, on_clock_captain_key, calls_of_shuffle,
}
use trueskill_bot.LobbyDraft.Assign.{
  has, Wisher, Power, weighted_order, assign_heroes, matching, calls_of_wishes, free_heroes,
}

abbrev pub max_hero_prefs : ℕ
max_hero_prefs = 2

abbrev pub includes : String → List String → Bool
includes key keys = any (λ k. str_eq k key) keys

unfoldable pub team_of_key : LobbyDraftState → String → Option TeamIndex
team_of_key state key = elim state.teams [
  | none ↦ none
  | some teams ↦
      if includes key teams.0.roster
      then some winners
      else (if includes key teams.1.roster then some losers else none)
]

-- 1, 2, …, `n`.
abbrev pub slots_up_to : ℕ → List ℕ
slots_up_to zero = []
slots_up_to (suc n) = slots_up_to n ++ suc n ∷ []

abbrev same_side : TeamId → TeamId → Bool
same_side one one = true
same_side one two = false
same_side two one = false
same_side two two = true

abbrev pub is_of_side : TeamId → Result ℕ TeamId → Bool
is_of_side side (ok team) = same_side team side
is_of_side side (err slot) = false

unfoldable pub hero_ids_for_side : GameProfile → TeamId → List ℕ
hero_ids_for_side profile side =
    filter (λ slot. is_of_side side (team_for_slot profile slot)) (slots_up_to profile.slot_count)

abbrev same_text_option : Option String → Option String → Bool
same_text_option none none = true
same_text_option none (some b) = false
same_text_option (some a) none = false
same_text_option (some a) (some b) = str_eq a b

unfoldable pub clock_changed : LobbyDraftState → LobbyDraftState → Bool
clock_changed prev next =
    not (same_phase prev.phase next.phase)
    || not (prev.pick_index == next.pick_index)
    || not (same_text_option (on_clock_captain_key prev) (on_clock_captain_key next))

unfoldable pub hero_locked_in_count : LobbyDraftState → ℕ
hero_locked_in_count state =
    count_if (λ p. includes p.key state.hero_locked_in) (linked_participants state.participants)

abbrev side_of_team : TeamIndex → LobbyDraftTeam × LobbyDraftTeam → Option TeamId
side_of_team winners (a, b) = a.side
side_of_team losers (a, b) = b.side

abbrev actor_on_side :
    LobbyDraftState → LobbyDraftParticipant → Option TeamIndex → Throws (String × TeamId)
actor_on_side state actor none = err not_in_draft
actor_on_side state actor (some t) = do
  teams ← require_teams state
  side ← require (side_of_team t teams) not_in_draft
  ok (actor.key, side)

unfoldable pub hero_actor : LobbyDraftState → String → Throws (String × TeamId)
hero_actor state actor_discord_id = do
  assert_phase state hero
  guard (not (is_some state.hero_result)) stale_action
  actor ← require (participant_by_discord_id state actor_discord_id) not_in_draft
  actor_on_side state actor (team_of_key state actor.key)

-- `[...new Set(heroIds)]`.
unfoldable pub distinct_ids : List ℕ → List ℕ
distinct_ids [] = []
distinct_ids (x ∷ xs) = x ∷ filter (λ y. not (y == x)) (distinct_ids xs)

-- `{ ...state.heroPrefs, [key]: unique }`.
unfoldable pub set_prefs : List (String × List ℕ) → String → List ℕ → List (String × List ℕ)
set_prefs [] key ids = (key, ids) ∷ []
set_prefs ((k, old) ∷ prefs) key ids =
    let rest = set_prefs prefs key ids in if str_eq k key then (k, ids) ∷ prefs else (k, old) ∷ rest

unfoldable pub set_hero_prefs :
    LobbyDraftState → String → List ℕ → GameProfile → Throws LobbyDraftState
set_hero_prefs state actor_discord_id hero_ids profile = do
  actor ← hero_actor state actor_discord_id
  let unique = distinct_ids hero_ids
  let side_heroes = hero_ids_for_side profile actor.1
  guard (not (ltb max_hero_prefs (length unique) || any (λ h. not (has h side_heroes)) unique))
      bad_hero_prefs
  ok (record state { hero_prefs = set_prefs state.hero_prefs actor.0 unique })

-- `state.heroPrefs[key] ?? []`.
abbrev pub prefs_of : List (String × List ℕ) → String → List ℕ
prefs_of [] key = []
prefs_of ((k, ids) ∷ prefs) key = if str_eq k key then ids else prefs_of prefs key

abbrev find_weight : List (String × ℕ) → String → Option ℕ
find_weight [] key = none
find_weight ((k, w) ∷ weights) key = if str_eq k key then some w else find_weight weights key

-- `state.heroWeights?.[key] ?? 1`.
abbrev pub weight_in : Option (List (String × ℕ)) → String → ℕ
weight_in none key = 1
weight_in (some weights) key = get_or_else 1 (find_weight weights key)

unfoldable pub wishers_of : LobbyDraftState → List String → List Wisher
wishers_of state [] = []
wishers_of state (key ∷ roster) =
    record {
      key = key;
      wishes = prefs_of state.hero_prefs key;
      weight = some (weight_in state.hero_weights key);
    }
    ∷ wishers_of state roster

-- Where a side is missing, no slot is of it.
abbrev pub heroes_of_team : GameProfile → LobbyDraftTeam → List ℕ
heroes_of_team profile team = elim team.side [
  | none ↦ []
  | some side ↦ hero_ids_for_side profile side
]

-- How often `assignHeroes` calls `rng`.
abbrev pub calls_of_assign : Power → List Wisher → List ℕ → Rng → ℕ → ℕ
calls_of_assign power players heroes rng k =
    length players
    + calls_of_wishes heroes (weighted_order power rng k players)
    + calls_of_shuffle (length (free_heroes (matching power players heroes rng k) heroes))

-- The assignments of both teams; their rosters share no key, so that none is overwritten.
abbrev pub resolve_teams :
    Power
    → LobbyDraftState
    → GameProfile
    → Rng
    → ℕ
    → LobbyDraftTeam × LobbyDraftTeam
    → Throws LobbyDraftState
resolve_teams power state profile rng k teams = do
  let first = wishers_of state teams.0.roster
  let second = wishers_of state teams.1.roster
  let first_heroes = heroes_of_team profile teams.0
  a ← assign_heroes power first first_heroes rng k
  b ←
      assign_heroes power second (heroes_of_team profile teams.1) rng
        (k + calls_of_assign power first first_heroes rng k)
  ok (record state { hero_result = some (a ++ b) })

unfoldable pub resolve_hero_phase :
    Power → LobbyDraftState → GameProfile → Rng → ℕ → Throws LobbyDraftState
resolve_hero_phase power state profile rng k = do
  assert_phase state hero
  guard (not (is_some state.hero_result)) stale_action
  teams ← require_teams state
  resolve_teams power state profile rng k teams

abbrev pub all_locked_in : LobbyDraftState → Bool
all_locked_in state =
    same_phase state.phase hero
    && not (is_some state.hero_result)
    && (hero_locked_in_count state == length (linked_participants state.participants))

-- `closeEarlyIfDone` where a profile is given.
unfoldable pub close_early_if_done :
    Power → LobbyDraftState → GameProfile → Rng → ℕ → Throws LobbyDraftState
close_early_if_done power state profile rng k =
    if same_phase state.phase vote
      && (voted_count state == length (linked_participants state.participants))
    then close_vote state rng k
    else (if all_locked_in state then resolve_hero_phase power state profile rng k else ok state)

unfoldable pub lock_in_hero :
    Power → LobbyDraftState → String → GameProfile → Rng → ℕ → Throws LobbyDraftState
lock_in_hero power state actor_discord_id profile rng k = do
  actor ← hero_actor state actor_discord_id
  if includes actor.0 state.hero_locked_in
      then ok state
      else close_early_if_done power
          (record state { hero_locked_in = state.hero_locked_in ++ actor.0 ∷ [] }) profile rng k
