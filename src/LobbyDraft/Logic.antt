-- ===== src/LobbyDraft/Logic.antt =====
-- The vote, the coin flip, the sides and the picks of
-- apps/bot/src/services/lobby-draft/draft-logic.ts. `rng` and `k` are the source of randomness and
-- how often it was called before.
use trueskill_bot.Common.{
  ℕ, ◌+◌, ◌-◌, leb, ltb, ◌==◌, Bool, true, false, not, ◌&&◌, ◌||◌, if◌then◌else◌, Option, none,
  some, get_or_else, is_some, List, [], ◌∷◌, ◌++◌, any, filter, find?, length, count_if, String,
  str_eq, ok, err, ◌>>=◌, ◌>>◌, guard, require,
}
use trueskill_bot.Common.Rng.{Rng, coin, fisher_yates}
use trueskill_bot.CaptainDraft.Logic.{captain_index_for_pick}
use trueskill_bot.LobbyDraft.Types.{
  LobbyDraftPhase, vote, coin_choice, pick, side, hero, CoinChoice, take_first_pick, take_side,
  TeamIndex, winners, losers, TeamId, one, two, LobbyDraftParticipant, LobbyDraftTeam,
  LobbyDraftState, Throws, keys_of, min_players, min_linked, max_votes, too_few_players, need_2v2,
  not_in_draft, stale_action, bad_ballot, captain_not_linked, player_not_in_pool, not_your_turn,
}

unfoldable pub shuffle {ℓ} : {A : Type ℓ} → Rng → ℕ → List A → List A
shuffle rng k items = fisher_yates rng k (length items - 1) items

abbrev pub has_key : String → LobbyDraftParticipant → Bool
has_key key p = str_eq p.key key

abbrev pub has_discord_id : String → LobbyDraftParticipant → Bool
has_discord_id discord_id p = elim p.discord_id [ none ↦ false | some own ↦ str_eq own discord_id ]

unfoldable pub find_participant : LobbyDraftState → String → Option LobbyDraftParticipant
find_participant state key = find? (has_key key) state.participants

unfoldable pub participant_by_discord_id : LobbyDraftState → String → Option LobbyDraftParticipant
participant_by_discord_id state discord_id = find? (has_discord_id discord_id) state.participants

abbrev pub is_linked : LobbyDraftParticipant → Bool
is_linked p = is_some p.discord_id

unfoldable pub linked_participants : List LobbyDraftParticipant → List LobbyDraftParticipant
linked_participants participants = filter is_linked participants

unfoldable pub can_start_lobby_draft : List LobbyDraftParticipant → Bool
can_start_lobby_draft participants =
    leb min_players (length participants)
    && leb min_linked (length (linked_participants participants))

unfoldable pub assert_can_start_lobby_draft : List LobbyDraftParticipant → Throws (Unit {0})
assert_can_start_lobby_draft participants =
    guard (can_start_lobby_draft participants) too_few_players

abbrev pub same_phase : LobbyDraftPhase → LobbyDraftPhase → Bool
same_phase vote vote = true
same_phase coin_choice coin_choice = true
same_phase pick pick = true
same_phase side side = true
same_phase hero hero = true
same_phase _ _ = false

unfoldable pub assert_phase : LobbyDraftState → LobbyDraftPhase → Throws (Unit {0})
assert_phase state phase = guard (same_phase state.phase phase) stale_action

abbrev pub require_teams : LobbyDraftState → Throws (LobbyDraftTeam × LobbyDraftTeam)
require_teams state = require state.teams stale_action

-- `state.votes[voter]`.
abbrev pub ballot_of : List (String × List String) → String → Option (List String)
ballot_of [] voter = none
ballot_of ((v, keys) ∷ votes) voter = if str_eq v voter then some keys else ballot_of votes voter

abbrev has_voted : LobbyDraftState → LobbyDraftParticipant → Bool
has_voted state p = elim p.discord_id [ none ↦ false | some d ↦ is_some (ballot_of state.votes d) ]

unfoldable pub voted_count : LobbyDraftState → ℕ
voted_count state = count_if (has_voted state) (linked_participants state.participants)

-- The votes for one candidate; `counted` tells whose ballots count.
abbrev pub count_ballots : (String → Bool) → String → List (String × List String) → ℕ
count_ballots counted key [] = 0
count_ballots counted key ((voter, keys) ∷ votes) =
    (if counted voter then count_if (λ k. str_eq k key) keys else 0)
    + count_ballots counted key votes

unfoldable pub votes_for : LobbyDraftState → String → ℕ
votes_for state key =
    count_ballots (λ voter. is_some (participant_by_discord_id state voter)) key state.votes

-- The keys of a `Set` or a `Map`, in the order of their first insertion.
unfoldable pub distinct : List String → List String
distinct [] = []
distinct (x ∷ xs) = x ∷ filter (λ y. not (str_eq y x)) (distinct xs)

-- The keys of `voteCounts`.
unfoldable pub candidates : LobbyDraftState → List String
candidates state = distinct (keys_of (linked_participants state.participants))

-- The stable sort by votes, the most first.
unfoldable pub insert_by_votes : (String → ℕ) → String → List String → List String
insert_by_votes votes x [] = x ∷ []
insert_by_votes votes x (y ∷ ys) =
    let rest = insert_by_votes votes x ys in
    if leb (votes y) (votes x) then x ∷ y ∷ ys else y ∷ rest

unfoldable pub sort_by_votes : (String → ℕ) → List String → List String
sort_by_votes votes [] = []
sort_by_votes votes (x ∷ xs) = insert_by_votes votes x (sort_by_votes votes xs)

abbrev pub top_two : List String → Throws (String × String)
top_two [] = err need_2v2
top_two (x ∷ []) = err need_2v2
top_two (x ∷ y ∷ rest) = ok (x, y)

unfoldable pub tally_votes : LobbyDraftState → Rng → ℕ → Throws (String × String)
tally_votes state rng k =
    top_two (sort_by_votes (votes_for state) (shuffle rng k (candidates state)))

abbrev pub team_of_captain : String → LobbyDraftTeam
team_of_captain key = record { captain_key = key; roster = key ∷ []; side = none }

-- How often the shuffle of `n` items calls `rng`.
abbrev pub calls_of_shuffle : ℕ → ℕ
calls_of_shuffle n = n - 1

unfoldable pub open_with : LobbyDraftState → String → String → LobbyDraftState
open_with state winner loser = record state {
  phase = coin_choice;
  teams = some (team_of_captain winner, team_of_captain loser);
  pool = filter (λ k. not (str_eq k winner) && not (str_eq k loser)) (keys_of state.participants);
}

unfoldable pub close_vote : LobbyDraftState → Rng → ℕ → Throws LobbyDraftState
close_vote state rng k = do
  assert_phase state vote
  captains ← tally_votes state rng k
  ok (
      if coin (rng (k + calls_of_shuffle (length (candidates state))))
      then open_with state captains.0 captains.1
      else open_with state captains.1 captains.0)

-- `closeEarlyIfDone` where no profile is given: only the vote is closed early.
unfoldable pub close_vote_if_done : LobbyDraftState → Rng → ℕ → Throws LobbyDraftState
close_vote_if_done state rng k =
    if same_phase state.phase vote
      && (voted_count state == length (linked_participants state.participants))
    then close_vote state rng k
    else ok state

-- `{ ...votes, [voter]: keys }`.
unfoldable pub set_ballot :
    List (String × List String) → String → List String → List (String × List String)
set_ballot [] voter keys = (voter, keys) ∷ []
set_ballot ((v, old) ∷ votes) voter keys =
    let rest = set_ballot votes voter keys in
    if str_eq v voter then (v, keys) ∷ votes else (v, old) ∷ rest

abbrev is_candidate : LobbyDraftState → String → Bool
is_candidate state key = elim (find_participant state key) [ none ↦ false | some p ↦ is_linked p ]

unfoldable pub cast_vote : LobbyDraftState → String → List String → Rng → ℕ → Throws LobbyDraftState
cast_vote state voter candidate_keys rng k = do
  assert_phase state vote
  guard (is_some (participant_by_discord_id state voter)) not_in_draft
  let keys = distinct candidate_keys
  guard (not (ltb (length keys) 1 || ltb max_votes (length keys))) bad_ballot
  guard (not (any (λ key. not (is_candidate state key)) keys)) captain_not_linked
  close_vote_if_done (record state { votes = set_ballot state.votes voter keys }) rng k

abbrev pub coin_taken : LobbyDraftState → CoinChoice → LobbyDraftState
coin_taken state take_first_pick = record state {
  phase = side;
  first_pick_team = some winners;
  side_chooser_team = some losers;
}
coin_taken state take_side = record state {
  phase = side;
  first_pick_team = some losers;
  side_chooser_team = some winners;
}

unfoldable pub choose_coin : LobbyDraftState → CoinChoice → Throws LobbyDraftState
choose_coin state choice = do
  assert_phase state coin_choice
  teams ← require_teams state
  ok (coin_taken state choice)

abbrev pub other_team : TeamIndex → TeamIndex
other_team winners = losers
other_team losers = winners

unfoldable pub picking_team : LobbyDraftState → TeamIndex
picking_team state =
    let first = get_or_else winners state.first_pick_team in
    if captain_index_for_pick state.pick_index 2 == 0 then first else other_team first

abbrev pub phase_after_picks : LobbyDraftTeam × LobbyDraftTeam → LobbyDraftPhase
phase_after_picks teams = if is_some teams.0.side then hero else side

abbrev pub draft_to : String → LobbyDraftTeam → LobbyDraftTeam
draft_to key team = record team { roster = team.roster ++ key ∷ [] }

abbrev pub update :
    TeamIndex
    → (LobbyDraftTeam → LobbyDraftTeam)
    → LobbyDraftTeam × LobbyDraftTeam
    → LobbyDraftTeam × LobbyDraftTeam
update winners f (a, b) = (f a, b)
update losers f (a, b) = (a, f b)

abbrev pub is_empty : List String → Bool
is_empty [] = true
is_empty (x ∷ xs) = false

unfoldable pub picked : LobbyDraftState → LobbyDraftTeam × LobbyDraftTeam → String → LobbyDraftState
picked state teams key =
    let next_teams = update (picking_team state) (draft_to key) teams in
    let pool = filter (λ k. not (str_eq k key)) state.pool in
    record state {
      teams = some next_teams;
      pool = pool;
      pick_index = state.pick_index + 1;
      phase = if is_empty pool then phase_after_picks next_teams else pick;
    }

-- A pick without the automatic last one.
unfoldable pub pick_once : LobbyDraftState → String → Throws LobbyDraftState
pick_once state key = do
  assert_phase state pick
  teams ← require_teams state
  guard (any (λ k. str_eq k key) state.pool) player_not_in_pool
  ok (picked state teams key)

-- `autoLastPick` calls `applyPick`, which calls it again; here it picks once.
abbrev pub auto_pick : LobbyDraftState → List String → Throws LobbyDraftState
auto_pick state (key ∷ []) = if same_phase state.phase pick then pick_once state key else ok state
auto_pick state _ = ok state

unfoldable pub auto_last_pick : LobbyDraftState → Throws LobbyDraftState
auto_last_pick state = auto_pick state state.pool

unfoldable pub apply_pick : LobbyDraftState → String → Throws LobbyDraftState
apply_pick state key = pick_once state key >>= auto_last_pick

abbrev pub other_side : TeamId → TeamId
other_side one = two
other_side two = one

abbrev pub take_sides :
    TeamIndex → TeamId → LobbyDraftTeam × LobbyDraftTeam → LobbyDraftTeam × LobbyDraftTeam
take_sides winners s (a, b) = (record a { side = some s }, record b { side = some (other_side s) })
take_sides losers s (a, b) = (record a { side = some (other_side s) }, record b { side = some s })

unfoldable pub sided : LobbyDraftState → LobbyDraftTeam × LobbyDraftTeam → TeamId → LobbyDraftState
sided state teams chosen = record state {
  teams = some (take_sides (get_or_else winners state.side_chooser_team) chosen teams);
  phase = if is_empty state.pool then hero else pick;
}

unfoldable pub apply_side : LobbyDraftState → TeamId → Throws LobbyDraftState
apply_side state chosen = do
  assert_phase state side
  teams ← require_teams state
  auto_last_pick (sided state teams chosen)

unfoldable pub on_clock_team : LobbyDraftState → Option TeamIndex
on_clock_team state = elim state.phase [
  | coin_choice ↦ some winners
  | pick ↦ some (picking_team state)
  | side ↦ some (get_or_else winners state.side_chooser_team)
  | vote ↦ none
  | hero ↦ none
]

abbrev pub captain_of : TeamIndex → LobbyDraftTeam × LobbyDraftTeam → String
captain_of winners (a, b) = a.captain_key
captain_of losers (a, b) = b.captain_key

unfoldable pub on_clock_captain_key : LobbyDraftState → Option String
on_clock_captain_key state = elim (on_clock_team state) [
  | none ↦ none
  | some t ↦ elim state.teams [ none ↦ none | some teams ↦ some (captain_of t teams) ]
]

abbrev is_account_of : String → Option LobbyDraftParticipant → Bool
is_account_of actor none = false
is_account_of actor (some p) = has_discord_id actor p

unfoldable pub assert_on_clock : LobbyDraftState → String → Throws (Unit {0})
assert_on_clock state actor = do
  key ← require (on_clock_captain_key state) stale_action
  guard (is_account_of actor (find_participant state key)) not_your_turn
