-- ===== src/CaptainDraft/Logic.antt =====
-- The pure operations on a draft state: apps/bot/src/services/captain-draft/draft-logic.ts.
use Prim.Native.String.{◌++◌ as str_append}
use trueskill_bot.Common.{
  ℕ, zero, suc, ◌+◌, ◌-◌, ◌/◌, ◌%◌, String, Bool, false, not, ◌&&◌, ◌||◌, List, [], ◌∷◌, ◌++◌, map,
  Option, none, some, ltb, ◌==◌, str_eq, if◌then◌else◌, length, get_elem?, modify, erase_at,
  drop_last, get_last?, filter, find?, find_index?, any, is_some, ok, ◌>>=◌, ◌>>◌, guard, require,
}
use trueskill_bot.Common.Rng.{Rng, fisher_yates}
use trueskill_bot.CaptainDraft.Types.{
  CaptainDraftStatus, active, complete, DraftParticipant, DraftTeam, DraftState, Throws, has_key,
  has_captain, no_team_for_current_pick, player_not_in_pool, nothing_to_undo, team_not_found,
  cannot_remove_captain, player_not_on_team, cannot_replace_captain, participant_not_found,
  cannot_swap_captains, cannot_move_captain, already_on_that_team, read_of_undefined,
}

-- `Array.from({ length: count }, (_, i) => i)`.
abbrev pub range_from : ℕ → ℕ → List ℕ
range_from i zero = []
range_from i (suc n) = i ∷ range_from (suc i) n

-- The k-th call of `rng` is the first that the shuffle makes.
unfoldable pub shuffle_pick_order : ℕ → Rng → ℕ → List ℕ
shuffle_pick_order count rng k = fisher_yates rng k (count - 1) (range_from 0 count)

unfoldable pub captain_index_for_pick : ℕ → ℕ → ℕ
captain_index_for_pick pick_index captain_count =
    let round = pick_index / captain_count in
    let pos = pick_index % captain_count in
    if captain_count == 0 then 0 else if round % 2 == 0 then pos else captain_count - 1 - pos

abbrev pub team_of_captain : ℕ → DraftParticipant → DraftTeam
team_of_captain i captain = record {
  captain_key = captain.key;
  display_name = str_append "Team " captain.label;
  roster = captain ∷ [];
  pick_order_index = i;
}

unfoldable pub build_from : ℕ → List DraftParticipant → List ℕ → Throws (List DraftTeam)
build_from i captains [] = ok []
build_from i captains (captain_idx ∷ rest) = do
  captain ← require (get_elem? captains captain_idx) read_of_undefined
  teams ← build_from (suc i) captains rest
  ok (team_of_captain i captain ∷ teams)

unfoldable pub build_teams_from_captains : List DraftParticipant → List ℕ → Throws (List DraftTeam)
unfolding build_from
build_teams_from_captains captains pick_order = build_from 0 captains pick_order

-- The first roster that holds the key, in team order.
abbrev pub find_on_teams : String → List DraftTeam → Option DraftParticipant
find_on_teams key [] = none
find_on_teams key (team ∷ teams) = elim (find? (has_key key) team.roster) [
  | some p ↦ some p
  | none ↦ find_on_teams key teams
]

-- `a ?? b`, where `b` is computed only if it is needed.
abbrev pub or_else : Option DraftParticipant → Option DraftParticipant → Option DraftParticipant
or_else (some p) b = some p
or_else none b = b

unfoldable pub find_participant : DraftState → String → Option DraftParticipant
find_participant state key =
    or_else (find? (has_key key) state.member_pool)
      (or_else (find_on_teams key state.teams) (find? (has_key key) state.captains))

unfoldable pub is_captain_key : DraftState → String → Bool
is_captain_key state key = any (has_captain key) state.teams

abbrev pub in_pick_order : ℕ → DraftTeam → Bool
in_pick_order i team = team.pick_order_index == i

unfoldable pub team_index_for_pick : DraftState → ℕ → Throws ℕ
team_index_for_pick state pick_index =
    require
      (find_index? (in_pick_order (captain_index_for_pick pick_index (length state.teams)))
        state.teams)
      no_team_for_current_pick

abbrev pub add_to_roster : DraftParticipant → DraftTeam → DraftTeam
add_to_roster p team = record team { roster = team.roster ++ p ∷ [] }

unfoldable pub apply_pick : DraftState → String → Throws DraftState
apply_pick state participant_key = do
  pool_idx ← require (find_index? (has_key participant_key) state.member_pool) player_not_in_pool
  team_idx ← team_index_for_pick state state.pick_index
  player ← require (get_elem? state.member_pool pool_idx) read_of_undefined
  ok (record state {
    member_pool = erase_at state.member_pool pool_idx;
    teams = modify state.teams team_idx (add_to_roster player);
    pick_index = state.pick_index + 1;
  })

abbrev pub drop_last_of_roster : DraftTeam → DraftTeam
drop_last_of_roster team = record team { roster = drop_last team.roster }

unfoldable pub undo_last_pick : DraftState → Throws DraftState
undo_last_pick state = do
  guard (ltb 0 state.pick_index) nothing_to_undo
  team_idx ← team_index_for_pick state (state.pick_index - 1)
  team ← require (get_elem? state.teams team_idx) read_of_undefined
  guard (ltb 1 (length team.roster)) nothing_to_undo
  picked ← require (get_last? team.roster) read_of_undefined
  ok (record state {
    member_pool = state.member_pool ++ picked ∷ [];
    teams = modify state.teams team_idx drop_last_of_roster;
    pick_index = state.pick_index - 1;
  })

unfoldable pub add_to_pool : DraftState → DraftParticipant → DraftState
add_to_pool state player = record state { member_pool = state.member_pool ++ player ∷ [] }

-- `list.filter((p) => p.key !== key)`.
abbrev pub without_key : String → List DraftParticipant → List DraftParticipant
without_key key = filter (λ p. not (has_key key p))

unfoldable pub remove_from_pool : DraftState → String → Throws DraftState
remove_from_pool state participant_key = do
  let member_pool = without_key participant_key state.member_pool
  guard (not (length member_pool == length state.member_pool)) player_not_in_pool
  ok (record state { member_pool = member_pool })

unfoldable pub add_to_team : DraftState → String → String → Throws DraftState
add_to_team state participant_key captain_key = do
  team_idx ← require (find_index? (has_captain captain_key) state.teams) team_not_found
  pool_idx ← require (find_index? (has_key participant_key) state.member_pool) player_not_in_pool
  player ← require (get_elem? state.member_pool pool_idx) read_of_undefined
  ok (record state {
    member_pool = erase_at state.member_pool pool_idx;
    teams = modify state.teams team_idx (add_to_roster player);
  })

-- One team under the `map` of `removeFromTeam`.
abbrev pub drop_key : String → DraftTeam → DraftTeam
drop_key key team =
    if is_some (find_index? (has_key key) team.roster)
    then record team { roster = without_key key team.roster }
    else team

-- The variable `removed` after the `map`: the last team that has the key overwrites it.
abbrev pub last_removed :
    String → Option DraftParticipant → List DraftTeam → Option DraftParticipant
last_removed key removed [] = removed
last_removed key removed (team ∷ teams) =
    last_removed key (or_else (find? (has_key key) team.roster) removed) teams

unfoldable pub remove_from_team : DraftState → String → Throws DraftState
remove_from_team state participant_key = do
  guard (not (is_captain_key state participant_key)) cannot_remove_captain
  removed ← require (last_removed participant_key none state.teams) player_not_on_team
  ok (record state {
    teams = map (drop_key participant_key) state.teams;
    member_pool = state.member_pool ++ removed ∷ [];
  })

pub data ParticipantLocation : Type 0 where
  pool : (index : ℕ) → ParticipantLocation
  team : (team_index roster_index : ℕ) → ParticipantLocation

-- The loop over the teams from `team_index` on.
abbrev pub locate_on_teams : String → ℕ → List DraftTeam → Option ParticipantLocation
locate_on_teams key i [] = none
locate_on_teams key i (t ∷ ts) = elim (find_index? (has_key key) t.roster) [
  | some j ↦ some (team i j)
  | none ↦ locate_on_teams key (suc i) ts
]

unfoldable pub locate_participant : DraftState → String → Option ParticipantLocation
locate_participant state key = elim (find_index? (has_key key) state.member_pool) [
  | some i ↦ some (pool i)
  | none ↦ locate_on_teams key 0 state.teams
]

abbrev pub put_in_roster : ℕ → DraftParticipant → DraftTeam → DraftTeam
put_in_roster j p t = record t { roster = modify t.roster j (λ _. p) }

unfoldable pub clone_state_with_participant_at :
    DraftState → ParticipantLocation → DraftParticipant → DraftState
clone_state_with_participant_at state (pool i) p = record state {
  member_pool = modify state.member_pool i (λ _. p);
}
clone_state_with_participant_at state (team i j) p = record state {
  teams = modify state.teams i (put_in_roster j p);
}

unfoldable pub replace_participant : DraftState → String → DraftParticipant → Throws DraftState
replace_participant state outgoing_key incoming = do
  guard (not (is_captain_key state outgoing_key)) cannot_replace_captain
  location ← require (locate_participant state outgoing_key) participant_not_found
  ok (clone_state_with_participant_at state location incoming)

unfoldable pub swap_participants : DraftState → String → String → Throws DraftState
swap_participants state key_a key_b = if str_eq key_a key_b then ok state else do
  guard (not (is_captain_key state key_a || is_captain_key state key_b)) cannot_swap_captains
  loc_a ← require (locate_participant state key_a) participant_not_found
  loc_b ← require (locate_participant state key_b) participant_not_found
  participant_a ← require (find_participant state key_a) read_of_undefined
  participant_b ← require (find_participant state key_b) read_of_undefined
  let next = clone_state_with_participant_at state loc_a participant_b
  ok (clone_state_with_participant_at next loc_b participant_a)

abbrev pub is_on_team : ℕ → ParticipantLocation → Bool
is_on_team i (pool _) = false
is_on_team i (team j _) = j == i

-- The state without the participant, where `location` says that they are.
abbrev pub take_out : DraftState → ParticipantLocation → String → DraftState
take_out state (pool _) key = record state { member_pool = without_key key state.member_pool }
take_out state (team i _) key = record state {
  teams = modify state.teams i (λ t. record t { roster = without_key key t.roster });
}

unfoldable pub move_participant : DraftState → String → String → Throws DraftState
move_participant state participant_key to_captain_key = do
  guard (not (is_captain_key state participant_key)) cannot_move_captain
  target ← require (find_index? (has_captain to_captain_key) state.teams) team_not_found
  source ← require (locate_participant state participant_key) participant_not_found
  guard (not (is_on_team target source)) already_on_that_team
  participant ← require (find_participant state participant_key) read_of_undefined
  let next = take_out state source participant_key
  ok (record next { teams = modify next.teams target (add_to_roster participant) })

abbrev pub is_draft_complete : DraftState → Bool
is_draft_complete state = length state.member_pool == 0

unfoldable pub next_status_after_mutation : CaptainDraftStatus → DraftState → CaptainDraftStatus
next_status_after_mutation active state =
    if is_draft_complete state && ltb 0 (length state.teams) then complete else active
next_status_after_mutation current state = current

unfoldable pub current_captain_key : DraftState → Option String
current_captain_key state =
    let order_idx = captain_index_for_pick state.pick_index (length state.teams) in
    if is_draft_complete state || length state.teams == 0
    then none
    else elim (find? (in_pick_order order_idx) state.teams) [
      | some t ↦ some t.captain_key
      | none ↦ none
    ]
