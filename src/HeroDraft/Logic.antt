-- ===== src/HeroDraft/Logic.antt =====
-- The pure operations of apps/bot/src/services/hero-draft/draft-logic.ts.
use trueskill_bot.Common.{
  ℕ, ◌+◌, ◌==◌, leb, Bool, not, if◌then◌else◌, Option, none, some, List, [], ◌∷◌, ◌++◌, any, filter,
  length, get_elem?, ok, err, ◌>>=◌, ◌>>◌, guard, require,
}
use trueskill_bot.Common.Rng.{draw}
use trueskill_bot.HeroDraft.Types.{
  HeroDraftActionKind, ban, pick, HeroDraftTeamSide, HeroDraftTeam, HeroDraftTurn, HeroPoolEntry,
  HeroDraftState, Throws, hero_draft_sequence, same_side, same_kind, missing_team, already_complete,
  expected_action, hero_not_available, no_heroes_left, read_of_undefined, invalid_select_page,
}

unfoldable pub current_turn : HeroDraftState → Option HeroDraftTurn
current_turn state = get_elem? hero_draft_sequence state.turn_index

abbrev pub is_hero_draft_complete : HeroDraftState → Bool
is_hero_draft_complete state = leb (length hero_draft_sequence) state.turn_index

unfoldable pub team_by_side : HeroDraftState → HeroDraftTeamSide → Throws HeroDraftTeam
team_by_side state side =
    if same_side state.teams.0.side side
    then ok state.teams.0
    else if same_side state.teams.1.side side
    then ok state.teams.1
    else err (missing_team side)

-- The bans that are not skipped.
abbrev pub banned_heroes : List (Option ℕ) → List ℕ
banned_heroes [] = []
banned_heroes (none ∷ bans) = banned_heroes bans
banned_heroes (some id ∷ bans) = id ∷ banned_heroes bans

-- What the set `taken` holds.
abbrev pub taken_by : HeroDraftTeam → List ℕ
taken_by team = banned_heroes team.bans ++ team.picks

unfoldable pub taken : HeroDraftState → List ℕ
taken state = taken_by state.teams.0 ++ taken_by state.teams.1

unfoldable pub is_taken : HeroDraftState → ℕ → Bool
is_taken state object_id = any (λ hero. hero == object_id) (taken state)

unfoldable pub available_heroes : HeroDraftState → List HeroPoolEntry
available_heroes state = filter (λ hero. not (is_taken state hero.object_id)) state.pool

unfoldable pub assert_active_turn : HeroDraftState → HeroDraftActionKind → Throws HeroDraftTurn
assert_active_turn state kind = do
  turn ← require (current_turn state) already_complete
  guard (same_kind turn.kind kind) (expected_action kind turn.kind)
  ok turn

abbrev pub with_advanced_turn : HeroDraftState → HeroDraftTeam × HeroDraftTeam → HeroDraftState
with_advanced_turn state teams = record state {
  teams = teams;
  turn_index = state.turn_index + 1;
  select_page = 0;
  action_deadline_at = none;
}

unfoldable pub replace_team :
    HeroDraftState → HeroDraftTeamSide → HeroDraftTeam → HeroDraftTeam × HeroDraftTeam
replace_team state side next = (
  if same_side state.teams.0.side side then next else state.teams.0,
  if same_side state.teams.1.side side then next else state.teams.1,
)

abbrev pub add_ban : Option ℕ → HeroDraftTeam → HeroDraftTeam
add_ban hero team = record team { bans = team.bans ++ hero ∷ [] }

abbrev pub add_pick : ℕ → HeroDraftTeam → HeroDraftTeam
add_pick hero team = record team { picks = team.picks ++ hero ∷ [] }

unfoldable pub is_available : HeroDraftState → ℕ → Bool
is_available state object_id = any (λ hero. hero.object_id == object_id) (available_heroes state)

unfoldable pub apply_ban : HeroDraftState → ℕ → Throws HeroDraftState
apply_ban state object_id = do
  turn ← assert_active_turn state ban
  guard (is_available state object_id) hero_not_available
  team ← team_by_side state turn.team
  ok (with_advanced_turn state (replace_team state turn.team (add_ban (some object_id) team)))

unfoldable pub apply_skip_ban : HeroDraftState → Throws HeroDraftState
apply_skip_ban state = do
  turn ← assert_active_turn state ban
  team ← team_by_side state turn.team
  ok (with_advanced_turn state (replace_team state turn.team (add_ban none team)))

unfoldable pub apply_pick : HeroDraftState → ℕ → Throws HeroDraftState
apply_pick state object_id = do
  turn ← assert_active_turn state pick
  guard (is_available state object_id) hero_not_available
  team ← team_by_side state turn.team
  ok (with_advanced_turn state (replace_team state turn.team (add_pick object_id team)))

-- A pick that timed out, with `r` for the random number.
unfoldable pub pick_at_random : HeroDraftState → ℕ → Throws HeroDraftState
pick_at_random state r = do
  let available = available_heroes state
  guard (not (length available == 0)) no_heroes_left
  hero ← require (get_elem? available (draw r (length available))) read_of_undefined
  apply_pick state hero.object_id

abbrev pub timeout_of_turn : HeroDraftState → ℕ → Option HeroDraftTurn → Throws HeroDraftState
timeout_of_turn state r none = ok state
timeout_of_turn state r (some turn) = elim turn.kind [
  | ban ↦ apply_skip_ban state
  | pick ↦ pick_at_random state r
]

unfoldable pub apply_timeout : HeroDraftState → ℕ → Throws HeroDraftState
apply_timeout state r = timeout_of_turn state r (current_turn state)

-- `page` is `none` where the number is no natural number.
unfoldable pub set_select_page : HeroDraftState → Option ℕ → Throws HeroDraftState
set_select_page state page = do
  natural ← require page invalid_select_page
  ok (record state { select_page = natural })

abbrev pub set_action_deadline : HeroDraftState → Option ℕ → HeroDraftState
set_action_deadline state deadline = record state { action_deadline_at = deadline }
