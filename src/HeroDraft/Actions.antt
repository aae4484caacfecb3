-- ===== src/HeroDraft/Actions.antt =====
-- The commands on a stored hero draft, with the timer that the process keeps for it:
-- draft-actions.ts, draft-auth.ts and draft-timer.ts of apps/bot/src/services/hero-draft. `now` is
-- the clock in milliseconds. Messages on Discord are left out.
use trueskill_bot.Common.{
  ℕ, ◌+◌, ◌*◌, ltb, String, str_eq, Bool, true, false, not, ◌&&◌, Option, none, some, List, ok, err,
  ◌>>=◌, ◌>>◌, guard, require, if◌then◌else◌, is_some, length,
}
use trueskill_bot.HeroDraft.Types.{
  HeroDraftStatus, active, complete, cancelled, HeroDraftState, HeroDraftTeam, one, two,
  HeroPoolEntry, HeroDraftError, Throws, same_side, empty_hero_draft_state, default_timer_seconds,
  min_pool_size, not_waiting, captain_not_linked, not_your_turn, cannot_cancel, not_active,
  wrong_game, wrong_sides, both_captains_must_be_linked, small_catalog,
}
use trueskill_bot.HeroDraft.Logic.{
  current_turn, is_hero_draft_complete, team_by_side, apply_ban, apply_skip_ban, apply_pick,
  apply_timeout, set_select_page, set_action_deadline,
}

pub record HeroDraftRow : Type 0 where
  pub id : String
  pub status : HeroDraftStatus
  pub timer_seconds : ℕ
  pub state : HeroDraftState

-- The stored row, and the instant for which a timeout is scheduled in `timers`, if one is.
pub record Desk : Type 0 where
  pub row : HeroDraftRow
  pub timer : Option ℕ

-- What a command leaves behind, and the error that it throws, if it does.
abbrev pub Outcome : Type 0
Outcome = Desk × Option HeroDraftError

abbrev pub is_active : HeroDraftStatus → Bool
is_active active = true
is_active complete = false
is_active cancelled = false

-- `assertOnClockCaptain`.
unfoldable pub assert_on_clock_captain : HeroDraftState → String → Throws (Unit {0})
assert_on_clock_captain state actor = do
  turn ← require (current_turn state) not_waiting
  team ← team_by_side state turn.team
  discord_id ← require team.captain.discord_id captain_not_linked
  guard (str_eq discord_id actor) (not_your_turn team.captain.label)

abbrev pub clear_timer : Desk → Desk
clear_timer desk = record desk { timer = none }

abbrev pub deadline_from_now : ℕ → ℕ → ℕ
deadline_from_now now timer_seconds = now + timer_seconds * 1000

abbrev pub save : Desk → HeroDraftStatus → HeroDraftState → Desk
save desk status state = record desk { row = record desk.row { status = status; state = state } }

-- A state that goes on gets a new deadline and its timer; else the timer is cleared.
unfoldable pub persist_and_schedule : ℕ → Desk → HeroDraftState → HeroDraftStatus → Desk
persist_and_schedule now desk state status =
    if is_active status && not (is_hero_draft_complete state)
    then (let deadline = some (deadline_from_now now desk.row.timer_seconds) in
        record (save desk status (set_action_deadline state deadline)) { timer = deadline })
    else clear_timer (save desk status (set_action_deadline state none))

abbrev pub status_of : HeroDraftState → HeroDraftStatus
status_of next = if is_hero_draft_complete next then complete else active

-- The end of a mutation: the timer is cleared before the mutation is tried.
abbrev pub conclude : ℕ → Desk → Throws HeroDraftState → Outcome
conclude now desk (ok next) =
    (persist_and_schedule now (clear_timer desk) next (status_of next), none)
conclude now desk (err e) = (clear_timer desk, some e)

abbrev pub mutate_on_clock : ℕ → Desk → Throws (Unit {0}) → Throws HeroDraftState → Outcome
mutate_on_clock now desk (err e) next = (desk, some e)
mutate_on_clock now desk (ok _) next = conclude now desk next

unfoldable pub apply_mutation :
    ℕ → Desk → String → (HeroDraftState → Throws HeroDraftState) → Outcome
apply_mutation now desk actor mutate =
    if is_active desk.row.status
    then mutate_on_clock now desk (assert_on_clock_captain desk.row.state actor)
        (mutate desk.row.state)
    else (desk, some not_active)

unfoldable pub apply_hero_ban : ℕ → Desk → String → ℕ → Outcome
apply_hero_ban now desk actor object_id =
    apply_mutation now desk actor (λ state. apply_ban state object_id)

unfoldable pub apply_hero_pick : ℕ → Desk → String → ℕ → Outcome
apply_hero_pick now desk actor object_id =
    apply_mutation now desk actor (λ state. apply_pick state object_id)

unfoldable pub apply_hero_skip_ban : ℕ → Desk → String → Outcome
apply_hero_skip_ban now desk actor = apply_mutation now desk actor apply_skip_ban

abbrev pub settle : Desk → Throws Desk → Outcome
settle desk (ok saved) = (saved, none)
settle desk (err e) = (desk, some e)

abbrev pub page_steps : Desk → Throws (Unit {0}) → Throws HeroDraftState → Throws Desk
page_steps desk check next = do check; turned ← next; ok (save desk active turned)

unfoldable pub change_hero_draft_select_page : Desk → String → Option ℕ → Outcome
change_hero_draft_select_page desk actor page = settle desk do
  guard (is_active desk.row.status) not_active
  page_steps desk (assert_on_clock_captain desk.row.state actor)
      (set_select_page desk.row.state page)

unfoldable pub cancel_hero_draft : Desk → Outcome
cancel_hero_draft desk = settle desk do
  guard (is_active desk.row.status) cannot_cancel
  ok (save (clear_timer desk) cancelled (set_action_deadline desk.row.state none))

-- A deadline more than 50 ms ahead: the timeout was overtaken by another action.
abbrev pub is_early : ℕ → Option ℕ → Bool
is_early now none = false
is_early now (some deadline) = ltb (now + 50) deadline

unfoldable pub apply_timeout_action : ℕ → ℕ → Desk → Outcome
apply_timeout_action now r desk =
    if is_active desk.row.status
    then (if is_early now desk.row.state.action_deadline_at
        then (record desk { timer = desk.row.state.action_deadline_at }, none)
        else conclude now desk (apply_timeout desk.row.state r))
    else (desk, none)

-- The callback of the timer: it takes itself off `timers`, and errors are only logged.
unfoldable pub fire_timer : ℕ → ℕ → Desk → Outcome
fire_timer now r desk = apply_timeout_action now r (clear_timer desk)

-- After a restart no timer is left; `rehydrateHeroDraftTimers` schedules the stored deadline.
unfoldable pub restart : Desk → Desk
restart desk = record desk {
  timer = if is_active desk.row.status then desk.row.state.action_deadline_at else none;
}

-- `Math.max(5, Math.min(300, Math.floor(timerSeconds)))`, on a number that is not negative.
unfoldable pub clamp_timer : Option ℕ → ℕ
clamp_timer none = default_timer_seconds
clamp_timer (some seconds) = if ltb seconds 5 then 5 else if ltb 300 seconds then 300 else seconds

-- `snapshotGameHeroPool` on the rows of the catalog.
unfoldable pub snapshot_game_hero_pool : List HeroPoolEntry → Throws (List HeroPoolEntry)
snapshot_game_hero_pool rows = do
  guard (not (ltb (length rows) min_pool_size)) small_catalog
  ok rows

-- The row that is created, and its timer.
unfoldable pub new_desk : ℕ → String → HeroDraftTeam → HeroDraftTeam → ℕ → List HeroPoolEntry → Desk
new_desk now id team1 team2 timer_seconds pool =
    let deadline = some (deadline_from_now now timer_seconds) in
    record {
      row = record {
        id = id;
        status = active;
        timer_seconds = timer_seconds;
        state = set_action_deadline (empty_hero_draft_state (team1, team2) pool) deadline;
      };
      timer = deadline;
    }

-- `is_wos` is the test of the game, and `catalog` what the database holds for it.
unfoldable pub start_hero_draft :
    ℕ → String → Bool → HeroDraftTeam → HeroDraftTeam → Option ℕ → List HeroPoolEntry → Throws Desk
start_hero_draft now id is_wos team1 team2 timer catalog = do
  guard is_wos wrong_game
  guard (same_side team1.side one && same_side team2.side two) wrong_sides
  guard (is_some team1.captain.discord_id && is_some team2.captain.discord_id)
      both_captains_must_be_linked
  pool ← snapshot_game_hero_pool catalog
  ok (new_desk now id team1 team2 (clamp_timer timer) pool)
