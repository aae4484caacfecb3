-- ===== src/HeroDraft/Timer.antt =====
-- Who may move in a hero draft, and what becomes of its timer: `applyMutation` and
-- `persistAndSchedule` of apps/bot/src/services/hero-draft/draft-actions.ts.
use trueskill_bot.HeroDraft.Moves.{enter}
use trueskill_bot.HeroDraft.Turns.{after}
use trueskill_bot.HeroDraft.Finish.{current_turn_total, apply_timeout_total}
use trueskill_bot.Common.Rng.{unit}
use trueskill_bot.HeroDraft.Timeouts.{HasDistinctPool}
use trueskill_bot.Common.{
  ℕ, ◌+◌, ◌*◌, ◌≡◌, ◌⊎◌, refl, ap, ◌∙◌, subst, arith, true, false, none, some, ok, Bool-cases, inl,
  inr, String, ◌≤◌, length, ◌<◌,
}
use trueskill_bot.HeroDraft.Types.{
  active, complete, HeroDraftState, HeroDraftTeam, HeroDraftTurn, min_pool_size,
}
use trueskill_bot.HeroDraft.Logic.{current_turn, team_by_side, is_hero_draft_complete}
use trueskill_bot.HeroDraft.Sound.{IsSound, TimerInv, StatusInv}
use trueskill_bot.HeroDraft.Actions.{
  Desk, is_active, clear_timer, persist_and_schedule, status_of, fire_timer, apply_timeout_action,
  is_early,
}

-- Who moved: the draft was active, and the Discord account is linked to the captain of the team on
-- the clock.
unfoldable pub IsCaptainsTurn : Desk → String → Type 0
IsCaptainsTurn desk actor =
    (turn : HeroDraftTurn) × (team : HeroDraftTeam) × (desk.row.status ≡ active)
    × (current_turn desk.row.state ≡ some turn)
    × (team_by_side desk.row.state turn.team ≡ ok team)
    × (team.captain.discord_id ≡ some actor)

unfoldable pub IsArmed : ℕ → Desk → Type 0
IsArmed now desk =
    ((desk.row.status ≡ complete) × (desk.timer ≡ none))
    ⊎ ((desk.row.status ≡ active)
        × (desk.timer ≡ some (now + desk.row.timer_seconds * 1000))
        × (desk.row.state.action_deadline_at ≡ desk.timer))

persist_and_schedule-IsArmed :
    (now : ℕ) (desk : Desk) (next : HeroDraftState)
    → IsArmed now (persist_and_schedule now desk next (status_of next))
      × ((persist_and_schedule now desk next (status_of next)).row.state.turn_index
          ≡ next.turn_index)
unfolding persist_and_schedule IsArmed
persist_and_schedule-IsArmed now desk next = elim (Bool-cases (is_hero_draft_complete next)) [
  | inl over ↦ rw over (inl (refl, refl), refl)
  | inr open_still ↦ rw open_still (inr (refl, refl, refl), refl)
]

-- When the timer of a draft in progress fires at its deadline, or after it, the turn is played: no error,
-- one turn less to go, and either the draft is complete or the timer is set again. The pool is to
-- hold sixteen different heroes, and the random number to be below 1.
pub fire_timer_progress :
    (now r deadline : ℕ) (desk : Desk)
    → IsSound desk
    → desk.timer ≡ some deadline
    → deadline ≤ now
    → HasDistinctPool desk.row.state.pool
    → min_pool_size ≤ length desk.row.state.pool
    → r < unit
    → ((fire_timer now r desk).1 ≡ none)
      × ((fire_timer now r desk).0.row.state.turn_index ≡ desk.row.state.turn_index + 1)
      × IsArmed now (fire_timer now r desk).0
unfolding fire_timer apply_timeout_action
fire_timer_progress now r deadline desk p set due distinct large small =
    let (e, ahead) = subst (λ timer. TimerInv timer desk.row) set p.scheduled in
    let in_progress = subst (λ status. StatusInv status desk.row.state) e p.progress in
    let (turn, on_turn) = current_turn_total desk.row.state in_progress.0 in
    let (entry, moved) =
      apply_timeout_total desk.row.state turn r p.played distinct large on_turn small in
    let fits : is_active desk.row.status ≡ true = ap is_active e in
    let past : is_early now (some deadline) ≡ false = ground arith in
    let not_early : is_early now desk.row.state.action_deadline_at ≡ false =
      ap (is_early now) ahead ∙ past in
    let (armed, turns) =
      persist_and_schedule-IsArmed now (clear_timer desk)
        (after desk.row.state turn (enter entry)) in
    rw fits (rw not_early (rw moved (refl, turns, armed)))
