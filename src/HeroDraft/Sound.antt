-- ===== src/HeroDraft/Sound.antt =====
-- The invariant of a stored hero draft and its timer, and that the commands of
-- apps/bot/src/services/hero-draft/draft-actions.ts keep it.
use trueskill_bot.Common.{
  ℕ, ◌<◌, ◌≡◌, refl, subst, arith, true, Option, none, some, ok, err, Bool-cases, inl, inr, String,
}
use trueskill_bot.HeroDraft.Types.{
  HeroDraftStatus, active, complete, cancelled, HeroDraftState, Throws,
}
use trueskill_bot.HeroDraft.Logic.{
  taken, is_hero_draft_complete, apply_ban, apply_skip_ban, apply_pick, apply_timeout,
}
use trueskill_bot.HeroDraft.Turns.{HasSides}
use trueskill_bot.HeroDraft.Moves.{
  IsMove, apply_ban-IsMove, apply_skip_ban-IsMove, apply_pick-IsMove, apply_timeout-IsMove,
}
use trueskill_bot.HeroDraft.Played.{IsPlayed, IsMove-IsPlayed}
use trueskill_bot.HeroDraft.Finish.{current_turn_total}
use trueskill_bot.HeroDraft.Actions.{
  HeroDraftRow, Desk, is_active, assert_on_clock_captain, clear_timer, persist_and_schedule,
  status_of, conclude, mutate_on_clock, apply_mutation, apply_hero_ban, apply_hero_pick,
  apply_hero_skip_ban, is_early, apply_timeout_action, deadline_from_now,
}

-- A draft in progress has turns left and a deadline; a complete one has had all its turns.
abbrev pub StatusInv : HeroDraftStatus → HeroDraftState → Type 0
StatusInv active s = (s.turn_index < 16) × ((d : ℕ) × (s.action_deadline_at ≡ some d))
StatusInv complete s = s.turn_index ≡ 16
StatusInv cancelled s = Unit

-- A scheduled timeout is the one for the deadline of a draft in progress.
abbrev pub TimerInv : Option ℕ → HeroDraftRow → Type 0
TimerInv none row = Unit
TimerInv (some d) row = (row.status ≡ active) × (row.state.action_deadline_at ≡ some d)

pub record IsSound (desk : Desk) : Type 0 where
  pub played : IsPlayed desk.row.state
  pub progress : StatusInv desk.row.status desk.row.state
  pub scheduled : TimerInv desk.timer desk.row

pub deadline-TimerInv :
    (row : HeroDraftRow) (deadline : Option ℕ)
    → row.state.action_deadline_at ≡ deadline
    → row.status ≡ active
    → TimerInv deadline row
deadline-TimerInv row none h e = tt
deadline-TimerInv row (some d) h e = (e, h)

pub IsPlayed-relabel :
    (s : HeroDraftState) (deadline : Option ℕ) (page : ℕ)
    → IsPlayed s
    → IsPlayed (record s { action_deadline_at = deadline; select_page = page })
unfolding taken HasSides
IsPlayed-relabel s deadline page p = record {
  sides = p.sides;
  entries = p.entries;
  once = p.once;
  from_pool = p.from_pool;
  within = p.within;
}

pub clear_timer-IsSound : (desk : Desk) → IsSound desk → IsSound (clear_timer desk)
clear_timer-IsSound desk p = record { played = p.played; progress = p.progress; scheduled = tt }

persist_and_schedule-IsSound :
    (now : ℕ) (desk : Desk) (next : HeroDraftState)
    → IsPlayed next
    → IsSound (persist_and_schedule now desk next (status_of next))
unfolding persist_and_schedule
persist_and_schedule-IsSound now desk next p = elim (Bool-cases (is_hero_draft_complete next)) [
  | inl over ↦ rw over (record {
    played = IsPlayed-relabel next none next.select_page p;
    progress = ground arith;
    scheduled = tt;
  })
  | inr open_still ↦ rw open_still (record {
    played =
        IsPlayed-relabel next (some (deadline_from_now now desk.row.timer_seconds)) next.select_page
          p;
    progress = (ground arith, (deadline_from_now now desk.row.timer_seconds, refl));
    scheduled = (refl, refl);
  })
]

conclude-IsSound :
    (now : ℕ) (desk : Desk) (next : Throws HeroDraftState)
    → IsSound desk
    → ((s' : HeroDraftState) → next ≡ ok s' → IsMove desk.row.state s')
    → IsSound (conclude now desk next).0
conclude-IsSound now desk (ok s') p moves =
    persist_and_schedule-IsSound now (clear_timer desk) s'
      (IsMove-IsPlayed desk.row.state s' p.played (moves s' refl))
conclude-IsSound now desk (err e) p moves = clear_timer-IsSound desk p

apply_mutation-IsSound :
    (now : ℕ) (desk : Desk) (actor : String) (mutate : HeroDraftState → Throws HeroDraftState)
    → IsSound desk
    → ((s' : HeroDraftState) → mutate desk.row.state ≡ ok s' → IsMove desk.row.state s')
    → IsSound (apply_mutation now desk actor mutate).0
unfolding apply_mutation
apply_mutation-IsSound now desk actor mutate p moves =
    elim (Bool-cases (is_active desk.row.status)) [
      | inr other ↦ rw other p
      | inl fits ↦ rw fits (checked (assert_on_clock_captain desk.row.state actor))
    ]
  where
    checked :
        (check : Throws (Unit {0}))
        → IsSound (mutate_on_clock now desk check (mutate desk.row.state)).0
    checked (ok _) = conclude-IsSound now desk (mutate desk.row.state) p moves
    checked (err e) = p

pub apply_hero_ban-IsSound :
    (now : ℕ) (desk : Desk) (actor : String) (id : ℕ)
    → IsSound desk
    → IsSound (apply_hero_ban now desk actor id).0
unfolding apply_hero_ban
apply_hero_ban-IsSound now desk actor id p =
    apply_mutation-IsSound now desk actor (λ s. apply_ban s id) p
      (λ s' h. apply_ban-IsMove desk.row.state s' id p.played.sides h)

pub apply_hero_pick-IsSound :
    (now : ℕ) (desk : Desk) (actor : String) (id : ℕ)
    → IsSound desk
    → IsSound (apply_hero_pick now desk actor id).0
unfolding apply_hero_pick
apply_hero_pick-IsSound now desk actor id p =
    apply_mutation-IsSound now desk actor (λ s. apply_pick s id) p
      (λ s' h. apply_pick-IsMove desk.row.state s' id p.played.sides h)

pub apply_hero_skip_ban-IsSound :
    (now : ℕ) (desk : Desk) (actor : String)
    → IsSound desk
    → IsSound (apply_hero_skip_ban now desk actor).0
unfolding apply_hero_skip_ban
apply_hero_skip_ban-IsSound now desk actor p =
    apply_mutation-IsSound now desk actor apply_skip_ban p
      (λ s' h. apply_skip_ban-IsMove desk.row.state s' p.played.sides h)

pub is_active_sound : (status : HeroDraftStatus) → is_active status ≡ true → status ≡ active
is_active_sound active h = refl
is_active_sound complete h = cc
is_active_sound cancelled h = cc

pub apply_timeout_action-IsSound :
    (now r : ℕ) (desk : Desk) → IsSound desk → IsSound (apply_timeout_action now r desk).0
unfolding apply_timeout_action
apply_timeout_action-IsSound now r desk p = elim (Bool-cases (is_active desk.row.status)) [
  | inr other ↦ rw other p
  | inl fits ↦
      let e = is_active_sound desk.row.status fits in
      let in_progress = subst (λ status. StatusInv status desk.row.state) e p.progress in
      elim (Bool-cases (is_early now desk.row.state.action_deadline_at)) [
        | inl early ↦ rw fits (
            rw early (record {
              played = p.played;
              progress = p.progress;
              scheduled = deadline-TimerInv desk.row desk.row.state.action_deadline_at refl e;
            }))
        | inr due ↦ rw fits (
            rw due (
              conclude-IsSound now desk (apply_timeout desk.row.state r) p (λ s' h.
                let (turn, on_turn) = current_turn_total desk.row.state in_progress.0 in
                apply_timeout-IsMove desk.row.state s' r turn p.played.sides on_turn h)))
      ]
]
