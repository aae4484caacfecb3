-- ===== src/HeroDraft/Lifecycle.antt =====
-- A hero draft from its start on, under any sequence of the commands, timeouts and restarts of
-- apps/bot/src/services/hero-draft/draft-actions.ts and draft-timer.ts.
use trueskill_bot.Common.{
  ℕ, ◌≤◌, ◌≡◌, refl, sym, subst, arith, Bool, true, Option, none, some, ok, err, List, [], length,
  Bool-cases, inl, inr, String,
}
use trueskill_bot.HeroDraft.Types.{
  active, HeroDraftTeam, HeroDraftActionKind, HeroDraftTeamSide, HeroPoolEntry, Throws, ban, pick,
  one, two, same_side, empty_hero_draft_state, min_pool_size,
}
use trueskill_bot.HeroDraft.Logic.{taken, set_select_page}
use trueskill_bot.HeroDraft.Turns.{HasSides}
use trueskill_bot.HeroDraft.Played.{IsPlayed, turns_before, entries_of, team_on}
use trueskill_bot.HeroDraft.Sound.{
  IsSound, StatusInv, TimerInv, deadline-TimerInv, IsPlayed-relabel, clear_timer-IsSound,
  apply_hero_ban-IsSound, apply_hero_pick-IsSound, apply_hero_skip_ban-IsSound,
  apply_timeout_action-IsSound, is_active_sound,
}
use trueskill_bot.HeroDraft.Actions.{
  Desk, settle, page_steps, save, clear_timer, is_active, assert_on_clock_captain, apply_hero_ban,
  apply_hero_pick, apply_hero_skip_ban, change_hero_draft_select_page, cancel_hero_draft,
  fire_timer, restart, start_hero_draft, snapshot_game_hero_pool, deadline_from_now, clamp_timer,
  new_desk,
}

pub data Command : Type 0 where
  ban_hero pick_hero : (actor : String) (object_id : ℕ) → Command
  skip_ban : (actor : String) → Command
  turn_page : (actor : String) → Option ℕ → Command
  cancel reboot : Command
  fire : (r : ℕ) → Command

-- What is left after a command that is given at `now`.
pub execute : ℕ → Desk → Command → Desk
execute now desk (ban_hero actor id) = (apply_hero_ban now desk actor id).0
execute now desk (pick_hero actor id) = (apply_hero_pick now desk actor id).0
execute now desk (skip_ban actor) = (apply_hero_skip_ban now desk actor).0
execute now desk (turn_page actor page) = (change_hero_draft_select_page desk actor page).0
execute now desk cancel = (cancel_hero_draft desk).0
execute now desk reboot = restart desk
execute now desk (fire r) = (fire_timer now r desk).0

pub data Reach (start : Desk) : Desk → Type 0 where
  here : Reach start start
  next :
      {desk : Desk}
      → Reach start desk
      → (now : ℕ) (command : Command) → Reach start (execute now desk command)

change_hero_draft_select_page-IsSound :
    (desk : Desk) (actor : String) (page : Option ℕ)
    → IsSound desk
    → IsSound (change_hero_draft_select_page desk actor page).0
unfolding change_hero_draft_select_page set_select_page
change_hero_draft_select_page-IsSound desk actor page p =
    elim (Bool-cases (is_active desk.row.status)) [
      | inr other ↦ rw other p
      | inl fits ↦ rw fits (
          turned (assert_on_clock_captain desk.row.state actor) page
            (is_active_sound desk.row.status fits))
    ]
  where
    kept :
        (n : ℕ) (timer : Option ℕ)
        → TimerInv timer desk.row
        → TimerInv timer (save desk active (record desk.row.state { select_page = n })).row
    kept n none h = tt
    kept n (some d) h = (refl, h.1)

    turned :
        (check : Throws (Unit {0})) (page : Option ℕ)
        → desk.row.status ≡ active
        → IsSound (settle desk (page_steps desk check (set_select_page desk.row.state page))).0
    turned (err _) page e = p
    turned (ok _) none e = p
    turned (ok _) (some n) e = record {
      played = IsPlayed-relabel desk.row.state desk.row.state.action_deadline_at n p.played;
      progress = subst (λ status. StatusInv status desk.row.state) e p.progress;
      scheduled = kept n desk.timer p.scheduled;
    }

cancel_hero_draft-IsSound : (desk : Desk) → IsSound desk → IsSound (cancel_hero_draft desk).0
unfolding cancel_hero_draft
cancel_hero_draft-IsSound desk p = elim (Bool-cases (is_active desk.row.status)) [
  | inr other ↦ rw other p
  | inl fits ↦ rw fits (record {
    played = IsPlayed-relabel desk.row.state none desk.row.state.select_page p.played;
    progress = tt;
    scheduled = tt;
  })
]

restart-IsSound : (desk : Desk) → IsSound desk → IsSound (restart desk)
unfolding restart
restart-IsSound desk p = elim (Bool-cases (is_active desk.row.status)) [
  | inr other ↦ rw other (record { played = p.played; progress = p.progress; scheduled = tt })
  | inl fits ↦ rw fits (record {
    played = p.played;
    progress = p.progress;
    scheduled =
        deadline-TimerInv desk.row desk.row.state.action_deadline_at refl
          (is_active_sound desk.row.status fits);
  })
]

pub execute-IsSound :
    (now : ℕ) (desk : Desk) (command : Command) → IsSound desk → IsSound (execute now desk command)
unfolding execute fire_timer
execute-IsSound now desk (ban_hero actor id) p = apply_hero_ban-IsSound now desk actor id p
execute-IsSound now desk (pick_hero actor id) p = apply_hero_pick-IsSound now desk actor id p
execute-IsSound now desk (skip_ban actor) p = apply_hero_skip_ban-IsSound now desk actor p
execute-IsSound now desk (turn_page actor page) p =
    change_hero_draft_select_page-IsSound desk actor page p
execute-IsSound now desk cancel p = cancel_hero_draft-IsSound desk p
execute-IsSound now desk reboot p = restart-IsSound desk p
execute-IsSound now desk (fire r) p =
    apply_timeout_action-IsSound now r (clear_timer desk) (clear_timer-IsSound desk p)

Reach-IsSound : {start desk : Desk} → IsSound start → Reach start desk → IsSound desk
Reach-IsSound p here = p
Reach-IsSound p (next {desk} r now command) = execute-IsSound now desk command (Reach-IsSound p r)

-- A team as `teamFromCaptainDraftTeam` and `resolveManualTeam` make it.
abbrev pub IsNewTeam : HeroDraftTeam → Type 0
IsNewTeam team = (team.bans ≡ []) × (team.picks ≡ [])

new_teams-IsPlayed :
    (team1 team2 : HeroDraftTeam) (pool : List HeroPoolEntry)
    → IsNewTeam team1
    → IsNewTeam team2
    → team1.side ≡ one
    → team2.side ≡ two
    → IsPlayed (empty_hero_draft_state (team1, team2) pool)
unfolding empty_hero_draft_state taken HasSides turns_before
new_teams-IsPlayed team1 team2 pool (b1, p1) (b2, p2) s1 s2 = record {
  sides = (s1, s2);
  entries = new_entries;
  once = λ id. rw b1 (rw p1 (rw b2 (rw p2 (omega arith))));
  from_pool = λ id. rw b1 (rw p1 (rw b2 (rw p2 (omega arith))));
  within = omega arith;
}
  where
    new_entries :
        (kind : HeroDraftActionKind) (side : HeroDraftTeamSide)
        → entries_of kind (team_on side (team1, team2)) ≡ turns_before kind side 0
    new_entries ban one = rw b1 refl
    new_entries ban two = rw b2 refl
    new_entries pick one = rw p1 refl
    new_entries pick two = rw p2 refl

same_side_sound : (a b : HeroDraftTeamSide) → same_side a b ≡ true → a ≡ b
same_side_sound one one h = refl
same_side_sound two two h = refl
same_side_sound one two h = cc
same_side_sound two one h = cc

start_hero_draft_inv :
    (now : ℕ) (id : String) (is_wos : Bool) (team1 team2 : HeroDraftTeam) (timer : Option ℕ)
    (catalog : List HeroPoolEntry) (desk : Desk)
    → start_hero_draft now id is_wos team1 team2 timer catalog ≡ ok desk
    → (team1.side ≡ one)
      × (team2.side ≡ two)
      × (min_pool_size ≤ length catalog)
      × (desk ≡ new_desk now id team1 team2 (clamp_timer timer) catalog)
unfolding start_hero_draft snapshot_game_hero_pool
start_hero_draft_inv now id is_wos team1 team2 timer catalog desk h = (
  same_side_sound team1.side one (ground arith),
  same_side_sound team2.side two (ground arith),
  ground arith,
  ground arith,
)

start_hero_draft-IsSound :
    (now : ℕ) (id : String) (is_wos : Bool) (team1 team2 : HeroDraftTeam) (timer : Option ℕ)
    (catalog : List HeroPoolEntry) (desk : Desk)
    → IsNewTeam team1
    → IsNewTeam team2
    → start_hero_draft now id is_wos team1 team2 timer catalog ≡ ok desk
    → IsSound desk
unfolding new_desk empty_hero_draft_state
start_hero_draft-IsSound now id is_wos team1 team2 timer catalog desk n1 n2 h =
    let (s1, s2, large, e) = start_hero_draft_inv now id is_wos team1 team2 timer catalog desk h in
    subst IsSound (sym e) (record {
      played =
          IsPlayed-relabel (empty_hero_draft_state (team1, team2) catalog)
            (some (deadline_from_now now (clamp_timer timer))) 0
            (new_teams-IsPlayed team1 team2 catalog n1 n2 s1 s2);
      progress = (omega arith, (deadline_from_now now (clamp_timer timer), refl));
      scheduled = (refl, refl);
    })

-- Whatever the captains, the timer and restarts do to a hero draft after it was started, with two
-- new teams, at whatever times: no hero is taken twice, only heroes of the pool are taken, each team
-- has one ban, perhaps skipped, or pick for each of its turns so far; the stored status is ACTIVE
-- only while turns are left, and then there is a deadline; it is COMPLETE only after all turns; and
-- a timeout is scheduled only for an active draft, at its deadline.
pub started_draft_IsSound :
    (now : ℕ) (id : String) (is_wos : Bool) (team1 team2 : HeroDraftTeam) (timer : Option ℕ)
    (catalog : List HeroPoolEntry) {start desk : Desk}
    → IsNewTeam team1
    → IsNewTeam team2
    → start_hero_draft now id is_wos team1 team2 timer catalog ≡ ok start
    → Reach start desk
    → IsSound desk
started_draft_IsSound now id is_wos team1 team2 timer catalog {start} n1 n2 h r =
    Reach-IsSound (start_hero_draft-IsSound now id is_wos team1 team2 timer catalog start n1 n2 h) r
