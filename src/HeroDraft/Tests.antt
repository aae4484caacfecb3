-- ===== src/HeroDraft/Tests.antt =====
-- A hero draft over sixteen heroes: runs of the model, and the theorems at its states.
use trueskill_bot.Common.{
  ℕ, zero, suc, ◌+◌, ◌-◌, ◌^◌, ◌≡◌, refl, arith, true, none, some, ok, List, [], ◌∷◌, String,
  count_if, one_if, ◌==◌, ltb, length,
}
use trueskill_bot.Common.Rng.{Rng, IsRng}
use trueskill_bot.HeroDraft.Types.{
  HeroDraftState, HeroDraftTeam, HeroDraftMember, HeroPoolEntry, HeroDraftTeamSide, one, two,
  empty_hero_draft_state, hero_not_available, not_your_turn,
}
use trueskill_bot.HeroDraft.Logic.{
  team_by_side, taken, is_taken, available_heroes, assert_active_turn, replace_team, is_available,
  apply_ban, apply_skip_ban, apply_pick, apply_timeout, pick_at_random, current_turn,
  is_hero_draft_complete,
}
use trueskill_bot.HeroDraft.Played.{IsPlayed}
use trueskill_bot.HeroDraft.Timeouts.{HasDistinctPool}
use trueskill_bot.HeroDraft.Finish.{run_timeouts, run_timeouts_complete}
use trueskill_bot.HeroDraft.Sound.{IsSound}
use trueskill_bot.HeroDraft.Timer.{IsArmed, fire_timer_progress}
use trueskill_bot.HeroDraft.Lifecycle.{here, next, fire, execute, started_draft_IsSound}
use trueskill_bot.HeroDraft.Actions.{
  Desk, apply_hero_pick, apply_hero_ban, fire_timer, start_hero_draft, new_desk,
  snapshot_game_hero_pool, clamp_timer, persist_and_schedule, clear_timer, assert_on_clock_captain,
  apply_mutation,
}

abbrev catalog : ℕ → List HeroPoolEntry
catalog zero = []
catalog (suc n) = record { object_id = n; name = "hero" } ∷ catalog n

catalog_count : (n id : ℕ) → count_if (λ hero. hero.object_id == id) (catalog n) ≡ one_if (ltb id n)
catalog_count zero id = ground arith
catalog_count (suc n) id = ground (arith, catalog_count n id)

catalog-HasDistinctPool : (n : ℕ) → HasDistinctPool (catalog n)
unfolding HasDistinctPool
catalog-HasDistinctPool n id = ground (arith, catalog_count n id)

abbrev captain : String → HeroDraftMember
captain key = record { key = key; label = key; discord_id = some key }

abbrev new_team : HeroDraftTeamSide → String → HeroDraftTeam
new_team side key = record {
  side = side;
  display_name = key;
  captain = captain key;
  roster = captain key ∷ [];
  bans = [];
  picks = [];
}

abbrev started : Desk
started = new_desk 1000 "d" (new_team one "a") (new_team two "b") 60 (catalog 16)

moves : Unit {0}
unfolding new_desk empty_hero_draft_state start_hero_draft snapshot_game_hero_pool clamp_timer
    current_turn team_by_side taken is_taken available_heroes assert_active_turn replace_team
    is_available apply_ban apply_skip_ban apply_pick apply_timeout pick_at_random
    assert_on_clock_captain apply_mutation persist_and_schedule apply_hero_ban apply_hero_pick
    run_timeouts
moves = tt

start_it :
    start_hero_draft 1000 "d" true (new_team one "a") (new_team two "b") none (catalog 16)
    ≡ ok started
unfolding moves
start_it = refl

a_bans_3 : (apply_hero_ban 2000 started "a" 3).1 ≡ none
unfolding moves
a_bans_3 = refl

-- A hero that is not there: the error comes after the timer was cleared.
a_bans_16 : apply_hero_ban 2000 started "a" 16 ≡ (clear_timer started, some hero_not_available)
unfolding moves
a_bans_16 = refl

b_bans_3 : apply_hero_ban 2000 started "b" 3 ≡ (started, some (not_your_turn "a"))
unfolding moves
b_bans_3 = refl

started_draft_IsSound_example : IsSound (execute 70000 started (fire 0))
started_draft_IsSound_example =
    started_draft_IsSound 1000 "d" true (new_team one "a") (new_team two "b") none (catalog 16)
      (refl, refl) (refl, refl) start_it (next here 70000 (fire 0))

started-IsSound : IsSound started
started-IsSound =
    started_draft_IsSound 1000 "d" true (new_team one "a") (new_team two "b") none (catalog 16)
      (refl, refl) (refl, refl) start_it here

half : Rng
half k = 2 ^ 52

half-IsRng : IsRng half
unfolding half
half-IsRng k = omega arith

run_timeouts_complete_example :
    (s' : HeroDraftState) × (run_timeouts
        (16 - started.row.state.turn_index)
        half
        0
        started.row.state
      ≡ ok s')
    × IsPlayed s'
    × (is_hero_draft_complete s' ≡ true)
    × (length s'.teams.0.bans ≡ 3)
    × (length s'.teams.0.picks ≡ 5)
    × (length s'.teams.1.bans ≡ 3)
    × (length s'.teams.1.picks ≡ 5)
unfolding new_desk empty_hero_draft_state
run_timeouts_complete_example =
    run_timeouts_complete half 0 started.row.state started-IsSound.played
      (catalog-HasDistinctPool 16) (omega arith) half-IsRng

fire_timer_progress_example :
    ((fire_timer 61000 0 started).1 ≡ none)
    × ((fire_timer 61000 0 started).0.row.state.turn_index ≡ started.row.state.turn_index + 1)
    × IsArmed 61000 (fire_timer 61000 0 started).0
unfolding new_desk empty_hero_draft_state
fire_timer_progress_example =
    fire_timer_progress 61000 0 61000 started started-IsSound refl (omega arith)
      (catalog-HasDistinctPool 16) (omega arith) (omega arith)
