-- ===== src/HeroDraft/Finish.antt =====
-- A hero draft that is left to its timer: one `applyTimeout` of
-- apps/bot/src/services/hero-draft/draft-logic.ts after the other ends it.
use trueskill_bot.Common.{
  ℕ, zero, suc, ◌+◌, ◌-◌, ◌≤◌, ◌<◌, ◌≡◌, refl, subst, arith, true, none, some, ok, length, ◌>>=◌,
  get_elem?_total,
}
use trueskill_bot.Common.Rng.{Rng, IsRng, unit}
use trueskill_bot.HeroDraft.Types.{
  HeroDraftActionKind, ban, pick, HeroDraftState, HeroDraftTurn, hero_draft_sequence, min_pool_size,
  Throws, one, two, HeroDraftTeamSide,
}
use trueskill_bot.HeroDraft.Logic.{
  current_turn, available_heroes, apply_timeout, timeout_of_turn, is_hero_draft_complete,
}
use trueskill_bot.HeroDraft.Turns.{after, apply_skip_ban_total}
use trueskill_bot.HeroDraft.Moves.{Entry, banned, picked, enter, apply_timeout-IsMove}
use trueskill_bot.HeroDraft.Played.{
  IsPlayed, current_turn-lt, IsMove-IsPlayed, turns_before, team_on, entries_of,
}
use trueskill_bot.HeroDraft.Timeouts.{
  HasDistinctPool, length-available_heroes, pick_at_random_total,
}

-- On every turn a timeout moves: a catalog of sixteen heroes never runs out.
pub apply_timeout_total :
    (s : HeroDraftState) (turn : HeroDraftTurn) (r : ℕ)
    → IsPlayed s
    → HasDistinctPool s.pool
    → min_pool_size ≤ length s.pool
    → current_turn s ≡ some turn
    → r < unit
    → (entry : Entry) × (apply_timeout s r ≡ ok (after s turn (enter entry)))
unfolding apply_timeout
apply_timeout_total s turn r p distinct large now small = rw now (timed_out turn.kind refl)
  where
    timed_out :
        (kind : HeroDraftActionKind)
        → turn.kind ≡ kind
        → (entry : Entry) × (timeout_of_turn s r (some turn) ≡ ok (after s turn (enter entry)))
    timed_out ban e = (banned none, rw e (apply_skip_ban_total s turn p.sides now e))
    timed_out pick e =
        let some_left : 0 < length (available_heroes s) =
          omega (arith, length-available_heroes s p distinct, current_turn-lt s turn now) in
        let (id, free, h) = pick_at_random_total s turn r p.sides now e some_left small in
        (picked id, rw e h)

unfoldable pub run_timeouts : ℕ → Rng → ℕ → HeroDraftState → Throws HeroDraftState
run_timeouts zero rng k s = ok s
run_timeouts (suc n) rng k s = apply_timeout s (rng k) >>= run_timeouts n rng (k + 1)

pub current_turn_total :
    (s : HeroDraftState) → s.turn_index < 16 → (turn : HeroDraftTurn) × (current_turn s ≡ some turn)
unfolding current_turn
current_turn_total s h = get_elem?_total hero_draft_sequence s.turn_index h

timeouts_finish :
    (n : ℕ) (rng : Rng) (k : ℕ) (s : HeroDraftState)
    → n + s.turn_index ≡ 16
    → IsPlayed s
    → HasDistinctPool s.pool
    → min_pool_size ≤ length s.pool
    → IsRng rng
    → (s' : HeroDraftState) × (run_timeouts n rng k s ≡ ok s') × IsPlayed s' × (s'.turn_index ≡ 16)
unfolding run_timeouts
timeouts_finish zero rng k s e p distinct large fair = (s, refl, p, omega arith)
timeouts_finish (suc n) rng k s e p distinct large fair =
    let (turn, now) = current_turn_total s (omega arith) in
    let (entry, h) = apply_timeout_total s turn (rng k) p distinct large now (fair k) in
    let p' =
      IsMove-IsPlayed s (after s turn (enter entry)) p
        (apply_timeout-IsMove s (after s turn (enter entry)) (rng k) turn p.sides now h) in
    let (s', run, played, done) =
      timeouts_finish n rng (k + 1) (after s turn (enter entry)) (omega arith) p' distinct large
        fair in
    (s', rw h run, played, done)

-- A draft in progress, with a pool of sixteen different heroes or more, is complete after as many
-- timeouts as turns are left; none of them throws. Then each team has three bans, perhaps skipped,
-- and five picks, and the invariant holds.
pub run_timeouts_complete :
    (rng : Rng) (k : ℕ) (s : HeroDraftState)
    → IsPlayed s
    → HasDistinctPool s.pool
    → min_pool_size ≤ length s.pool
    → IsRng rng
    → (s' : HeroDraftState) × (run_timeouts (16 - s.turn_index) rng k s ≡ ok s')
      × IsPlayed s'
      × (is_hero_draft_complete s' ≡ true)
      × (length s'.teams.0.bans ≡ 3)
      × (length s'.teams.0.picks ≡ 5)
      × (length s'.teams.1.bans ≡ 3)
      × (length s'.teams.1.picks ≡ 5)
unfolding turns_before
run_timeouts_complete rng k s p distinct large fair =
    let (s', run, played, done) =
      timeouts_finish (16 - s.turn_index) rng k s (omega (arith, p.within)) p distinct large fair in
    let full : (kind : HeroDraftActionKind) (side : HeroDraftTeamSide)
        → entries_of kind (team_on side s'.teams) ≡ turns_before kind side 16 =
      λ kind side.
        subst (λ n. entries_of kind (team_on side s'.teams) ≡ turns_before kind side n) done
          (played.entries kind side) in
    (s', run, played, rw done refl, full ban one, full pick one, full ban two, full pick two)
