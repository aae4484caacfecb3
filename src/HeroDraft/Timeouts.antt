-- ===== src/HeroDraft/Timeouts.antt =====
-- A hero draft that nobody answers ends by its timeouts alone: `applyTimeout` and
-- HERO_DRAFT_MIN_POOL_SIZE of apps/bot/src/services/hero-draft.
use trueskill_bot.Common.{
  ℕ, ◌+◌, ◌≤◌, ◌<◌, ◌≡◌, refl, arith, true, Option, none, some, ok, List, [], ◌∷◌, count_if, one_if,
  ◌==◌, any, length, length-append, length-filter, take, length-take_le, get_elem?, get_elem?_total,
  any-get_elem?, ◌&&◌, count_if-or, count_if_congr, count_if-false,
}
use trueskill_bot.Common.Rng.{draw, draw-lt, unit}
use trueskill_bot.HeroDraft.Types.{
  HeroDraftActionKind, ban, pick, HeroDraftTeamSide, one, two, HeroDraftState, HeroDraftTeam,
  HeroDraftTurn, HeroPoolEntry, hero_draft_sequence, same_kind, same_side,
}
use trueskill_bot.HeroDraft.Logic.{
  taken, taken_by, banned_heroes, current_turn, is_available, is_taken, available_heroes,
  pick_at_random, add_pick,
}
use trueskill_bot.HeroDraft.Turns.{HasSides, after, apply_pick_total}
use trueskill_bot.HeroDraft.Played.{IsPlayed, turns_before, is_turn, entries_of}

length-banned_heroes : (bans : List (Option ℕ)) → length (banned_heroes bans) ≤ length bans
length-banned_heroes [] = omega arith
length-banned_heroes (none ∷ bans) = omega (arith, length-banned_heroes bans)
length-banned_heroes (some _ ∷ bans) = omega (arith, length-banned_heroes bans)

length-taken_by :
    (team : HeroDraftTeam) → length (taken_by team) ≤ entries_of ban team + entries_of pick team
length-taken_by team =
    omega
      (arith, length-append (banned_heroes team.bans) team.picks, length-banned_heroes team.bans)

one_turn :
    (kind : HeroDraftActionKind) (side : HeroDraftTeamSide)
    → one_if (same_kind kind ban && same_side side one)
        + one_if (same_kind kind pick && same_side side one)
        + one_if (same_kind kind ban && same_side side two)
        + one_if (same_kind kind pick && same_side side two)
      ≡ 1
one_turn ban one = refl
one_turn ban two = refl
one_turn pick one = refl
one_turn pick two = refl

-- Every turn is a ban or a pick of one of the two teams.
count_turns :
    (turns : List HeroDraftTurn)
    → count_if (is_turn ban one) turns
        + count_if (is_turn pick one) turns
        + count_if (is_turn ban two) turns
        + count_if (is_turn pick two) turns
      ≡ length turns
count_turns [] = refl
count_turns (turn ∷ turns) = omega (arith, one_turn turn.kind turn.team, count_turns turns)

turns_before_total :
    (n : ℕ)
    → n ≤ 16
    → turns_before ban one n
        + turns_before pick one n
        + turns_before ban two n
        + turns_before pick two n
      ≡ n
unfolding turns_before
turns_before_total n h =
    omega (arith, count_turns (take n hero_draft_sequence), length-take_le n hero_draft_sequence h)

-- No more heroes are taken than turns were.
pub length-taken : (s : HeroDraftState) → IsPlayed s → length (taken s) ≤ s.turn_index
unfolding taken
length-taken s p = omega (
  arith,
  length-append (taken_by s.teams.0) (taken_by s.teams.1),
  length-taken_by s.teams.0,
  length-taken_by s.teams.1,
  p.entries ban one,
  p.entries pick one,
  p.entries ban two,
  p.entries pick two,
  turns_before_total s.turn_index p.within,
)

unfoldable pub HasDistinctPool : List HeroPoolEntry → Type 0
HasDistinctPool pool = (id : ℕ) → count_if (λ hero. hero.object_id == id) pool ≤ 1

-- So many heroes take at most as many out of the pool.
count_if_taken_le :
    (pool : List HeroPoolEntry) (heroes : List ℕ)
    → HasDistinctPool pool
    → count_if (λ hero. any (λ t. t == hero.object_id) heroes) pool ≤ length heroes
unfolding HasDistinctPool
count_if_taken_le pool [] distinct = omega (arith, count_if-false pool)
count_if_taken_le pool (t ∷ heroes) distinct = omega (
  arith,
  distinct t,
  count_if-or (λ hero. t == hero.object_id) (λ hero. any (λ u. u == hero.object_id) heroes) pool,
  count_if_congr (λ hero. t == hero.object_id) (λ hero. hero.object_id == t) (λ hero. ground arith)
      pool,
  count_if_taken_le pool heroes distinct,
)

pub length-available_heroes :
    (s : HeroDraftState)
    → IsPlayed s
    → HasDistinctPool s.pool
    → length s.pool ≤ length (available_heroes s) + s.turn_index
unfolding available_heroes is_taken
length-available_heroes s p distinct = omega (
  arith,
  length-filter (λ hero. any (λ t. t == hero.object_id) (taken s)) s.pool,
  count_if_taken_le s.pool (taken s) distinct,
  length-taken s p,
)

-- The hero at a place of the list of available heroes is available.
available_at :
    (s : HeroDraftState) (i : ℕ) (hero : HeroPoolEntry)
    → get_elem? (available_heroes s) i ≡ some hero
    → is_available s hero.object_id ≡ true
unfolding is_available
available_at s i hero found =
    any-get_elem? (λ h. h.object_id == hero.object_id) (available_heroes s) i found (ground arith)

-- On a pick turn a timeout picks, if a hero is left.
pub pick_at_random_total :
    (s : HeroDraftState) (turn : HeroDraftTurn) (r : ℕ)
    → HasSides s
    → current_turn s ≡ some turn
    → turn.kind ≡ pick
    → 0 < length (available_heroes s)
    → r < unit
    → (id : ℕ) × (is_available s id ≡ true) × (pick_at_random s r ≡ ok (after s turn (add_pick id)))
unfolding pick_at_random
pick_at_random_total s turn r sides now kind some_left small =
    let (hero, found) =
      get_elem?_total (available_heroes s) (draw r (length (available_heroes s)))
        (draw-lt r (length (available_heroes s)) small some_left) in
    let free = available_at s (draw r (length (available_heroes s))) hero found in
    let picked_it = apply_pick_total s turn hero.object_id sides now kind free in
    (hero.object_id, free, ground arith)
