-- ===== src/HeroDraft/Taken.antt =====
-- The heroes that are taken, and how a move adds to them: `availableHeroes` of
-- apps/bot/src/services/hero-draft/draft-logic.ts.
use trueskill_bot.Common.{
  ℕ, ◌+◌, ◌≤◌, ◌≡◌, refl, arith, Bool, true, false, not, Option, none, some, List, [], ◌∷◌, ◌++◌,
  count_if, count_if-append, count_if-none, count_if-filter, any-filter, one_if, any, ◌==◌, ==_iff,
  subst,
}
use trueskill_bot.HeroDraft.Types.{
  HeroDraftState, HeroDraftTeam, HeroDraftTurn, one, two, HeroDraftTeamSide,
}
use trueskill_bot.HeroDraft.Logic.{
  banned_heroes, taken_by, taken, is_taken, is_available, available_heroes,
}
use trueskill_bot.HeroDraft.Turns.{after, update}
use trueskill_bot.HeroDraft.Moves.{Entry, banned, picked, enter, hero_of}

abbrev pub count_found : (ℕ → Bool) → Option ℕ → ℕ
count_found p none = 0
count_found p (some id) = one_if (p id)

module _ (p : ℕ → Bool) where
  count_if-banned_heroes :
      (bans : List (Option ℕ)) (hero : Option ℕ)
      → count_if p (banned_heroes (bans ++ hero ∷ []))
        ≡ count_if p (banned_heroes bans) + count_found p hero
  count_if-banned_heroes [] none = refl
  count_if-banned_heroes [] (some id) = ground arith
  count_if-banned_heroes (none ∷ bans) hero = count_if-banned_heroes bans hero
  count_if-banned_heroes (some b ∷ bans) hero = omega (arith, count_if-banned_heroes bans hero)

  count_if-enter :
      (entry : Entry) (team : HeroDraftTeam)
      → count_if p (taken_by (enter entry team))
        ≡ count_if p (taken_by team) + count_found p (hero_of entry)
  count_if-enter (banned hero) team = omega (
    arith,
    count_if-append p (banned_heroes (team.bans ++ hero ∷ [])) team.picks,
    count_if-append p (banned_heroes team.bans) team.picks,
    count_if-banned_heroes team.bans hero,
  )
  count_if-enter (picked id) team = omega (
    arith,
    count_if-append p (banned_heroes team.bans) (team.picks ++ id ∷ []),
    count_if-append p (banned_heroes team.bans) team.picks,
    count_if-append p team.picks (id ∷ []),
  )

  count_if-update :
      (side : HeroDraftTeamSide) (entry : Entry) (a b : HeroDraftTeam)
      → count_if p (
          taken_by (update side (enter entry) (a, b)).0
          ++ taken_by (update side (enter entry) (a, b)).1)
        ≡ count_if p (taken_by a ++ taken_by b) + count_found p (hero_of entry)
  count_if-update one entry a b = omega (
    arith,
    count_if-append p (taken_by (enter entry a)) (taken_by b),
    count_if-append p (taken_by a) (taken_by b),
    count_if-enter entry a,
  )
  count_if-update two entry a b = omega (
    arith,
    count_if-append p (taken_by a) (taken_by (enter entry b)),
    count_if-append p (taken_by a) (taken_by b),
    count_if-enter entry b,
  )

  -- A move takes the hero that it enters, and no other.
  pub count_if-taken :
      (s : HeroDraftState) (turn : HeroDraftTurn) (entry : Entry)
      → count_if p (taken (after s turn (enter entry)))
        ≡ count_if p (taken s) + count_found p (hero_of entry)
  unfolding taken
  count_if-taken s turn entry = count_if-update turn.team entry s.teams.0 s.teams.1

-- An available hero stands in the pool and is not taken.
pub available_lem :
    (s : HeroDraftState) (id : ℕ)
    → is_available s id ≡ true
    → (count_if (λ t. t == id) (taken s) ≡ 0) × (1 ≤ count_if (λ hero. hero.object_id == id) s.pool)
unfolding is_available available_heroes is_taken
available_lem s id h =
    let (hero, free, named) =
      any-filter (λ hero. not (any (λ t. t == hero.object_id) (taken s)))
        (λ hero. hero.object_id == id) s.pool h in
    let named_id = (==_iff hero.object_id id).0 named in
    let away : any (λ t. t == id) (taken s) ≡ false =
      subst (λ n. any (λ t. t == n) (taken s) ≡ false) named_id (ground arith) in
    (
      count_if-none (λ t. t == id) (taken s) away,
      count_if-filter (λ hero. hero.object_id == id)
          (λ hero. not (any (λ t. t == hero.object_id) (taken s))) s.pool h,
    )
