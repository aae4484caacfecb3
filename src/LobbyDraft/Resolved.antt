-- ===== src/LobbyDraft/Resolved.antt =====
-- The end of the choice of heroes: `resolveHeroPhase` of
-- apps/bot/src/services/lobby-draft/draft-logic.ts.
use trueskill_bot.Common.{
  ℕ, zero, suc, ◌+◌, ◌≤◌, ◌≡◌, refl, arith, Bool, true, false, ◌==◌, ◌&&◌, leb, Option, none, some,
  List, [], ◌∷◌, ◌++◌, String, count_if, one_if, count_if-append, length, ap, ok,
  count_if-filter_le, ◌∙◌, require, ◌>>=◌, guard, ◌>>◌, not, is_some,
}
use trueskill_bot.Common.Rng.{Rng}
use trueskill_bot.Game.{GameProfile, TeamId}
use trueskill_bot.LobbyDraft.Types.{
  LobbyDraftState, LobbyDraftTeam, HeroAssignment, hero, Throws, stale_action,
}
use trueskill_bot.LobbyDraft.Logic.{assert_phase, same_phase}
use trueskill_bot.LobbyDraft.Assign.{Power, keys_in, assign_heroes}
use trueskill_bot.LobbyDraft.Heroes.{
  slots_up_to, hero_ids_for_side, wishers_of, heroes_of_team, resolve_hero_phase, calls_of_assign,
  resolve_teams,
}
use trueskill_bot.LobbyDraft.Assigned.{IsAssigned, assign_heroes-IsAssigned}
use trueskill_bot.LobbyDraft.Members.{is_key}
use trueskill_bot.LobbyDraft.Partition.{IsPartition, members, rosters}

count_if-slots_up_to :
    (n h : ℕ) → count_if (λ x. x == h) (slots_up_to n) ≡ one_if (leb 1 h && leb h n)
count_if-slots_up_to zero h = ground arith
count_if-slots_up_to (suc n) h =
    let ih = count_if-slots_up_to n h in
    let last = count_if-append (λ x. x == h) (slots_up_to n) (suc n ∷ []) in ground arith

one_if_le : (b : Bool) → one_if b ≤ 1
one_if_le true = omega arith
one_if_le false = omega arith

heroes_once :
    (profile : GameProfile) (team : LobbyDraftTeam) (side : Option TeamId) (h : ℕ)
    → team.side ≡ side
    → count_if (λ x. x == h) (heroes_of_team profile team) ≤ 1
unfolding hero_ids_for_side
heroes_once profile team none h e = rw e (omega arith)
heroes_once profile team (some t) h e = rw e (
    omega (
      arith,
      count_if-filter_le (λ x. x == h) _ (slots_up_to profile.slot_count),
      count_if-slots_up_to profile.slot_count h,
      one_if_le (leb 1 h && leb h profile.slot_count),
    ))

keys_in-wishers_of :
    (s : LobbyDraftState) (roster : List String) → keys_in (wishers_of s roster) ≡ roster
unfolding wishers_of
keys_in-wishers_of s [] = refl
keys_in-wishers_of s (key ∷ roster) = ap (λ keys. key ∷ keys) (keys_in-wishers_of s roster)

length-wishers_of :
    (s : LobbyDraftState) (roster : List String) → length (wishers_of s roster) ≡ length roster
unfolding wishers_of
length-wishers_of s [] = refl
length-wishers_of s (key ∷ roster) = ap suc (length-wishers_of s roster)

-- The assignments of the first team, followed by those of the second.
pub record AreAssigned (s : LobbyDraftState) (profile : GameProfile) (a b : LobbyDraftTeam)
    (result : List (String × HeroAssignment)) : Type 0 where
  pub first : List (String × HeroAssignment)
  pub second : List (String × HeroAssignment)
  pub whole : result ≡ first ++ second
  pub first_given : IsAssigned (wishers_of s a.roster) (heroes_of_team profile a) first
  pub second_given : IsAssigned (wishers_of s b.roster) (heroes_of_team profile b) second

roster_once :
    (s : LobbyDraftState) (a b : LobbyDraftTeam) (key : String)
    → IsPartition s
    → s.teams ≡ some (a, b)
    → count_if (is_key key) a.roster + count_if (is_key key) b.roster ≤ 1
unfolding members
roster_once s a b key p drafted =
    let all = ap (λ t. count_if (is_key key) (rosters t)) drafted in
    omega (
      arith,
      all,
      p.once key,
      p.same (is_key key),
      count_if-append (is_key key) s.pool (rosters s.teams),
      count_if-append (is_key key) a.roster b.roster,
    )

team-IsAssigned :
    (power : Power) (s : LobbyDraftState) (profile : GameProfile) (team : LobbyDraftTeam)
    (rng : Rng) (k : ℕ)
    → ((key : String) → count_if (is_key key) team.roster ≤ 1)
    → length team.roster ≤ length (heroes_of_team profile team)
    → (result : List (String × HeroAssignment)) × (assign_heroes power
          (wishers_of s team.roster)
          (heroes_of_team profile team)
          rng
          k
        ≡ ok result)
      × IsAssigned (wishers_of s team.roster) (heroes_of_team profile team) result
team-IsAssigned power s profile team rng k once fits =
    assign_heroes-IsAssigned power (wishers_of s team.roster) (heroes_of_team profile team) rng k
      (λ key.
        let same = ap (count_if (is_key key)) (keys_in-wishers_of s team.roster) in
        omega (arith, same, once key))
      (λ h. heroes_once profile team team.side h refl)
      (omega (arith, fits, length-wishers_of s team.roster))

bind_ok :
    {A : Type 0} (x : Throws A) (y : A) (f : A → Throws LobbyDraftState)
    → x ≡ ok y
    → (x >>= f) ≡ f y
bind_ok x y f e = ap (λ z. z >>= f) e

resolve_guards :
    (power : Power) (s : LobbyDraftState) (profile : GameProfile) (rng : Rng) (k : ℕ)
    (teams : LobbyDraftTeam × LobbyDraftTeam)
    → s.phase ≡ hero
    → s.hero_result ≡ none
    → s.teams ≡ some teams
    → resolve_hero_phase power s profile rng k ≡ resolve_teams power s profile rng k teams
unfolding resolve_hero_phase assert_phase
resolve_guards power s profile rng k teams phase fresh drafted =
    let rest : Option (LobbyDraftTeam × LobbyDraftTeam) → Throws LobbyDraftState =
      λ t. require t stale_action >>= resolve_teams power s profile rng k in
    ap
      (λ ph.
        guard (same_phase ph hero) stale_action
        >> (guard (not (is_some s.hero_result)) stale_action >> rest s.teams))
      phase
    ∙ ap (λ r. guard (not (is_some r)) stale_action >> rest s.teams) fresh
    ∙ ap rest drafted

-- In the hero phase, where nobody is in two places and each side has as many heroes as players, the
-- heroes are assigned without an error: each player of a team has one hero of the team's side, and
-- no two players of the team have the same.
pub resolve_hero_phase_lem :
    (power : Power) (s : LobbyDraftState) (profile : GameProfile) (rng : Rng) (k : ℕ)
    (a b : LobbyDraftTeam)
    → IsPartition s
    → s.phase ≡ hero
    → s.hero_result ≡ none
    → s.teams ≡ some (a, b)
    → length a.roster ≤ length (heroes_of_team profile a)
    → length b.roster ≤ length (heroes_of_team profile b)
    → (result : List (String × HeroAssignment)) × (resolve_hero_phase power s profile rng k
        ≡ ok (record s { hero_result = some result }))
      × AreAssigned s profile a b result
unfolding resolve_hero_phase assert_phase
resolve_hero_phase_lem power s profile rng k a b p phase fresh drafted fits_a fits_b =
    let (first, e1, first_given) =
      team-IsAssigned power s profile a rng k
        (λ key. omega (arith, roster_once s a b key p drafted)) fits_a in
    let (second, e2, second_given) =
      team-IsAssigned power s profile b rng
        (k + calls_of_assign power (wishers_of s a.roster) (heroes_of_team profile a) rng k)
        (λ key. omega (arith, roster_once s a b key p drafted)) fits_b in
    (
      first ++ second,
      resolve_guards power s profile rng k (a, b) phase fresh drafted
          ∙ bind_ok _ first _ e1
          ∙ bind_ok _ second _ e2,
      record {
        first = first;
        second = second;
        whole = refl;
        first_given = first_given;
        second_given = second_given;
      },
    )
