-- ===== src/LobbyDraft/Tests/Heroes.antt =====
-- The choice of heroes in that lobby, its deadlines, and players who are replaced or removed.
use trueskill_bot.LobbyDraft.Resolved.{AreAssigned, resolve_hero_phase_lem}
use trueskill_bot.LobbyDraft.Deadlines.{apply_timeout_progress}
use trueskill_bot.LobbyDraft.Removal.{apply_timeout}
use trueskill_bot.Game.{team_for_slot, udbr}
use trueskill_bot.LobbyDraft.Timeouts.{Advances}
use trueskill_bot.LobbyDraft.Augment.{Serves, try_assign-Serves}
use trueskill_bot.LobbyDraft.Heroes.{hero_ids_for_side, resolve_hero_phase, heroes_of_team}
use trueskill_bot.LobbyDraft.Assigned.{IsAssigned, assign_heroes-IsAssigned}
use trueskill_bot.LobbyDraft.Assign.{
  Power, Wisher, assign_heroes, keys_in, weighted_order, Search, granted, has, try_assign, matching,
  try_wishes, wishes_of, match_all, shuffled_wishes, sort_by_score, scored, insert_by_score,
  leftover,
}
use trueskill_bot.Common.{
  ◌≤◌, ◌≡◌, refl, arith, true, List, [], ◌∷◌, String, count_if, none, some, ok, Option, ℕ, ◌*◌,
  ◌==◌, length, subst,
}
use trueskill_bot.LobbyDraft.Types.{
  LobbyDraftState, initial_lobby_draft_state, hero, two, one, LobbyDraftTeam, HeroAssignment,
  HeroLuck, contested, random,
}
use trueskill_bot.LobbyDraft.Members.{is_key}
use trueskill_bot.LobbyDraft.Lifecycle.{started_draft_IsPartition, started_draft_IsInPhase}
use trueskill_bot.LobbyDraft.Tests.{
  half, steps, distinct_test, distinct_of_test, lobby, lobby_distinct, all_drafted, one_drafted,
  all_drafted-Reach, team_of, linked,
}

-- A player without wishes, and two who want the same hero.
abbrev wishers : List Wisher
wishers =
    record { key = "a"; wishes = 1 ∷ []; weight = none }
    ∷ record { key = "b"; wishes = 1 ∷ 9 ∷ []; weight = some 3 }
    ∷ record { key = "c"; wishes = []; weight = none }
    ∷ []

abbrev three_heroes : List ℕ
three_heroes = 1 ∷ 2 ∷ 3 ∷ []

by_weight : Power
by_weight r w = r * w

abbrev hero_of : ℕ → HeroLuck → HeroAssignment
hero_of h luck = record { hero_id = h; how = luck }

-- The wish with the greater weight goes first.
wishers_assigned :
    assign_heroes by_weight wishers three_heroes half 0
    ≡ ok (("b", hero_of 1 contested) ∷ ("a", hero_of 2 random) ∷ ("c", hero_of 3 random) ∷ [])
unfolding steps by_weight assign_heroes weighted_order granted matching match_all shuffled_wishes
    sort_by_score scored insert_by_score try_assign try_wishes leftover
wishers_assigned = refl

three_heroes_once : (h : ℕ) → count_if (λ x. x == h) three_heroes ≤ 1
three_heroes_once h = ground arith

wishers_once : (key : String) → count_if (is_key key) (keys_in wishers) ≤ 1
unfolding distinct_test
wishers_once = distinct_of_test (keys_in wishers) refl

assign_heroes-IsAssigned_example :
    (result : List (String × HeroAssignment)) × (assign_heroes by_weight wishers three_heroes half 0
      ≡ ok result)
    × IsAssigned wishers three_heroes result
assign_heroes-IsAssigned_example =
    assign_heroes-IsAssigned by_weight wishers three_heroes half 0 wishers_once three_heroes_once
      (omega arith)

-- Here "b" has the hero that "a" wants, and can take another one.
abbrev two_wishers : List Wisher
two_wishers =
    record { key = "a"; wishes = 1 ∷ []; weight = none }
    ∷ record { key = "b"; wishes = 1 ∷ 2 ∷ []; weight = none }
    ∷ []

two_within :
    (key : String) (h : ℕ) → has h (wishes_of two_wishers key) ≡ true → has h three_heroes ≡ true
two_within key h e = ground arith

abbrev b_owns : Search
b_owns = record { seen = []; owners = (1, "b") ∷ [] }

b_moves :
    try_assign (wishes_of two_wishers) 4 "a" b_owns
    ≡ some (true, record { seen = 2 ∷ 1 ∷ []; owners = (1, "a") ∷ (2, "b") ∷ [] })
unfolding try_assign try_wishes
b_moves = refl

try_assign-Serves_example :
    Serves (wishes_of two_wishers) "a" b_owns (try_assign (wishes_of two_wishers) 4 "a" b_owns)
try_assign-Serves_example =
    try_assign-Serves (wishes_of two_wishers) three_heroes two_within 4 "a" b_owns (omega arith)

abbrev Fit : Option (LobbyDraftTeam × LobbyDraftTeam) → Type 0
Fit none = Unit
Fit (some (a, b)) =
    (length a.roster ≤ length (heroes_of_team udbr a))
    × (length b.roster ≤ length (heroes_of_team udbr b))

all_drafted_fits :
    (a b : LobbyDraftTeam)
    → all_drafted.teams ≡ some (a, b)
    → (length a.roster ≤ length (heroes_of_team udbr a))
      × (length b.roster ≤ length (heroes_of_team udbr b))
unfolding hero_ids_for_side team_for_slot
all_drafted_fits a b e = subst Fit e (omega arith, omega arith)

resolve_hero_phase_lem_example :
    (result : List (String × HeroAssignment)) × (resolve_hero_phase by_weight all_drafted udbr half
        0
      ≡ ok (record all_drafted { hero_result = some result }))
    × AreAssigned all_drafted udbr
        (team_of "c" ("e" ∷ []) (some two))
        (team_of "d" ("a" ∷ "b" ∷ []) (some one))
        result
unfolding initial_lobby_draft_state
resolve_hero_phase_lem_example =
    resolve_hero_phase_lem by_weight all_drafted udbr half 0 (team_of "c" ("e" ∷ []) (some two))
      (team_of "d" ("a" ∷ "b" ∷ []) (some one))
      (started_draft_IsPartition lobby none {s = all_drafted} lobby_distinct all_drafted-Reach) refl
      refl refl
      (all_drafted_fits (team_of "c" ("e" ∷ []) (some two))
        (team_of "d" ("a" ∷ "b" ∷ []) (some one)) refl).0
      (all_drafted_fits (team_of "c" ("e" ∷ []) (some two))
        (team_of "d" ("a" ∷ "b" ∷ []) (some one)) refl).1

apply_timeout_progress_example : Advances 1 (apply_timeout by_weight all_drafted udbr half 0)
unfolding initial_lobby_draft_state
apply_timeout_progress_example =
    apply_timeout_progress by_weight all_drafted udbr half 0
      (started_draft_IsPartition lobby none {s = all_drafted} lobby_distinct all_drafted-Reach)
      (started_draft_IsInPhase lobby none {s = all_drafted} all_drafted-Reach) refl
      (λ voting. absurd (ground arith)) all_drafted_fits

abbrev f_for_d : LobbyDraftState
f_for_d = record one_drafted {
  participants =
      linked "a"
      ∷ linked "b"
      ∷ linked "c"
      ∷ linked "f"
      ∷ record { key = "e"; nick = "e"; discord_id = none }
      ∷ [];
  votes = ("a", "c" ∷ []) ∷ [];
  teams = some (team_of "c" ("e" ∷ []) (some two), team_of "f" [] (some one));
}

-- The captain "d" leaves: "a" leads instead, and "b" is drafted as the last player.
abbrev without_d : LobbyDraftState
without_d = record one_drafted {
  phase = hero;
  participants =
      linked "a"
      ∷ linked "b"
      ∷ linked "c"
      ∷ record { key = "e"; nick = "e"; discord_id = none }
      ∷ [];
  votes = ("a", "c" ∷ []) ∷ [];
  teams = some (team_of "c" ("e" ∷ []) (some two), team_of "a" ("b" ∷ []) (some one));
  pool = [];
  pick_index = 2;
}
