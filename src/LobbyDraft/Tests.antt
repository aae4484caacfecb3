-- ===== src/LobbyDraft/Tests.antt =====
-- A lobby of five, four of them linked to Discord: runs of the model, and the theorems at its states.
mod Heroes
use trueskill_bot.LobbyDraft.Resolved.{AreAssigned, resolve_hero_phase_lem}
use trueskill_bot.LobbyDraft.Deadlines.{apply_timeout_progress}
use trueskill_bot.LobbyDraft.Removal.{apply_timeout}
use trueskill_bot.Game.{team_for_slot, udbr}
use trueskill_bot.LobbyDraft.Timeouts.{Advances}
use trueskill_bot.LobbyDraft.Augment.{Serves, try_assign-Serves}
use trueskill_bot.LobbyDraft.Heroes.{hero_ids_for_side, resolve_hero_phase, heroes_of_team}
use trueskill_bot.LobbyDraft.Assigned.{IsAssigned, assign_heroes-IsAssigned}
use trueskill_bot.LobbyDraft.Assign.{
  Power, Wisher, assign_heroes, keys_in, weighted_order, Search, granted, has, try_assign, matching,
  try_wishes, wishes_of, match_all, shuffled_wishes, sort_by_score, scored, insert_by_score,
  leftover,
}
use trueskill_bot.Common.{
  ◌^◌, ◌≤◌, ◌≡◌, refl, arith, Bool, true, false, not, ◌&&◌, List, [], ◌∷◌, String, str_eq, eq_iff,
  any, count_if, none, some, ok, err, Bool-cases, inl, inr, Option, ℕ, ◌*◌, ◌==◌, length, subst,
}
use trueskill_bot.Common.Rng.{Rng, fisher_yates, swap_at, draw}
use trueskill_bot.CaptainDraft.Logic.{captain_index_for_pick}
use trueskill_bot.LobbyDraft.Types.{
  LobbyDraftState, LobbyDraftParticipant, keys_of, initial_lobby_draft_state, stale_action,
  not_in_draft, coin_choice, hero, pick, side, two, TeamId, one, take_first_pick, winners,
  LobbyDraftTeam, losers, HeroAssignment, HeroLuck, contested, random,
}
use trueskill_bot.LobbyDraft.Logic.{
  shuffle, find_participant, participant_by_discord_id, linked_participants, assert_phase,
  voted_count, votes_for, distinct, candidates, insert_by_votes, sort_by_votes, tally_votes,
  open_with, close_vote, close_vote_if_done, set_ballot, cast_vote, choose_coin, picking_team,
  picked, pick_once, auto_last_pick, apply_pick, sided, apply_side,
}
use trueskill_bot.LobbyDraft.Tally.{AreTopTwo, tally_votes_lem}
use trueskill_bot.LobbyDraft.Members.{is_key}
use trueskill_bot.LobbyDraft.Phases.{apply_pick-auto_last_pick}
use trueskill_bot.LobbyDraft.Lifecycle.{
  here, next, run, cast, draft_player, Reach, choose_side, close, take_coin,
}

abbrev linked : String → LobbyDraftParticipant
linked key = record { key = key; nick = key; discord_id = some key }

abbrev lobby : List LobbyDraftParticipant
lobby =
    linked "a"
    ∷ linked "b"
    ∷ linked "c"
    ∷ linked "d"
    ∷ record { key = "e"; nick = "e"; discord_id = none }
    ∷ []

abbrev started : LobbyDraftState
started = initial_lobby_draft_state lobby none

distinct_test : List String → Bool
distinct_test [] = true
distinct_test (x ∷ xs) = not (any (is_key x) xs) && distinct_test xs

absent_of_test :
    (key : String) (xs : List String) → any (is_key key) xs ≡ false → count_if (is_key key) xs ≡ 0
absent_of_test key [] h = refl
absent_of_test key (x ∷ xs) h = ground (arith, absent_of_test key xs)

distinct_of_test :
    (xs : List String) → distinct_test xs ≡ true → (key : String) → count_if (is_key key) xs ≤ 1
unfolding distinct_test
distinct_of_test [] h key = omega arith
distinct_of_test (x ∷ xs) h key = elim (Bool-cases (str_eq x key)) [
  | inl same ↦
      let e = (eq_iff x key).0 same in
      let away : any (is_key x) xs ≡ false = ground arith in
      let none_left = absent_of_test key xs (rw e at away) in rw same (omega arith)
  | inr other ↦ rw other (omega (arith, distinct_of_test xs (ground arith) key))
]

lobby_distinct : (key : String) → count_if (is_key key) (keys_of lobby) ≤ 1
unfolding distinct_test
lobby_distinct = distinct_of_test (keys_of lobby) refl

half : Rng
half k = 2 ^ 52

steps : Unit {0}
unfolding half shuffle fisher_yates swap_at draw find_participant participant_by_discord_id
    linked_participants assert_phase voted_count votes_for distinct candidates insert_by_votes
    sort_by_votes tally_votes open_with close_vote close_vote_if_done set_ballot cast_vote
    choose_coin picking_team picked pick_once auto_last_pick apply_pick sided apply_side
    initial_lobby_draft_state run captain_index_for_pick
steps = tt

abbrev voted : LobbyDraftState
voted = record started { votes = ("a", "c" ∷ "d" ∷ []) ∷ [] }

a_votes : run started (cast "a" ("c" ∷ "d" ∷ "c" ∷ []) half 0) ≡ ok voted
unfolding steps
a_votes = refl

x_votes : run started (cast "x" ("c" ∷ []) half 0) ≡ err not_in_draft
unfolding steps
x_votes = refl

too_early : run started (draft_player "a") ≡ err stale_action
unfolding steps
too_early = refl

captains_voted : tally_votes voted half 0 ≡ ok ("d", "c")
unfolding steps
captains_voted = refl

tally_votes_lem_example : AreTopTwo (votes_for voted) (candidates voted) ("d", "c")
tally_votes_lem_example = tally_votes_lem voted half 0 ("d", "c") captains_voted

abbrev team_of : String → List String → Option TeamId → LobbyDraftTeam
team_of key others chosen = record { captain_key = key; roster = key ∷ others; side = chosen }

abbrev opened : LobbyDraftState
opened = record voted {
  phase = coin_choice;
  teams = some (team_of "c" [] none, team_of "d" [] none);
  pool = "a" ∷ "b" ∷ "e" ∷ [];
}

abbrev coin_chosen : LobbyDraftState
coin_chosen = record opened {
  phase = side;
  first_pick_team = some winners;
  side_chooser_team = some losers;
}

abbrev picking : LobbyDraftState
picking = record coin_chosen {
  phase = pick;
  teams = some (team_of "c" [] (some two), team_of "d" [] (some one));
}

abbrev one_drafted : LobbyDraftState
one_drafted = record picking {
  teams = some (team_of "c" ("e" ∷ []) (some two), team_of "d" [] (some one));
  pool = "a" ∷ "b" ∷ [];
  pick_index = 1;
}

-- After the second pick the last player goes to the captain on the clock.
abbrev all_drafted : LobbyDraftState
all_drafted = record one_drafted {
  phase = hero;
  teams = some (team_of "c" ("e" ∷ []) (some two), team_of "d" ("a" ∷ "b" ∷ []) (some one));
  pool = [];
  pick_index = 3;
}

voted_open : run voted (close half 0) ≡ ok opened
unfolding steps
voted_open = refl

opened_coin : run opened (take_coin take_first_pick) ≡ ok coin_chosen
unfolding steps
opened_coin = refl

coin_side : run coin_chosen (choose_side one) ≡ ok picking
unfolding steps
coin_side = refl

picking_e : run picking (draft_player "e") ≡ ok one_drafted
unfolding steps
picking_e = refl

picking_a : run one_drafted (draft_player "a") ≡ ok all_drafted
unfolding steps
picking_a = refl

one_drafted-Reach : Reach started one_drafted
one_drafted-Reach =
    next
      (next
        (next
          (next (next here (cast "a" ("c" ∷ "d" ∷ "c" ∷ []) half 0) voted a_votes) (close half 0)
            opened voted_open)
          (take_coin take_first_pick) coin_chosen opened_coin)
        (choose_side one) picking coin_side)
      (draft_player "e") one_drafted picking_e

all_drafted-Reach : Reach started all_drafted
all_drafted-Reach = next one_drafted-Reach (draft_player "a") all_drafted picking_a

picking_a_directly : apply_pick one_drafted "a" ≡ ok all_drafted
unfolding steps
picking_a_directly = refl

apply_pick-auto_last_pick_example : auto_last_pick all_drafted ≡ ok all_drafted
apply_pick-auto_last_pick_example =
    apply_pick-auto_last_pick one_drafted all_drafted "a" picking_a_directly
