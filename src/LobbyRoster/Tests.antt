-- ===== src/LobbyRoster/Tests.antt =====
-- A lobby of the game with ten slots: runs of the model, and the theorems at its rosters.
use trueskill_bot.Common.{
  List, some, ◌≡◌, err, false, ok, ℕ, ◌∷◌, [], refl, count_if, ◌≤◌, one_if, arith, not,
}
use trueskill_bot.Game.{wos, two, is_slot_in_profile}
use trueskill_bot.LobbyRoster.Types.{LobbyPlayer, seat_of, slot_occupied, nick_taken}
use trueskill_bot.LobbyRoster.Logic.{
  at_slot, has_nick, assert_slot_in_range, next_empty_slot_on_team, move_player, add_player,
  edit_player_nick, roster_after_leave, parse_team_input,
}
use trueskill_bot.LobbyRoster.Remap.{
  resolve_remap_side, parse_remap_pairs, apply_pair, apply_remap_pairs, resolve_swap_form, classic,
}
use trueskill_bot.LobbyRoster.Search.{IsSearched, next_empty_slot_on_team_lem}
use trueskill_bot.LobbyRoster.Seats.{IsRoster}
use trueskill_bot.LobbyRoster.Commands.{
  RosterCommand, add, remap, leave, edit, run_commands, run_commands-IsRoster,
}
use trueskill_bot.Player.Nick.{codes, normalize_nick, trim, is_empty}

abbrev lower : List ℕ → List ℕ
lower text = text

abbrev ana : List ℕ
ana = codes "ana"

abbrev bob : List ℕ
bob = codes "bob"

abbrev eve : List ℕ
eve = codes "eve"

abbrev lobby : List LobbyPlayer
lobby = seat_of 1 ana ∷ seat_of 6 bob ∷ []

abbrev evening : List RosterCommand
evening =
    add (codes " eve#1234 ") 2
    ∷ add (codes "bob") 3
    ∷ remap (codes "1-6, eve-9")
    ∷ edit 9 (codes "ada")
    ∷ leave (codes "ana")
    ∷ []

after_evening :
    run_commands lower wos lobby evening
    ≡ record (seat_of 1 bob) { locked = some false }
      ∷ record (seat_of 9 (codes "ada")) { locked = some false }
      ∷ []
unfolding run_commands add_player apply_remap_pairs edit_player_nick roster_after_leave
    assert_slot_in_range is_slot_in_profile normalize_nick parse_remap_pairs apply_pair
    resolve_remap_side move_player
after_evening = refl

taken_slot : add_player lower lobby eve 6 wos ≡ err (slot_occupied 6)
unfolding add_player normalize_nick assert_slot_in_range is_slot_in_profile
taken_slot = refl

-- The tag is stripped before the nicks are compared.
taken_nick : add_player lower lobby (codes "bob#77") 2 wos ≡ err (nick_taken bob)
unfolding add_player normalize_nick assert_slot_in_range is_slot_in_profile
taken_nick = refl

team_name : parse_team_input lower (codes " team b ") wos ≡ ok two
unfolding parse_team_input trim
team_name = refl

two_slots : resolve_swap_form (some 2) (some 9) (some (codes "  ")) ≡ ok (classic 2 9)
unfolding resolve_swap_form trim
two_slots = refl

lobby-IsRoster : IsRoster wos lobby
unfolding is_slot_in_profile
lobby-IsRoster = record { seats = one_each; nicks = once }
  where
    one_each : (slot : ℕ) → count_if (at_slot slot) lobby ≤ one_if (is_slot_in_profile wos slot)
    one_each slot = ground arith

    once : (nick : List ℕ) → count_if (has_nick nick) lobby ≤ one_if (not (is_empty nick))
    once [] = omega arith
    once (c ∷ nick) = ground arith

run_commands-IsRoster_example : IsRoster wos (run_commands lower wos lobby evening)
run_commands-IsRoster_example = run_commands-IsRoster lower wos lobby evening lobby-IsRoster

abbrev moved : List LobbyPlayer
moved =
    record (seat_of 6 ana) { locked = some false }
    ∷ record (seat_of 1 bob) { locked = some false }
    ∷ []

next_empty_slot_on_team_lem_example :
    IsSearched lobby wos two (next_empty_slot_on_team lobby wos two)
next_empty_slot_on_team_lem_example = next_empty_slot_on_team_lem lobby wos two
