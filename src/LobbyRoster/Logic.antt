-- ===== src/LobbyRoster/Logic.antt =====
-- The operations on the roster of a lobby: apps/bot/src/services/lobby/roster.ts. `to_lower` is the
-- language's `toLowerCase`.
use mathlib.Core.Option
use trueskill_bot.Common.{
  Bool, List, String, ℕ, Option, err, find?, guard, if◌then◌else◌, not, require, true, ◌==◌, ◌>>◌,
  ◌||◌, any, false, get_or_else, none, ok, some, ◌>>=◌, [], map, suc, ◌&&◌, ◌++◌, ◌∷◌, ◌+◌, zero,
  is_some, filter, Result,
}
use trueskill_bot.Game.{GameProfile, TeamId, one, two, is_slot_in_profile, team_for_slot}
use trueskill_bot.LobbyRoster.Types.{
  LobbyPlayer, Throws, invalid_slot, enter_a_team, team_is_full, empty_nick, nothing_to_remove,
  slot_occupied, slot_empty, slot_occupied_by, nick_taken, nick_unknown, same_slot, no_longer_here,
  not_in_lobby, already_in_slot, leave_first, seat_of,
}
use trueskill_bot.Player.Nick.{codes, same_text, is_empty, trim, normalize_nick}

abbrev pub at_slot : ℕ → LobbyPlayer → Bool
at_slot slot player = player.slot == slot

abbrev pub has_nick : List ℕ → LobbyPlayer → Bool
has_nick nick player = same_text player.nick nick

unfoldable pub assert_slot_in_range : ℕ → GameProfile → Throws (Unit {0})
assert_slot_in_range slot profile = guard (is_slot_in_profile profile slot) invalid_slot

abbrev pub same_team : TeamId → TeamId → Bool
same_team one one = true
same_team two two = true
same_team one two = false
same_team two one = false

abbrev on_team : TeamId → Result ℕ TeamId → Bool
on_team team (err outside) = false
on_team team (ok side) = same_team side team

-- The test of one slot in the loop of `nextEmptySlotOnTeam`.
abbrev pub is_open_for : List LobbyPlayer → GameProfile → TeamId → ℕ → Bool
is_open_for players profile team slot =
    on_team team (team_for_slot profile slot) && not (any (at_slot slot) players)

-- The loop from a slot on, with the number of slots that are left.
unfoldable pub first_open : (ℕ → Bool) → (slot remaining : ℕ) → Option ℕ
first_open test slot zero = none
first_open test slot (suc k) =
    let rest = first_open test (slot + 1) k in if test slot then some slot else rest

unfoldable pub next_empty_slot_on_team : List LobbyPlayer → GameProfile → TeamId → Throws ℕ
unfolding first_open
next_empty_slot_on_team players profile team =
    require (first_open (is_open_for players profile team) 1 profile.slot_count) team_is_full

abbrev pub not_at : ℕ → LobbyPlayer → Bool
not_at slot player = not (at_slot slot player)

-- `{ ...player, slot: other, locked: false }` for the two players of a swap.
abbrev pub reseat : ℕ → ℕ → LobbyPlayer → LobbyPlayer
reseat a b player =
    if player.slot == a
    then record player { slot = b; locked = some false }
    else if player.slot == b
    then record player { slot = a; locked = some false }
    else player

abbrev pub send : ℕ → ℕ → LobbyPlayer → LobbyPlayer
send a b player =
    if player.slot == a then record player { slot = b; locked = some false } else player

abbrev pub rename_at : ℕ → List ℕ → LobbyPlayer → LobbyPlayer
rename_at slot nick player = if player.slot == slot then record player { nick = nick } else player

unfoldable pub swap_players :
    List LobbyPlayer → (slot_a slot_b : ℕ) → GameProfile → Throws (List LobbyPlayer)
swap_players players a b profile =
    assert_slot_in_range a profile
    >> assert_slot_in_range b profile
    >> guard (not (a == b)) same_slot
    >> guard (any (at_slot a) players) (slot_empty a)
    >> guard (any (at_slot b) players) (slot_empty b)
    >> ok (map (reseat a b) players)

unfoldable pub move_player :
    List LobbyPlayer → (from_slot to_slot : ℕ) → GameProfile → Throws (List LobbyPlayer)
unfolding swap_players
move_player players a b profile =
    let swapped = swap_players players a b profile in
    assert_slot_in_range a profile
    >> assert_slot_in_range b profile
    >> guard (not (a == b)) same_slot
    >> guard (any (at_slot a) players) (slot_empty a)
    >> (if any (at_slot b) players then swapped else ok (map (send a b) players))

-- The texts for a team that are tried in turn.
abbrev stands_for : String → String → String → String → List ℕ → Bool
stands_for a b c d text =
    same_text text (codes a)
    || same_text text (codes b)
    || same_text text (codes c)
    || same_text text (codes d)

module _ (to_lower : List ℕ → List ℕ) where
  unfoldable pub parse_team_input : List ℕ → GameProfile → Throws TeamId
  parse_team_input raw profile =
      let trimmed = to_lower (trim raw) in
      guard (not (is_empty trimmed)) enter_a_team
      >> (if stands_for "1" "a" "team a" "team 1" trimmed
          then ok one
          else if stands_for "2" "b" "team b" "team 2" trimmed
          then ok two
          else if same_text trimmed (to_lower (profile.team_names one))
          then ok one
          else if same_text trimmed (to_lower (profile.team_names two))
          then ok two
          else err enter_a_team)

  unfoldable pub add_player :
      List LobbyPlayer → List ℕ → ℕ → GameProfile → Throws (List LobbyPlayer)
  add_player players nick_raw slot profile =
      let nick = normalize_nick to_lower nick_raw in
      guard (not (is_empty nick)) empty_nick
      >> assert_slot_in_range slot profile
      >> guard (not (any (at_slot slot) players)) (slot_occupied slot)
      >> guard (not (any (has_nick nick) players)) (nick_taken nick)
      >> ok (players ++ seat_of slot nick ∷ [])

  -- `target` of `removePlayer`, once a nick or a slot is given.
  unfoldable pub removal_target :
      List LobbyPlayer → (nick_raw : List ℕ) → Option ℕ → GameProfile → Throws LobbyPlayer
  removal_target players nick_raw (some slot) profile =
      assert_slot_in_range slot profile
      >> require (find? (at_slot slot) players) (slot_empty slot)
      >>= λ target.
          guard (is_empty nick_raw || has_nick (normalize_nick to_lower nick_raw) target)
            (slot_occupied_by slot target.nick)
          >> ok target
  removal_target players nick_raw none profile =
      let nick = normalize_nick to_lower nick_raw in
      require (find? (has_nick nick) players) (nick_unknown nick)

  unfoldable pub remove_player :
      List LobbyPlayer
      → (nick : Option (List ℕ)) (slot : Option ℕ) → GameProfile
      → Throws (List LobbyPlayer)
  unfolding removal_target
  remove_player players nick slot profile =
      let nick_raw = get_or_else [] (Option.map trim nick) in
      guard (not (is_empty nick_raw) || is_some slot) nothing_to_remove
      >> removal_target players nick_raw slot profile
      >>= λ target. ok (filter (not_at target.slot) players)

  unfoldable pub edit_player_nick :
      List LobbyPlayer → ℕ → List ℕ → GameProfile → Throws (List LobbyPlayer)
  edit_player_nick players slot nick_raw profile =
      let nick = normalize_nick to_lower nick_raw in
      assert_slot_in_range slot profile
      >> guard (not (is_empty nick)) empty_nick
      >> guard (any (at_slot slot) players) no_longer_here
      >> guard (not (any (λ player. has_nick nick player && not_at slot player) players))
          (nick_taken nick)
      >> ok (map (rename_at slot nick) players)

  unfoldable pub roster_after_claim :
      List LobbyPlayer → List ℕ → ℕ → GameProfile → Throws (List LobbyPlayer)
  unfolding add_player
  roster_after_claim players nick_raw slot profile =
      let added = add_player players nick_raw slot profile in
      elim (find? (has_nick (normalize_nick to_lower nick_raw)) players) [
        | some existing ↦
            err (if existing.slot == slot then already_in_slot slot else leave_first existing.slot)
        | none ↦ elim (find? (at_slot slot) players) [
          | some occupant ↦ err (slot_occupied_by slot occupant.nick)
          | none ↦ added
        ]
      ]

  unfoldable pub roster_after_leave :
      List LobbyPlayer → List ℕ → GameProfile → Throws (List LobbyPlayer)
  unfolding remove_player
  roster_after_leave players nick_raw profile =
      let nick = normalize_nick to_lower nick_raw in
      require (find? (has_nick nick) players) not_in_lobby >>= λ existing.
      remove_player players (some nick) none profile
