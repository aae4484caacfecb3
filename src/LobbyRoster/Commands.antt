-- ===== src/LobbyRoster/Commands.antt =====
-- The commands on the roster of a lobby, in any order: the operations of roster.ts and remap.ts as
-- apps/bot/src/services/lobby/actions.ts calls them. What throws leaves the roster as it is.
use trueskill_bot.Common.{
  List, ℕ, Option, ok, ◌∷◌, ◌≡◌, Result-cases, [], err, subst, inl, arith, inr,
}
use trueskill_bot.Game.{GameProfile}
use trueskill_bot.LobbyRoster.Types.{LobbyPlayer, Throws}
use trueskill_bot.LobbyRoster.Logic.{
  swap_players, move_player, add_player, remove_player, edit_player_nick, roster_after_claim,
  roster_after_leave,
}
use trueskill_bot.LobbyRoster.Remap.{
  RemapPair, resolve_remap_side, parse_remap_pairs, apply_pair, apply_each, apply_remap_pairs,
}
use trueskill_bot.LobbyRoster.Accepted.{
  IsTrade, swap_players-IsTrade, move_player-IsTrade, add_player-IsArrival,
  roster_after_claim-IsArrival, edit_player_nick-IsRenaming, remove_player-IsDeparture,
  roster_after_leave-IsDeparture,
}
use trueskill_bot.LobbyRoster.Seats.{
  IsRoster, IsTrade-IsRoster, IsArrival-IsRoster, IsDeparture-IsRoster, IsRenaming-IsRoster,
}

pub data RosterCommand : Type 0 where
  add claim : (nick : List ℕ) (slot : ℕ) → RosterCommand
  remove : (nick : Option (List ℕ)) (slot : Option ℕ) → RosterCommand
  leave : (nick : List ℕ) → RosterCommand
  move swap : (from_slot to_slot : ℕ) → RosterCommand
  remap : (pairs : List ℕ) → RosterCommand
  edit : (slot : ℕ) (nick : List ℕ) → RosterCommand

module _ (to_lower : List ℕ → List ℕ) (profile : GameProfile) where
  unfoldable pub run_command : List LobbyPlayer → RosterCommand → Throws (List LobbyPlayer)
  run_command r (add nick slot) = add_player to_lower r nick slot profile
  run_command r (claim nick slot) = roster_after_claim to_lower r nick slot profile
  run_command r (remove nick slot) = remove_player to_lower r nick slot profile
  run_command r (leave nick) = roster_after_leave to_lower r nick profile
  run_command r (move a b) = move_player r a b profile
  run_command r (swap a b) = swap_players r a b profile
  run_command r (remap text) = apply_remap_pairs to_lower r text profile
  run_command r (edit slot nick) = edit_player_nick to_lower r slot nick profile

  abbrev pub outcome : List LobbyPlayer → Throws (List LobbyPlayer) → List LobbyPlayer
  outcome r (ok r') = r'
  outcome r (err thrown) = r

  -- The roster after commands that are accepted or refused.
  unfoldable pub run_commands : List LobbyPlayer → List RosterCommand → List LobbyPlayer
  unfolding run_command
  run_commands r [] = r
  run_commands r (command ∷ rest) = run_commands (outcome r (run_command r command)) rest

  -- One pair is one move.
  pub apply_pair-IsTrade :
      (r r' : List LobbyPlayer) (pair : RemapPair)
      → apply_pair to_lower profile r pair ≡ ok r'
      → (a : ℕ) × (b : ℕ) × IsTrade profile r r' a b
  unfolding apply_pair
  apply_pair-IsTrade r r' pair h =
      elim (Result-cases (resolve_remap_side to_lower pair.left r profile)) [
        | inl (thrown, no_left) ↦ absurd (ground arith)
        | inr (a, left) ↦ elim (Result-cases (resolve_remap_side to_lower pair.right r profile)) [
          | inl (thrown, no_right) ↦ absurd (ground arith)
          | inr (b, right) ↦ (a, b, move_player-IsTrade profile r r' a b (ground arith))
        ]
      ]

  apply_each-IsRoster :
      (pairs : List RemapPair) (r r' : List LobbyPlayer)
      → IsRoster profile r
      → apply_each to_lower profile r pairs ≡ ok r'
      → IsRoster profile r'
  apply_each-IsRoster [] r r' roster h = let e : r ≡ r' = cc in subst (IsRoster profile) e roster
  apply_each-IsRoster (pair ∷ pairs) r r' roster h =
      elim (Result-cases (apply_pair to_lower profile r pair)) [
        | inl (thrown, refused) ↦ absurd (ground arith)
        | inr (moved, accepted) ↦
            let (a, b, trade) = apply_pair-IsTrade r moved pair accepted in
            apply_each-IsRoster pairs moved r' (IsTrade-IsRoster profile r moved roster a b trade)
              (rw accepted at h)
      ]

  run_command-IsRoster :
      (r r' : List LobbyPlayer) (command : RosterCommand)
      → IsRoster profile r
      → run_command r command ≡ ok r'
      → IsRoster profile r'
  unfolding run_command apply_remap_pairs
  run_command-IsRoster r r' (add nick slot) roster h =
      IsArrival-IsRoster profile r r' roster slot _
        (add_player-IsArrival to_lower profile r r' nick slot h)
  run_command-IsRoster r r' (claim nick slot) roster h =
      IsArrival-IsRoster profile r r' roster slot _
        (roster_after_claim-IsArrival to_lower profile r r' nick slot h)
  run_command-IsRoster r r' (remove nick slot) roster h =
      let (target, left) = remove_player-IsDeparture to_lower profile r r' nick slot h in
      IsDeparture-IsRoster profile r r' roster target left
  run_command-IsRoster r r' (leave nick) roster h =
      let (target, left) = roster_after_leave-IsDeparture to_lower profile r r' nick h in
      IsDeparture-IsRoster profile r r' roster target left
  run_command-IsRoster r r' (move a b) roster h =
      IsTrade-IsRoster profile r r' roster a b (move_player-IsTrade profile r r' a b h)
  run_command-IsRoster r r' (swap a b) roster h =
      IsTrade-IsRoster profile r r' roster a b (swap_players-IsTrade profile r r' a b h)
  run_command-IsRoster r r' (edit slot nick) roster h =
      IsRenaming-IsRoster profile r r' roster slot _
        (edit_player_nick-IsRenaming to_lower profile r r' nick slot h)
  run_command-IsRoster r r' (remap text) roster h = elim (Result-cases (parse_remap_pairs text)) [
    | inl (thrown, refused) ↦ absurd (ground arith)
    | inr (pairs, parsed) ↦ apply_each-IsRoster pairs r r' roster (rw parsed at h)
  ]

  -- Whatever commands are accepted or refused, each slot of the game seats one player at most, no
  -- other slot seats one, and no two players have the same nick, and none an empty one, if that holds
  -- of the roster at the start.
  pub run_commands-IsRoster :
      (r : List LobbyPlayer) (commands : List RosterCommand)
      → IsRoster profile r
      → IsRoster profile (run_commands r commands)
  unfolding run_commands
  run_commands-IsRoster r [] roster = roster
  run_commands-IsRoster r (command ∷ rest) roster = elim (Result-cases (run_command r command)) [
    | inl (thrown, refused) ↦ rw refused (run_commands-IsRoster r rest roster)
    | inr (r', accepted) ↦
        rw accepted
          (run_commands-IsRoster r' rest (run_command-IsRoster r r' command roster accepted))
  ]
