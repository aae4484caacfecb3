-- ===== src/Match/Lobby.antt =====
-- The pending lobby of a match: `startMatch`, `cancelMatch` and `setMatchPlayersLocked` of
-- apps/bot/src/services/match/match-service.ts, and the locks of apps/bot/src/services/lobby/actions.ts.
use trueskill_bot.Common.{
  Bool, List, Option, guard, none, ℕ, any, if◌then◌else◌, map, not, ok, some, true, ◌>>◌, ◌∷◌, [],
  false, find?, is_some, ◌&&◌, ◌==◌, err,
}
use trueskill_bot.Game.{GameProfile, TeamId, one, two, is_slot_in_profile}
use trueskill_bot.LobbyRoster.Locks.{
  LobbyLockMode, unlocked, slot_lock, side_lock, same_mode, lock_changes_for_selection,
}
use trueskill_bot.LobbyRoster.Types.{LobbyPlayer}
use trueskill_bot.LobbyRoster.Logic.{same_team}
use trueskill_bot.Player.Nick.{same_text}
use trueskill_bot.Match.Types.{
  MatchStatus, pending, in_progress, cancelled, MatchPlayer, Match, Desk, Throws, not_pending,
  not_cancellable, not_editable, frozen_by_draft, empty_nick, duplicate_nick, team_without_players,
  league_archived, season_paused, slot_out_of_range, empty_slot, nobody_to_lock, MatchError,
}
use trueskill_bot.Match.Report.{is_at}
use trueskill_bot.Match.Approval.{with_row}

abbrev pub is_pending : MatchStatus → Bool
is_pending pending = true
is_pending _ = false

-- What a start finds about the league of the match, if it has one.
pub record LeagueState : Type 0 where
  pub is_writable : Bool
  pub accepts_play : Bool

abbrev pub assert_league_open : Option LeagueState → Throws (Unit {0})
assert_league_open none = ok tt
assert_league_open (some league) =
    guard league.is_writable league_archived >> guard league.accepts_play season_paused

abbrev pub named : List ℕ → MatchPlayer → Bool
named nick player = same_text player.nick nick

-- `assertUniqueNicks`, with the players seen so far.
unfoldable pub assert_unique_nicks : (seen rest : List MatchPlayer) → Throws (Unit {0})
assert_unique_nicks seen [] = ok tt
assert_unique_nicks seen (player ∷ players) =
    let later = assert_unique_nicks (player ∷ seen) players in
    guard (not (same_text player.nick [])) empty_nick
    >> guard (not (any (named player.nick) seen)) (duplicate_nick player.nick)
    >> later

abbrev pub on_side : TeamId → MatchPlayer → Bool
on_side team player = same_team player.team team

unfoldable pub assert_both_teams_occupied : List MatchPlayer → Throws (Unit {0})
assert_both_teams_occupied players =
    guard (any (on_side one) players && any (on_side two) players) team_without_players

-- `data: { locked: mode === 'slot', sideLocked: mode === 'side' }`.
abbrev pub lock_player : ℕ × LobbyLockMode → MatchPlayer → MatchPlayer
lock_player (slot, mode) player =
    if player.slot == slot
    then record player { locked = same_mode mode slot_lock; side_locked = same_mode mode side_lock }
    else player

abbrev nobody_at : LobbyLockMode → ℕ → MatchError
nobody_at unlocked slot = empty_slot slot
nobody_at _ slot = nobody_to_lock slot

-- The `map` over the changes, which throws at the first bad one.
unfoldable pub assert_lockable :
    GameProfile → List MatchPlayer → List (ℕ × LobbyLockMode) → Throws (Unit {0})
assert_lockable profile players [] = ok tt
assert_lockable profile players (change ∷ changes) =
    let later = assert_lockable profile players changes in
    guard (is_slot_in_profile profile change.0) slot_out_of_range
    >> guard (any (is_at change.0) players) (nobody_at change.1 change.0)
    >> later

-- The updates of the transaction, one after the other.
abbrev pub lock_all : List (ℕ × LobbyLockMode) → List MatchPlayer → List MatchPlayer
lock_all [] players = players
lock_all (change ∷ changes) players = lock_all changes (map (lock_player change) players)

-- `matchToLobbyPlayers`: only the locks that are set are passed.
abbrev pub flag_of : Bool → Option Bool
flag_of true = some true
flag_of false = none

abbrev pub to_lobby_player : MatchPlayer → LobbyPlayer
to_lobby_player player = record {
  slot = player.slot;
  nick = player.nick;
  locked = flag_of player.locked;
  side_locked = flag_of player.side_locked;
  is_quitter = none;
  raw_name = none;
}

abbrev pub stale_slot : List MatchPlayer → ℕ → Bool
stale_slot players slot = not (any (is_at slot) players)

module _ {R : Type 0} where
  unfoldable pub start_match : (seen : Match) → Option LeagueState → Desk R → Throws (Desk R)
  start_match seen league desk =
      guard (is_pending seen.status) not_pending
      >> (if is_some seen.league_id then assert_league_open league else ok tt)
      >> assert_unique_nicks [] seen.players
      >> assert_both_teams_occupied seen.players
      >> ok (with_row (λ row. record row { status = in_progress }) desk)

  unfoldable pub cancel_match : (seen : Match) → Desk R → Throws (Desk R)
  cancel_match seen desk =
      guard (is_pending seen.status) not_cancellable
      >> ok
          (record (with_row (λ row. record row { status = cancelled }) desk) { has_report = false })

  -- `has_draft`: whether a lobby draft of the match is active.
  unfoldable pub set_match_players_locked :
      GameProfile → (has_draft : Bool) → Desk R → List (ℕ × LobbyLockMode) → Throws (Desk R)
  set_match_players_locked profile has_draft desk changes =
      guard (is_pending desk.row.status) not_editable
      >> guard (not has_draft) frozen_by_draft
      >> assert_lockable profile desk.row.players changes
      >> ok (with_row (λ row. record row { players = lock_all changes row.players }) desk)

  -- The match is one that the caller may manage, so it is pending.
  unfoldable pub set_lobby_locked_slots :
      GameProfile → (has_draft : Bool) → Desk R → List ℕ → LobbyLockMode → Throws (Desk R)
  unfolding set_match_players_locked
  set_lobby_locked_slots profile has_draft desk locked_slots mode =
      let locked =
        set_match_players_locked profile has_draft desk
          (lock_changes_for_selection (map to_lobby_player desk.row.players) locked_slots mode) in
      elim (find? (stale_slot desk.row.players) locked_slots) [
        | some stale ↦ err (nobody_to_lock stale)
        | none ↦ locked
      ]
