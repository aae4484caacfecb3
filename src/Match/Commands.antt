-- ===== src/Match/Commands.antt =====
-- The commands on one match, in any order, each of them on what it has just loaded.
use trueskill_bot.Common.{Option, Bool, List, ℕ, String}
use trueskill_bot.Game.{GameProfile, TeamId}
use trueskill_bot.LobbyRoster.Locks.{LobbyLockMode}
use trueskill_bot.Match.Types.{RatingUpdate, RatingKey, Desk, Throws}
use trueskill_bot.Match.Report.{set_quitters, set_griefers, set_dcs}
use trueskill_bot.Match.Completion.{Findings, GivenSlots, complete_match}
use trueskill_bot.Match.Correction.{flip_completed_match, void_completed_match}
use trueskill_bot.Match.Approval.{
  set_approval_winner, reject_waiting_match, request_mitigation_approval,
  set_pending_mitigation_percent, reject_mitigation_match, approve_waiting_match,
  approve_mitigation_match,
}
use trueskill_bot.Match.Lobby.{
  LeagueState, start_match, cancel_match, set_match_players_locked, set_lobby_locked_slots,
}
use trueskill_bot.Match.Closing.{cancel_in_progress_match, clear_match_griefers, clear_match_dcs}

pub data MatchCommand : Type 0 where
  start : Option LeagueState → MatchCommand
  cancel : MatchCommand
  lock : (has_draft : Bool) → List (ℕ × LobbyLockMode) → MatchCommand
  lock_selection : (has_draft : Bool) → List ℕ → LobbyLockMode → MatchCommand
  flag_quitters flag_griefers flag_dcs : List ℕ → MatchCommand
  complete : Findings → TeamId → GivenSlots → (mitigation_percent : ℕ) → MatchCommand
  choose_winner : TeamId → MatchCommand
  approve : Findings → MatchCommand
  reject : MatchCommand
  request_mitigation :
      TeamId → (quitters griefers : List ℕ) (dcs : Option (List ℕ)) → ℕ → String → MatchCommand
  choose_mitigation : ℕ → MatchCommand
  approve_mitigation : Findings → MatchCommand
  reject_mitigation : MatchCommand
  cancel_game : (ki_of : String → ℕ) (griefer_slots dc_slots : Option (List ℕ)) → MatchCommand
  clear_griefers clear_dcs : Option (List ℕ) → MatchCommand
  flip : Findings → TeamId → Option (List ℕ) → MatchCommand
  void : (now_ms : ℕ) → MatchCommand

module _ {R : Type 0} (rate : (RatingKey → R) → RatingUpdate → RatingKey → R)
    (profile : GameProfile) where
  unfoldable pub run : Desk R → MatchCommand → Throws (Desk R)
  run desk (start league) = start_match desk.row league desk
  run desk cancel = cancel_match desk.row desk
  run desk (lock has_draft changes) = set_match_players_locked profile has_draft desk changes
  run desk (lock_selection has_draft slots mode) =
      set_lobby_locked_slots profile has_draft desk slots mode
  run desk (flag_quitters slots) = set_quitters desk.row desk slots
  run desk (flag_griefers slots) = set_griefers desk.row desk slots
  run desk (flag_dcs slots) = set_dcs desk.row desk slots
  run desk (complete found team given percent) =
      complete_match rate profile found desk team given percent
  run desk (choose_winner team) = set_approval_winner desk.row desk team
  run desk (approve found) = approve_waiting_match rate profile found desk.row desk
  run desk reject = reject_waiting_match desk
  run desk (request_mitigation team quitters griefers dcs percent message) =
      request_mitigation_approval desk.row desk team quitters griefers dcs percent message
  run desk (choose_mitigation percent) = set_pending_mitigation_percent desk.row desk percent
  run desk (approve_mitigation found) = approve_mitigation_match rate profile found desk.row desk
  run desk reject_mitigation = reject_mitigation_match desk
  run desk (cancel_game ki_of griefer_slots dc_slots) =
      cancel_in_progress_match ki_of desk griefer_slots dc_slots
  run desk (clear_griefers slots) = clear_match_griefers desk slots
  run desk (clear_dcs slots) = clear_match_dcs desk slots
  run desk (flip found team slots) = flip_completed_match rate found desk team slots
  run desk (void now) = void_completed_match desk now
