-- ===== src/Match/Approval.antt =====
-- The approval of a report by moderators: match-approval.ts and match-mitigation-approval.ts of
-- apps/bot/src/services/match. A call loads the match (`seen`) and writes later (`desk`).
use trueskill_bot.Common.{
  Bool, List, Option, guard, ℕ, String, some, true, ◌>>◌, false, if◌then◌else◌, not, ok, require,
  none, ◌==◌, ◌>>=◌, get_or_else, ◌&&◌, any, str_eq,
}
use trueskill_bot.Game.{GameProfile, TeamId, one, two}
use trueskill_bot.LobbyRoster.Locks.{has_slot}
use trueskill_bot.Match.Types.{
  MatchStatus, in_progress, waiting_for_approval, waiting_for_mitigation_approval, cancelled,
  MatchPlayer, Match, RatingUpdate, RatingKey, Desk, Throws, not_in_progress, not_waiting,
  not_waiting_for_mitigation, no_winner, no_mitigation,
}
use trueskill_bot.Match.Report.{
  is_in_progress, resolve_slots, normalize_mitigation_percent, positive, with_players,
}
use trueskill_bot.Match.Completion.{Findings, complete_match}

abbrev pub is_waiting : MatchStatus → Bool
is_waiting waiting_for_approval = true
is_waiting _ = false

abbrev pub is_waiting_for_mitigation : MatchStatus → Bool
is_waiting_for_mitigation waiting_for_mitigation_approval = true
is_waiting_for_mitigation _ = false

abbrev pub int_of_team : TeamId → ℕ
int_of_team one = 1
int_of_team two = 2

-- `winner !== 1 && winner !== 2` on the stored number.
abbrev pub stored_winner : Option ℕ → Option TeamId
stored_winner none = none
stored_winner (some n) = if n == 1 then some one else if n == 2 then some two else none

-- Whether the loaded row of a player has the DC flag.
abbrev pub was_dc : List MatchPlayer → MatchPlayer → Bool
was_dc seen player = any (λ old. str_eq old.player_id player.player_id && old.is_dc) seen

abbrev pub requested_dc : List MatchPlayer → Option (List ℕ) → MatchPlayer → Bool
requested_dc seen none player = was_dc seen player
requested_dc seen (some slots) player = has_slot slots player.slot

-- What `requestMitigationApproval` writes to one player; without slots the DC that was loaded stays.
abbrev pub request_player :
    (seen : List MatchPlayer) (quitters griefers : List ℕ) (dcs : Option (List ℕ))
    → MatchPlayer
    → MatchPlayer
request_player seen quitters griefers dcs player =
    let quits = has_slot quitters player.slot in
    record player {
      is_quitter = quits;
      is_griefer = not quits && has_slot griefers player.slot;
      is_dc = not quits && requested_dc seen dcs player;
    }

module _ {R : Type 0} where
  abbrev pub with_row : (Match → Match) → Desk R → Desk R
  with_row f desk = record desk { row = f desk.row }

  unfoldable pub set_approval_winner : (seen : Match) → Desk R → TeamId → Throws (Desk R)
  set_approval_winner seen desk winning_team =
      guard (is_waiting seen.status) not_waiting
      >> ok (
          with_row (λ row. record row { approval_winner_team = some (int_of_team winning_team) })
            desk)

  unfoldable pub reject_waiting_match : Desk R → Throws (Desk R)
  reject_waiting_match desk =
      guard (is_waiting desk.row.status) not_waiting
      >> ok (with_row (λ row. record row { status = cancelled }) desk)

  -- The message for the moderators is posted between the last two writes; `message` is its id.
  unfoldable pub request_mitigation_approval :
      (seen : Match)
      → Desk R
      → TeamId
      → (quitters griefers : List ℕ) (dcs : Option (List ℕ)) (mitigation_percent : ℕ)
      → (message : String) → Throws (Desk R)
  request_mitigation_approval seen desk winning_team quitters griefers dcs percent message =
      let mitigation = normalize_mitigation_percent percent in
      guard (not (mitigation == 0)) no_mitigation
      >> guard (is_in_progress seen.status) not_in_progress
      >> ok (
          with_row
            (λ row. record row {
              status = waiting_for_mitigation_approval;
              approval_winner_team = some (int_of_team winning_team);
              rating_mitigation_percent = some mitigation;
              mitigation_approval_message_id = some message;
            })
            (with_players (request_player seen.players quitters griefers dcs) desk))

  unfoldable pub set_pending_mitigation_percent : (seen : Match) → Desk R → ℕ → Throws (Desk R)
  set_pending_mitigation_percent seen desk percent =
      guard (is_waiting_for_mitigation seen.status) not_waiting_for_mitigation
      >> ok (
          with_row
            (λ row. record row {
              rating_mitigation_percent = positive (normalize_mitigation_percent percent);
            })
            desk)

  unfoldable pub reject_mitigation_match : Desk R → Throws (Desk R)
  reject_mitigation_match desk =
      guard (is_waiting_for_mitigation desk.row.status) not_waiting_for_mitigation
      >> ok (
          with_row
            (λ row. record row {
              status = in_progress;
              approval_winner_team = none;
              rating_mitigation_percent = none;
              mitigation_approval_message_id = none;
            })
            desk)

module _ {R : Type 0} (rate : (RatingKey → R) → RatingUpdate → RatingKey → R) where
  unfoldable pub approve_waiting_match :
      GameProfile → Findings → (seen : Match) → Desk R → Throws (Desk R)
  approve_waiting_match profile found seen desk =
      guard (is_waiting seen.status) not_waiting
      >> require (stored_winner seen.approval_winner_team) no_winner
      >>= λ winning_team.
          complete_match rate profile found desk winning_team
            (record {
              quitters = some (resolve_slots MatchPlayer.is_quitter seen.players none);
              griefers = some (resolve_slots MatchPlayer.is_griefer seen.players none);
              dcs = none;
            })
            0

  unfoldable pub approve_mitigation_match :
      GameProfile → Findings → (seen : Match) → Desk R → Throws (Desk R)
  approve_mitigation_match profile found seen desk =
      guard (is_waiting_for_mitigation seen.status) not_waiting_for_mitigation
      >> require (stored_winner seen.approval_winner_team) no_winner
      >>= λ winning_team.
          complete_match rate profile found desk winning_team
            (record {
              quitters = some (resolve_slots MatchPlayer.is_quitter seen.players none);
              griefers = some (resolve_slots MatchPlayer.is_griefer seen.players none);
              dcs = some (resolve_slots MatchPlayer.is_dc seen.players none);
            })
            (normalize_mitigation_percent (get_or_else 0 seen.rating_mitigation_percent))
