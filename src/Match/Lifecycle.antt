-- ===== src/Match/Lifecycle.antt =====
-- A match from its creation on: `createPendingMatch` of apps/bot/src/services/match/match-service.ts,
-- then the commands in any order. What throws changes nothing.
use trueskill_bot.Common.{
  List, String, none, ok, ◌≡◌, Option, err, false, ℕ, ◌∷◌, Bool, Result-cases, [], map, arith, inl,
  refl, inr,
}
use trueskill_bot.Game.{GameProfile, TeamId}
use trueskill_bot.Match.Types.{pending, MatchPlayer, Match, RatingUpdate, RatingKey, Desk, Throws}
use trueskill_bot.Match.Commands.{
  MatchCommand, start, cancel, lock, lock_selection, flag_quitters, flag_griefers, flag_dcs,
  complete, choose_winner, approve, reject, request_mitigation, choose_mitigation,
  approve_mitigation, reject_mitigation, cancel_game, clear_griefers, clear_dcs, flip, void, run,
}
use trueskill_bot.Match.Sound.{IsSound, SoundPlayers}
use trueskill_bot.Match.Steps.{
  Follows, IsStep, start_match-IsStep, cancel_match-IsStep, set_match_players_locked-IsStep,
  set_lobby_locked_slots-IsStep, set_quitters-IsStep, set_griefers-IsStep, set_dcs-IsStep,
  set_approval_winner-IsStep, reject_waiting_match-IsStep, request_mitigation_approval-IsStep,
  set_pending_mitigation_percent-IsStep, reject_mitigation_match-IsStep,
}
use trueskill_bot.Match.Ends.{
  complete_match-IsStep, approve_waiting_match-IsStep, approve_mitigation_match-IsStep,
  cancel_in_progress_match-IsStep, clear_match_griefers-IsStep, clear_match_dcs-IsStep,
  flip_completed_match-IsStep, void_completed_match-IsStep,
}

-- A player of a new lobby, with the player row that the nick was resolved to.
pub record ResolvedPlayer : Type 0 where
  pub player_id : String
  pub nick : List ℕ
  pub team : TeamId
  pub slot : ℕ
  pub hero_id : Option ℕ
  pub is_quitter : Bool

-- `players: { create: ... }`, with the defaults of the schema.
abbrev pub new_player : ResolvedPlayer → MatchPlayer
new_player entry = record {
  player_id = entry.player_id;
  nick = entry.nick;
  team = entry.team;
  slot = entry.slot;
  hero_id = entry.hero_id;
  result = none;
  is_quitter = entry.is_quitter;
  is_griefer = false;
  is_dc = false;
  locked = false;
  side_locked = false;
  griefer_ki_accrued = none;
  was_new_player = false;
}

abbrev pub new_row :
    (id host : String) (league_id event_id : Option String) → List ResolvedPlayer → Match
new_row id host league_id event_id entries = record {
  id = id;
  status = pending;
  host_discord_id = host;
  league_id = league_id;
  event_id = event_id;
  approval_winner_team = none;
  rating_mitigation_percent = none;
  mitigation_approval_message_id = none;
  completed_at = none;
  players = map new_player entries;
}

new_players_sound : (entries : List ResolvedPlayer) → SoundPlayers false (map new_player entries)
new_players_sound [] = tt
new_players_sound (entry ∷ entries) = (ground arith, new_players_sound entries)

module _ {R : Type 0} where
  abbrev pub create_pending_match :
      (id host : String) (league_id event_id : Option String)
      → List ResolvedPlayer
      → (ratings : RatingKey → R) → Desk R
  create_pending_match id host league_id event_id entries ratings = record {
    row = new_row id host league_id event_id entries;
    ratings = ratings;
    snapshots = [];
    has_report = false;
  }

module _ {R : Type 0} (rate : (RatingKey → R) → RatingUpdate → RatingKey → R)
    (profile : GameProfile) where
  run-IsStep :
      (desk desk' : Desk R) (command : MatchCommand)
      → run rate profile desk command ≡ ok desk'
      → IsStep desk desk'
  unfolding run
  run-IsStep desk desk' (start league) h = start_match-IsStep desk desk' league h
  run-IsStep desk desk' cancel h = cancel_match-IsStep desk desk' h
  run-IsStep desk desk' (lock has_draft changes) h =
      set_match_players_locked-IsStep profile has_draft desk desk' changes h
  run-IsStep desk desk' (lock_selection has_draft slots mode) h =
      set_lobby_locked_slots-IsStep profile has_draft desk desk' slots mode h
  run-IsStep desk desk' (flag_quitters slots) h = set_quitters-IsStep desk desk' slots h
  run-IsStep desk desk' (flag_griefers slots) h = set_griefers-IsStep desk desk' slots h
  run-IsStep desk desk' (flag_dcs slots) h = set_dcs-IsStep desk desk' slots h
  run-IsStep desk desk' (complete found team given percent) h =
      complete_match-IsStep rate profile found desk desk' team given percent h
  run-IsStep desk desk' (choose_winner team) h = set_approval_winner-IsStep desk desk' team h
  run-IsStep desk desk' (approve found) h =
      approve_waiting_match-IsStep rate profile found desk desk' h
  run-IsStep desk desk' reject h = reject_waiting_match-IsStep desk desk' h
  run-IsStep desk desk' (request_mitigation team quitters griefers dcs percent message) h =
      request_mitigation_approval-IsStep desk desk' team quitters griefers dcs percent message h
  run-IsStep desk desk' (choose_mitigation percent) h =
      set_pending_mitigation_percent-IsStep desk desk' percent h
  run-IsStep desk desk' (approve_mitigation found) h =
      approve_mitigation_match-IsStep rate profile found desk desk' h
  run-IsStep desk desk' reject_mitigation h = reject_mitigation_match-IsStep desk desk' h
  run-IsStep desk desk' (cancel_game ki_of griefer_slots dc_slots) h =
      cancel_in_progress_match-IsStep ki_of desk desk' griefer_slots dc_slots h
  run-IsStep desk desk' (clear_griefers slots) h = clear_match_griefers-IsStep desk desk' slots h
  run-IsStep desk desk' (clear_dcs slots) h = clear_match_dcs-IsStep desk desk' slots h
  run-IsStep desk desk' (flip found team slots) h =
      flip_completed_match-IsStep rate found desk desk' team slots h
  run-IsStep desk desk' (void now_ms) h = void_completed_match-IsStep desk desk' now_ms h

  abbrev pub outcome : Desk R → Throws (Desk R) → Desk R
  outcome desk (ok desk') = desk'
  outcome desk (err thrown) = desk

  -- The match after commands that are accepted or refused.
  unfoldable pub run_all : Desk R → List MatchCommand → Desk R
  unfolding run
  run_all desk [] = desk
  run_all desk (command ∷ commands) =
      run_all (outcome desk (run rate profile desk command)) commands

  run_all-IsSound :
      (desk : Desk R) (commands : List MatchCommand)
      → IsSound desk
      → IsSound (run_all desk commands)
  unfolding run_all
  run_all-IsSound desk [] sound = sound
  run_all-IsSound desk (command ∷ commands) sound =
      elim (Result-cases (run rate profile desk command)) [
        | inl (thrown, refused) ↦ rw refused (run_all-IsSound desk commands sound)
        | inr (desk', accepted) ↦
            rw accepted (
              run_all-IsSound desk' commands ((run-IsStep desk desk' command accepted).sound sound))
      ]

  -- Whatever commands a new match has accepted or refused: no player is a quitter and has the DC
  -- flag, no seat has both locks, each player has a result if the match is completed and none has one
  -- if it is not, a match that waits for the approval of its mitigation has a winner, and there are
  -- rating snapshots only of a match that is completed or cancelled.
  pub created_match_IsSound :
      (id host : String) (league_id event_id : Option String) (entries : List ResolvedPlayer)
      (ratings : RatingKey → R) (commands : List MatchCommand)
      → IsSound (run_all (create_pending_match id host league_id event_id entries ratings) commands)
  created_match_IsSound id host league_id event_id entries ratings commands =
      run_all-IsSound (create_pending_match id host league_id event_id entries ratings) commands
        (record { players = new_players_sound entries; winner = λ w. absurd cc; fresh = λ f. refl })

  -- An accepted command keeps the status of a match or changes it from pending to in progress or
  -- cancelled, from in progress to the approval of a mitigation and back, from in progress or an
  -- approval to completed, from in progress or the approval of a report to cancelled, or from
  -- completed to cancelled.
  pub run-Follows :
      (desk desk' : Desk R) (command : MatchCommand)
      → run rate profile desk command ≡ ok desk'
      → Follows desk.row.status desk'.row.status
  run-Follows desk desk' command h = (run-IsStep desk desk' command h).follows
