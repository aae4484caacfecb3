-- ===== src/Match/Steps.antt =====
-- What the commands on a match keep: the changes of its status, and the invariant.
use trueskill_bot.Match.Correction.{is_completed}
use trueskill_bot.Common.{
  Bool, List, Option, ◌≡◌, ok, true, ℕ, arith, subst, refl, String, false, none, some, ap, is_some,
  map, sym, ◌∙◌,
}
use trueskill_bot.Game.{GameProfile, TeamId, one, two}
use trueskill_bot.LobbyRoster.Locks.{LobbyLockMode, lock_changes_for_selection}
use trueskill_bot.Match.Types.{
  MatchStatus, pending, in_progress, waiting_for_approval, waiting_for_mitigation_approval,
  completed, cancelled, MatchPlayer, Match, Desk, SlotLabel, quitter, griefer, dc,
}
use trueskill_bot.Match.Report.{
  is_finished, is_in_progress, is_reportable_status, set_flags, set_quitters, set_griefers, set_dcs,
  mark_quitter, mark_griefer, mark_dc, with_players, normalize_mitigation_percent, positive,
}
use trueskill_bot.Match.Approval.{
  is_waiting, is_waiting_for_mitigation, stored_winner, int_of_team, with_row, set_approval_winner,
  reject_waiting_match, request_mitigation_approval, set_pending_mitigation_percent,
  reject_mitigation_match, request_player,
}
use trueskill_bot.Match.Lobby.{
  LeagueState, is_pending, start_match, cancel_match, set_match_players_locked,
  set_lobby_locked_slots, lock_all, to_lobby_player,
}
use trueskill_bot.Match.Sound.{
  IsSound, SoundPlayers, SoundPlayers-map, Keeps, mark_quitter-Keeps, mark_griefer-Keeps,
  mark_dc-Keeps, lock_all_sound, request_player-Keeps,
}

-- The changes of the status.
pub data Follows : MatchStatus → MatchStatus → Type 0 where
  stays : {s : MatchStatus} → Follows s s
  starts : Follows pending in_progress
  drops : Follows pending cancelled
  ends : Follows in_progress cancelled
  asks : Follows in_progress waiting_for_mitigation_approval
  resumes : Follows waiting_for_mitigation_approval in_progress
  rejects : Follows waiting_for_approval cancelled
  completes : {s : MatchStatus} → is_reportable_status s ≡ true → Follows s completed
  voids : Follows completed cancelled

-- A change of the status that is allowed, and the invariant of the match is kept.
pub record IsStep {R : Type 0} (desk desk' : Desk R) : Type 0 where
  pub follows : Follows desk.row.status desk'.row.status
  pub sound : IsSound desk → IsSound desk'

pub is_pending_lem : (s : MatchStatus) → is_pending s ≡ true → s ≡ pending
is_pending_lem s h = ground arith

pub is_in_progress_lem : (s : MatchStatus) → is_in_progress s ≡ true → s ≡ in_progress
is_in_progress_lem s h = ground arith

pub is_waiting_lem : (s : MatchStatus) → is_waiting s ≡ true → s ≡ waiting_for_approval
is_waiting_lem s h = ground arith

pub is_waiting_for_mitigation_lem :
    (s : MatchStatus) → is_waiting_for_mitigation s ≡ true → s ≡ waiting_for_mitigation_approval
is_waiting_for_mitigation_lem s h = ground arith

pub is_completed_lem : (s : MatchStatus) → is_completed s ≡ true → s ≡ completed
is_completed_lem s h = ground arith

pub stored_winner-int_of_team :
    (team : TeamId) → stored_winner (some (int_of_team team)) ≡ some team
stored_winner-int_of_team one = refl
stored_winner-int_of_team two = refl

module _ {R : Type 0} where
  -- A write to the players only, which keeps soundness.
  pub with_players-IsStep :
      (desk : Desk R) (f : MatchPlayer → MatchPlayer)
      → ((b : Bool) → Keeps b b f)
      → IsStep desk (with_players f desk)
  with_players-IsStep desk f keeps = record {
    follows = stays;
    sound = λ s. record {
      players = SoundPlayers-map _ _ f desk.row.players (keeps _) s.players;
      winner = s.winner;
      fresh = s.fresh;
    };
  }

  set_flags-IsStep :
      (label : SlotLabel) (mark : List ℕ → MatchPlayer → MatchPlayer) (seen : Match)
      (desk desk' : Desk R) (slots : List ℕ)
      → ((b : Bool) (given : List ℕ) → Keeps b b (mark given))
      → set_flags label mark seen desk slots ≡ ok desk'
      → IsStep desk desk'
  unfolding set_flags
  set_flags-IsStep label mark seen desk desk' slots keeps h =
      let e : with_players (mark slots) desk ≡ desk' = ground arith in
      subst (IsStep desk) e (with_players-IsStep desk (mark slots) (λ b. keeps b slots))

  -- A write to the row, from a status that is known to another.
  row-IsStep :
      (desk : Desk R) (row' : Match) {old : MatchStatus}
      → desk.row.status ≡ old
      → Follows old row'.status
      → (SoundPlayers (is_completed old) desk.row.players
          → SoundPlayers (is_completed row'.status) row'.players)
      → (is_waiting_for_mitigation row'.status ≡ true
          → is_some (stored_winner row'.approval_winner_team) ≡ true)
      → (is_finished row'.status ≡ false → is_finished old ≡ false)
      → IsStep desk (record desk { row = row' })
  row-IsStep desk row' was follows players winner fresh = record {
    follows = subst (λ s. Follows s row'.status) (sym was) follows;
    sound = λ s. record {
      players =
          players (subst (λ b. SoundPlayers b desk.row.players) (ap is_completed was) s.players);
      winner = winner;
      fresh = λ unfinished. s.fresh (ap is_finished was ∙ fresh unfinished);
    };
  }

  pub start_match-IsStep :
      (desk desk' : Desk R) (league : Option LeagueState)
      → start_match desk.row league desk ≡ ok desk'
      → IsStep desk desk'
  unfolding start_match
  start_match-IsStep desk desk' league h =
      let was = is_pending_lem desk.row.status (ground arith) in
      let e : with_row (λ row. record row { status = in_progress }) desk ≡ desk' = ground arith in
      subst (IsStep desk) e (
        row-IsStep desk (record desk.row { status = in_progress }) was starts (λ s. s)
          (λ w. absurd cc) (λ f. refl))

  pub cancel_match-IsStep :
      (desk desk' : Desk R) → cancel_match desk.row desk ≡ ok desk' → IsStep desk desk'
  unfolding cancel_match
  cancel_match-IsStep desk desk' h =
      let was = is_pending_lem desk.row.status (ground arith) in
      let step =
        row-IsStep desk (record desk.row { status = cancelled }) was drops (λ s. s) (λ w. absurd cc)
          (λ f. absurd cc) in
      let e : record (with_row (λ row. record row { status = cancelled }) desk) {
        has_report = false;
      }
          ≡ desk' =
        ground arith in
      subst (IsStep desk) e (record {
        follows = step.follows;
        sound = λ s.
            let after = step.sound s in
            record { players = after.players; winner = after.winner; fresh = after.fresh };
      })

  pub reject_waiting_match-IsStep :
      (desk desk' : Desk R) → reject_waiting_match desk ≡ ok desk' → IsStep desk desk'
  unfolding reject_waiting_match
  reject_waiting_match-IsStep desk desk' h =
      let was = is_waiting_lem desk.row.status (ground arith) in
      let e : with_row (λ row. record row { status = cancelled }) desk ≡ desk' = ground arith in
      subst (IsStep desk) e (
        row-IsStep desk (record desk.row { status = cancelled }) was rejects (λ s. s)
          (λ w. absurd cc) (λ f. absurd cc))

  pub set_approval_winner-IsStep :
      (desk desk' : Desk R) (team : TeamId)
      → set_approval_winner desk.row desk team ≡ ok desk'
      → IsStep desk desk'
  unfolding set_approval_winner
  set_approval_winner-IsStep desk desk' team h =
      let e : with_row (λ row. record row { approval_winner_team = some (int_of_team team) }) desk
          ≡ desk' =
        ground arith in
      subst (IsStep desk) e (
        row-IsStep desk (record desk.row { approval_winner_team = some (int_of_team team) }) refl
          stays (λ s. s) (λ w. ap is_some (stored_winner-int_of_team team)) (λ f. f))

  pub set_pending_mitigation_percent-IsStep :
      (desk desk' : Desk R) (percent : ℕ)
      → set_pending_mitigation_percent desk.row desk percent ≡ ok desk'
      → IsStep desk desk'
  unfolding set_pending_mitigation_percent
  set_pending_mitigation_percent-IsStep desk desk' percent h =
      let new = positive (normalize_mitigation_percent percent) in
      let e : with_row (λ row. record row { rating_mitigation_percent = new }) desk ≡ desk' =
        ground arith in
      subst (IsStep desk) e (record {
        follows = stays;
        sound = λ s. record { players = s.players; winner = s.winner; fresh = s.fresh };
      })

  pub reject_mitigation_match-IsStep :
      (desk desk' : Desk R) → reject_mitigation_match desk ≡ ok desk' → IsStep desk desk'
  unfolding reject_mitigation_match
  reject_mitigation_match-IsStep desk desk' h =
      let was = is_waiting_for_mitigation_lem desk.row.status (ground arith) in
      let row' = record desk.row {
        status = in_progress;
        approval_winner_team = none;
        rating_mitigation_percent = none;
        mitigation_approval_message_id = none;
      } in
      let e : record desk { row = row' } ≡ desk' = ground arith in
      subst (IsStep desk) e (row-IsStep desk row' was resumes (λ s. s) (λ w. absurd cc) (λ f. refl))

  pub request_mitigation_approval-IsStep :
      (desk desk' : Desk R) (team : TeamId) (quitters griefers : List ℕ) (dcs : Option (List ℕ))
      (percent : ℕ) (message : String)
      → request_mitigation_approval desk.row desk team quitters griefers dcs percent message
        ≡ ok desk'
      → IsStep desk desk'
  unfolding request_mitigation_approval
  request_mitigation_approval-IsStep desk desk' team quitters griefers dcs percent message h =
      let was = is_in_progress_lem desk.row.status (ground arith) in
      let f = request_player desk.row.players quitters griefers dcs in
      let row' = record desk.row {
        players = map f desk.row.players;
        status = waiting_for_mitigation_approval;
        approval_winner_team = some (int_of_team team);
        rating_mitigation_percent = some (normalize_mitigation_percent percent);
        mitigation_approval_message_id = some message;
      } in
      let e : record desk { row = row' } ≡ desk' = ground arith in
      subst (IsStep desk) e (
        row-IsStep desk row' was asks
          (SoundPlayers-map false false f desk.row.players
            (request_player-Keeps desk.row.players quitters griefers dcs))
          (λ w. ap is_some (stored_winner-int_of_team team)) (λ f. refl))

  pub set_match_players_locked-IsStep :
      (profile : GameProfile) (has_draft : Bool) (desk desk' : Desk R)
      (changes : List (ℕ × LobbyLockMode))
      → set_match_players_locked profile has_draft desk changes ≡ ok desk'
      → IsStep desk desk'
  unfolding set_match_players_locked
  set_match_players_locked-IsStep profile has_draft desk desk' changes h =
      let e : with_row (λ row. record row { players = lock_all changes row.players }) desk ≡ desk' =
        ground arith in
      subst (IsStep desk) e (record {
        follows = stays;
        sound = λ s. record {
          players = lock_all_sound _ changes desk.row.players s.players;
          winner = s.winner;
          fresh = s.fresh;
        };
      })

  pub set_lobby_locked_slots-IsStep :
      (profile : GameProfile) (has_draft : Bool) (desk desk' : Desk R) (slots : List ℕ)
      (mode : LobbyLockMode)
      → set_lobby_locked_slots profile has_draft desk slots mode ≡ ok desk'
      → IsStep desk desk'
  unfolding set_lobby_locked_slots
  set_lobby_locked_slots-IsStep profile has_draft desk desk' slots mode h =
      set_match_players_locked-IsStep profile has_draft desk desk'
        (lock_changes_for_selection (map to_lobby_player desk.row.players) slots mode)
        (ground arith)

  pub set_quitters-IsStep :
      (desk desk' : Desk R) (slots : List ℕ)
      → set_quitters desk.row desk slots ≡ ok desk'
      → IsStep desk desk'
  unfolding set_quitters
  set_quitters-IsStep desk desk' slots h =
      set_flags-IsStep quitter mark_quitter desk.row desk desk' slots mark_quitter-Keeps h

  pub set_griefers-IsStep :
      (desk desk' : Desk R) (slots : List ℕ)
      → set_griefers desk.row desk slots ≡ ok desk'
      → IsStep desk desk'
  unfolding set_griefers
  set_griefers-IsStep desk desk' slots h =
      set_flags-IsStep griefer mark_griefer desk.row desk desk' slots mark_griefer-Keeps h

  pub set_dcs-IsStep :
      (desk desk' : Desk R) (slots : List ℕ)
      → set_dcs desk.row desk slots ≡ ok desk'
      → IsStep desk desk'
  unfolding set_dcs
  set_dcs-IsStep desk desk' slots h =
      set_flags-IsStep dc mark_dc desk.row desk desk' slots mark_dc-Keeps h
