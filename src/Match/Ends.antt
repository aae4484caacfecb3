-- ===== src/Match/Ends.antt =====
-- What the commands that complete, correct or close a match keep.
use trueskill_bot.Common.{
  Option, String, ℕ, ◌≡◌, List, ok, true, Result-cases, false, none, arith, subst, Bool-cases, inl,
  sym, ap, inr, Option-cases, map, get_or_else, some,
}
use mathlib.Core.Path.{◌≡◌, subst, sym, ap}
use trueskill_bot.Game.{GameProfile, TeamId}
use trueskill_bot.Match.Types.{cancelled, MatchPlayer, RatingUpdate, RatingKey, Desk, dc, griefer}
use trueskill_bot.Match.Report.{
  is_in_progress, is_reportable_status, mark_dc, with_players, accrue, is_event_match,
  resolve_slots, normalize_mitigation_percent,
}
use trueskill_bot.Match.Completion.{
  Findings, GivenSlots, complete_match, completed_event, completed_league, nobody,
}
use trueskill_bot.Match.Correction.{
  is_completed, flip_player, accrue_again, void_player, voided_row, flipped_event, flipped_league,
  flip_completed_match, void_completed_match, restore_match_rating_snapshots,
}
use trueskill_bot.Match.Approval.{
  with_row, stored_winner, approve_waiting_match, approve_mitigation_match,
}
use trueskill_bot.Match.Closing.{
  cancel_griefer, where_given, clear_griefer, clear_dc, cancel_in_progress_match,
  clear_match_griefers, clear_match_dcs, target_slots,
}
use trueskill_bot.Match.Sound.{
  IsSound, SoundPlayers, SoundPlayers-map, Keeps, report_player-Keeps, accrue-Keeps, mark_dc-Keeps,
  flip_player-Keeps, void_player-Keeps, cancel_griefer-Keeps, where_given-Keeps,
  clear_griefer-Keeps, clear_dc-Keeps,
}
use trueskill_bot.Match.Steps.{
  Follows, stays, ends, completes, voids, IsStep, is_in_progress_lem, is_completed_lem,
  with_players-IsStep,
}

module _ {R : Type 0} where
  pub clear_match_griefers-IsStep :
      (desk desk' : Desk R) (slots : Option (List ℕ))
      → clear_match_griefers desk slots ≡ ok desk'
      → IsStep desk desk'
  unfolding clear_match_griefers
  clear_match_griefers-IsStep desk desk' slots h =
      elim (Result-cases (target_slots MatchPlayer.is_griefer griefer desk.row.players slots)) [
        | inl (thrown, refused) ↦ absurd (ground arith)
        | inr (targets, chosen) ↦
            let e : with_players (clear_griefer targets) desk ≡ desk' = ground arith in
            subst (IsStep desk) e (
              with_players-IsStep desk (clear_griefer targets) (λ b. clear_griefer-Keeps b targets))
      ]

  pub clear_match_dcs-IsStep :
      (desk desk' : Desk R) (slots : Option (List ℕ))
      → clear_match_dcs desk slots ≡ ok desk'
      → IsStep desk desk'
  unfolding clear_match_dcs
  clear_match_dcs-IsStep desk desk' slots h =
      elim (Result-cases (target_slots MatchPlayer.is_dc dc desk.row.players slots)) [
        | inl (thrown, refused) ↦ absurd (ground arith)
        | inr (targets, chosen) ↦
            let e : with_players (clear_dc targets) desk ≡ desk' = ground arith in
            subst (IsStep desk) e
              (with_players-IsStep desk (clear_dc targets) (λ b. clear_dc-Keeps b targets))
      ]

  -- A game that is in progress is cancelled, after a write to its players.
  cancel_after-IsStep :
      (desk : Desk R) (f : MatchPlayer → MatchPlayer)
      → is_in_progress desk.row.status ≡ true
      → Keeps false false f
      → IsStep desk (with_row (λ row. record row { status = cancelled }) (with_players f desk))
  cancel_after-IsStep desk f going keeps =
      let was = is_in_progress_lem desk.row.status going in
      record {
        follows = subst (λ s. Follows s cancelled) (sym was) ends;
        sound = λ s. record {
          players =
              SoundPlayers-map false false f desk.row.players keeps
                (subst (λ b. SoundPlayers b desk.row.players) (ap is_completed was) s.players);
          winner = λ w. absurd cc;
          fresh = λ unfinished. absurd cc;
        };
      }

  pub cancel_in_progress_match-IsStep :
      (ki_of : String → ℕ) (desk desk' : Desk R) (griefer_slots dc_slots : Option (List ℕ))
      → cancel_in_progress_match ki_of desk griefer_slots dc_slots ≡ ok desk'
      → IsStep desk desk'
  unfolding cancel_in_progress_match
  cancel_in_progress_match-IsStep ki_of desk desk' griefer_slots dc_slots h =
      let players = desk.row.players in
      let quitters = resolve_slots MatchPlayer.is_quitter players none in
      let griefers = resolve_slots MatchPlayer.is_griefer players griefer_slots in
      let going : is_in_progress desk.row.status ≡ true = ground arith in
      let marked : MatchPlayer → MatchPlayer =
        λ player. where_given mark_dc dc_slots (where_given cancel_griefer griefer_slots player) in
      let keeps : Keeps false false marked = λ player sound.
        where_given-Keeps false mark_dc dc_slots (mark_dc-Keeps false) _ (
          where_given-Keeps false cancel_griefer griefer_slots (cancel_griefer-Keeps false) player
            sound) in
      elim (Bool-cases (is_event_match desk.row)) [
        | inl event ↦
            let e : with_row (λ row. record row { status = cancelled }) (with_players marked desk)
                ≡ desk' =
              ground arith in
            subst (IsStep desk) e (cancel_after-IsStep desk marked going keeps)
        | inr league ↦
            let taxed : MatchPlayer → MatchPlayer =
              λ player. accrue quitters griefers ki_of (marked player) in
            let e : with_row (λ row. record row { status = cancelled }) (with_players taxed desk)
                ≡ desk' =
              ground arith in
            subst (IsStep desk) e (
              cancel_after-IsStep desk taxed going (λ player sound.
                accrue-Keeps false quitters griefers ki_of (marked player) (keeps player sound)))
      ]

  pub void_completed_match-IsStep :
      (desk desk' : Desk R) (now_ms : ℕ)
      → void_completed_match desk now_ms ≡ ok desk'
      → IsStep desk desk'
  unfolding void_completed_match voided_row
  void_completed_match-IsStep desk desk' now_ms h =
      let was = is_completed_lem desk.row.status (ground arith) in
      let follows = subst (λ s. Follows s cancelled) (sym was) voids in
      let players : IsSound desk → SoundPlayers false (map void_player desk.row.players) = λ s.
        SoundPlayers-map _ false void_player desk.row.players (void_player-Keeps _) s.players in
      elim (Bool-cases (is_event_match desk.row)) [
        | inl event ↦
            let e : record desk { row = voided_row desk.row; has_report = false } ≡ desk' =
              ground arith in
            subst (IsStep desk) e (record {
              follows = follows;
              sound = λ s. record {
                players = players s;
                winner = λ w. absurd cc;
                fresh = λ f. absurd cc;
              };
            })
        | inr league ↦
            let e : record desk {
              row = voided_row desk.row;
              has_report = false;
              ratings = restore_match_rating_snapshots desk.snapshots desk.ratings;
            }
                ≡ desk' =
              ground arith in
            subst (IsStep desk) e (record {
              follows = follows;
              sound = λ s. record {
                players = players s;
                winner = λ w. absurd cc;
                fresh = λ f. absurd cc;
              };
            })
      ]

module _ {R : Type 0} (rate : (RatingKey → R) → RatingUpdate → RatingKey → R) where
  completed_event-IsStep :
      (found : Findings) (desk : Desk R) (team : TeamId) (quitters griefers dcs : List ℕ)
      → is_reportable_status desk.row.status ≡ true
      → IsStep desk (completed_event found team quitters griefers dcs desk)
  unfolding completed_event
  completed_event-IsStep found desk team quitters griefers dcs open_before = record {
    follows = completes open_before;
    sound = λ s. record {
      players =
          SoundPlayers-map _ true _ desk.row.players
            (report_player-Keeps _ team quitters griefers dcs nobody) s.players;
      winner = λ w. absurd cc;
      fresh = λ f. absurd cc;
    };
  }

  completed_league-IsStep :
      (found : Findings) (desk : Desk R) (team : TeamId) (quitters griefers dcs : List ℕ)
      (mitigation : ℕ)
      → is_reportable_status desk.row.status ≡ true
      → IsStep desk (completed_league rate found team quitters griefers dcs mitigation desk)
  unfolding completed_league
  completed_league-IsStep found desk team quitters griefers dcs mitigation open_before = record {
    follows = completes open_before;
    sound = λ s. record {
      players =
          SoundPlayers-map _ true _ desk.row.players
            (report_player-Keeps _ team quitters griefers dcs found.was_new) s.players;
      winner = λ w. absurd cc;
      fresh = λ f. absurd cc;
    };
  }

  pub complete_match-IsStep :
      (profile : GameProfile) (found : Findings) (desk desk' : Desk R) (team : TeamId)
      (given : GivenSlots) (percent : ℕ)
      → complete_match rate profile found desk team given percent ≡ ok desk'
      → IsStep desk desk'
  unfolding complete_match
  complete_match-IsStep profile found desk desk' team given percent h =
      let players = desk.row.players in
      let quitters = resolve_slots MatchPlayer.is_quitter players given.quitters in
      let griefers = resolve_slots MatchPlayer.is_griefer players given.griefers in
      let dcs = resolve_slots MatchPlayer.is_dc players given.dcs in
      let mitigation = normalize_mitigation_percent percent in
      let open_before : is_reportable_status desk.row.status ≡ true = ground arith in
      elim (Bool-cases (is_event_match desk.row)) [
        | inl event ↦
            let e : completed_event found team quitters griefers dcs desk ≡ desk' = ground arith in
            subst (IsStep desk) e
              (completed_event-IsStep found desk team quitters griefers dcs open_before)
        | inr league ↦
            let e : completed_league rate found team quitters griefers dcs mitigation desk ≡ desk' =
              ground arith in
            subst (IsStep desk) e
              (completed_league-IsStep found desk team quitters griefers dcs mitigation open_before)
      ]

  pub approve_waiting_match-IsStep :
      (profile : GameProfile) (found : Findings) (desk desk' : Desk R)
      → approve_waiting_match rate profile found desk.row desk ≡ ok desk'
      → IsStep desk desk'
  unfolding approve_waiting_match
  approve_waiting_match-IsStep profile found desk desk' h =
      elim (Option-cases (stored_winner desk.row.approval_winner_team)) [
        | inl nobody ↦ absurd (ground arith)
        | inr (team, won) ↦
            complete_match-IsStep profile found desk desk' team
              (record {
                quitters = some (resolve_slots MatchPlayer.is_quitter desk.row.players none);
                griefers = some (resolve_slots MatchPlayer.is_griefer desk.row.players none);
                dcs = none;
              })
              0 (ground arith)
      ]

  pub approve_mitigation_match-IsStep :
      (profile : GameProfile) (found : Findings) (desk desk' : Desk R)
      → approve_mitigation_match rate profile found desk.row desk ≡ ok desk'
      → IsStep desk desk'
  unfolding approve_mitigation_match
  approve_mitigation_match-IsStep profile found desk desk' h =
      elim (Option-cases (stored_winner desk.row.approval_winner_team)) [
        | inl nobody ↦ absurd (ground arith)
        | inr (team, won) ↦
            complete_match-IsStep profile found desk desk' team
              (record {
                quitters = some (resolve_slots MatchPlayer.is_quitter desk.row.players none);
                griefers = some (resolve_slots MatchPlayer.is_griefer desk.row.players none);
                dcs = some (resolve_slots MatchPlayer.is_dc desk.row.players none);
              })
              (normalize_mitigation_percent (get_or_else 0 desk.row.rating_mitigation_percent))
              (ground arith)
      ]

  pub flip_completed_match-IsStep :
      (found : Findings) (desk desk' : Desk R) (team : TeamId) (slots : Option (List ℕ))
      → flip_completed_match rate found desk team slots ≡ ok desk'
      → IsStep desk desk'
  unfolding flip_completed_match flipped_event flipped_league
  flip_completed_match-IsStep found desk desk' team slots h =
      let quitters = resolve_slots MatchPlayer.is_quitter desk.row.players slots in
      let was : is_completed desk.row.status ≡ true = ground arith in
      let before : IsSound desk → SoundPlayers true desk.row.players =
        λ s. subst (λ b. SoundPlayers b desk.row.players) was s.players in
      let after : (f : MatchPlayer → MatchPlayer)
          → Keeps true true f
          → IsSound desk
          → SoundPlayers (is_completed desk.row.status) (map f desk.row.players) =
        λ f keeps s.
          subst (λ b. SoundPlayers b (map f desk.row.players)) (sym was)
            (SoundPlayers-map true true f desk.row.players keeps (before s)) in
      elim (Bool-cases (is_event_match desk.row)) [
        | inl event ↦
            let e : flipped_event team quitters desk ≡ desk' = ground arith in
            subst (IsStep desk) e (record {
              follows = stays;
              sound = λ s. record {
                players = after (flip_player team quitters) (flip_player-Keeps team quitters) s;
                winner = s.winner;
                fresh = s.fresh;
              };
            })
        | inr league ↦
            let e : flipped_league rate found team quitters
                  (get_or_else found.now desk.row.completed_at) desk
                ≡ desk' =
              ground arith in
            subst (IsStep desk) e (record {
              follows = stays;
              sound = λ s. record {
                players =
                    after
                      (λ player.
                        accrue_again quitters found.ki_of (flip_player team quitters player))
                      (λ player sound. flip_player-Keeps team quitters player sound) s;
                winner = s.winner;
                fresh = s.fresh;
              };
            })
      ]
