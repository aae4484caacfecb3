-- ===== src/Match/Correction.antt =====
-- The correction of a completed match: apps/bot/src/services/match/match-correction.ts.
use trueskill_bot.Common.{
  Bool, List, Option, guard, map, none, ℕ, String, false, get_or_else, if◌then◌else◌, length, not,
  true, ◌*◌, ◌>>◌, ◌∷◌, [], ok, some, ◌&&◌, ◌==◌, leb, ◌>>=◌, ◌-◌,
}
use trueskill_bot.Game.{TeamId}
use trueskill_bot.LobbyRoster.Locks.{has_slot}
use trueskill_bot.Match.Types.{
  MatchStatus, completed, cancelled, MatchPlayer, Match, RatingUpdate, RatingKey, Snapshot, Desk,
  RatingRosterEntry, quitter, Throws, snapshots_missing, not_completed, too_late,
}
use trueskill_bot.Match.Report.{
  is_event_match, require_league_id, resolve_slots, assert_known_slots, result_of,
  normalize_mitigation_percent, compute_griefer_ki_accrual,
}
use trueskill_bot.Match.Completion.{same_key, all_keys, Findings}

abbrev pub correction_window_ms : ℕ
correction_window_ms = 24 * 60 * 60 * 1000

abbrev pub is_within_correction_window : Option ℕ → (now_ms : ℕ) → Bool
is_within_correction_window none now = false
is_within_correction_window (some at) now = leb (now - at) correction_window_ms

abbrev pub is_completed : MatchStatus → Bool
is_completed completed = true
is_completed _ = false

unfoldable pub assert_match_correctable : Match → (now_ms : ℕ) → Throws (Unit {0})
assert_match_correctable row now =
    guard (is_completed row.status) not_completed
    >> guard (is_within_correction_window row.completed_at now) too_late

-- `toRatingEntries` of this file: the flags other than the quitters' are those of the rows.
abbrev pub corrected_entries : List MatchPlayer → (quitters : List ℕ) → List RatingRosterEntry
corrected_entries players quitters = map entry players
  where
    entry : MatchPlayer → RatingRosterEntry
    entry player = record {
      player_id = player.player_id;
      slot = player.slot;
      team = player.team;
      hero_id = player.hero_id;
      is_quitter = has_slot quitters player.slot;
      is_griefer = player.is_griefer;
      is_dc = not (has_slot quitters player.slot) && player.is_dc;
      was_new_player = player.was_new_player;
    }

-- The write of a flip to one player.
abbrev pub flip_player : TeamId → (quitters : List ℕ) → MatchPlayer → MatchPlayer
flip_player winning_team quitters player =
    let quits = has_slot quitters player.slot in
    record player {
      is_quitter = quits;
      is_dc = not quits && player.is_dc;
      result = some (result_of winning_team player.team);
    }

-- `accrueGrieferPenalties` over the entries of a flip.
abbrev pub accrue_again : (quitters : List ℕ) (ki_of : String → ℕ) → MatchPlayer → MatchPlayer
accrue_again quitters ki_of player = record player {
  griefer_ki_accrued =
      if player.is_griefer && not (has_slot quitters player.slot)
      then some (compute_griefer_ki_accrual (ki_of player.player_id))
      else none;
}

-- The write of a void to one player.
abbrev pub void_player : MatchPlayer → MatchPlayer
void_player player = record player {
  result = none;
  is_quitter = false;
  is_griefer = false;
  is_dc = false;
  griefer_ki_accrued = none;
}

unfoldable pub voided_row : Match → Match
voided_row row = record row { status = cancelled; players = map void_player row.players }

module _ {R : Type 0} where
  abbrev pub restore_one : Snapshot R → (RatingKey → R) → RatingKey → R
  restore_one snap ratings key = if same_key snap.of_row key then snap.value else ratings key

  abbrev pub restore_match_rating_snapshots : List (Snapshot R) → (RatingKey → R) → RatingKey → R
  restore_match_rating_snapshots [] ratings = ratings
  restore_match_rating_snapshots (snap ∷ snaps) ratings =
      restore_match_rating_snapshots snaps (restore_one snap ratings)

  unfoldable pub assert_snapshots_complete : Desk R → Throws (Unit {0})
  assert_snapshots_complete desk =
      guard (length desk.snapshots == length (all_keys desk.row.players)) snapshots_missing

  unfoldable pub flipped_event : TeamId → (quitters : List ℕ) → Desk R → Desk R
  flipped_event winning_team quitters desk = record desk {
    row = record desk.row { players = map (flip_player winning_team quitters) desk.row.players };
  }

  unfoldable pub void_completed_match : Desk R → (now_ms : ℕ) → Throws (Desk R)
  unfolding assert_match_correctable assert_snapshots_complete
  void_completed_match desk now =
      guard (is_completed desk.row.status) not_completed
      >> assert_match_correctable desk.row now
      >> (if is_event_match desk.row
          then ok (record desk { row = voided_row desk.row; has_report = false })
          else assert_snapshots_complete desk >> require_league_id desk.row >>= λ league_id.
              ok (record desk {
                row = voided_row desk.row;
                has_report = false;
                ratings = restore_match_rating_snapshots desk.snapshots desk.ratings;
              }))

module _ {R : Type 0} (rate : (RatingKey → R) → RatingUpdate → RatingKey → R) where
  unfoldable pub flipped_league :
      Findings → TeamId → (quitters : List ℕ) → (at : ℕ) → Desk R → Desk R
  flipped_league found winning_team quitters at desk = record desk {
    row = record desk.row {
      players =
          map
            (λ player. accrue_again quitters found.ki_of (flip_player winning_team quitters player))
            desk.row.players;
    };
    ratings = rate (restore_match_rating_snapshots desk.snapshots desk.ratings) (record {
      entries = corrected_entries desk.row.players quitters;
      winning_team = winning_team;
      at_time = at;
      mitigation = normalize_mitigation_percent (get_or_else 0 desk.row.rating_mitigation_percent);
    });
  }

  unfoldable pub flip_completed_match :
      Findings → Desk R → TeamId → (quitter_slots : Option (List ℕ)) → Throws (Desk R)
  unfolding assert_match_correctable assert_snapshots_complete
  flip_completed_match found desk winning_team quitter_slots =
      let quitters = resolve_slots MatchPlayer.is_quitter desk.row.players quitter_slots in
      guard (is_completed desk.row.status) not_completed
      >> assert_match_correctable desk.row found.now
      >> assert_known_slots desk.row.players quitters quitter
      >> (if is_event_match desk.row
          then ok (flipped_event winning_team quitters desk)
          else require_league_id desk.row >>= λ league_id.
              assert_snapshots_complete desk
              >> ok (
                  flipped_league found winning_team quitters
                    (get_or_else found.now desk.row.completed_at) desk))
