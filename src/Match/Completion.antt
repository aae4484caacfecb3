-- ===== src/Match/Completion.antt =====
-- The completion of a match: `completeMatch` of apps/bot/src/services/match/match-report.ts, with
-- `writeMatchRatingSnapshots` of match-correction.ts.
use trueskill_bot.Common.{
  Bool, List, Option, String, ℕ, false, guard, map, some, str_eq, true, ◌∷◌, [], none, ◌&&◌, ◌++◌,
  ◌>>◌, not, ◌==◌, ◌||◌, if◌then◌else◌, ok, ◌>>=◌,
}
use trueskill_bot.Game.{GameProfile, TeamId, wos2_bot_v1, no_stats, PostMatchStatsKind}
use trueskill_bot.Match.Types.{
  completed, MatchPlayer, RatingUpdate, RatingKey, Snapshot, Desk, quitter, griefer, dc, Throws,
  not_reportable, report_required, snapshots_exist,
}
use trueskill_bot.Match.Report.{
  is_event_match, require_league_id, is_reportable_status, resolve_slots, assert_known_slots,
  normalize_mitigation_percent, positive, to_rating_entries, report_player, accrue,
}

abbrev pub is_empty {ℓ} : {A : Type ℓ} → List A → Bool
is_empty [] = true
is_empty (x ∷ xs) = false

-- What the calls of a completion find in the database: which players are New in the league, the
-- display ki of each, and the clock.
pub record Findings : Type 0 where
  pub was_new : String → Bool
  pub ki_of : String → ℕ
  pub now : ℕ

-- Whether the game of the match asks for a stats report.
abbrev pub asks_report : PostMatchStatsKind → Bool
asks_report wos2_bot_v1 = true
asks_report no_stats = false

abbrev pub nobody : String → Bool
nobody id = false

-- What a call passes of the slots: `undefined` or a list.
pub record GivenSlots : Type 0 where
  pub quitters : Option (List ℕ)
  pub griefers : Option (List ℕ)
  pub dcs : Option (List ℕ)

-- The rating rows of a player, with a hero or without.
abbrev pub rating_keys : String → Option ℕ → List RatingKey
rating_keys id none = record { player = id; hero = none } ∷ []
rating_keys id (some hero_id) =
    record { player = id; hero = none } ∷ record { player = id; hero = some hero_id } ∷ []

abbrev pub keys_of : MatchPlayer → List RatingKey
keys_of player = rating_keys player.player_id player.hero_id

abbrev pub all_keys : List MatchPlayer → List RatingKey
all_keys [] = []
all_keys (player ∷ players) = keys_of player ++ all_keys players

abbrev pub same_hero : Option ℕ → Option ℕ → Bool
same_hero none none = true
same_hero (some h) (some k) = h == k
same_hero _ _ = false

abbrev pub same_key : RatingKey → RatingKey → Bool
same_key k l = str_eq k.player l.player && same_hero k.hero l.hero

module _ {R : Type 0} where
  -- `writeMatchRatingSnapshots`; the rating rows exist, since `ensurePlayerRatings` ran before.
  abbrev pub snapshots_of : List MatchPlayer → (RatingKey → R) → List (Snapshot R)
  snapshots_of players ratings =
      map (λ key. record { of_row = key; value = ratings key }) (all_keys players)

  unfoldable pub completed_event :
      Findings → TeamId → (quitters griefers dcs : List ℕ) → Desk R → Desk R
  completed_event found winning_team quitters griefers dcs desk = record desk {
    row = record desk.row {
      status = completed;
      completed_at = some found.now;
      players = map (report_player winning_team quitters griefers dcs nobody) desk.row.players;
    };
  }

-- `rate` is `applyMatchRatings`: what a match makes of the ratings.
module _ {R : Type 0} (rate : (RatingKey → R) → RatingUpdate → RatingKey → R) where
  unfoldable pub completed_league :
      Findings → TeamId → (quitters griefers dcs : List ℕ) → (mitigation : ℕ) → Desk R → Desk R
  completed_league found winning_team quitters griefers dcs mitigation desk = record desk {
    row = record desk.row {
      status = completed;
      completed_at = some found.now;
      rating_mitigation_percent = positive mitigation;
      approval_winner_team = none;
      mitigation_approval_message_id = none;
      players =
          map
            (λ player.
              accrue quitters griefers found.ki_of
                (report_player winning_team quitters griefers dcs found.was_new player))
            desk.row.players;
    };
    snapshots = snapshots_of desk.row.players desk.ratings;
    ratings = rate desk.ratings (record {
      entries = to_rating_entries desk.row.players quitters griefers dcs found.was_new;
      winning_team = winning_team;
      at_time = found.now;
      mitigation = mitigation;
    });
  }

  unfoldable pub complete_match :
      GameProfile
      → Findings
      → Desk R
      → (winning_team : TeamId) → GivenSlots
      → (mitigation_percent : ℕ) → Throws (Desk R)
  complete_match profile found desk winning_team given mitigation_percent =
      let players = desk.row.players in
      let quitters = resolve_slots MatchPlayer.is_quitter players given.quitters in
      let griefers = resolve_slots MatchPlayer.is_griefer players given.griefers in
      let dcs = resolve_slots MatchPlayer.is_dc players given.dcs in
      let mitigation = normalize_mitigation_percent mitigation_percent in
      guard (is_reportable_status desk.row.status) not_reportable
      >> guard (not (asks_report profile.post_match_stats) || desk.has_report) report_required
      >> assert_known_slots players quitters quitter
      >> assert_known_slots players griefers griefer
      >> assert_known_slots players dcs dc
      >> (if is_event_match desk.row
          then ok (completed_event found winning_team quitters griefers dcs desk)
          else require_league_id desk.row >>= λ league_id.
              guard (is_empty desk.snapshots) snapshots_exist
              >> ok (completed_league found winning_team quitters griefers dcs mitigation desk))
