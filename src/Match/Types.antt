-- ===== src/Match/Types.antt =====
-- The rows of a match, `Match` and `MatchPlayer` of packages/db/prisma/schema.prisma with the columns
-- that the modelled code reads or writes, and the errors of apps/bot/src/services/match, a constructor
-- for each message.
use trueskill_bot.Common.{ℕ, String, Bool, Option, List, Result}
use trueskill_bot.Game.{TeamId}

pub data MatchStatus : Type 0 where
  pending in_progress waiting_for_approval waiting_for_mitigation_approval : MatchStatus
  completed cancelled : MatchStatus

pub data MatchResult : Type 0 where
  win loss : MatchResult

-- `team` is 1 or 2: it is only written from `teamForSlot`.
pub record MatchPlayer : Type 0 where
  pub player_id : String
  pub nick : List ℕ
  pub team : TeamId
  pub slot : ℕ
  pub hero_id : Option ℕ
  pub result : Option MatchResult
  pub is_quitter : Bool
  pub is_griefer : Bool
  pub is_dc : Bool
  pub locked : Bool
  pub side_locked : Bool
  pub griefer_ki_accrued : Option ℕ
  pub was_new_player : Bool

pub record Match : Type 0 where
  pub id : String
  pub status : MatchStatus
  pub host_discord_id : String
  pub league_id : Option String
  pub event_id : Option String
  pub approval_winner_team : Option ℕ
  pub rating_mitigation_percent : Option ℕ
  pub mitigation_approval_message_id : Option String
  pub completed_at : Option ℕ
  pub players : List MatchPlayer

pub record RatingRosterEntry : Type 0 where
  pub player_id : String
  pub slot : ℕ
  pub team : TeamId
  pub hero_id : Option ℕ
  pub is_quitter : Bool
  pub is_griefer : Bool
  pub is_dc : Bool
  pub was_new_player : Bool

-- The arguments of a call of `applyMatchRatings`.
pub record RatingUpdate : Type 0 where
  pub entries : List RatingRosterEntry
  pub winning_team : TeamId
  pub at_time : ℕ
  pub mitigation : ℕ

-- A rating row of a league: a player's `PlayerRating`, or with a hero a `PlayerHeroRating`.
pub record RatingKey : Type 0 where
  pub player : String
  pub hero : Option ℕ

-- A `MatchRatingSnapshot`: the rating row that it keeps, and its numbers.
pub record Snapshot (R : Type 0) : Type 0 where
  pub of_row : RatingKey
  pub value : R

-- A match with what else belongs to it: the ratings of its league (`R` has the numbers of a rating
-- row), its snapshots, and whether it has a stats report.
pub record Desk (R : Type 0) : Type 0 where
  pub row : Match
  pub ratings : RatingKey → R
  pub snapshots : List (Snapshot R)
  pub has_report : Bool

pub data SlotLabel : Type 0 where
  quitter griefer dc : SlotLabel

-- `MatchServiceError`, as these files throw it.
pub data MatchError : Type 0 where
  not_in_progress not_reportable not_waiting not_waiting_for_mitigation : MatchError
  not_pending not_editable not_cancellable : MatchError
  no_player_in_slot : SlotLabel → ℕ → MatchError
  report_required not_a_league_match no_winner no_mitigation : MatchError
  empty_nick : MatchError
  duplicate_nick : (nick : List ℕ) → MatchError
  team_without_players league_archived season_paused : MatchError
  not_finished nobody_to_clear not_marked : MatchError
  slot_out_of_range : MatchError
  empty_slot nobody_to_lock : (slot : ℕ) → MatchError
  frozen_by_draft : MatchError
  snapshots_exist snapshots_missing : MatchError
  not_completed too_late : MatchError

abbrev pub Throws {ℓ} : Type ℓ → Type ℓ
Throws A = Result MatchError A
