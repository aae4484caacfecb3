-- ===== src/Match/Flip.antt =====
-- A flip of a completed match against its completion with the other winner.
use trueskill_bot.Common.{Bool, List, ℕ, String}
use trueskill_bot.Game.{TeamId}
use trueskill_bot.Match.Types.{MatchPlayer}
use trueskill_bot.Match.Report.{report_player, accrue}
use trueskill_bot.Match.Correction.{flip_player, accrue_again}

module _ (quitters griefers dcs : List ℕ) (was_new : String → Bool) (ki_of : String → ℕ)
    (team team' : TeamId) where
  abbrev reported : MatchPlayer → MatchPlayer
  reported player =
      accrue quitters griefers ki_of (report_player team quitters griefers dcs was_new player)

  abbrev reported_anew : MatchPlayer → MatchPlayer
  reported_anew player =
      accrue quitters griefers ki_of (report_player team' quitters griefers dcs was_new player)

  abbrev flipped : MatchPlayer → MatchPlayer
  flipped player = accrue_again quitters ki_of (flip_player team' quitters player)
