-- ===== src/Match/Closing.antt =====
-- The end of a match without a winner, and the flags of one that has ended: `cancelInProgressMatch`,
-- `clearMatchGriefers` and `clearMatchDcs` of apps/bot/src/services/match/match-report.ts.
use trueskill_bot.Common.{
  Bool, List, Option, String, ℕ, ◌||◌, guard, if◌then◌else◌, is_some, none, some, false, true, ◌>>◌,
  ◌∷◌, ok, ◌>>=◌, any, ◌&&◌,
}
use trueskill_bot.LobbyRoster.Locks.{has_slot}
use trueskill_bot.Match.Types.{
  cancelled, MatchPlayer, Desk, SlotLabel, griefer, dc, Throws, not_in_progress, not_finished,
  nobody_to_clear, not_marked,
}
use trueskill_bot.Match.Report.{
  is_in_progress, is_finished, is_event_match, require_league_id, resolve_slots, slots_of,
  assert_known_slots, accrue, with_players, mark_dc,
}
use trueskill_bot.Match.Approval.{with_row}

-- The griefers' write of `cancelInProgressMatch`, which keeps the tax of those who are none.
abbrev pub cancel_griefer : List ℕ → MatchPlayer → MatchPlayer
cancel_griefer slots player =
    if has_slot slots player.slot
    then record player { is_griefer = true; is_quitter = false }
    else record player { is_griefer = false }

-- A write that is made only where slots are given.
abbrev pub where_given :
    (List ℕ → MatchPlayer → MatchPlayer) → Option (List ℕ) → MatchPlayer → MatchPlayer
where_given mark none player = player
where_given mark (some slots) player = mark slots player

abbrev pub clear_griefer : List ℕ → MatchPlayer → MatchPlayer
clear_griefer targets player =
    if has_slot targets player.slot
    then record player { is_griefer = false; griefer_ki_accrued = none }
    else player

abbrev pub clear_dc : List ℕ → MatchPlayer → MatchPlayer
clear_dc targets player =
    if has_slot targets player.slot then record player { is_dc = false } else player

abbrev pub has_griefer_mark : MatchPlayer → Bool
has_griefer_mark player = player.is_griefer || is_some player.griefer_ki_accrued

-- `slots !== undefined && slots.length > 0 ? slots : ...`, with the check of the slots that are given.
abbrev pub target_slots :
    (MatchPlayer → Bool) → SlotLabel → List MatchPlayer → Option (List ℕ) → Throws (List ℕ)
target_slots flag label players (some (slot ∷ slots)) =
    assert_known_slots players (slot ∷ slots) label >> ok (slot ∷ slots)
target_slots flag label players _ =
    let targets = slots_of flag players in guard (any flag players) nobody_to_clear >> ok targets

module _ {R : Type 0} where
  unfoldable pub cancel_in_progress_match :
      (ki_of : String → ℕ) → Desk R → (griefer_slots dc_slots : Option (List ℕ)) → Throws (Desk R)
  cancel_in_progress_match ki_of desk griefer_slots dc_slots =
      let players = desk.row.players in
      let quitters = resolve_slots MatchPlayer.is_quitter players none in
      let griefers = resolve_slots MatchPlayer.is_griefer players griefer_slots in
      let dcs = resolve_slots MatchPlayer.is_dc players dc_slots in
      let marked : MatchPlayer → MatchPlayer =
        λ player. where_given mark_dc dc_slots (where_given cancel_griefer griefer_slots player) in
      let cancel : Desk R → Desk R = with_row (λ row. record row { status = cancelled }) in
      guard (is_in_progress desk.row.status) not_in_progress
      >> assert_known_slots players griefers griefer
      >> assert_known_slots players dcs dc
      >> (if is_event_match desk.row
          then ok (cancel (with_players marked desk))
          else require_league_id desk.row >>= λ league_id. ok (
              cancel
                (with_players (λ player. accrue quitters griefers ki_of (marked player)) desk)))

  unfoldable pub clear_match_griefers : Desk R → Option (List ℕ) → Throws (Desk R)
  clear_match_griefers desk slots =
      guard (is_finished desk.row.status) not_finished
      >> target_slots MatchPlayer.is_griefer griefer desk.row.players slots
      >>= λ targets.
          guard
            (any (λ player. has_slot targets player.slot && has_griefer_mark player)
              desk.row.players)
            not_marked
          >> ok (with_players (clear_griefer targets) desk)

  unfoldable pub clear_match_dcs : Desk R → Option (List ℕ) → Throws (Desk R)
  clear_match_dcs desk slots =
      guard (is_finished desk.row.status) not_finished
      >> target_slots MatchPlayer.is_dc dc desk.row.players slots
      >>= λ targets.
          guard (any (λ player. has_slot targets player.slot && player.is_dc) desk.row.players)
            not_marked
          >> ok (with_players (clear_dc targets) desk)
