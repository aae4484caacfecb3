-- ===== src/Match/Report.antt =====
-- The report of a match: apps/bot/src/services/match/match-report.ts. A set of slots is a list. The
-- display numbers, previews and marks for Discord roles that the code refreshes after a write are left
-- out.
use trueskill_bot.Common.{
  Bool, List, Option, String, map, ℕ, false, filter, get_or_else, guard, if◌then◌else◌, is_some,
  not, ok, require, some, true, ◌+◌, ◌==◌, ◌∷◌, [], any, ltb, none, ◌&&◌, ◌/◌, ◌>>◌, ◌||◌,
}
use trueskill_bot.Game.{TeamId}
use trueskill_bot.LobbyRoster.Locks.{has_slot}
use trueskill_bot.LobbyRoster.Logic.{same_team}
use trueskill_bot.Match.Types.{
  MatchStatus, in_progress, waiting_for_approval, waiting_for_mitigation_approval, completed,
  cancelled, MatchResult, win, loss, MatchPlayer, Match, RatingRosterEntry, Desk, SlotLabel,
  quitter, griefer, dc, Throws, not_reportable, no_player_in_slot, not_a_league_match,
}

abbrev pub is_event_match : Match → Bool
is_event_match row = is_some row.event_id

abbrev pub require_league_id : Match → Throws String
require_league_id row = require row.league_id not_a_league_match

abbrev pub is_in_progress : MatchStatus → Bool
is_in_progress in_progress = true
is_in_progress _ = false

abbrev pub is_reportable_status : MatchStatus → Bool
is_reportable_status in_progress = true
is_reportable_status waiting_for_approval = true
is_reportable_status waiting_for_mitigation_approval = true
is_reportable_status _ = false

abbrev pub is_finished : MatchStatus → Bool
is_finished completed = true
is_finished cancelled = true
is_finished _ = false

abbrev pub slots_of : (MatchPlayer → Bool) → List MatchPlayer → List ℕ
slots_of flag players = map MatchPlayer.slot (filter flag players)

abbrev pub insert_slot : ℕ → List ℕ → List ℕ
insert_slot n [] = n ∷ []
insert_slot n (m ∷ ms) =
    let rest = insert_slot n ms in
    if n == m then m ∷ ms else if ltb n m then n ∷ m ∷ ms else m ∷ rest

-- `[...new Set(slots)].sort((a, b) => a - b)`.
abbrev pub normalize_slots : List ℕ → List ℕ
normalize_slots [] = []
normalize_slots (n ∷ slots) = insert_slot n (normalize_slots slots)

-- `resolveQuitterSlots`, `resolveGrieferSlots` and `resolveDcSlots`: the slots that are given, or
-- those with the flag.
abbrev pub resolve_slots : (MatchPlayer → Bool) → List MatchPlayer → Option (List ℕ) → List ℕ
resolve_slots flag players given = normalize_slots (get_or_else (slots_of flag players) given)

abbrev pub is_at : ℕ → MatchPlayer → Bool
is_at slot player = player.slot == slot

unfoldable pub assert_known_slots : List MatchPlayer → List ℕ → SlotLabel → Throws (Unit {0})
assert_known_slots players [] label = ok tt
assert_known_slots players (slot ∷ slots) label =
    let rest = assert_known_slots players slots label in
    guard (any (is_at slot) players) (no_player_in_slot label slot) >> rest

-- The writes of `setQuitters`, `setGriefers` and `setDcs` to one player.
abbrev pub mark_quitter : List ℕ → MatchPlayer → MatchPlayer
mark_quitter slots player =
    if has_slot slots player.slot
    then record player { is_quitter = true; is_griefer = false; is_dc = false }
    else record player { is_quitter = false }

abbrev pub mark_griefer : List ℕ → MatchPlayer → MatchPlayer
mark_griefer slots player =
    if has_slot slots player.slot
    then record player { is_griefer = true; is_quitter = false }
    else record player { is_griefer = false; griefer_ki_accrued = none }

abbrev pub mark_dc : List ℕ → MatchPlayer → MatchPlayer
mark_dc slots player =
    if has_slot slots player.slot
    then record player { is_dc = true; is_quitter = false }
    else record player { is_dc = false }

-- `normalizeMitigationPercent` of apps/bot/src/services/rating/rating-mitigation.ts.
abbrev pub normalize_mitigation_percent : ℕ → ℕ
normalize_mitigation_percent value = if value == 25 || value == 35 || value == 50 then value else 0

-- `mitigation > 0 ? mitigation : null`.
abbrev pub positive : ℕ → Option ℕ
positive n = if ltb 0 n then some n else none

unfoldable pub to_rating_entries :
    List MatchPlayer
    → (quitters griefers dcs : List ℕ) → (was_new : String → Bool) → List RatingRosterEntry
to_rating_entries players quitters griefers dcs was_new = map entry players
  where
    entry : MatchPlayer → RatingRosterEntry
    entry player = record {
      player_id = player.player_id;
      slot = player.slot;
      team = player.team;
      hero_id = player.hero_id;
      is_quitter = has_slot quitters player.slot;
      is_griefer = has_slot griefers player.slot;
      is_dc = not (has_slot quitters player.slot) && has_slot dcs player.slot;
      was_new_player = was_new player.player_id;
    }

-- `computeGrieferKiAccrual` of apps/bot/src/services/rating/griefer-tax.ts: a quarter of a whole
-- number, rounded half up, and 500 at most.
abbrev pub compute_griefer_ki_accrual : ℕ → ℕ
compute_griefer_ki_accrual global_ki =
    let raw = (global_ki + 2) / 4 in if ltb raw 500 then raw else 500

abbrev pub result_of : TeamId → TeamId → MatchResult
result_of winning_team team = if same_team team winning_team then win else loss

-- What a completed match writes to one player.
abbrev pub report_player :
    (winning_team : TeamId) (quitters griefers dcs : List ℕ) (was_new : String → Bool)
    → MatchPlayer
    → MatchPlayer
report_player winning_team quitters griefers dcs was_new player =
    let quits = has_slot quitters player.slot in
    record player {
      is_quitter = quits;
      is_griefer = has_slot griefers player.slot;
      is_dc = not quits && has_slot dcs player.slot;
      result = some (result_of winning_team player.team);
      was_new_player = was_new player.player_id;
    }

-- `accrueGrieferPenalties` of apps/bot/src/services/rating/rating-update.ts on one player; `ki_of` is
-- the display ki of a player before the match, or 0 if that is negative.
abbrev pub accrue : (quitters griefers : List ℕ) (ki_of : String → ℕ) → MatchPlayer → MatchPlayer
accrue quitters griefers ki_of player = record player {
  griefer_ki_accrued =
      if has_slot griefers player.slot && not (has_slot quitters player.slot)
      then some (compute_griefer_ki_accrual (ki_of player.player_id))
      else none;
}

module _ {R : Type 0} where
  abbrev pub with_players : (MatchPlayer → MatchPlayer) → Desk R → Desk R
  with_players f desk = record desk { row = record desk.row { players = map f desk.row.players } }

  -- The three have one shape. `seen` is the match that the call has loaded; the status is checked once
  -- more in the transaction.
  unfoldable pub set_flags :
      SlotLabel
      → (List ℕ → MatchPlayer → MatchPlayer)
      → (seen : Match) → Desk R
      → List ℕ
      → Throws (Desk R)
  set_flags label mark seen desk slots =
      guard (is_reportable_status seen.status) not_reportable
      >> assert_known_slots seen.players slots label
      >> guard (is_reportable_status desk.row.status) not_reportable
      >> ok (with_players (mark slots) desk)

  unfoldable pub set_quitters : (seen : Match) → Desk R → List ℕ → Throws (Desk R)
  unfolding set_flags
  set_quitters seen desk slots = set_flags quitter mark_quitter seen desk slots

  unfoldable pub set_griefers : (seen : Match) → Desk R → List ℕ → Throws (Desk R)
  unfolding set_flags
  set_griefers seen desk slots = set_flags griefer mark_griefer seen desk slots

  unfoldable pub set_dcs : (seen : Match) → Desk R → List ℕ → Throws (Desk R)
  unfolding set_flags
  set_dcs seen desk slots = set_flags dc mark_dc seen desk slots
