-- ===== src/Match/Progress.antt =====
-- The approval of a mitigation always completes the match.
use trueskill_bot.Common.{
  Bool, List, String, ℕ, All, any, some, ◌∷◌, ◌≡◌, Bool-cases, [], ap, none, ok, true, false, inl,
  not, refl, ◌==◌, ◌||◌, arith, inr, ◌∙◌, Option-cases, ltb, get_or_else,
}
use trueskill_bot.Game.{GameProfile, TeamId}
use trueskill_bot.Match.Types.{
  completed, MatchPlayer, RatingUpdate, RatingKey, Desk, SlotLabel, quitter, griefer, dc,
}
use trueskill_bot.Match.Report.{
  is_event_match, is_reportable_status, slots_of, resolve_slots, insert_slot, normalize_slots,
  is_at, assert_known_slots, normalize_mitigation_percent,
}
use trueskill_bot.Match.Completion.{
  Findings, GivenSlots, asks_report, completed_league, complete_match,
}
use trueskill_bot.Match.Approval.{
  is_waiting_for_mitigation, stored_winner, approve_mitigation_match,
}
use trueskill_bot.Match.Sound.{IsSound}

-- Each slot has a player.
abbrev Known : List MatchPlayer → List ℕ → Type 0
Known players slots = All (λ slot. any (is_at slot) players ≡ true) slots

insert_slot-Known :
    (players : List MatchPlayer) (n : ℕ) (slots : List ℕ)
    → any (is_at n) players ≡ true
    → Known players slots
    → Known players (insert_slot n slots)
insert_slot-Known players n [] here known = (here, tt)
insert_slot-Known players n (m ∷ slots) here known =
    let rest = insert_slot-Known players n slots here known.1 in
    elim (Bool-cases (n == m)) [
      | inl same ↦ rw same known
      | inr differs ↦ elim (Bool-cases (ltb n m)) [
        | inl below ↦ rw (differs, below) ((here, known))
        | inr above ↦ rw (differs, above) ((known.0, rest))
      ]
    ]

normalize_slots-Known :
    (players : List MatchPlayer) (slots : List ℕ)
    → Known players slots
    → Known players (normalize_slots slots)
normalize_slots-Known players [] known = tt
normalize_slots-Known players (n ∷ slots) known =
    insert_slot-Known players n (normalize_slots slots) known.0
      (normalize_slots-Known players slots known.1)

Known-cons :
    (player : MatchPlayer) (players : List MatchPlayer) (slots : List ℕ)
    → Known players slots
    → Known (player ∷ players) slots
Known-cons player players [] known = tt
Known-cons player players (slot ∷ slots) known = (
  ap (λ b. is_at slot player || b) known.0 ∙ ground arith,
  Known-cons player players slots known.1,
)

slots_of-Known :
    (flag : MatchPlayer → Bool) (players : List MatchPlayer) → Known players (slots_of flag players)
slots_of-Known flag [] = tt
slots_of-Known flag (player ∷ players) =
    let rest = Known-cons player players (slots_of flag players) (slots_of-Known flag players) in
    elim (Bool-cases (flag player)) [
      | inl flagged ↦ rw flagged ((ground arith, rest))
      | inr other ↦ rw other rest
    ]

assert_known_slots-Known :
    (players : List MatchPlayer) (slots : List ℕ) (label : SlotLabel)
    → Known players slots
    → assert_known_slots players slots label ≡ ok tt
unfolding assert_known_slots
assert_known_slots-Known players [] label known = refl
assert_known_slots-Known players (slot ∷ slots) label known =
    rw (known.0, assert_known_slots-Known players slots label known.1) refl

-- The slots that a report takes from the flags, or from a list of such slots, have players.
flagged_slots :
    (flag : MatchPlayer → Bool) (players : List MatchPlayer) (label : SlotLabel)
    → assert_known_slots players
        (resolve_slots flag players (some (resolve_slots flag players none)))
        label
      ≡ ok tt
flagged_slots flag players label = assert_known_slots-Known players _ label (
    normalize_slots-Known players _ (normalize_slots-Known players _ (slots_of-Known flag players)))

module _ {R : Type 0} (rate : (RatingKey → R) → RatingUpdate → RatingKey → R) where
  complete_accepted :
      (profile : GameProfile) (found : Findings) (desk : Desk R) (team : TeamId)
      (given : GivenSlots) (percent : ℕ) (league : String)
      → is_reportable_status desk.row.status ≡ true
      → (not (asks_report profile.post_match_stats) || desk.has_report) ≡ true
      → is_event_match desk.row ≡ false
      → desk.row.league_id ≡ some league
      → desk.snapshots ≡ []
      → assert_known_slots desk.row.players
          (resolve_slots MatchPlayer.is_quitter desk.row.players given.quitters)
          quitter
        ≡ ok tt
      → assert_known_slots desk.row.players
          (resolve_slots MatchPlayer.is_griefer desk.row.players given.griefers)
          griefer
        ≡ ok tt
      → assert_known_slots desk.row.players
          (resolve_slots MatchPlayer.is_dc desk.row.players given.dcs)
          dc
        ≡ ok tt
      → complete_match rate profile found desk team given percent
        ≡ ok (
            completed_league rate found team
              (resolve_slots MatchPlayer.is_quitter desk.row.players given.quitters)
              (resolve_slots MatchPlayer.is_griefer desk.row.players given.griefers)
              (resolve_slots MatchPlayer.is_dc desk.row.players given.dcs)
              (normalize_mitigation_percent percent)
              desk)
  unfolding complete_match
  complete_accepted profile found desk team given percent league open_before reported no_event
        of_league fresh q g d =
      ground arith

  -- In a match of a league that keeps the invariant of matches and waits for the approval of its
  -- mitigation, the approval is accepted and completes the match, if the game asks for no stats report
  -- or the match has one.
  pub approve_mitigation_match_progress :
      (profile : GameProfile) (found : Findings) (desk : Desk R) (league : String)
      → IsSound desk
      → is_waiting_for_mitigation desk.row.status ≡ true
      → is_event_match desk.row ≡ false
      → desk.row.league_id ≡ some league
      → (not (asks_report profile.post_match_stats) || desk.has_report) ≡ true
      → (desk' : Desk R) × (approve_mitigation_match rate profile found desk.row desk ≡ ok desk')
        × (desk'.row.status ≡ completed)
  unfolding approve_mitigation_match completed_league
  approve_mitigation_match_progress profile found desk league sound waits no_event of_league
        reported =
      let players = desk.row.players in
      let winner = sound.winner waits in
      let fresh = sound.fresh (ground arith) in
      elim (Option-cases (stored_winner desk.row.approval_winner_team)) [
        | inl nobody ↦ absurd (ground arith)
        | inr (team, won) ↦
            let given : GivenSlots = record {
              quitters = some (resolve_slots MatchPlayer.is_quitter players none);
              griefers = some (resolve_slots MatchPlayer.is_griefer players none);
              dcs = some (resolve_slots MatchPlayer.is_dc players none);
            } in
            let percent =
              normalize_mitigation_percent (get_or_else 0 desk.row.rating_mitigation_percent) in
            let accepted =
              complete_accepted profile found desk team given percent league (ground arith) reported
                no_event of_league fresh (flagged_slots MatchPlayer.is_quitter players quitter)
                (flagged_slots MatchPlayer.is_griefer players griefer)
                (flagged_slots MatchPlayer.is_dc players dc) in
            let approved : approve_mitigation_match rate profile found desk.row desk
                ≡ complete_match rate profile found desk team given percent =
              rw (waits, won) refl in
            (
              completed_league rate found team
                  (resolve_slots MatchPlayer.is_quitter players given.quitters)
                  (resolve_slots MatchPlayer.is_griefer players given.griefers)
                  (resolve_slots MatchPlayer.is_dc players given.dcs)
                  (normalize_mitigation_percent percent) desk,
              approved ∙ accepted,
              refl,
            )
      ]
