-- ===== src/CaptainDraft/Moves.antt =====
-- Moving a player to another team: `moveParticipant` of
-- apps/bot/src/services/captain-draft/draft-logic.ts.
use trueskill_bot.Common.{
  ℕ, String, ◌≡◌, ok, SameItems, false, find_index?, find_index?_sound, get_elem?, modify, some,
  arith, true, get_elem?-modify_ne, Option-cases, count_if-append, ◌∙◌, inl, ◌∷◌, [], inr,
}
use trueskill_bot.CaptainDraft.Types.{DraftState, has_captain, DraftTeam, DraftParticipant, has_key}
use trueskill_bot.CaptainDraft.Logic.{
  move_participant, take_out, ParticipantLocation, is_on_team, add_to_roster, pool, team,
  is_captain_key, locate_participant, find_participant,
}
use trueskill_bot.CaptainDraft.Members.{everyone, count_if-rostered-modify, rostered}
use trueskill_bot.CaptainDraft.Removal.{count_if-take_out}
use trueskill_bot.CaptainDraft.Locate.{At}
use trueskill_bot.CaptainDraft.Exchange.{find_participant-At}
use trueskill_bot.CaptainDraft.WellFormed.{HasDistinctKeys}

-- The target team is still there, with its roster, after the participant has left another place.
take_out-target :
    (s : DraftState) (loc : ParticipantLocation) (key : String) (target : ℕ) {u : DraftTeam}
    → is_on_team target loc ≡ false
    → get_elem? s.teams target ≡ some u
    → get_elem? (take_out s loc key).teams target ≡ some u
take_out-target s (pool i) key target d h = h
take_out-target s (team i j) key target d h =
    get_elem?-modify_ne s.teams i target _ (ground arith) ∙ h

pub move_participant_inv :
    (s s' : DraftState) (key to_captain_key : String)
    → move_participant s key to_captain_key ≡ ok s'
    → (target : ℕ) × (loc : ParticipantLocation) × (x : DraftParticipant) × (find_index?
          (has_captain to_captain_key)
          s.teams
        ≡ some target)
      × At s loc x
      × (has_key key x ≡ true)
      × (is_on_team target loc ≡ false)
      × (is_captain_key s key ≡ false)
      × (let next = take_out s loc key in
          s' ≡ record next { teams = modify next.teams target (add_to_roster x) })
unfolding move_participant
move_participant_inv s s' key to h = elim (Option-cases (find_index? (has_captain to) s.teams)) [
  | inl missing ↦ absurd (ground arith)
  | inr (target, ft) ↦ elim (Option-cases (locate_participant s key)) [
    | inl missing ↦ absurd (ground arith)
    | inr (loc, fl) ↦ elim (Option-cases (find_participant s key)) [
      | inl missing ↦ absurd (ground arith)
      | inr (x, fx) ↦
          let (hx, hk) = find_participant-At s key loc x fl fx in
          (target, loc, x, ft, hx, hk, ground arith, ground arith, ground arith)
    ]
  ]
]

pub move_participant-SameItems :
    (s s' : DraftState) (key to_captain_key : String)
    → HasDistinctKeys s
    → move_participant s key to_captain_key ≡ ok s'
    → SameItems (everyone s') (everyone s)
move_participant-SameItems s s' key to d h p =
    let (target, loc, x, ft, hx, hk, away, _, e) = move_participant_inv s s' key to h in
    let (u, hu, _) = find_index?_sound (has_captain to) s.teams target ft in
    let next = take_out s loc key in
    let teams' = modify next.teams target (add_to_roster x) in
    rw e (
      omega (
        arith,
        count_if-take_out p s loc key x d hx hk,
        count_if-rostered-modify p next.teams target (add_to_roster x)
            (take_out-target s loc key target away hu),
        count_if-append p u.roster (x ∷ []),
        count_if-append p next.member_pool (rostered next.teams),
        count_if-append p next.member_pool (rostered teams'),
      ))
