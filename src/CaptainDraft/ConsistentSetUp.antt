-- ===== src/CaptainDraft/ConsistentSetUp.antt =====
-- The commands that fill the lists of a draft before it begins, `setCaptains` and `setMembers` of
-- apps/bot/src/services/captain-draft/draft-actions.ts, keep it consistent.
use trueskill_bot.CaptainDraft.ConsistentHost.{allowed_setup}
use trueskill_bot.CaptainDraft.Types.{DraftParticipant, Throws, setup, has_key}
use trueskill_bot.CaptainDraft.Actions.{
  DraftRow, exclude_captains_from_members, same_status, save_draft_state,
}
use trueskill_bot.CaptainDraft.Commands.{
  set_captains, set_members, set_captains_steps, set_members_steps,
}
use trueskill_bot.Common.{
  ok, List, [], ◌∷◌, String, ◌≡◌, arith, refl, Bool, any, count_if, err, subst, ◌≤◌, true,
  count_if-append,
}
use trueskill_bot.CaptainDraft.Consistent.{
  IsConsistent, HasDistinctEntrants, settle-keeps, StatusInv,
}

-- The list that a setup command resolves has keys that are distinct from one another and from those
-- of the other list: keys are random UUIDs.
abbrev pub AreFresh : (List DraftParticipant → Type 0) → Throws (List DraftParticipant) → Type 0
AreFresh P (ok xs) = P xs
AreFresh P (err e) = Unit

count_if-exclude_le :
    (p : DraftParticipant → Bool) (normalize : String → String)
    (captains members : List DraftParticipant)
    → count_if p (exclude_captains_from_members normalize captains members) ≤ count_if p members
unfolding exclude_captains_from_members
count_if-exclude_le p normalize captains [] = omega arith
count_if-exclude_le p normalize captains (m ∷ ms) =
    ground (arith, count_if-exclude_le p normalize captains ms)

set_captains_inv :
    (normalize : String → String) (row saved : DraftRow) (captains : List DraftParticipant)
    → set_captains_steps normalize row (ok captains) ≡ ok saved
    → (any (same_status row.status) (setup ∷ []) ≡ true)
      × (let state = row.state in
          saved
          ≡ save_draft_state row setup
              (record state { captains = captains; pick_order = []; teams = []; pick_index = 0 }))
set_captains_inv normalize row saved captains h = ground arith

pub set_captains-IsConsistent :
    (normalize : String → String) (row : DraftRow) (input : Throws (List DraftParticipant))
    → IsConsistent row
    → AreFresh (λ captains. HasDistinctEntrants captains row.state.member_pool) input
    → IsConsistent (set_captains normalize row input).0
unfolding set_captains
set_captains-IsConsistent normalize row (ok captains) c fresh =
    settle-keeps IsConsistent row (set_captains_steps normalize row (ok captains)) c
      λ saved h. let (_, e) = set_captains_inv normalize row saved captains h in rw e (refl, fresh)
set_captains-IsConsistent normalize row (err x) c fresh =
    settle-keeps IsConsistent row (set_captains_steps normalize row (err x)) c
      λ saved h. absurd (ground arith)

set_members_inv :
    (normalize : String → String) (row saved : DraftRow) (members : List DraftParticipant)
    → set_members_steps normalize row (ok members) ≡ ok saved
    → (any (same_status row.status) (setup ∷ []) ≡ true)
      × (let state = row.state in
          saved
          ≡ save_draft_state row setup (record state {
            member_pool = exclude_captains_from_members normalize row.state.captains members;
          }))
set_members_inv normalize row saved members h = ground arith

pub set_members-IsConsistent :
    (normalize : String → String) (row : DraftRow) (input : Throws (List DraftParticipant))
    → IsConsistent row
    → AreFresh (λ members. HasDistinctEntrants row.state.captains members) input
    → IsConsistent (set_members normalize row input).0
unfolding set_members
set_members-IsConsistent normalize row (ok members) c fresh =
    settle-keeps IsConsistent row (set_members_steps normalize row (ok members)) c λ saved h.
      let (fits, e) = set_members_inv normalize row saved members h in
      let c' = subst (λ t. StatusInv t row.state) (allowed_setup row.status fits) c in
      let captains = row.state.captains in
      rw e (
        c'.0,
        λ key. omega (
          arith,
          fresh key,
          count_if-exclude_le (has_key key) normalize captains members,
          count_if-append (has_key key) captains members,
          count_if-append (has_key key) captains
              (exclude_captains_from_members normalize captains members),
        ),
      )
set_members-IsConsistent normalize row (err x) c fresh =
    settle-keeps IsConsistent row (set_members_steps normalize row (err x)) c
      λ saved h. absurd (ground arith)
