-- ===== src/CaptainDraft/Authority.antt =====
-- Who may pick: `assertCurrentCaptainPick` of
-- apps/bot/src/services/captain-draft/draft-auth.ts in front of `applyPick`.
use trueskill_bot.CaptainDraft.ConsistentMods.{allowed_active}
use trueskill_bot.CaptainDraft.Consistent.{checked}
use trueskill_bot.CaptainDraft.Logic.{
  current_captain_key, find_participant, apply_pick, next_status_after_mutation,
}
use trueskill_bot.CaptainDraft.Commands.{apply_captain_draft_pick}
use trueskill_bot.CaptainDraft.Types.{Throws, DraftState, DraftParticipant, active}
use trueskill_bot.Common.{
  ok, [], ◌∷◌, String, ◌≡◌, arith, refl, none, some, Option-cases, any, inl, inr, eq_iff, true,
  Bool-cases, ◌∙◌, ap, sym, err,
}
use trueskill_bot.CaptainDraft.Actions.{
  DraftRow, assert_current_captain_pick, settle, save_draft_state, same_status,
}

assert_current_captain_pick_sound :
    (s : DraftState) (actor : String)
    → assert_current_captain_pick s actor ≡ ok tt
    → (key : String) × (captain : DraftParticipant) × (current_captain_key s ≡ some key)
      × (find_participant s key ≡ some captain)
      × (captain.discord_id ≡ some actor)
unfolding assert_current_captain_pick
assert_current_captain_pick_sound s actor h = elim (Option-cases (current_captain_key s)) [
  | inl nobody ↦ absurd (ground arith)
  | inr (key, on_clock) ↦ elim (Option-cases (find_participant s key)) [
    | inl missing ↦ absurd (ground arith)
    | inr (captain, found) ↦ elim (Option-cases captain.discord_id) [
      | inl unlinked ↦ absurd (ground arith)
      | inr (id, linked) ↦
          let same : id ≡ actor = ground (arith, eq_iff id actor) in
          (key, captain, on_clock, found, linked ∙ ap some same)
    ]
  ]
]

accepted_pick_inv :
    (row saved : DraftRow) (check : Throws (Unit {0})) (op : Throws DraftState)
    → settle row (
        checked row
          (active ∷ [])
          check
          op
          (λ s. save_draft_state row (next_status_after_mutation active s) s))
      ≡ (saved, none)
    → (s' : DraftState) × (op ≡ ok s')
      × (check ≡ ok tt)
      × (any (same_status row.status) (active ∷ []) ≡ true)
      × (saved ≡ save_draft_state row (next_status_after_mutation active s') s')
accepted_pick_inv row saved (ok tt) (ok s') h =
    elim (Bool-cases (any (same_status row.status) (active ∷ []))) [
      | inl fits ↦ let h' = rw fits at h in (s', refl, refl, fits, sym (ap (λ o. o.0) h'))
      | inr other ↦ let h' = rw other at h in cc
    ]
accepted_pick_inv row saved (ok tt) (err e) h = absurd (ground arith)
accepted_pick_inv row saved (err e) op h = absurd (ground arith)

-- A pick is accepted only in an active draft, and only from the Discord account that is linked to
-- the captain on the clock. What is stored is the pick, with the draft complete when the pool has
-- run empty.
pub apply_captain_draft_pick_authority :
    (row saved : DraftRow) (actor participant_key : String)
    → apply_captain_draft_pick row actor participant_key ≡ (saved, none)
    → (s' : DraftState) × (captain_key : String) × (captain : DraftParticipant) × (row.status
        ≡ active)
      × (current_captain_key row.state ≡ some captain_key)
      × (find_participant row.state captain_key ≡ some captain)
      × (captain.discord_id ≡ some actor)
      × (apply_pick row.state participant_key ≡ ok s')
      × (saved ≡ save_draft_state row (next_status_after_mutation active s') s')
unfolding apply_captain_draft_pick
apply_captain_draft_pick_authority row saved actor key h =
    let (s', hop, hc, fits, e) =
      accepted_pick_inv row saved (assert_current_captain_pick row.state actor)
        (apply_pick row.state key) h in
    let (ck, captain, on_clock, found, linked) =
      assert_current_captain_pick_sound row.state actor hc in
    (s', ck, captain, allowed_active row.status fits, on_clock, found, linked, hop, e)
