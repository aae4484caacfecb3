-- ===== src/CaptainDraft/ConsistentMods.antt =====
-- The moderator's commands of apps/bot/src/services/captain-draft/draft-mod-actions.ts keep a stored
-- draft consistent with its status.
use trueskill_bot.CaptainDraft.WellFormed.{IsWellFormed}
use trueskill_bot.CaptainDraft.Sizes.{
  apply_pick-teams, move_participant-teams, swap_participants-teams, undo_last_pick-teams,
}
use trueskill_bot.CaptainDraft.Preserved.{apply_pick-IsWellFormed, undo_last_pick-IsWellFormed}
use trueskill_bot.CaptainDraft.PreservedByMods.{
  move_participant-IsWellFormed, swap_participants-IsWellFormed,
}
use trueskill_bot.CaptainDraft.Logic.{
  apply_pick, move_participant, swap_participants, undo_last_pick, next_status_after_mutation,
}
use trueskill_bot.CaptainDraft.Types.{
  CaptainDraftStatus, Throws, active, DraftState, setup, complete, cancelled,
}
use trueskill_bot.CaptainDraft.Actions.{
  DraftRow, assert_current_captain_pick, same_status, settle, save_draft_state,
}
use trueskill_bot.Common.{ok, [], ◌∷◌, String, ◌≡◌, refl, inl, subst, any, true, length}
use trueskill_bot.CaptainDraft.Consistent.{
  checked, checked-keeps, allowed_running, next_status-keeps, IsConsistent, StatusInv,
  next_status-StatusInv,
}
use trueskill_bot.CaptainDraft.Commands.{
  persist_and_refresh, apply_captain_draft_pick, mod_force_pick, mod_move_player, mod_swap_players,
  mod_undo_pick,
}

-- A command on a draft with teams, whose operation keeps the draft well formed.
running-IsConsistent :
    (row : DraftRow) (op : Throws DraftState)
    → IsConsistent row
    → ((s' : DraftState)
        → op ≡ ok s'
        → (IsWellFormed row.state → IsWellFormed s') × (length s'.teams ≡ length row.state.teams))
    → IsConsistent
        (settle row (checked row (active ∷ complete ∷ []) (ok tt) op (persist_and_refresh row))).0
running-IsConsistent row op c k =
    checked-keeps IsConsistent row (active ∷ complete ∷ []) (ok tt) op (persist_and_refresh row) c
      λ s' hop _ fits.
        let (fits', ne) = allowed_running row.status fits in
        let (w, n) = k s' hop in
        next_status-keeps row.status row.state s' c fits' (λ e _. absurd (ne e)) w n

pub mod_swap_players-IsConsistent :
    (row : DraftRow) (key_a key_b : String)
    → IsConsistent row
    → IsConsistent (mod_swap_players row key_a key_b).0
unfolding mod_swap_players
mod_swap_players-IsConsistent row key_a key_b c =
    running-IsConsistent row (swap_participants row.state key_a key_b) c (λ s' h. (
      λ w. swap_participants-IsWellFormed row.state s' key_a key_b w h,
      swap_participants-teams row.state s' key_a key_b h,
    ))

pub mod_move_player-IsConsistent :
    (row : DraftRow) (key to : String)
    → IsConsistent row
    → IsConsistent (mod_move_player row key to).0
unfolding mod_move_player
mod_move_player-IsConsistent row key to c =
    running-IsConsistent row (move_participant row.state key to) c (λ s' h. (
      λ w. move_participant-IsWellFormed row.state s' key to w h,
      move_participant-teams row.state s' key to h,
    ))

pub allowed_active :
    (status : CaptainDraftStatus) → any (same_status status) (active ∷ []) ≡ true → status ≡ active
allowed_active setup h = cc
allowed_active active h = refl
allowed_active complete h = cc
allowed_active cancelled h = cc

-- A pick or its undo, whoever is allowed to make it.
pub picking-IsConsistent :
    (row : DraftRow) (check : Throws (Unit {0})) (op : Throws DraftState)
    → IsConsistent row
    → ((s' : DraftState)
        → op ≡ ok s'
        → (IsWellFormed row.state → IsWellFormed s') × (length s'.teams ≡ length row.state.teams))
    → IsConsistent
        (settle row (
          checked row
            (active ∷ [])
            check
            op
            (λ s. save_draft_state row (next_status_after_mutation active s) s))).0
picking-IsConsistent row check op c k =
    checked-keeps IsConsistent row (active ∷ []) check op
      (λ s. save_draft_state row (next_status_after_mutation active s) s) c
      λ s' hop _ fits.
        let (w, n) = k s' hop in
        let c' = subst (λ t. StatusInv t row.state) (allowed_active row.status fits) c in
        next_status-StatusInv active s' (inl refl) (w c'.0) (rw n c'.1)

pub mod_force_pick-IsConsistent :
    (row : DraftRow) (key : String) → IsConsistent row → IsConsistent (mod_force_pick row key).0
unfolding mod_force_pick
mod_force_pick-IsConsistent row key c =
    picking-IsConsistent row (ok tt) (apply_pick row.state key) c (λ s' h.
      (λ w. apply_pick-IsWellFormed row.state s' key w h, apply_pick-teams row.state s' key h))

pub apply_captain_draft_pick-IsConsistent :
    (row : DraftRow) (actor key : String)
    → IsConsistent row
    → IsConsistent (apply_captain_draft_pick row actor key).0
unfolding apply_captain_draft_pick
apply_captain_draft_pick-IsConsistent row actor key c =
    picking-IsConsistent row (assert_current_captain_pick row.state actor)
      (apply_pick row.state key) c
      (λ s' h.
        (λ w. apply_pick-IsWellFormed row.state s' key w h, apply_pick-teams row.state s' key h))

pub mod_undo_pick-IsConsistent :
    (row : DraftRow) → IsConsistent row → IsConsistent (mod_undo_pick row).0
unfolding mod_undo_pick
mod_undo_pick-IsConsistent row c =
    checked-keeps IsConsistent row (active ∷ []) (ok tt) (undo_last_pick row.state)
      (persist_and_refresh row) c
      λ s' hop _ fits.
        let st = allowed_active row.status fits in
        let c' = subst (λ t. StatusInv t row.state) st c in
        next_status-StatusInv row.status s' (inl st)
          (undo_last_pick-IsWellFormed row.state s' c'.0 hop)
          (rw (undo_last_pick-teams row.state s' hop) c'.1)
