-- ===== src/CaptainDraft/Commands.antt =====
-- The commands of apps/bot/src/services/captain-draft/draft-actions.ts and draft-mod-actions.ts on
-- the row that they load, whole: status checks, the pure operation, and the status that is stored.
use trueskill_bot.Common.Rng.{Rng}
use trueskill_bot.CaptainDraft.Logic.{
  add_to_pool, add_to_team, next_status_after_mutation, remove_from_pool, remove_from_team,
  apply_pick, move_participant, swap_participants, undo_last_pick, replace_participant,
  shuffle_pick_order, build_teams_from_captains,
}
use trueskill_bot.Common.{
  ℕ, ok, List, [], ◌∷◌, String, Option, Bool, if◌then◌else◌, some, any, err, true, false, none,
  ◌>>◌, guard, ◌>>=◌, not, ltb, length,
}
use trueskill_bot.CaptainDraft.Types.{
  CaptainDraftStatus, setup, active, complete, cancelled, DraftParticipant, DraftState, Throws,
  choose_a_team, has_key, not_in_draft, already_in_draft, too_few_captains, too_few_members,
}
use trueskill_bot.CaptainDraft.Actions.{
  DraftRow, Outcome, settle, assert_draft_status, save_draft_state, assert_current_captain_pick,
  assert_team_captain_rename, assert_no_captain_member_overlap, exclude_captains_from_members,
  rename_team_in_state, is_in_draft,
}

-- `persistAndRefresh`.
abbrev pub persist_and_refresh : DraftRow → DraftState → DraftRow
persist_and_refresh row state =
    save_draft_state row (next_status_after_mutation row.status state) state

abbrev pub set_captains_steps :
    (String → String) → DraftRow → Throws (List DraftParticipant) → Throws DraftRow
set_captains_steps normalize row input = do
  assert_draft_status row (setup ∷ [])
  captains ← input
  let state = row.state
  assert_no_captain_member_overlap normalize captains state.member_pool
  ok (
      save_draft_state row setup
        (record state { captains = captains; pick_order = []; teams = []; pick_index = 0 }))

-- `input` is what `resolveParticipantsFromInput` makes of the text of the command.
unfoldable pub set_captains :
    (String → String) → DraftRow → Throws (List DraftParticipant) → Outcome
set_captains normalize row input = settle row (set_captains_steps normalize row input)

abbrev pub set_members_steps :
    (String → String) → DraftRow → Throws (List DraftParticipant) → Throws DraftRow
set_members_steps normalize row input = do
  assert_draft_status row (setup ∷ [])
  resolved ← input
  let state = row.state
  let member_pool = exclude_captains_from_members normalize state.captains resolved
  assert_no_captain_member_overlap normalize state.captains member_pool
  ok (save_draft_state row setup (record state { member_pool = member_pool }))

unfoldable pub set_members : (String → String) → DraftRow → Throws (List DraftParticipant) → Outcome
set_members normalize row input = settle row (set_members_steps normalize row input)

abbrev pub begin_steps : Rng → ℕ → DraftRow → Throws String → Throws DraftRow
begin_steps rng k row message = do
  assert_draft_status row (setup ∷ [])
  let state = row.state
  guard (not (ltb (length state.captains) 2)) too_few_captains
  guard (not (ltb (length state.member_pool) 1)) too_few_members
  let pick_order = shuffle_pick_order (length state.captains) rng k
  teams ← build_teams_from_captains state.captains pick_order
  let next_state = record state { pick_order = pick_order; teams = teams; pick_index = 0 }
  message_id ← message
  ok (record row { status = active; state = next_state; draft_message_id = some message_id })

-- `message` is the id of the live message, or the error of `fetchTextChannel` or of `send`.
unfoldable pub begin_captain_draft : Rng → ℕ → DraftRow → Throws String → Outcome
begin_captain_draft rng k row message = settle row (begin_steps rng k row message)

unfoldable pub apply_captain_draft_pick : DraftRow → String → String → Outcome
apply_captain_draft_pick row actor participant_key = settle row do
  assert_draft_status row (active ∷ [])
  assert_current_captain_pick row.state actor
  next_state ← apply_pick row.state participant_key
  ok (save_draft_state row (next_status_after_mutation active next_state) next_state)

unfoldable pub cancel_captain_draft : DraftRow → Outcome
cancel_captain_draft row = settle row do
  assert_draft_status row (setup ∷ active ∷ complete ∷ [])
  ok (save_draft_state row cancelled row.state)

-- The row after an ACTIVE draft whose pool is empty was healed; it stays stored if the rest throws.
abbrev pub ensure_complete_if_pool_empty : DraftRow → DraftRow
ensure_complete_if_pool_empty row = persist_and_refresh row row.state

unfoldable pub rename_captain_team : DraftRow → String → String → String → Outcome
rename_captain_team loaded actor captain_key name =
    let row = ensure_complete_if_pool_empty loaded in
    settle row do
      assert_draft_status row (complete ∷ [])
      assert_team_captain_rename row.state actor captain_key
      next_state ← rename_team_in_state row.state captain_key name
      ok (save_draft_state row complete next_state)

unfoldable pub publish_captain_draft : DraftRow → Outcome
publish_captain_draft loaded =
    let row = ensure_complete_if_pool_empty loaded in
    settle row do assert_draft_status row (complete ∷ []); ok row

-- A player who is put straight on a team passes through the pool.
abbrev pub add_player_to_team : DraftState → DraftParticipant → String → Throws DraftState
add_player_to_team state player captain_key =
    add_to_team (add_to_pool state player) player.key captain_key

-- The three branches of `modAddPlayer` behind its checks.
abbrev pub add_by_status :
    CaptainDraftStatus → DraftState → DraftParticipant → Option String → Throws DraftState
add_by_status complete state player (some captain_key) = add_player_to_team state player captain_key
add_by_status complete state player none = err choose_a_team
add_by_status active state player (some captain_key) = add_player_to_team state player captain_key
add_by_status _ state player _ = ok (add_to_pool state player)

-- The message about a missing team comes before the one about a player who is in the draft.
abbrev pub needs_team : CaptainDraftStatus → Option String → Bool
needs_team complete none = true
needs_team _ _ = false

abbrev pub assert_can_add :
    (String → String) → DraftRow → DraftParticipant → Option String → Throws (Unit {0})
assert_can_add normalize row player team_captain_key = do
  guard (not (needs_team row.status team_captain_key)) choose_a_team
  guard (not (is_in_draft normalize row.state player)) already_in_draft

unfoldable pub mod_add_player :
    (String → String) → DraftRow → DraftParticipant → Option String → Outcome
mod_add_player normalize row player team_captain_key = settle row do
  assert_draft_status row (setup ∷ active ∷ complete ∷ [])
  assert_can_add normalize row player team_captain_key
  next_state ← add_by_status row.status row.state player team_captain_key
  ok (persist_and_refresh row next_state)

pub data Whereabouts : Type 0 where
  in_pool on_team missing : Whereabouts

abbrev pub participant_location : DraftState → String → Whereabouts
participant_location state key =
    if any (has_key key) state.member_pool
    then in_pool
    else if any (λ team. any (has_key key) team.roster) state.teams
    then on_team
    else missing

abbrev pub remove_from : Whereabouts → DraftState → String → Throws DraftState
remove_from in_pool state key = remove_from_pool state key
remove_from on_team state key = remove_from_team state key
remove_from missing state key = err not_in_draft

unfoldable pub mod_remove_player : DraftRow → String → Outcome
mod_remove_player row key = settle row do
  assert_draft_status row (setup ∷ active ∷ complete ∷ [])
  next_state ← remove_from (participant_location row.state key) row.state key
  ok (persist_and_refresh row next_state)

unfoldable pub mod_replace_player :
    (String → String) → DraftRow → String → DraftParticipant → Outcome
mod_replace_player normalize row outgoing_key incoming = settle row do
  assert_draft_status row (setup ∷ active ∷ complete ∷ [])
  guard (not (is_in_draft normalize row.state incoming)) already_in_draft
  next_state ← replace_participant row.state outgoing_key incoming
  ok (persist_and_refresh row next_state)

unfoldable pub mod_swap_players : DraftRow → String → String → Outcome
mod_swap_players row key_a key_b = settle row do
  assert_draft_status row (active ∷ complete ∷ [])
  next_state ← swap_participants row.state key_a key_b
  ok (persist_and_refresh row next_state)

unfoldable pub mod_move_player : DraftRow → String → String → Outcome
mod_move_player row key to_captain_key = settle row do
  assert_draft_status row (active ∷ complete ∷ [])
  next_state ← move_participant row.state key to_captain_key
  ok (persist_and_refresh row next_state)

unfoldable pub mod_undo_pick : DraftRow → Outcome
mod_undo_pick row = settle row do
  assert_draft_status row (active ∷ [])
  next_state ← undo_last_pick row.state
  ok (persist_and_refresh row next_state)

unfoldable pub mod_force_pick : DraftRow → String → Outcome
mod_force_pick row key = settle row do
  assert_draft_status row (active ∷ [])
  next_state ← apply_pick row.state key
  ok (save_draft_state row (next_status_after_mutation active next_state) next_state)

unfoldable pub mod_rename_team : DraftRow → String → String → Outcome
mod_rename_team loaded captain_key name =
    let row = ensure_complete_if_pool_empty loaded in
    settle row do
      assert_draft_status row (complete ∷ [])
      next_state ← rename_team_in_state row.state captain_key name
      ok (save_draft_state row complete next_state)
