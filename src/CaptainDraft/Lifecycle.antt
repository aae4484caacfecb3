-- ===== src/CaptainDraft/Lifecycle.antt =====
-- A draft from its creation on, under any sequence of the commands of
-- apps/bot/src/services/captain-draft/draft-actions.ts and draft-mod-actions.ts.
use trueskill_bot.CaptainDraft.ConsistentMods.{
  apply_captain_draft_pick-IsConsistent, mod_undo_pick-IsConsistent, mod_swap_players-IsConsistent,
  mod_move_player-IsConsistent, mod_force_pick-IsConsistent,
}
use trueskill_bot.CaptainDraft.ConsistentHost.{
  begin_captain_draft-IsConsistent, cancel_captain_draft-IsConsistent,
  publish_captain_draft-IsConsistent, rename_captain_team-IsConsistent,
  mod_rename_team-IsConsistent,
}
use trueskill_bot.CaptainDraft.ConsistentEntrants.{
  IsFreshKey, mod_add_player-IsConsistent, mod_remove_player-IsConsistent,
  mod_replace_player-IsConsistent,
}
use trueskill_bot.CaptainDraft.Commands.{
  set_captains, set_members, begin_captain_draft, apply_captain_draft_pick, cancel_captain_draft,
  publish_captain_draft, mod_undo_pick, rename_captain_team, mod_add_player, mod_remove_player,
  mod_replace_player, mod_swap_players, mod_move_player, mod_force_pick, mod_rename_team,
}
use trueskill_bot.CaptainDraft.ConsistentSetUp.{
  AreFresh, set_captains-IsConsistent, set_members-IsConsistent,
}
use trueskill_bot.CaptainDraft.Actions.{DraftRow, Outcome}
use trueskill_bot.CaptainDraft.Types.{Throws, empty_draft_state, DraftParticipant, setup}
use trueskill_bot.Common.{ℕ, List, String, arith, refl, Option, none}
use trueskill_bot.Common.Rng.{Rng}
use trueskill_bot.CaptainDraft.Consistent.{IsConsistent, HasDistinctEntrants}

pub data Command : Type 0 where
  set_the_captains set_the_members : Throws (List DraftParticipant) → Command
  begin : Rng → ℕ → Throws String → Command
  pick : (actor participant_key : String) → Command
  cancel publish undo : Command
  rename_own : (actor captain_key name : String) → Command
  add : DraftParticipant → Option String → Command
  remove : (key : String) → Command
  replace : (outgoing_key : String) → DraftParticipant → Command
  swap : (key_a key_b : String) → Command
  move : (key to_captain_key : String) → Command
  force : (participant_key : String) → Command
  rename_any : (captain_key name : String) → Command

-- The participants whom a command brings in have keys that nobody else has.
abbrev pub BringsFreshKeys : DraftRow → Command → Type 0
BringsFreshKeys row (set_the_captains input) =
    AreFresh (λ captains. HasDistinctEntrants captains row.state.member_pool) input
BringsFreshKeys row (set_the_members input) =
    AreFresh (λ members. HasDistinctEntrants row.state.captains members) input
BringsFreshKeys row (add player _) = IsFreshKey player.key row.state
BringsFreshKeys row (replace _ incoming) = IsFreshKey incoming.key row.state
BringsFreshKeys row _ = Unit

-- `createDraft`.
unfoldable pub create_draft : (id guild_id channel_id : String) → DraftRow
create_draft id guild_id channel_id = record {
  id = id;
  guild_id = guild_id;
  channel_id = channel_id;
  status = setup;
  state = empty_draft_state;
  draft_message_id = none;
}

module _ (normalize : String → String) where
  pub execute : DraftRow → Command → Outcome
  execute row (set_the_captains input) = set_captains normalize row input
  execute row (set_the_members input) = set_members normalize row input
  execute row (begin rng k message) = begin_captain_draft rng k row message
  execute row (pick actor key) = apply_captain_draft_pick row actor key
  execute row cancel = cancel_captain_draft row
  execute row publish = publish_captain_draft row
  execute row undo = mod_undo_pick row
  execute row (rename_own actor key name) = rename_captain_team row actor key name
  execute row (add player team_key) = mod_add_player normalize row player team_key
  execute row (remove key) = mod_remove_player row key
  execute row (replace key incoming) = mod_replace_player normalize row key incoming
  execute row (swap key_a key_b) = mod_swap_players row key_a key_b
  execute row (move key to) = mod_move_player row key to
  execute row (force key) = mod_force_pick row key
  execute row (rename_any key name) = mod_rename_team row key name

  -- The rows that commands, accepted or refused, lead to.
  pub data Reach (start : DraftRow) : DraftRow → Type 0 where
    here : Reach start start
    next :
        {row : DraftRow}
        → Reach start row
        → (command : Command) → BringsFreshKeys row command
        → Reach start (execute row command).0

  -- Every command, accepted or refused, keeps the stored draft consistent with its status.
  pub execute-IsConsistent :
      (row : DraftRow) (command : Command)
      → IsConsistent row
      → BringsFreshKeys row command
      → IsConsistent (execute row command).0
  unfolding execute
  execute-IsConsistent row (set_the_captains input) c f =
      set_captains-IsConsistent normalize row input c f
  execute-IsConsistent row (set_the_members input) c f =
      set_members-IsConsistent normalize row input c f
  execute-IsConsistent row (begin rng k message) c f =
      begin_captain_draft-IsConsistent rng k row message c
  execute-IsConsistent row (pick actor key) c f =
      apply_captain_draft_pick-IsConsistent row actor key c
  execute-IsConsistent row cancel c f = cancel_captain_draft-IsConsistent row c
  execute-IsConsistent row publish c f = publish_captain_draft-IsConsistent row c
  execute-IsConsistent row undo c f = mod_undo_pick-IsConsistent row c
  execute-IsConsistent row (rename_own actor key name) c f =
      rename_captain_team-IsConsistent row actor key name c
  execute-IsConsistent row (add player team_key) c f =
      mod_add_player-IsConsistent normalize row player team_key c f
  execute-IsConsistent row (remove key) c f = mod_remove_player-IsConsistent row key c
  execute-IsConsistent row (replace key incoming) c f =
      mod_replace_player-IsConsistent normalize row key incoming c f
  execute-IsConsistent row (swap key_a key_b) c f = mod_swap_players-IsConsistent row key_a key_b c
  execute-IsConsistent row (move key to) c f = mod_move_player-IsConsistent row key to c
  execute-IsConsistent row (force key) c f = mod_force_pick-IsConsistent row key c
  execute-IsConsistent row (rename_any key name) c f = mod_rename_team-IsConsistent row key name c

  create_draft-IsConsistent :
      (id guild_id channel_id : String) → IsConsistent (create_draft id guild_id channel_id)
  unfolding create_draft empty_draft_state
  create_draft-IsConsistent id guild_id channel_id = (refl, λ key. omega arith)

  Reach-IsConsistent :
      {start row : DraftRow} → IsConsistent start → Reach start row → IsConsistent row
  Reach-IsConsistent c here = c
  Reach-IsConsistent c (next {row} r command f) =
      execute-IsConsistent row command (Reach-IsConsistent c r) f

  -- Whatever commands are given to a draft after it was created, in any order, the stored row is
  -- consistent with its status, if the participants whom they bring in have fresh keys. Before it
  -- begins the draft has no teams and distinct keys; while it is active its teams stand in pick
  -- order, each led by its captain, no key occurs twice, there are two teams or more, and somebody
  -- is left to pick; when it is complete all but the last still holds.
  pub created_draft_IsConsistent :
      (id guild_id channel_id : String) {row : DraftRow}
      → Reach (create_draft id guild_id channel_id) row
      → IsConsistent row
  created_draft_IsConsistent id guild_id channel_id r =
      Reach-IsConsistent (create_draft-IsConsistent id guild_id channel_id) r
