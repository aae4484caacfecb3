-- ===== src/CaptainDraft/Actions.antt =====
-- The commands on a stored draft: apps/bot/src/services/captain-draft/draft-actions.ts,
-- draft-mod-actions.ts, draft-auth.ts and the queries of draft-state.ts. A command is given the row
-- that was loaded, and returns the row as it is stored afterwards with the error that it throws, if
-- it does. Messages on Discord are sent after the row is stored, and are left out.
use trueskill_bot.Common.{
  trim_text, String, Bool, true, false, not, ◌||◌, List, Option, none, some, str_eq, any, filter,
  find?, map, ok, err, ◌>>=◌, ◌>>◌, guard, require, if◌then◌else◌,
}
use trueskill_bot.CaptainDraft.Types.{
  CaptainDraftStatus, setup, active, complete, cancelled, DraftParticipant, DraftTeam, DraftState,
  CaptainDraftError, Throws, has_captain, wrong_status, not_waiting_for_pick, text_only_captain,
  not_your_turn, team_not_found, only_linked_captains_rename, only_the_captain_renames,
  empty_team_name, captain_and_member,
}
use trueskill_bot.CaptainDraft.Logic.{find_participant, current_captain_key}

pub record DraftRow : Type 0 where
  pub id : String
  pub guild_id : String
  pub channel_id : String
  pub status : CaptainDraftStatus
  pub state : DraftState
  pub draft_message_id : Option String

abbrev pub Outcome : Type 0
Outcome = DraftRow × Option CaptainDraftError

-- A command that throws before it stores leaves the row as it was.
abbrev pub settle : DraftRow → Throws DraftRow → Outcome
settle row (ok saved) = (saved, none)
settle row (err e) = (row, some e)

abbrev pub same_status : CaptainDraftStatus → CaptainDraftStatus → Bool
same_status setup setup = true
same_status active active = true
same_status complete complete = true
same_status cancelled cancelled = true
same_status _ _ = false

-- `assertDraftStatus`.
abbrev pub assert_draft_status : DraftRow → List CaptainDraftStatus → Throws (Unit {0})
assert_draft_status row allowed =
    guard (any (same_status row.status) allowed) (wrong_status row.status)

-- `saveDraftState`: the message id is kept where the call gives none.
abbrev pub save_draft_state : DraftRow → CaptainDraftStatus → DraftState → DraftRow
save_draft_state row status state = record row { status = status; state = state }

-- `assertCurrentCaptainPick`, and the same test behind the pick buttons.
unfoldable pub assert_current_captain_pick : DraftState → String → Throws (Unit {0})
assert_current_captain_pick state actor = do
  captain_key ← require (current_captain_key state) not_waiting_for_pick
  captain ← require (find_participant state captain_key) text_only_captain
  discord_id ← require captain.discord_id text_only_captain
  guard (str_eq discord_id actor) (not_your_turn captain.label)

unfoldable pub assert_team_captain_rename : DraftState → String → String → Throws (Unit {0})
assert_team_captain_rename state actor captain_key = do
  team ← require (find? (has_captain captain_key) state.teams) team_not_found
  captain ← require (find_participant state captain_key) only_linked_captains_rename
  discord_id ← require captain.discord_id only_linked_captains_rename
  guard (str_eq discord_id actor) only_the_captain_renames

-- What `participantDedupeKey` makes of a participant; the prefixes keep the two kinds apart.
pub data DedupeKey : Type 0 where
  discord : String → DedupeKey
  label : String → DedupeKey

abbrev pub same_dedupe_key : DedupeKey → DedupeKey → Bool
same_dedupe_key (discord a) (discord b) = str_eq a b
same_dedupe_key (label a) (label b) = str_eq a b
same_dedupe_key _ _ = false

abbrev pub rename : String → String → DraftTeam → DraftTeam
rename captain_key name team =
    if has_captain captain_key team then record team { display_name = name } else team

unfoldable pub rename_team_in_state : DraftState → String → String → Throws DraftState
rename_team_in_state state captain_key name = do
  let trimmed = trim_text name
  guard (not (str_eq trimmed "")) empty_team_name
  guard (any (has_captain captain_key) state.teams) team_not_found
  ok (record state { teams = map (rename captain_key trimmed) state.teams })

-- `normalize` is `normalizeNick` on the label.
module _ (normalize : String → String) where
  abbrev pub participant_dedupe_key : DraftParticipant → DedupeKey
  participant_dedupe_key p = elim p.discord_id [
    | some d ↦ discord d
    | none ↦ label (normalize p.label)
  ]

  abbrev pub is_same_player : DraftParticipant → DraftParticipant → Bool
  is_same_player a b = same_dedupe_key (participant_dedupe_key a) (participant_dedupe_key b)

  unfoldable pub assert_no_captain_member_overlap :
      List DraftParticipant → List DraftParticipant → Throws (Unit {0})
  assert_no_captain_member_overlap captains members =
      guard (not (any (λ m. any (is_same_player m) captains) members)) captain_and_member

  unfoldable pub exclude_captains_from_members :
      List DraftParticipant → List DraftParticipant → List DraftParticipant
  exclude_captains_from_members captains members =
      filter (λ m. not (any (is_same_player m) captains)) members

  unfoldable pub is_in_draft : DraftState → DraftParticipant → Bool
  is_in_draft state player =
      any (is_same_player player) state.member_pool
      || any (is_same_player player) state.captains
      || any (λ team. any (is_same_player player) team.roster) state.teams
