-- ===== src/CaptainDraft/Types.antt =====
-- The data of a captain draft: apps/bot/src/services/captain-draft/draft-types.ts. A class of errors
-- with a message is one constructor for each message.
use trueskill_bot.Common.{ℕ, String, List, [], Option, Bool, Result, str_eq}

pub data CaptainDraftStatus : Type 0 where
  setup active complete cancelled : CaptainDraftStatus

pub record DraftParticipant : Type 0 where
  pub key : String
  pub label : String
  pub discord_id : Option String

pub record DraftTeam : Type 0 where
  pub captain_key : String
  pub display_name : String
  pub roster : List DraftParticipant
  pub pick_order_index : ℕ

pub record DraftState : Type 0 where
  pub captains : List DraftParticipant
  pub member_pool : List DraftParticipant
  pub pick_order : List ℕ
  pub teams : List DraftTeam
  pub pick_index : ℕ

pub data CaptainDraftError : Type 0 where
  no_team_for_current_pick player_not_in_pool nothing_to_undo team_not_found : CaptainDraftError
  cannot_remove_captain player_not_on_team cannot_replace_captain : CaptainDraftError
  participant_not_found cannot_swap_captains cannot_move_captain : CaptainDraftError
  already_on_that_team not_waiting_for_pick text_only_captain : CaptainDraftError
  not_your_turn : (label : String) → CaptainDraftError
  only_linked_captains_rename only_the_captain_renames empty_team_name : CaptainDraftError
  wrong_status : CaptainDraftStatus → CaptainDraftError
  draft_already_active no_active_draft draft_not_found channel_unavailable : CaptainDraftError
  captain_and_member too_few_captains too_few_members : CaptainDraftError
  choose_a_team already_in_draft not_in_draft : CaptainDraftError
  -- The `TypeError` of a read through `undefined`.
  read_of_undefined : CaptainDraftError

-- What a call returns, or the error that it throws.
abbrev pub Throws {ℓ} : Type ℓ → Type ℓ
Throws A = Result CaptainDraftError A

unfoldable pub empty_draft_state : DraftState
empty_draft_state = record {
  captains = [];
  member_pool = [];
  pick_order = [];
  teams = [];
  pick_index = 0;
}

-- `(p) => p.key === key`.
abbrev pub has_key : String → DraftParticipant → Bool
has_key key p = str_eq p.key key

-- `(team) => team.captainKey === key`.
abbrev pub has_captain : String → DraftTeam → Bool
has_captain key team = str_eq team.captain_key key
