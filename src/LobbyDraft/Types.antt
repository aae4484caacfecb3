-- ===== src/LobbyDraft/Types.antt =====
-- The data of a lobby draft: apps/bot/src/services/lobby-draft/draft-types.ts. The log for the thread
-- is left out: nothing that is modelled reads it. A record keyed by texts is an association list.
pub use trueskill_bot.Game.{TeamId, one, two}
use trueskill_bot.Common.{ℕ, String, Option, none, List, [], map, Result}

pub data LobbyDraftPhase : Type 0 where
  vote coin_choice pick side hero : LobbyDraftPhase

pub data CoinChoice : Type 0 where
  take_first_pick take_side : CoinChoice

-- `TeamIndex`: 0, the team of the winner of the coin flip, or 1.
pub data TeamIndex : Type 0 where
  winners losers : TeamIndex

pub record LobbyDraftParticipant : Type 0 where
  pub key : String
  pub nick : String
  pub discord_id : Option String

pub record LobbyDraftTeam : Type 0 where
  pub captain_key : String
  pub roster : List String
  pub side : Option TeamId

pub data HeroLuck : Type 0 where
  wanted contested random : HeroLuck

pub record HeroAssignment : Type 0 where
  pub hero_id : ℕ
  pub how : HeroLuck

pub record LobbyDraftState : Type 0 where
  pub phase : LobbyDraftPhase
  pub participants : List LobbyDraftParticipant
  pub votes : List (String × List String)
  pub teams : Option (LobbyDraftTeam × LobbyDraftTeam)
  pub first_pick_team : Option TeamIndex
  pub side_chooser_team : Option TeamIndex
  pub pick_index : ℕ
  pub pool : List String
  pub hero_prefs : List (String × List ℕ)
  pub hero_locked_in : List String
  pub hero_weights : Option (List (String × ℕ))
  pub hero_result : Option (List (String × HeroAssignment))
  pub deadline_at : Option ℕ

pub data LobbyDraftError : Type 0 where
  too_few_players need_2v2 not_in_draft stale_action bad_ballot captain_not_linked : LobbyDraftError
  player_not_in_pool not_your_turn too_many_players bad_hero_prefs : LobbyDraftError
  participant_not_found already_in_draft captain_must_be_linked no_successor : LobbyDraftError

abbrev pub Throws {ℓ} : Type ℓ → Type ℓ
Throws A = Result LobbyDraftError A

abbrev pub min_players : ℕ
min_players = 4

abbrev pub min_linked : ℕ
min_linked = 2

abbrev pub max_votes : ℕ
max_votes = 2

abbrev pub keys_of : List LobbyDraftParticipant → List String
keys_of = map (λ p. p.key)

unfoldable pub initial_lobby_draft_state : List LobbyDraftParticipant → Option ℕ → LobbyDraftState
initial_lobby_draft_state participants deadline_at = record {
  phase = vote;
  participants = participants;
  votes = [];
  teams = none;
  first_pick_team = none;
  side_chooser_team = none;
  pick_index = 0;
  pool = keys_of participants;
  hero_prefs = [];
  hero_locked_in = [];
  hero_weights = none;
  hero_result = none;
  deadline_at = deadline_at;
}
