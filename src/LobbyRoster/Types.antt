-- ===== src/LobbyRoster/Types.antt =====
-- The rosters of lobbies: `LobbyPlayer` of apps/bot/src/services/lobby/lobby-ocr.ts, and the errors
-- of roster.ts and remap.ts, a constructor for each message.
use trueskill_bot.Common.{ℕ, Bool, List, Option, none, Result}

pub record LobbyPlayer : Type 0 where
  pub slot : ℕ
  pub nick : List ℕ
  pub locked : Option Bool
  pub side_locked : Option Bool
  pub is_quitter : Option Bool
  pub raw_name : Option (List ℕ)

-- `MatchServiceError`, as these files throw it.
pub data LobbyRosterError : Type 0 where
  invalid_slot enter_a_team : LobbyRosterError
  team_is_full : LobbyRosterError
  empty_nick nothing_to_remove : LobbyRosterError
  slot_occupied slot_empty : (slot : ℕ) → LobbyRosterError
  slot_occupied_by : (slot : ℕ) (nick : List ℕ) → LobbyRosterError
  nick_taken nick_unknown : (nick : List ℕ) → LobbyRosterError
  same_slot : LobbyRosterError
  no_longer_here not_in_lobby : LobbyRosterError
  already_in_slot leave_first : (slot : ℕ) → LobbyRosterError
  no_pairs : LobbyRosterError
  invalid_pair : (segment : List ℕ) → LobbyRosterError
  could_not_apply : (pair : List ℕ) → LobbyRosterError → LobbyRosterError
  both_forms half_a_form no_form : LobbyRosterError
  nobody_to_lock : (slot : ℕ) → LobbyRosterError

abbrev pub Throws {ℓ} : Type ℓ → Type ℓ
Throws A = Result LobbyRosterError A

-- `{ slot, nick }`.
abbrev pub seat_of : ℕ → List ℕ → LobbyPlayer
seat_of slot nick = record {
  slot = slot;
  nick = nick;
  locked = none;
  side_locked = none;
  is_quitter = none;
  raw_name = none;
}
