-- ===== src/LobbyRoster/Locks.antt =====
-- Locks of seats: apps/bot/src/services/lobby/locked-slots.ts. The key of a locked pair is the pair.
use trueskill_bot.Common.{
  Bool, List, Option, String, ℕ, any, false, if◌then◌else◌, map, none, str_eq, true, ◌&&◌, some,
  ◌==◌, ◌∷◌, is_some, [],
}
use trueskill_bot.LobbyRoster.Types.{LobbyPlayer}

pub data LobbyLockMode : Type 0 where
  unlocked slot_lock side_lock : LobbyLockMode

abbrev pub same_mode : LobbyLockMode → LobbyLockMode → Bool
same_mode unlocked unlocked = true
same_mode slot_lock slot_lock = true
same_mode side_lock side_lock = true
same_mode _ _ = false

-- `flag === true` and `flag !== false` for a flag that may be missing.
abbrev pub is_true : Option Bool → Bool
is_true none = false
is_true (some flag) = flag

abbrev pub is_not_false : Option Bool → Bool
is_not_false none = true
is_not_false (some flag) = flag

abbrev is_pair : String → ℕ → String × ℕ → Bool
is_pair player_id slot (id, locked_slot) = str_eq id player_id && locked_slot == slot

unfoldable pub reconcile_match_player_locked :
    (previous_locked_pairs : List (String × ℕ)) (player_id : String) (slot : ℕ)
    (incoming_locked : Option Bool)
    → Bool
reconcile_match_player_locked previous player_id slot incoming =
    is_not_false incoming && any (is_pair player_id slot) previous

-- `map.get(key)`: the last entry for a key counts.
abbrev pub map_get {ℓ} : {A : Type ℓ} → String → List (String × A) → Option A
map_get key [] = none
map_get key (entry ∷ entries) =
    let rest = map_get key entries in
    if is_some rest then rest else if str_eq entry.0 key then some entry.1 else none

abbrev is_team : ℕ → Option ℕ → Bool
is_team team none = false
is_team team (some t) = t == team

unfoldable pub reconcile_match_player_side_locked :
    (previous_side_locked_teams : List (String × ℕ)) (player_id : String) (team : ℕ)
    (incoming_side_locked : Option Bool)
    → Bool
reconcile_match_player_side_locked previous player_id team incoming =
    is_not_false incoming && is_team team (map_get player_id previous)

abbrev pub lock_mode_of : (locked side_locked : Option Bool) → LobbyLockMode
lock_mode_of locked side_locked =
    if is_true locked then slot_lock else if is_true side_locked then side_lock else unlocked

abbrev pub has_slot : List ℕ → ℕ → Bool
has_slot slots slot = any (λ wanted. wanted == slot) slots

-- The change of one seat.
abbrev pub lock_change : List ℕ → LobbyLockMode → LobbyPlayer → ℕ × LobbyLockMode
lock_change wanted mode player =
    let current = lock_mode_of player.locked player.side_locked in
    if has_slot wanted player.slot
    then (player.slot, mode)
    else (player.slot, (if same_mode current mode then unlocked else current))

unfoldable pub lock_changes_for_selection :
    List LobbyPlayer → (wanted : List ℕ) → LobbyLockMode → List (ℕ × LobbyLockMode)
lock_changes_for_selection players wanted mode = map (lock_change wanted mode) players
