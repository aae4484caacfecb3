-- ===== src/Match/Locked.antt =====
-- The locks of the seats of a pending match: `setLobbyLockedSlots` with `setMatchPlayersLocked`.
use trueskill_bot.Match.Approval.{with_row}
use trueskill_bot.Common.{
  List, some, ℕ, any, if◌then◌else◌, ◌∷◌, ◌≡◌, [], false, map, ap, ◌∙◌, refl, Bool, arith,
  get_elem?, ◌==◌, count_if, suc, zero, ◌≤◌, ok, true, any-count_if, count_if-any, any-get_elem?,
  sym,
}
use trueskill_bot.Game.{GameProfile}
use trueskill_bot.LobbyRoster.Locks.{
  LobbyLockMode, unlocked, slot_lock, side_lock, same_mode, has_slot, lock_mode_of, lock_change,
  lock_changes_for_selection,
}
use trueskill_bot.Match.Types.{MatchPlayer, Desk}
use trueskill_bot.Match.Report.{is_at}
use trueskill_bot.Match.Lobby.{
  lock_player, lock_all, to_lobby_player, set_match_players_locked, set_lobby_locked_slots,
}

-- The lock of a seat.
abbrev pub mode_of : MatchPlayer → LobbyLockMode
mode_of player = lock_mode_of (some player.locked) (some player.side_locked)

-- What a selection promises for a seat: the selected seats take the mode, the others lose it and keep
-- another.
abbrev pub selected_mode : List ℕ → LobbyLockMode → MatchPlayer → LobbyLockMode
selected_mode slots mode player =
    if has_slot slots player.slot
    then mode
    else if same_mode (mode_of player) mode
    then unlocked
    else mode_of player

abbrev lock_each : List (ℕ × LobbyLockMode) → MatchPlayer → MatchPlayer
lock_each [] player = player
lock_each (change ∷ changes) player = lock_each changes (lock_player change player)

lock_all-lock_each :
    (changes : List (ℕ × LobbyLockMode)) (players : List MatchPlayer)
    → lock_all changes players ≡ map (lock_each changes) players
lock_all-lock_each [] [] = refl
lock_all-lock_each [] (player ∷ players) =
    ap (λ rest. player ∷ rest) (lock_all-lock_each [] players)
lock_all-lock_each (change ∷ changes) players =
    lock_all-lock_each changes (map (lock_player change) players) ∙ map_map players
  where
    map_map :
        (qs : List MatchPlayer)
        → map (lock_each changes) (map (lock_player change) qs)
          ≡ map (lock_each (change ∷ changes)) qs
    map_map [] = refl
    map_map (q ∷ qs) = ap (λ rest. lock_each (change ∷ changes) q ∷ rest) (map_map qs)

-- The change of a seat, in a selection.
abbrev change_of : List ℕ → LobbyLockMode → MatchPlayer → ℕ × LobbyLockMode
change_of slots mode player = lock_change slots mode (to_lobby_player player)

mode_of-lock_player :
    (mode : LobbyLockMode) (player : MatchPlayer)
    → mode_of (lock_player (player.slot, mode) player) ≡ mode
mode_of-lock_player unlocked player = ground arith
mode_of-lock_player slot_lock player = ground arith
mode_of-lock_player side_lock player = ground arith

-- The modes of a match player and of the lobby player that stands for it.
mode_of-to_lobby_player :
    (player : MatchPlayer)
    → lock_mode_of (to_lobby_player player).locked (to_lobby_player player).side_locked
      ≡ mode_of player
mode_of-to_lobby_player player = ground arith

abbrev seat_change : ℕ → LobbyLockMode → ℕ × LobbyLockMode
seat_change slot mode = (slot, mode)

own_change :
    (slots : List ℕ) (mode : LobbyLockMode) (player : MatchPlayer)
    → change_of slots mode player ≡ seat_change player.slot (selected_mode slots mode player)
own_change slots mode player =
    rw (mode_of-to_lobby_player player) (chosen (has_slot slots player.slot) _)
  where
    chosen :
        (selected : Bool) (other : LobbyLockMode)
        → (if selected then seat_change player.slot mode else seat_change player.slot other)
          ≡ seat_change player.slot (if selected then mode else other)
    chosen true other = refl
    chosen false other = refl

lock_player-away :
    (change : ℕ × LobbyLockMode) (player : MatchPlayer)
    → (player.slot == change.0) ≡ false
    → lock_player change player ≡ player
lock_player-away (slot, mode) player away = ground arith

-- Changes of other seats leave a player alone.
lock_each-away :
    (slots : List ℕ) (mode : LobbyLockMode) (others : List MatchPlayer) (player : MatchPlayer)
    → any (is_at player.slot) others ≡ false
    → lock_each (map (change_of slots mode) others) player ≡ player
lock_each-away slots mode [] player away = refl
lock_each-away slots mode (other ∷ others) player away =
    let own = own_change slots mode other in
    let apart : (player.slot == (change_of slots mode other).0) ≡ false =
      ap (λ c. player.slot == c.0) own ∙ ground arith in
    ap (lock_each (map (change_of slots mode) others))
      (lock_player-away (change_of slots mode other) player apart)
    ∙ lock_each-away slots mode others player (ground arith)

lock_player-keeps_slot :
    (change : ℕ × LobbyLockMode) (player : MatchPlayer)
    → (lock_player change player).slot ≡ player.slot
lock_player-keeps_slot (slot, mode) player = ground arith

-- A seat gets its own change, if nobody else sits there.
locked_seat :
    (slots : List ℕ) (mode : LobbyLockMode) (players : List MatchPlayer) (i : ℕ)
    (player : MatchPlayer)
    → get_elem? players i ≡ some player
    → count_if (is_at player.slot) players ≤ 1
    → lock_each (map (change_of slots mode) players) player
      ≡ lock_player (change_of slots mode player) player
locked_seat slots mode [] i player found once = cc
locked_seat slots mode (p ∷ players) zero player found once =
    let e : p ≡ player = cc in
    let alone : count_if (is_at player.slot) players ≡ 0 =
      let here : is_at player.slot p ≡ true = ap (is_at player.slot) e ∙ ground arith in
      let counted = rw here at once in omega arith in
    let away = any-count_if (is_at player.slot) players alone in
    let first : lock_player (change_of slots mode p) player
        ≡ lock_player (change_of slots mode player) player =
      ap (λ q. lock_player (change_of slots mode q) player) e in
    let moved = lock_player (change_of slots mode player) player in
    let keeps = lock_player-keeps_slot (change_of slots mode player) player in
    ap (lock_each (map (change_of slots mode) players)) first
    ∙ lock_each-away slots mode players moved (ap (λ n. any (is_at n) players) keeps ∙ away)
locked_seat slots mode (p ∷ players) (suc i) player found once =
    let present =
      count_if-any (is_at player.slot) players
        (any-get_elem? (is_at player.slot) players i found (ground arith)) in
    let apart : (p.slot == player.slot) ≡ false = ground arith in
    let own = own_change slots mode p in
    let differs : (player.slot == (change_of slots mode p).0) ≡ false =
      ap (λ c. player.slot == c.0) own ∙ ground arith in
    ap (lock_each (map (change_of slots mode) players))
      (lock_player-away (change_of slots mode p) player differs)
    ∙ locked_seat slots mode players i player found (ground arith)

get_elem?-map :
    (f : MatchPlayer → MatchPlayer) (players : List MatchPlayer) (i : ℕ) (player : MatchPlayer)
    → get_elem? players i ≡ some player
    → get_elem? (map f players) i ≡ some (f player)
get_elem?-map f [] i player found = cc
get_elem?-map f (p ∷ players) zero player found = let e : p ≡ player = cc in ap (λ q. some (f q)) e
get_elem?-map f (p ∷ players) (suc i) player found = get_elem?-map f players i player found

selection_changes :
    (slots : List ℕ) (mode : LobbyLockMode) (players : List MatchPlayer)
    → lock_changes_for_selection (map to_lobby_player players) slots mode
      ≡ map (change_of slots mode) players
unfolding lock_changes_for_selection
selection_changes slots mode [] = refl
selection_changes slots mode (player ∷ players) =
    ap (λ rest. change_of slots mode player ∷ rest) (selection_changes slots mode players)

module _ {R : Type 0} where
  accepted_selection :
      (profile : GameProfile) (has_draft : Bool) (desk desk' : Desk R) (slots : List ℕ)
      (mode : LobbyLockMode)
      → set_lobby_locked_slots profile has_draft desk slots mode ≡ ok desk'
      → with_row
          (λ row. record row {
            players =
                lock_all
                  (lock_changes_for_selection (map to_lobby_player desk.row.players) slots mode)
                  row.players;
          })
          desk
        ≡ desk'
  unfolding set_lobby_locked_slots set_match_players_locked
  accepted_selection profile has_draft desk desk' slots mode h = ground arith

  -- An accepted selection of seats in a lobby whose players sit at different slots gives each selected
  -- seat the mode, takes it from each other seat that has it, and leaves the rest of the locks.
  pub set_lobby_locked_slots_lem :
      (profile : GameProfile) (has_draft : Bool) (desk desk' : Desk R) (slots : List ℕ)
      (mode : LobbyLockMode) (i : ℕ) (player : MatchPlayer)
      → ((slot : ℕ) → count_if (is_at slot) desk.row.players ≤ 1)
      → set_lobby_locked_slots profile has_draft desk slots mode ≡ ok desk'
      → get_elem? desk.row.players i ≡ some player
      → (after : MatchPlayer) × (get_elem? desk'.row.players i ≡ some after)
        × (after.slot ≡ player.slot)
        × (mode_of after ≡ selected_mode slots mode player)
  set_lobby_locked_slots_lem profile has_draft desk desk' slots mode i player once h found =
      let players = desk.row.players in
      let changes = map (change_of slots mode) players in
      let stored = accepted_selection profile has_draft desk desk' slots mode h in
      let result : desk'.row.players ≡ lock_all changes players =
        sym (ap (λ d. d.row.players) stored)
        ∙ ap (λ c. lock_all c players) (selection_changes slots mode players) in
      let each = result ∙ lock_all-lock_each changes players in
      let seat = locked_seat slots mode players i player found (once player.slot) in
      (
        lock_player (change_of slots mode player) player,
        ap (λ l. get_elem? l i) each
            ∙ get_elem?-map (lock_each changes) players i player found
            ∙ ap some seat,
        lock_player-keeps_slot (change_of slots mode player) player,
        ap (λ c. mode_of (lock_player c player)) (own_change slots mode player)
            ∙ mode_of-lock_player (selected_mode slots mode player) player,
      )
