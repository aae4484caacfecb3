-- ===== src/LobbyRoster/Accepted.antt =====
-- What an accepted operation on a roster has checked, and the roster that it returns.
use mathlib.Core.Option
use trueskill_bot.Common.{
  Bool, List, any, find?, ℕ, Option, ◌≡◌, false, ok, some, true, Bool-cases, arith, filter, map,
  none, ◌&&◌, ◌++◌, ◌==◌, ◌∷◌, [], inl, inr, refl, ◌∙◌, Option-cases, get_or_else, subst,
  Result-cases,
}
use trueskill_bot.Game.{GameProfile, is_slot_in_profile}
use trueskill_bot.LobbyRoster.Types.{LobbyPlayer, seat_of}
use trueskill_bot.LobbyRoster.Logic.{
  at_slot, has_nick, not_at, reseat, send, rename_at, assert_slot_in_range, swap_players,
  move_player, add_player, removal_target, remove_player, edit_player_nick, roster_after_claim,
  roster_after_leave,
}
use trueskill_bot.Player.Nick.{is_empty, normalize_nick, trim}

pub record IsTrade (profile : GameProfile) (r r' : List LobbyPlayer) (a b : ℕ) : Type 0 where
  pub first_in_range : is_slot_in_profile profile a ≡ true
  pub second_in_range : is_slot_in_profile profile b ≡ true
  pub different : (a == b) ≡ false
  pub occupied : any (at_slot a) r ≡ true
  pub result : r' ≡ map (reseat a b) r

pub record IsArrival (profile : GameProfile) (r r' : List LobbyPlayer) (slot : ℕ) (nick : List ℕ)
    : Type 0 where
  pub in_range : is_slot_in_profile profile slot ≡ true
  pub named : is_empty nick ≡ false
  pub vacant : any (at_slot slot) r ≡ false
  pub new_nick : any (has_nick nick) r ≡ false
  pub result : r' ≡ r ++ seat_of slot nick ∷ []

pub record IsDeparture (r r' : List LobbyPlayer) (target : LobbyPlayer) : Type 0 where
  pub found : any (at_slot target.slot) r ≡ true
  pub result : r' ≡ filter (not_at target.slot) r

pub record IsRenaming (profile : GameProfile) (r r' : List LobbyPlayer) (slot : ℕ) (nick : List ℕ)
    : Type 0 where
  pub in_range : is_slot_in_profile profile slot ≡ true
  pub named : is_empty nick ≡ false
  pub occupied : any (at_slot slot) r ≡ true
  pub new_nick : any (λ player. has_nick nick player && not_at slot player) r ≡ false
  pub result : r' ≡ map (rename_at slot nick) r

pub swap_players-IsTrade :
    (profile : GameProfile) (r r' : List LobbyPlayer) (a b : ℕ)
    → swap_players r a b profile ≡ ok r'
    → IsTrade profile r r' a b
unfolding swap_players assert_slot_in_range
swap_players-IsTrade profile r r' a b h = record {
  first_in_range = ground arith;
  second_in_range = ground arith;
  different = ground arith;
  occupied = ground arith;
  result = ground arith;
}

-- Nobody sits at the second slot: a swap seats only the first player anew.
map-send :
    (r : List LobbyPlayer) (a b : ℕ)
    → any (at_slot b) r ≡ false
    → map (send a b) r ≡ map (reseat a b) r
map-send [] a b h = refl
map-send (p ∷ r) a b h =
    let rest = map-send r a b (ground arith) in
    let same : send a b p ≡ reseat a b p = ground arith in cc

pub move_player-IsTrade :
    (profile : GameProfile) (r r' : List LobbyPlayer) (a b : ℕ)
    → move_player r a b profile ≡ ok r'
    → IsTrade profile r r' a b
unfolding move_player assert_slot_in_range
move_player-IsTrade profile r r' a b h = elim (Bool-cases (any (at_slot b) r)) [
  | inl taken ↦ swap_players-IsTrade profile r r' a b (ground arith)
  | inr vacant ↦
      let sent : r' ≡ map (send a b) r = ground arith in
      record {
        first_in_range = ground arith;
        second_in_range = ground arith;
        different = ground arith;
        occupied = ground arith;
        result = sent ∙ map-send r a b vacant;
      }
]

-- A list element that is found is in the list.
pub any-find? :
    (test : LobbyPlayer → Bool) (r : List LobbyPlayer) (p : LobbyPlayer)
    → find? test r ≡ some p
    → any (at_slot p.slot) r ≡ true
any-find? test [] p h = cc
any-find? test (q ∷ r) p h = elim (Bool-cases (test q)) [
  | inl passes ↦
      let h1 = rw passes at h in
      let e : q ≡ p = cc in
      subst (λ found. any (at_slot found.slot) (q ∷ r) ≡ true) e (ground arith)
  | inr fails ↦ ground (arith, any-find? test r p (rw fails at h))
]

module _ (to_lower : List ℕ → List ℕ) (profile : GameProfile) where
  pub add_player-IsArrival :
      (r r' : List LobbyPlayer) (nick_raw : List ℕ) (slot : ℕ)
      → add_player to_lower r nick_raw slot profile ≡ ok r'
      → IsArrival profile r r' slot (normalize_nick to_lower nick_raw)
  unfolding add_player assert_slot_in_range
  add_player-IsArrival r r' nick_raw slot h = record {
    in_range = ground arith;
    named = ground arith;
    vacant = ground arith;
    new_nick = ground arith;
    result = ground arith;
  }

  pub roster_after_claim-IsArrival :
      (r r' : List LobbyPlayer) (nick_raw : List ℕ) (slot : ℕ)
      → roster_after_claim to_lower r nick_raw slot profile ≡ ok r'
      → IsArrival profile r r' slot (normalize_nick to_lower nick_raw)
  unfolding roster_after_claim
  roster_after_claim-IsArrival r r' nick_raw slot h =
      add_player-IsArrival r r' nick_raw slot (ground arith)

  pub edit_player_nick-IsRenaming :
      (r r' : List LobbyPlayer) (nick_raw : List ℕ) (slot : ℕ)
      → edit_player_nick to_lower r slot nick_raw profile ≡ ok r'
      → IsRenaming profile r r' slot (normalize_nick to_lower nick_raw)
  unfolding edit_player_nick assert_slot_in_range
  edit_player_nick-IsRenaming r r' nick_raw slot h = record {
    in_range = ground arith;
    named = ground arith;
    occupied = ground arith;
    new_nick = ground arith;
    result = ground arith;
  }

  pub target-found :
      (r : List LobbyPlayer) (nick_raw : List ℕ) (slot : Option ℕ) (target : LobbyPlayer)
      → removal_target to_lower r nick_raw slot profile ≡ ok target
      → any (at_slot target.slot) r ≡ true
  unfolding removal_target assert_slot_in_range
  target-found r nick_raw none target h =
      any-find? (has_nick (normalize_nick to_lower nick_raw)) r target (ground arith)
  target-found r nick_raw (some slot) target h = any-find? (at_slot slot) r target (ground arith)

  pub remove_player-IsDeparture :
      (r r' : List LobbyPlayer) (nick : Option (List ℕ)) (slot : Option ℕ)
      → remove_player to_lower r nick slot profile ≡ ok r'
      → (target : LobbyPlayer) × IsDeparture r r' target
  unfolding remove_player
  remove_player-IsDeparture r r' nick slot h =
      let nick_raw = get_or_else [] (Option.map trim nick) in
      elim (Result-cases (removal_target to_lower r nick_raw slot profile)) [
        | inl (thrown, refused) ↦ absurd (ground arith)
        | inr (target, removed) ↦ (
          target,
          record { found = target-found r nick_raw slot target removed; result = ground arith },
        )
      ]

  pub roster_after_leave-IsDeparture :
      (r r' : List LobbyPlayer) (nick_raw : List ℕ)
      → roster_after_leave to_lower r nick_raw profile ≡ ok r'
      → (target : LobbyPlayer) × IsDeparture r r' target
  unfolding roster_after_leave
  roster_after_leave-IsDeparture r r' nick_raw h =
      let nick = normalize_nick to_lower nick_raw in
      elim (Option-cases (find? (has_nick nick) r)) [
        | inl absent ↦ absurd (ground arith)
        | inr (existing, present) ↦
            remove_player-IsDeparture r r' (some nick) none (rw present at h)
      ]
