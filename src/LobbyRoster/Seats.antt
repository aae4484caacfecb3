-- ===== src/LobbyRoster/Seats.antt =====
-- The invariant of a lobby's roster: one player at a slot of the game, and one with a nick.
use trueskill_bot.Common.{
  List, ℕ, count_if, if◌then◌else◌, subst, ◌≡◌, arith, sym, ◌==◌, ◌≤◌, count_if-append,
  count_if-filter_le, count_if-map, one_if, count_if_congr, not, ◌∷◌, [], ap, Bool-cases, map, true,
  inl, count_if-none, false, any, count_if_le, inr, ◌&&◌, any-false,
}
use trueskill_bot.Game.{GameProfile, is_slot_in_profile}
use trueskill_bot.LobbyRoster.Types.{LobbyPlayer, seat_of}
use trueskill_bot.LobbyRoster.Logic.{at_slot, has_nick, not_at, reseat, rename_at}
use trueskill_bot.LobbyRoster.Accepted.{IsTrade, IsArrival, IsDeparture, IsRenaming}
use trueskill_bot.Player.Nick.{is_empty, same_text, same_text_iff}

-- No slot outside the game and no empty nick is in use.
pub record IsRoster (profile : GameProfile) (r : List LobbyPlayer) : Type 0 where
  pub seats : (slot : ℕ) → count_if (at_slot slot) r ≤ one_if (is_slot_in_profile profile slot)
  pub nicks : (nick : List ℕ) → count_if (has_nick nick) r ≤ one_if (not (is_empty nick))

-- The slot whose player sits at `slot` after a swap of `a` and `b`.
abbrev pub partner : ℕ → ℕ → ℕ → ℕ
partner a b slot = if slot == a then b else if slot == b then a else slot

pub at_slot-reseat :
    (a b slot : ℕ) (p : LobbyPlayer) → at_slot slot (reseat a b p) ≡ at_slot (partner a b slot) p
at_slot-reseat a b slot p = ground arith

nick-reseat : (a b : ℕ) (p : LobbyPlayer) → (reseat a b p).nick ≡ p.nick
nick-reseat a b p = ground arith

in_range-partner :
    (profile : GameProfile) (a b slot : ℕ)
    → is_slot_in_profile profile a ≡ true
    → is_slot_in_profile profile b ≡ true
    → is_slot_in_profile profile (partner a b slot) ≡ is_slot_in_profile profile slot
in_range-partner profile a b slot first second = ground arith

slot-rename_at :
    (slot other : ℕ) (nick : List ℕ) (p : LobbyPlayer)
    → at_slot other (rename_at slot nick p) ≡ at_slot other p
slot-rename_at slot other nick p = ground arith

at_slot_of_renamed :
    (slot : ℕ) (nick : List ℕ) (p : LobbyPlayer)
    → (has_nick nick p && not_at slot p) ≡ false
    → has_nick nick (rename_at slot nick p) ≡ true
    → at_slot slot p ≡ true
at_slot_of_renamed slot nick p away holds = ground arith

keeps_other :
    (slot : ℕ) (nick other : List ℕ) (p : LobbyPlayer)
    → same_text nick other ≡ false
    → has_nick other (rename_at slot nick p) ≡ true
    → has_nick other p ≡ true
keeps_other slot nick other p differs holds = ground arith

module _ (profile : GameProfile) (r r' : List LobbyPlayer) (roster : IsRoster profile r) where
  pub IsTrade-IsRoster : (a b : ℕ) → IsTrade profile r r' a b → IsRoster profile r'
  IsTrade-IsRoster a b t = subst (IsRoster profile) (sym t.result) (record {
    seats = λ slot.
        let moved = count_if-map (at_slot slot) (reseat a b) r in
        let same = count_if_congr _ _ (at_slot-reseat a b slot) r in
        let before = roster.seats (partner a b slot) in
        let range =
          ap one_if (in_range-partner profile a b slot t.first_in_range t.second_in_range) in
        omega arith;
    nicks = λ nick.
        let moved = count_if-map (has_nick nick) (reseat a b) r in
        let same =
          count_if_congr _ (has_nick nick) (λ p. ap (λ n. same_text n nick) (nick-reseat a b p))
            r in
        let before = roster.nicks nick in omega arith;
  })

  pub IsArrival-IsRoster :
      (slot : ℕ) (nick : List ℕ) → IsArrival profile r r' slot nick → IsRoster profile r'
  IsArrival-IsRoster slot nick a = subst (IsRoster profile) (sym a.result) (record {
    seats = λ other.
        let added = count_if-append (at_slot other) r (seat_of slot nick ∷ []) in
        let before = roster.seats other in
        elim (Bool-cases (slot == other)) [
          | inl here ↦
              let e : slot ≡ other = ground arith in
              let range : is_slot_in_profile profile other ≡ true =
                subst (λ n. is_slot_in_profile profile n ≡ true) e a.in_range in
              let none_there =
                count_if-none (at_slot other) r
                  (subst (λ n. any (at_slot n) r ≡ false) e a.vacant) in
              let added1 = rw here at added in rw range (omega arith)
          | inr away ↦ let added1 = rw away at added in omega arith
        ];
    nicks = λ other.
        let added = count_if-append (has_nick other) r (seat_of slot nick ∷ []) in
        let before = roster.nicks other in
        elim (Bool-cases (same_text nick other)) [
          | inl same ↦
              let e : nick ≡ other = (same_text_iff nick other).0 same in
              let named : is_empty other ≡ false = subst (λ n. is_empty n ≡ false) e a.named in
              let none_there =
                count_if-none (has_nick other) r
                  (subst (λ n. any (has_nick n) r ≡ false) e a.new_nick) in
              let added1 = rw same at added in rw named (omega arith)
          | inr differs ↦ let added1 = rw differs at added in omega arith
        ];
  })

  pub IsDeparture-IsRoster : (target : LobbyPlayer) → IsDeparture r r' target → IsRoster profile r'
  IsDeparture-IsRoster target d = subst (IsRoster profile) (sym d.result) (record {
    seats = λ slot.
        let fewer = count_if-filter_le (at_slot slot) (not_at target.slot) r in
        let before = roster.seats slot in omega arith;
    nicks = λ nick.
        let fewer = count_if-filter_le (has_nick nick) (not_at target.slot) r in
        let before = roster.nicks nick in omega arith;
  })

  -- The players with a nick after one of them has changed its own.
  renamed :
      (slot : ℕ) (nick : List ℕ)
      → IsRenaming profile r r' slot nick
      → (other : List ℕ)
      → count_if (has_nick other) (map (rename_at slot nick) r) ≤ one_if (not (is_empty other))
  renamed slot nick n other =
      let moved = count_if-map (has_nick other) (rename_at slot nick) r in
      elim (Bool-cases (same_text nick other)) [
        | inl same ↦
            let e : nick ≡ other = (same_text_iff nick other).0 same in
            let named : is_empty other ≡ false = subst (λ m. is_empty m ≡ false) e n.named in
            let only_there =
              count_if_le (λ p. has_nick other (rename_at slot nick p)) (at_slot slot)
                (λ p. has_nick nick p && not_at slot p) r n.new_nick
                (λ p away holds.
                  at_slot_of_renamed slot nick p away
                    (subst (λ m. has_nick m (rename_at slot nick p) ≡ true) (sym e) holds)) in
            let seated = roster.seats slot in
            let range = n.in_range in let seated1 = rw range at seated in rw named (omega arith)
        | inr differs ↦
            let before = roster.nicks other in
            let fewer =
              count_if_le (λ p. has_nick other (rename_at slot nick p)) (has_nick other)
                (λ _. false) r (any-false r)
                (λ p _ holds. keeps_other slot nick other p differs holds) in
            omega arith
      ]

  pub IsRenaming-IsRoster :
      (slot : ℕ) (nick : List ℕ) → IsRenaming profile r r' slot nick → IsRoster profile r'
  IsRenaming-IsRoster slot nick n = subst (IsRoster profile) (sym n.result) (record {
    seats = λ other.
        let moved = count_if-map (at_slot other) (rename_at slot nick) r in
        let same =
          count_if_congr (λ p. at_slot other (rename_at slot nick p)) (at_slot other)
            (slot-rename_at slot other nick) r in
        let before = roster.seats other in omega arith;
    nicks = λ other. renamed slot nick n other;
  })
