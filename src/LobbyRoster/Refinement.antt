-- ===== src/LobbyRoster/Refinement.antt =====
-- What the commands on a roster promise: a seating gives each slot its nick or none, and a command
-- changes that map at one slot or at two.
use trueskill_bot.Player.Nick.{same_text_iff}
use mathlib.Core.Option.{none, some}
use trueskill_bot.Common.{
  List, ℕ, Option, any, find?, if◌then◌else◌, map, ◌≡◌, ◌≢◌, false, filter, none, true, ◌++◌, ◌==◌,
  ◌∷◌, [], arith, some, refl, Bool, Bool-cases, ap, ◌&&◌, inl, ◌∙◌, inr, subst, sym,
}
use mathlib.Core.Option
use trueskill_bot.Game.{GameProfile, is_slot_in_profile}
use trueskill_bot.LobbyRoster.Types.{LobbyPlayer, seat_of}
use trueskill_bot.LobbyRoster.Logic.{at_slot, has_nick, not_at, reseat, rename_at}
use trueskill_bot.LobbyRoster.Seats.{partner, at_slot-reseat}
use trueskill_bot.LobbyRoster.Accepted.{IsTrade, IsArrival, IsDeparture, IsRenaming}

-- The nick at each slot.
abbrev pub Seating : Type 0
Seating = ℕ → Option (List ℕ)

unfoldable pub seating : List LobbyPlayer → Seating
seating r slot = Option.map LobbyPlayer.nick (find? (at_slot slot) r)

abbrev pub seat_nick : ℕ → List ℕ → Seating → Seating
seat_nick slot nick σ t = if t == slot then some nick else σ t

abbrev pub vacate : ℕ → Seating → Seating
vacate slot σ t = if t == slot then none else σ t

abbrev pub exchange : ℕ → ℕ → Seating → Seating
exchange a b σ t = σ (partner a b t)

-- A player with a new nick takes an empty slot.
pub record Arrives (profile : GameProfile) (slot : ℕ) (nick : List ℕ) (σ σ' : Seating)
    : Type 0 where
  pub in_range : is_slot_in_profile profile slot ≡ true
  pub was_empty : σ slot ≡ none
  pub is_new : (t : ℕ) → σ t ≢ some nick
  pub after : (t : ℕ) → σ' t ≡ seat_nick slot nick σ t

pub record Leaves (slot : ℕ) (σ σ' : Seating) : Type 0 where
  pub was_taken : σ slot ≢ none
  pub after : (t : ℕ) → σ' t ≡ vacate slot σ t

-- The players at two slots change places; the second slot may be empty.
pub record Trades (profile : GameProfile) (a b : ℕ) (σ σ' : Seating) : Type 0 where
  pub first_in_range : is_slot_in_profile profile a ≡ true
  pub second_in_range : is_slot_in_profile profile b ≡ true
  pub different : a ≢ b
  pub was_taken : σ a ≢ none
  pub after : (t : ℕ) → σ' t ≡ exchange a b σ t

pub record Renames (slot : ℕ) (nick : List ℕ) (σ σ' : Seating) : Type 0 where
  pub was_taken : σ slot ≢ none
  pub is_new : (t : ℕ) → t ≢ slot → σ t ≢ some nick
  pub after : (t : ℕ) → σ' t ≡ seat_nick slot nick σ t

seating-none : (t : ℕ) (r : List LobbyPlayer) → any (at_slot t) r ≡ false → seating r t ≡ none
unfolding seating
seating-none t [] h = refl
seating-none t (q ∷ r) h = ground (arith, seating-none t r)

seating-some : (t : ℕ) (r : List LobbyPlayer) → any (at_slot t) r ≡ true → seating r t ≢ none
unfolding seating
seating-some t [] h = cc
seating-some t (q ∷ r) h = ground (arith, seating-some t r)

seating-append :
    (slot t : ℕ) (nick : List ℕ) (r : List LobbyPlayer)
    → any (at_slot slot) r ≡ false
    → seating (r ++ seat_of slot nick ∷ []) t ≡ seat_nick slot nick (seating r) t
unfolding seating
seating-append slot t nick [] h = ground arith
seating-append slot t nick (q ∷ r) h = ground (arith, seating-append slot t nick r)

seating-filter :
    (slot t : ℕ) (r : List LobbyPlayer)
    → seating (filter (not_at slot) r) t ≡ vacate slot (seating r) t
unfolding seating
seating-filter slot t [] = ground arith
seating-filter slot t (q ∷ r) = ground (arith, seating-filter slot t r)

seating-reseat :
    (a b t : ℕ) (r : List LobbyPlayer) → seating (map (reseat a b) r) t ≡ seating r (partner a b t)
unfolding seating
seating-reseat a b t [] = refl
seating-reseat a b t (q ∷ r) = ground (arith, seating-reseat a b t r, at_slot-reseat a b t q)

rename_at-here :
    (slot : ℕ) (nick : List ℕ) (r : List LobbyPlayer)
    → any (at_slot slot) r ≡ true
    → seating (map (rename_at slot nick) r) slot ≡ some nick
unfolding seating
rename_at-here slot nick [] h = cc
rename_at-here slot nick (q ∷ r) h = ground (arith, rename_at-here slot nick r)

rename_at-away :
    (slot t : ℕ) (nick : List ℕ) (r : List LobbyPlayer)
    → (t == slot) ≡ false
    → seating (map (rename_at slot nick) r) t ≡ seating r t
unfolding seating
rename_at-away slot t nick [] h = refl
rename_at-away slot t nick (q ∷ r) h = ground (arith, rename_at-away slot t nick r)

seating-rename_at :
    (slot t : ℕ) (nick : List ℕ) (r : List LobbyPlayer)
    → any (at_slot slot) r ≡ true
    → seating (map (rename_at slot nick) r) t ≡ seat_nick slot nick (seating r) t
seating-rename_at slot t nick r h = elim (Bool-cases (t == slot)) [
  | inl here ↦
      let e : t ≡ slot = ground arith in
      let renamed = rename_at-here slot nick r h in
      rw here (subst (λ n. seating (map (rename_at slot nick) r) n ≡ some nick) (sym e) renamed)
  | inr away ↦ rw away (rename_at-away slot t nick r away)
]

-- Who sits at a slot is in the list.
seating-any :
    (t : ℕ) (nick : List ℕ) (r : List LobbyPlayer)
    → seating r t ≡ some nick
    → any (λ p. has_nick nick p && at_slot t p) r ≡ true
unfolding seating
seating-any t nick [] h = cc
seating-any t nick (q ∷ r) h = elim (Bool-cases (at_slot t q)) [
  | inl here ↦
      let h1 = rw here at h in
      let e : q.nick ≡ nick = ground arith in
      let named = (same_text_iff q.nick nick).1 e in ground arith
  | inr away ↦ ground (arith, seating-any t nick r (rw away at h))
]

elsewhere :
    (slot t : ℕ) (nick : List ℕ) (p : LobbyPlayer)
    → t ≢ slot
    → (has_nick nick p && at_slot t p) ≡ true
    → (has_nick nick p && not_at slot p) ≡ true
elsewhere slot t nick p other holds = ground arith

any_weaken :
    (p q : LobbyPlayer → Bool) (r : List LobbyPlayer)
    → ((x : LobbyPlayer) → p x ≡ true → q x ≡ true)
    → any p r ≡ true
    → any q r ≡ true
any_weaken p q [] implies h = h
any_weaken p q (x ∷ r) implies h = elim (Bool-cases (p x)) [
  | inl passes ↦ let q_passes = implies x passes in ground arith
  | inr fails ↦ ground (arith, any_weaken p q r implies (rw fails at h))
]

module _ (profile : GameProfile) (r r' : List LobbyPlayer) where
  pub IsTrade-Trades :
      (a b : ℕ) → IsTrade profile r r' a b → Trades profile a b (seating r) (seating r')
  IsTrade-Trades a b t = record {
    first_in_range = t.first_in_range;
    second_in_range = t.second_in_range;
    different = λ e. let eq = t.different in ground arith;
    was_taken = seating-some a r t.occupied;
    after = λ slot. ap (λ l. seating l slot) t.result ∙ seating-reseat a b slot r;
  }

  pub IsArrival-Arrives :
      (slot : ℕ) (nick : List ℕ)
      → IsArrival profile r r' slot nick
      → Arrives profile slot nick (seating r) (seating r')
  IsArrival-Arrives slot nick a = record {
    in_range = a.in_range;
    was_empty = seating-none slot r a.vacant;
    is_new = λ t e.
        let there = seating-any t nick r e in
        let nick_there =
          any_weaken (λ p. has_nick nick p && at_slot t p) (has_nick nick) r
            (λ p holds. ground arith) there in
        let none_there = a.new_nick in absurd cc;
    after = λ t. ap (λ l. seating l t) a.result ∙ seating-append slot t nick r a.vacant;
  }

  pub IsDeparture-Leaves :
      (target : LobbyPlayer) → IsDeparture r r' target → Leaves target.slot (seating r) (seating r')
  IsDeparture-Leaves target d = record {
    was_taken = seating-some target.slot r d.found;
    after = λ t. ap (λ l. seating l t) d.result ∙ seating-filter target.slot t r;
  }

  pub IsRenaming-Renames :
      (slot : ℕ) (nick : List ℕ)
      → IsRenaming profile r r' slot nick
      → Renames slot nick (seating r) (seating r')
  IsRenaming-Renames slot nick n = record {
    was_taken = seating-some slot r n.occupied;
    is_new = λ t other e.
        let there = seating-any t nick r e in
        let nick_there =
          any_weaken (λ p. has_nick nick p && at_slot t p) (λ p. has_nick nick p && not_at slot p) r
            (λ p holds. elsewhere slot t nick p other holds) there in
        let none_there = n.new_nick in absurd cc;
    after = λ t. ap (λ l. seating l t) n.result ∙ seating-rename_at slot t nick r n.occupied;
  }
