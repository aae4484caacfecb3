-- ===== src/LobbyRoster/Search.antt =====
-- The lowest empty slot of a team: `nextEmptySlotOnTeam` of apps/bot/src/services/lobby/roster.ts.
use trueskill_bot.Common.{
  List, ℕ, Bool, Result, ◌≡◌, ◌≤◌, arith, ok, some, true, any, err, ◌⊎◌, false, none, ◌<◌, ◌+◌, inr,
  suc, Bool-cases, inl, zero, refl, Result-cases, ap, ◌&&◌, ◌∙◌, ◌==◌, subst, sym,
}
use trueskill_bot.Game.{GameProfile, TeamId, one, two, is_slot_in_profile, team_for_slot}
use trueskill_bot.LobbyRoster.Types.{LobbyPlayer, LobbyRosterError}
use trueskill_bot.LobbyRoster.Logic.{
  at_slot, is_open_for, first_open, next_empty_slot_on_team, same_team,
}

-- A slot of the game, on the team and with nobody at it.
pub record IsOpen (players : List LobbyPlayer) (profile : GameProfile) (team : TeamId) (slot : ℕ)
    : Type 0 where
  pub on_team : team_for_slot profile slot ≡ ok team
  pub empty : any (at_slot slot) players ≡ false

-- The slot is the lowest open one, or no slot is open.
pub IsSearched : List LobbyPlayer → GameProfile → TeamId → Result LobbyRosterError ℕ → Type 0
IsSearched players profile team (ok slot) =
    IsOpen players profile team slot
    × ((other : ℕ) → IsOpen players profile team other → slot ≤ other)
IsSearched players profile team (err thrown) = (slot : ℕ) → ¬ IsOpen players profile team slot

same_team_sound : (s t : TeamId) → same_team s t ≡ true → s ≡ t
same_team_sound one one h = refl
same_team_sound one two h = cc
same_team_sound two one h = cc
same_team_sound two two h = refl

same_team_refl : (t : TeamId) → same_team t t ≡ true
same_team_refl one = refl
same_team_refl two = refl

is_open_for_sound :
    (players : List LobbyPlayer) (profile : GameProfile) (team : TeamId) (slot : ℕ)
    → is_open_for players profile team slot ≡ true
    → IsOpen players profile team slot
is_open_for_sound players profile team slot h = elim (Result-cases (team_for_slot profile slot)) [
  | inl (thrown, outside) ↦ let h1 = rw outside at h in absurd cc
  | inr (side, inside) ↦
      let h1 = rw inside at h in
      record {
        on_team = inside ∙ ap ok (same_team_sound side team (ground arith));
        empty = ground arith;
      }
]

is_open_for_complete :
    (players : List LobbyPlayer) (profile : GameProfile) (team : TeamId) (slot : ℕ)
    → IsOpen players profile team slot
    → is_open_for players profile team slot ≡ true
is_open_for_complete players profile team slot o =
    rw (o.on_team, o.empty) (ap (λ b. b && true) (same_team_refl team))

IsOpen-in_range :
    (players : List LobbyPlayer) (profile : GameProfile) (team : TeamId) (slot : ℕ)
    → IsOpen players profile team slot
    → (1 ≤ slot) × (slot ≤ profile.slot_count)
unfolding team_for_slot is_slot_in_profile
IsOpen-in_range players profile team slot o = let h = o.on_team in (ground arith, ground arith)

-- What the loop returns from a slot on.
first_open_lem :
    (test : ℕ → Bool) (slot k : ℕ)
    → ((found : ℕ) × (first_open test slot k ≡ some found)
        × (test found ≡ true)
        × (slot ≤ found)
        × ((n : ℕ) → slot ≤ n → test n ≡ true → found ≤ n))
      ⊎ ((first_open test slot k ≡ none) × ((n : ℕ) → slot ≤ n → n < slot + k → test n ≡ false))
unfolding first_open
first_open_lem test slot zero = inr (refl, λ n low high. absurd (omega arith))
first_open_lem test slot (suc k) = elim (Bool-cases (test slot)) [
  | inl passes ↦ inl (slot, ground arith, passes, omega arith, λ n low holds. low)
  | inr fails ↦ elim (first_open_lem test (slot + 1) k) [
    | inl (found, e, holds, low, least) ↦
        inl (found, ground arith, holds, omega arith, least_from fails found least)
    | inr (e, none_left) ↦ inr (ground arith, none_from fails none_left)
  ]
]
  where
    least_from :
        test slot ≡ false
        → (found : ℕ) → ((n : ℕ) → slot + 1 ≤ n → test n ≡ true → found ≤ n)
        → (n : ℕ) → slot ≤ n
        → test n ≡ true
        → found ≤ n
    least_from fails found least n low holds = elim (Bool-cases (slot == n)) [
      | inl here ↦
          let e : slot ≡ n = ground arith in
          let passes : test slot ≡ true = subst (λ m. test m ≡ true) (sym e) holds in absurd cc
      | inr away ↦ least n (ground arith) holds
    ]

    none_from :
        test slot ≡ false
        → ((n : ℕ) → slot + 1 ≤ n → n < slot + 1 + k → test n ≡ false)
        → (n : ℕ) → slot ≤ n
        → n < slot + suc k
        → test n ≡ false
    none_from fails none_left n low high = elim (Bool-cases (slot == n)) [
      | inl here ↦ let e : slot ≡ n = ground arith in subst (λ m. test m ≡ false) e fails
      | inr away ↦ none_left n (ground arith) (omega arith)
    ]

-- The search for the lowest empty slot of a team returns an empty slot of the game on that team, below
-- which the team has no other, or throws, and then the team has no empty slot.
pub next_empty_slot_on_team_lem :
    (players : List LobbyPlayer) (profile : GameProfile) (team : TeamId)
    → IsSearched players profile team (next_empty_slot_on_team players profile team)
unfolding next_empty_slot_on_team IsSearched
next_empty_slot_on_team_lem players profile team =
    elim (first_open_lem (is_open_for players profile team) 1 profile.slot_count) [
      | inl (found, e, holds, low, least) ↦ rw e (
          (
            is_open_for_sound players profile team found holds,
            λ other o.
                least other (IsOpen-in_range players profile team other o).0
                  (is_open_for_complete players profile team other o),
          ))
      | inr (e, none_left) ↦ rw e (λ slot o.
          let (low, high) = IsOpen-in_range players profile team slot o in
          let closed = none_left slot low (omega arith) in
          let passes = is_open_for_complete players profile team slot o in absurd cc)
    ]
