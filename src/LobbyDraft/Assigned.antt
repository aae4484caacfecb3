-- ===== src/LobbyDraft/Assigned.antt =====
-- `assignHeroes` of apps/bot/src/services/lobby-draft/hero-assign.ts as a whole: who gets a hero.
use trueskill_bot.Common.{
  ℕ, ◌+◌, ◌≤◌, ◌≡◌, refl, arith, Bool, true, not, ◌==◌, some, is_some, List, [], ◌∷◌, ◌++◌, String,
  All, count_if, Bool-cases, inl, inr, Option-cases, ◌∙◌, ap, sym, length, length-filter, SameItems,
  count_if-append, ok, count_if-any, count_if-none, ◌-◌, count_if-filter_le,
}
use trueskill_bot.Common.Rng.{Rng, count_if-fisher_yates, length-fisher_yates}
use trueskill_bot.LobbyDraft.Types.{HeroAssignment}
use trueskill_bot.LobbyDraft.Logic.{shuffle}
use trueskill_bot.LobbyDraft.Assign.{
  has, owner_of, owns, is_matched, Wisher, Power, weighted_order, wishes_of, shuffled_wishes,
  granted, leftover, keys_in, free_heroes, matching, assign_heroes, calls_of_wishes,
}
use trueskill_bot.LobbyDraft.Owners.{count_if-is_for-none}
use trueskill_bot.LobbyDraft.Augment.{IsMatching}
use trueskill_bot.LobbyDraft.Matched.{owned_heroes, matched_players, match_all-IsMatched}
use trueskill_bot.LobbyDraft.Members.{is_key}
use trueskill_bot.LobbyDraft.Leftovers.{
  is_given, gives, count_if-granted, count_if-gives-granted, leftover_matched, leftover_unmatched,
  count_if-gives-leftover, keys_in-shuffled_wishes, count_if-keys_in, length-count_if,
  within_shuffled, unmatched_in, weighted_order-SameItems,
}

-- Each of the players has one assignment; no hero is in two, and all are of the side.
pub record IsAssigned (players : List Wisher) (heroes : List ℕ)
    (result : List (String × HeroAssignment)) : Type 0 where
  pub everyone :
      (key : String) → count_if (is_given key) result ≡ count_if (is_key key) (keys_in players)
  pub once : (h : ℕ) → count_if (gives h) result ≤ count_if (λ x. x == h) heroes

liked_of :
    (wishes : String → List ℕ) (os : List (ℕ × String)) (h : ℕ) (key : String)
    → All (λ e. has e.0 (wishes e.1) ≡ true) os
    → owner_of os h ≡ some key
    → has h (wishes key) ≡ true
liked_of wishes [] h key all e = absurd (ground arith)
liked_of wishes ((x, o) ∷ os) h key all e = elim (Bool-cases (x == h)) [
  | inr other ↦ liked_of wishes os h key all.1 (rw other at e)
  | inl own ↦
      let same : x ≡ h = ground arith in
      let owner : o ≡ key = ground arith in let liked = all.0 in cc
]

-- A hero that has an owner is not free.
owned_not_free :
    (os : List (ℕ × String)) (heroes : List ℕ) (h : ℕ) (key : String)
    → owner_of os h ≡ some key
    → count_if (λ x. x == h) (free_heroes os heroes) ≡ 0
owned_not_free os [] h key e = refl
owned_not_free os (x ∷ heroes) h key e =
    let ih = owned_not_free os heroes h key e in
    elim (Bool-cases (x == h)) [
      | inl own ↦
          let same : x ≡ h = ground arith in
          let has_owner = ap (owner_of os) same ∙ e in rw has_owner ih
      | inr other ↦ ground arith
    ]

length-keys_in : (ps : List Wisher) → length (keys_in ps) ≡ length ps
length-keys_in [] = refl
length-keys_in (p ∷ ps) = omega (arith, length-keys_in ps)

unmatched_matched :
    (os : List (ℕ × String)) (keys : List String)
    → unmatched_in os keys + count_if (is_matched os) keys ≡ length keys
unmatched_matched os [] = refl
unmatched_matched os (x ∷ keys) = ground (arith, unmatched_matched os keys)

module _ (power : Power) (players : List Wisher) (heroes : List ℕ) (rng : Rng) (k : ℕ)
    (players_once : (key : String) → count_if (is_key key) (keys_in players) ≤ 1)
    (heroes_once : (h : ℕ) → count_if (λ x. x == h) heroes ≤ 1) where
  abbrev turns : List Wisher
  turns = weighted_order power rng k players

  abbrev owners : List (ℕ × String)
  owners = matching power players heroes rng k

  same_keys : (q : String → Bool) → count_if q (keys_in turns) ≡ count_if q (keys_in players)
  same_keys q =
      count_if-keys_in q turns
      ∙ weighted_order-SameItems power rng k players (λ p. q p.key)
      ∙ sym (count_if-keys_in q players)

  matching_lem :
      IsMatching (wishes_of (shuffled_wishes rng (k + length players) heroes turns)) owners
  unfolding matching
  matching_lem =
      (match_all-IsMatched _ heroes (within_shuffled heroes turns rng (k + length players))
          (length heroes + 1) (keys_in (shuffled_wishes rng (k + length players) heroes turns)) []
          (omega arith)).sound
        (record { once = λ h. omega arith; liked = _ })

  matching_at_most :
      (key : String) → count_if (owns key) owners ≤ count_if (is_key key) (keys_in turns)
  unfolding matching
  matching_at_most key =
      let same =
        ap (count_if (is_key key))
          (keys_in-shuffled_wishes heroes turns rng (k + length players)) in
      let most =
        (match_all-IsMatched _ heroes (within_shuffled heroes turns rng (k + length players))
            (length heroes + 1) (keys_in (shuffled_wishes rng (k + length players) heroes turns)) []
            (omega arith)).at_most
          key in
      omega (arith, same, most)

  enough_free :
      length players ≤ length heroes
      → unmatched_in owners (keys_in turns) ≤ length (free_heroes owners heroes)
  enough_free fits =
      let keys = keys_in turns in
      omega (
        arith,
        fits,
        unmatched_matched owners keys,
        length-count_if keys,
        same_keys (λ _. true),
        length-count_if (keys_in players),
        length-keys_in players,
        matched_players keys owners (λ key. omega (arith, same_keys (is_key key), players_once key))
            matching_at_most,
        owned_heroes owners heroes heroes_once,
        length-filter (λ h. is_some (owner_of owners h)) heroes,
      )

  given_once :
      (free : List ℕ) (h : ℕ)
      → SameItems free (free_heroes owners heroes)
      → count_if (gives h) (granted players owners owners ++ leftover owners (keys_in turns) free)
        ≤ count_if (λ x. x == h) heroes
  given_once free h same =
      let granted_part = count_if-gives-granted players owners owners h in
      let leftover_part = count_if-gives-leftover owners (keys_in turns) free h in
      let both =
        count_if-append (gives h) (granted players owners owners)
          (leftover owners (keys_in turns) free) in
      elim (Option-cases (owner_of owners h)) [
        | inl nobody ↦ omega (
          arith,
          granted_part,
          leftover_part,
          both,
          same (λ x. x == h),
          count_if-is_for-none owners h nobody,
          count_if-filter_le (λ x. x == h) (λ x. not (is_some (owner_of owners x))) heroes,
        )
        | inr (key, e) ↦
            let there =
              within_shuffled heroes turns rng (k + length players) key h
                (liked_of _ owners h key matching_lem.liked e) in
            omega (
              arith,
              granted_part,
              leftover_part,
              both,
              same (λ x. x == h),
              owned_not_free owners heroes h key e,
              matching_lem.once h,
              count_if-any (λ x. x == h) heroes there,
            )
      ]

  everyone_given :
      (free : List ℕ) (key : String)
      → unmatched_in owners (keys_in turns) ≤ length free
      → count_if
          (is_given key)
          (granted players owners owners ++ leftover owners (keys_in turns) free)
        ≡ count_if (is_key key) (keys_in players)
  everyone_given free key enough =
      let granted_part = count_if-granted players owners owners key in
      let both =
        count_if-append (is_given key) (granted players owners owners)
          (leftover owners (keys_in turns) free) in
      elim (Bool-cases (is_matched owners key)) [
        | inl matched ↦ omega (
          arith,
          granted_part,
          both,
          leftover_matched owners (keys_in turns) free key matched,
          count_if-any (owns key) owners matched,
          matching_at_most key,
          same_keys (is_key key),
          players_once key,
        )
        | inr unmatched ↦ omega (
          arith,
          granted_part,
          both,
          leftover_unmatched owners (keys_in turns) free key unmatched enough,
          count_if-none (owns key) owners unmatched,
          same_keys (is_key key),
        )
      ]

  -- Where a side has as many heroes as players, the assignment succeeds: each player has one hero,
  -- no hero is given twice, and all are heroes of the side.
  pub assign_heroes-IsAssigned :
      length players ≤ length heroes
      → (result : List (String × HeroAssignment)) × (assign_heroes power players heroes rng k
          ≡ ok result)
        × IsAssigned players heroes result
  unfolding assign_heroes shuffle
  assign_heroes-IsAssigned fits =
      let calls = length players + calls_of_wishes heroes turns in
      let left = free_heroes owners heroes in
      let free = shuffle rng (k + calls) left in
      let same : SameItems free left =
        λ q. count_if-fisher_yates q rng (k + calls) (length left - 1) left in
      let as_many = length-fisher_yates rng (k + calls) (length left - 1) left in
      (
        granted players owners owners ++ leftover owners (keys_in turns) free,
        ground arith,
        record {
          everyone = λ key. everyone_given free key (omega (arith, as_many, enough_free fits));
          once = λ h. given_once free h same;
        },
      )
