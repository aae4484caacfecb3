-- ===== src/LobbyDraft/Matched.antt =====
-- The loop over the players of `assignHeroes` in apps/bot/src/services/lobby-draft/hero-assign.ts:
-- how many heroes have an owner, and how many players have one.
use trueskill_bot.Common.{
  ℕ, ◌+◌, ◌≤◌, ◌<◌, ◌≡◌, refl, arith, true, false, not, ◌==◌, ◌&&◌, is_some, List, [], ◌∷◌, String,
  str_eq, count_if, one_if, Bool-cases, inl, inr, ◌∙◌, ap, sym, eq_refl, filter, length,
  length-filter, count_if-le-length, count_if-false, count_if-none, subst, count_if-or,
  count_if_congr, ◌||◌, count_if_le, eq_iff, any-false, count_if-filter,
}
use trueskill_bot.LobbyDraft.Assign.{
  has, owner_of, owns, Search, try_assign, match_all, is_matched, owners_after,
}
use trueskill_bot.LobbyDraft.Augment.{IsMatching, try_assign-Serves}
use trueskill_bot.LobbyDraft.Members.{is_key}

-- Of distinct heroes, at most as many have an owner as there are entries.
pub owned_heroes :
    (owners : List (ℕ × String)) (heroes : List ℕ)
    → ((h : ℕ) → count_if (λ x. x == h) heroes ≤ 1)
    → count_if (λ h. is_some (owner_of owners h)) heroes ≤ length owners
owned_heroes [] heroes once = omega (arith, count_if-false heroes)
owned_heroes ((x, o) ∷ owners) heroes once =
    let ih = owned_heroes owners heroes once in
    let own = once x in
    let split = count_if-or (λ h. h == x) (λ h. is_some (owner_of owners h)) heroes in
    let same =
      count_if_congr (λ h. is_some (owner_of ((x, o) ∷ owners) h))
        (λ h. h == x || is_some (owner_of owners h)) (λ h. ground arith) heroes in
    omega (arith, ih, own, split, same)

abbrev drop_owner : String → List (ℕ × String) → List (ℕ × String)
drop_owner key owners = filter (λ e. not (owns key e)) owners

count_if-drop_owner :
    (key k : String) (owners : List (ℕ × String))
    → str_eq key k ≡ false
    → count_if (owns k) (drop_owner key owners) ≡ count_if (owns k) owners
count_if-drop_owner key k [] e = refl
count_if-drop_owner key k ((h, o) ∷ owners) e =
    let ih = count_if-drop_owner key k owners e in
    elim (Bool-cases (str_eq o key)) [
      | inr other ↦ ground arith
      | inl own ↦
          let same = (eq_iff o key).0 own in
          let apart : str_eq o k ≡ false = ap (λ x. str_eq x k) same ∙ e in ground arith
    ]

count_if-drop_owner_self :
    (key : String) (owners : List (ℕ × String)) → count_if (owns key) (drop_owner key owners) ≡ 0
count_if-drop_owner_self key [] = refl
count_if-drop_owner_self key (e ∷ owners) = ground (arith, count_if-drop_owner_self key owners)

matched_of_count :
    (owners : List (ℕ × String)) (k : String)
    → 1 ≤ count_if (owns k) owners
    → is_matched owners k ≡ true
matched_of_count owners k h = elim (Bool-cases (is_matched owners k)) [
  | inl matched ↦ matched
  | inr unmatched ↦ absurd (omega (arith, h, count_if-none (owns k) owners unmatched))
]

count_le_matched :
    (owners : List (ℕ × String)) (k : String)
    → count_if (owns k) owners ≤ 1
    → count_if (owns k) owners ≤ one_if (is_matched owners k)
count_le_matched owners k h = elim (Bool-cases (is_matched owners k)) [
  | inl matched ↦ let one = ap one_if matched in omega (arith, h, one)
  | inr unmatched ↦ omega (arith, count_if-none (owns k) owners unmatched)
]

others_within :
    (key : String) (keys : List String) (owners : List (ℕ × String)) (k : String)
    → count_if (owns k) owners ≤ count_if (is_key k) (key ∷ keys)
    → count_if (owns k) (drop_owner key owners) ≤ count_if (is_key k) keys
others_within key keys owners k le = elim (Bool-cases (str_eq key k)) [
  | inl own ↦
      let same = (eq_iff key k).0 own in
      let none_left : count_if (owns k) (drop_owner key owners) ≡ 0 =
        subst (λ x. count_if (owns x) (drop_owner key owners) ≡ 0) same
          (count_if-drop_owner_self key owners) in
      omega (arith, none_left)
  | inr other ↦
      let zero_more = ap one_if other in
      omega (arith, zero_more, le, count_if-drop_owner key k owners other)
]

-- Where no player is listed twice and none has two heroes, there are at most as many entries as
-- matched players.
pub matched_players :
    (keys : List String) (owners : List (ℕ × String))
    → ((k : String) → count_if (is_key k) keys ≤ 1)
    → ((k : String) → count_if (owns k) owners ≤ count_if (is_key k) keys)
    → length owners ≤ count_if (is_matched owners) keys
matched_players [] [] once le = omega arith
matched_players [] (e ∷ owners) once le =
    let own = ap one_if (eq_refl e.1) in absurd (omega (arith, own, le e.1))
matched_players (key ∷ keys) owners once le =
    let others = drop_owner key owners in
    let ih =
      matched_players keys others (λ k. omega (arith, once k))
        (λ k. others_within key keys owners k (le k)) in
    let fewer =
      count_if_le (is_matched others) (is_matched owners) (λ k. false) keys (any-false keys)
        (λ k _ matched.
          matched_of_count owners k
            (count_if-filter (owns k) (λ e. not (owns key e)) owners matched)) in
    omega (
      arith,
      ih,
      fewer,
      length-filter (owns key) owners,
      count_le_matched owners key (omega (arith, once key, le key)),
    )

-- What the loop keeps and adds, over the players `keys`.
pub record IsMatched (wishes : String → List ℕ) (keys : List String)
    (before after : List (ℕ × String)) : Type 0 where
  pub sound : IsMatching wishes before → IsMatching wishes after
  pub at_most :
      (k : String) → count_if (owns k) after ≤ count_if (owns k) before + count_if (is_key k) keys

module _ (wishes : String → List ℕ) (heroes : List ℕ)
    (within : (key : String) (h : ℕ) → has h (wishes key) ≡ true → has h heroes ≡ true) where
  pub match_all-IsMatched :
      (fuel : ℕ) (keys : List String) (owners : List (ℕ × String))
      → length heroes < fuel
      → IsMatched wishes keys owners (match_all wishes fuel keys owners)
  unfolding match_all
  match_all-IsMatched fuel [] owners enough = record { sound = λ m. m; at_most = λ k. omega arith }
  match_all-IsMatched fuel (key ∷ keys) owners enough =
      let start : Search = record { seen = []; owners = owners } in
      let most = count_if-le-length (λ h. not (has h [])) heroes in
      let (found, s', e, served) =
        try_assign-Serves wishes heroes within fuel key start (omega (arith, most, enough)) in
      let next = match_all-IsMatched fuel keys s'.owners enough in
      let now : owners_after (try_assign wishes fuel key start) owners ≡ s'.owners =
        ap (λ a. owners_after a owners) e in
      subst (λ o. IsMatched wishes (key ∷ keys) owners (match_all wishes fuel keys o)) (sym now)
        (record {
          sound = λ m. next.sound (served.sound m);
          at_most = λ k.
              let one : one_if (found && str_eq key k) ≤ one_if (str_eq key k) = ground arith in
              omega (arith, one, next.at_most k, served.counts k);
        })
