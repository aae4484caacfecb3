-- ===== src/LobbyDraft/Members.antt =====
-- Taking keys out of a list of keys, as `pool.filter((k) => k !== key)` and the candidates of
-- apps/bot/src/services/lobby-draft/draft-logic.ts do.
use trueskill_bot.Common.{
  ◌+◌, ◌≤◌, ◌≡◌, refl, ap, subst, arith, Bool, true, false, not, ◌&&◌, List, [], ◌∷◌, any, filter,
  String, str_eq, eq_iff, count_if, one_if, Bool-cases, inl, inr,
}
use trueskill_bot.LobbyDraft.Types.{LobbyDraftState, LobbyDraftParticipant, keys_of}
use trueskill_bot.LobbyDraft.Logic.{distinct, candidates, linked_participants, is_linked}

abbrev pub is_key : String → String → Bool
is_key key k = str_eq k key

abbrev pub without : String → List String → List String
without key xs = filter (λ k. not (str_eq k key)) xs

any_of_none : (p : String → Bool) (xs : List String) → count_if p xs ≡ 0 → any p xs ≡ false
any_of_none p [] h = refl
any_of_none p (x ∷ xs) h = ground (arith, any_of_none p xs)

module _ (p : String → Bool) where
  pub count_if-without_absent :
      (key : String) (xs : List String)
      → any (is_key key) xs ≡ false
      → count_if p (without key xs) ≡ count_if p xs
  count_if-without_absent key [] h = refl
  count_if-without_absent key (x ∷ xs) h = elim (Bool-cases (str_eq x key)) [
    | inl same ↦ absurd (ground arith)
    | inr other ↦ rw other (omega (arith, count_if-without_absent key xs (rw other at h)))
  ]

  pub count_if-without :
      (key : String) (xs : List String)
      → any (is_key key) xs ≡ true
      → count_if (is_key key) xs ≤ 1
      → count_if p (without key xs) + one_if (p key) ≡ count_if p xs
  count_if-without key [] h once = cc
  count_if-without key (x ∷ xs) h once = elim (Bool-cases (str_eq x key)) [
    | inl same ↦
        let e = (eq_iff x key).0 same in
        let once' = rw same at once in
        let away = any_of_none (is_key key) xs (omega arith) in
        rw same (omega (arith, count_if-without_absent key xs away, ap (λ k. one_if (p k)) e))
    | inr other ↦
        let once' = rw other at once in
        rw other (omega (arith, count_if-without key xs (rw other at h) (omega arith)))
  ]

  count_if-keys_of-filter :
      (q : LobbyDraftParticipant → Bool) (ps : List LobbyDraftParticipant)
      → count_if p (keys_of (filter q ps)) ≤ count_if p (keys_of ps)
  count_if-keys_of-filter q [] = omega arith
  count_if-keys_of-filter q (x ∷ xs) = ground (arith, count_if-keys_of-filter q xs)

  count_if-without_le :
      (key : String) (xs : List String) → count_if p (without key xs) ≤ count_if p xs
  count_if-without_le key [] = omega arith
  count_if-without_le key (x ∷ xs) = ground (arith, count_if-without_le key xs)

  pub count_if-distinct : (xs : List String) → count_if p (distinct xs) ≤ count_if p xs
  unfolding distinct
  count_if-distinct [] = omega arith
  count_if-distinct (x ∷ xs) =
      omega (arith, count_if-without_le x (distinct xs), count_if-distinct xs)

  pub count_if-candidates :
      (s : LobbyDraftState) → count_if p (candidates s) ≤ count_if p (keys_of s.participants)
  unfolding candidates linked_participants
  count_if-candidates s = omega (
    arith,
    count_if-distinct (keys_of (filter is_linked s.participants)),
    count_if-keys_of-filter is_linked s.participants,
  )

count_without_self : (key : String) (xs : List String) → count_if (is_key key) (without key xs) ≡ 0
count_without_self key [] = refl
count_without_self key (x ∷ xs) = ground (arith, count_without_self key xs)

distinct_once : (key : String) (xs : List String) → count_if (is_key key) (distinct xs) ≤ 1
unfolding distinct
distinct_once key [] = omega arith
distinct_once key (x ∷ xs) = elim (Bool-cases (str_eq x key)) [
  | inl same ↦
      let e = (eq_iff x key).0 same in
      let gone =
        subst (λ k. count_if (is_key k) (without x (distinct xs)) ≡ 0) e
          (count_without_self x (distinct xs)) in
      rw same (omega arith)
  | inr other ↦
      rw other
        (omega (arith, count_if-without_le (is_key key) x (distinct xs), distinct_once key xs))
]

pub candidates_once :
    (s : LobbyDraftState) (key : String) → count_if (is_key key) (candidates s) ≤ 1
unfolding candidates
candidates_once s key = distinct_once key (keys_of (linked_participants s.participants))

pub any_of_count : (p : String → Bool) (xs : List String) → 1 ≤ count_if p xs → any p xs ≡ true
any_of_count p [] h = absurd (omega arith)
any_of_count p (x ∷ xs) h = ground (arith, any_of_count p xs)

pub filter-filter :
    (f g : String → Bool) (xs : List String) → filter (λ x. f x && g x) xs ≡ filter g (filter f xs)
filter-filter f g [] = refl
filter-filter f g (x ∷ xs) = ground (arith, filter-filter f g xs)
