-- ===== src/LobbyDraft/Leftovers.antt =====
-- The lists that `assignHeroes` of apps/bot/src/services/lobby-draft/hero-assign.ts puts together: the
-- wishes, the assignments of the matched players and those of the others.
use trueskill_bot.Common.{
  ℕ, ◌≤◌, ◌≡◌, refl, arith, Bool, true, false, not, ◌==◌, List, [], ◌∷◌, String, str_eq, count_if,
  one_if, Bool-cases, inl, inr, ◌∙◌, ap, filter, length, count_if-any, eq_iff, ◌-◌, map, SameItems,
  ◌+◌,
}
use trueskill_bot.Common.Rng.{Rng, count_if-fisher_yates}
use trueskill_bot.LobbyDraft.Types.{HeroAssignment}
use trueskill_bot.LobbyDraft.Logic.{shuffle}
use trueskill_bot.LobbyDraft.Assign.{
  has, owns, is_matched, Wisher, wishes_of, shuffled_wishes, granted, leftover, keys_in,
  insert_by_score, sort_by_score, weighted_order, Power, scored, weight_of,
}
use trueskill_bot.LobbyDraft.Owners.{is_for}
use trueskill_bot.LobbyDraft.Members.{is_key}

abbrev pub is_given : String → (String × HeroAssignment) → Bool
is_given key a = str_eq a.0 key

abbrev pub gives : ℕ → (String × HeroAssignment) → Bool
gives h a = a.1.hero_id == h

pub count_if-granted :
    (players : List Wisher) (owners entries : List (ℕ × String)) (key : String)
    → count_if (is_given key) (granted players owners entries) ≡ count_if (owns key) entries
unfolding granted
count_if-granted players owners [] key = refl
count_if-granted players owners (e ∷ entries) key =
    omega (arith, count_if-granted players owners entries key)

pub count_if-gives-granted :
    (players : List Wisher) (owners entries : List (ℕ × String)) (h : ℕ)
    → count_if (gives h) (granted players owners entries) ≡ count_if (is_for h) entries
unfolding granted
count_if-gives-granted players owners [] h = refl
count_if-gives-granted players owners (e ∷ entries) h =
    omega (arith, count_if-gives-granted players owners entries h)

abbrev pub unmatched_in : List (ℕ × String) → List String → ℕ
unmatched_in owners keys = count_if (λ k. not (is_matched owners k)) keys

pub leftover_matched :
    (owners : List (ℕ × String)) (keys : List String) (free : List ℕ) (key : String)
    → is_matched owners key ≡ true
    → count_if (is_given key) (leftover owners keys free) ≡ 0
unfolding leftover
leftover_matched owners [] free key e = refl
leftover_matched owners (x ∷ keys) [] key e = refl
leftover_matched owners (x ∷ keys) (h ∷ free) key e = elim (Bool-cases (is_matched owners x)) [
  | inl matched ↦ rw matched (leftover_matched owners keys (h ∷ free) key e)
  | inr unmatched ↦
      let rest = leftover_matched owners keys free key e in
      elim (Bool-cases (str_eq x key)) [
        | inl own ↦
            let same = ap (is_matched owners) ((eq_iff x key).0 own) in absurd (ground arith)
        | inr other ↦ rw (unmatched, other) (omega (arith, rest))
      ]
]

leftover_none : (owners : List (ℕ × String)) (keys : List String) → leftover owners keys [] ≡ []
unfolding leftover
leftover_none owners [] = refl
leftover_none owners (x ∷ keys) = refl

pub leftover_unmatched :
    (owners : List (ℕ × String)) (keys : List String) (free : List ℕ) (key : String)
    → is_matched owners key ≡ false
    → unmatched_in owners keys ≤ length free
    → count_if (is_given key) (leftover owners keys free) ≡ count_if (is_key key) keys
unfolding leftover
leftover_unmatched owners [] free key e enough = refl
leftover_unmatched owners (x ∷ keys) [] key e enough = elim (Bool-cases (str_eq x key)) [
  | inl own ↦ let same = ap (is_matched owners) ((eq_iff x key).0 own) ∙ e in absurd (ground arith)
  | inr other ↦
      let rest = leftover_unmatched owners keys [] key e (omega (arith, enough)) in
      let empty = ap (count_if (is_given key)) (leftover_none owners keys) in
      let none_here = ap one_if other in omega (arith, rest, empty, none_here)
]
leftover_unmatched owners (x ∷ keys) (h ∷ free) key e enough =
    elim (Bool-cases (is_matched owners x)) [
      | inl matched ↦
          let rest = leftover_unmatched owners keys (h ∷ free) key e (ground arith) in
          elim (Bool-cases (str_eq x key)) [
            | inl own ↦
                let same = ap (is_matched owners) ((eq_iff x key).0 own) ∙ e in
                absurd (ground arith)
            | inr other ↦ rw (matched, other) (omega (arith, rest))
          ]
      | inr unmatched ↦
          let rest = leftover_unmatched owners keys free key e (ground arith) in
          rw unmatched (omega (arith, rest))
    ]

pub count_if-gives-leftover :
    (owners : List (ℕ × String)) (keys : List String) (free : List ℕ) (h : ℕ)
    → count_if (gives h) (leftover owners keys free) ≤ count_if (λ x. x == h) free
unfolding leftover
count_if-gives-leftover owners [] free h = omega arith
count_if-gives-leftover owners (x ∷ keys) [] h = omega arith
count_if-gives-leftover owners (x ∷ keys) (g ∷ free) h = elim (Bool-cases (is_matched owners x)) [
  | inl matched ↦ let ih = count_if-gives-leftover owners keys (g ∷ free) h in rw matched ih
  | inr unmatched ↦
      let ih = count_if-gives-leftover owners keys free h in rw unmatched (omega (arith, ih))
]

pub keys_in-shuffled_wishes :
    (heroes : List ℕ) (ps : List Wisher) (rng : Rng) (k : ℕ)
    → keys_in (shuffled_wishes rng k heroes ps) ≡ keys_in ps
unfolding shuffled_wishes
keys_in-shuffled_wishes heroes [] rng k = refl
keys_in-shuffled_wishes heroes (p ∷ ps) rng k =
    ap (λ keys. p.key ∷ keys) (keys_in-shuffled_wishes heroes ps rng _)

pub count_if-keys_in :
    (q : String → Bool) (ps : List Wisher) → count_if q (keys_in ps) ≡ count_if (λ p. q p.key) ps
count_if-keys_in q [] = refl
count_if-keys_in q (p ∷ ps) = omega (arith, count_if-keys_in q ps)

pub length-count_if {ℓ} : {A : Type ℓ} (xs : List A) → count_if (λ _. true) xs ≡ length xs
length-count_if [] = refl
length-count_if (x ∷ xs) = omega (arith, length-count_if xs)

has-filter :
    (heroes wishes : List ℕ) (h : ℕ)
    → 1 ≤ count_if (λ x. x == h) (filter (λ x. has x heroes) wishes)
    → has h heroes ≡ true
has-filter heroes [] h e = absurd (omega (arith, e))
has-filter heroes (x ∷ xs) h e = elim (Bool-cases (has x heroes)) [
  | inr out ↦ has-filter heroes xs h (rw out at e)
  | inl there ↦
      let e' = rw there at e in
      elim (Bool-cases (x == h)) [
        | inl own ↦ let same : h ≡ x = ground arith in ap (λ y. has y heroes) same ∙ there
        | inr other ↦
            let none_here = ap one_if other in has-filter heroes xs h (omega (arith, none_here, e'))
      ]
]

has-shuffle :
    (rng : Rng) (k h : ℕ) (heroes wishes : List ℕ)
    → has h (shuffle rng k (filter (λ x. has x heroes) wishes)) ≡ true
    → has h heroes ≡ true
unfolding shuffle
has-shuffle rng k h heroes wishes e =
    let there = filter (λ x. has x heroes) wishes in
    let found = count_if-any (λ x. x == h) (shuffle rng k there) e in
    let same = count_if-fisher_yates (λ x. x == h) rng k (length there - 1) there in
    has-filter heroes wishes h (omega (arith, found, same))

pub within_shuffled :
    (heroes : List ℕ) (ps : List Wisher) (rng : Rng) (k : ℕ) (key : String) (h : ℕ)
    → has h (wishes_of (shuffled_wishes rng k heroes ps) key) ≡ true
    → has h heroes ≡ true
unfolding shuffled_wishes
within_shuffled heroes [] rng k key h e = absurd (ground arith)
within_shuffled heroes (p ∷ ps) rng k key h e = elim (Bool-cases (str_eq p.key key)) [
  | inl own ↦ has-shuffle rng k h heroes p.wishes (rw own at e)
  | inr other ↦ within_shuffled heroes ps rng _ key h (rw other at e)
]

count_if-insert_by_score :
    (q : Wisher → Bool) (x : ℕ × Wisher) (ys : List (ℕ × Wisher))
    → count_if q (map (λ y. y.1) (insert_by_score x ys))
      ≡ one_if (q x.1) + count_if q (map (λ y. y.1) ys)
unfolding insert_by_score
count_if-insert_by_score q x [] = refl
count_if-insert_by_score q x (y ∷ ys) = ground (arith, count_if-insert_by_score q x ys)

count_if-sort_by_score :
    (q : Wisher → Bool) (power : Power) (rng : Rng) (ps : List Wisher) (k : ℕ)
    → count_if q (map (λ y. y.1) (sort_by_score (scored power rng k ps))) ≡ count_if q ps
unfolding sort_by_score scored
count_if-sort_by_score q power rng [] k = refl
count_if-sort_by_score q power rng (p ∷ ps) k = omega (
  arith,
  count_if-insert_by_score q (power (rng k) (weight_of p), p)
      (sort_by_score (scored power rng (k + 1) ps)),
  count_if-sort_by_score q power rng ps (k + 1),
)

-- The players keep their number.
pub weighted_order-SameItems :
    (power : Power) (rng : Rng) (k : ℕ) (ps : List Wisher)
    → SameItems (weighted_order power rng k ps) ps
unfolding weighted_order
weighted_order-SameItems power rng k ps q = count_if-sort_by_score q power rng ps k
