-- ===== src/Common/Count.antt =====
-- Counting the elements that pass a test: two lists hold the same elements, as often, where all
-- tests agree on the count.
use Prim.Native.Nat.{ℕ, zero, suc, ◌+◌, ◌≤◌}
use mathlib.Core.Path.{◌≡◌, refl}
use mathlib.Core.Logic.{inl, inr}
use mathlib.Core.Bool.{Bool, true, false, not, ◌||◌}
use mathlib.Core.List.{List, [], ◌∷◌, ◌++◌, map}
use mathlib.Core.Option.{some}
use native.Mathlib.Omega.{arith}
use trueskill_bot.Common.Tests.{Bool-cases}
use trueskill_bot.Common.Lists.{get_elem?, set, modify, erase_at, length, any, filter, take}

abbrev pub one_if : Bool → ℕ
one_if true = 1
one_if false = 0

module _ {ℓ} {A : Type ℓ} where
  abbrev pub count_if : (A → Bool) → List A → ℕ
  count_if p [] = 0
  count_if p (x ∷ xs) = one_if (p x) + count_if p xs

  abbrev pub SameItems : List A → List A → Type ℓ
  SameItems xs ys = (p : A → Bool) → count_if p xs ≡ count_if p ys

module _ {ℓ} {A : Type ℓ} (p : A → Bool) where
  pub count_if-append : (xs ys : List A) → count_if p (xs ++ ys) ≡ count_if p xs + count_if p ys
  count_if-append [] ys = omega arith
  count_if-append (x ∷ xs) ys = omega (arith, count_if-append xs ys)

  pub count_if-set :
      (xs : List A) (i : ℕ) (v : A) {x : A}
      → get_elem? xs i ≡ some x
      → count_if p (set xs i v) + one_if (p x) ≡ count_if p xs + one_if (p v)
  count_if-set [] i v h = cc
  count_if-set (x ∷ xs) zero v h = ground arith
  count_if-set (x ∷ xs) (suc i) v h = omega (arith, count_if-set xs i v h)

  pub count_if-erase_at :
      (xs : List A) (i : ℕ) {x : A}
      → get_elem? xs i ≡ some x
      → count_if p (erase_at xs i) + one_if (p x) ≡ count_if p xs
  count_if-erase_at [] i h = cc
  count_if-erase_at (x ∷ xs) zero h = ground arith
  count_if-erase_at (x ∷ xs) (suc i) h = omega (arith, count_if-erase_at xs i h)

  pub count_if-le-length : (xs : List A) → count_if p xs ≤ length xs
  count_if-le-length [] = omega arith
  count_if-le-length (x ∷ xs) = ground (arith, count_if-le-length xs)

  pub count_if-modify :
      (xs : List A) (i : ℕ) (f : A → A) {x : A}
      → get_elem? xs i ≡ some x
      → count_if p (modify xs i f) + one_if (p x) ≡ count_if p xs + one_if (p (f x))
  count_if-modify [] i f h = cc
  count_if-modify (x ∷ xs) zero f h = ground arith
  count_if-modify (x ∷ xs) (suc i) f h = omega (arith, count_if-modify xs i f h)

  pub count_if-none : (xs : List A) → any p xs ≡ false → count_if p xs ≡ 0
  count_if-none [] h = refl
  count_if-none (x ∷ xs) h = ground (arith, count_if-none xs)

  pub count_if-any : (xs : List A) → any p xs ≡ true → 1 ≤ count_if p xs
  count_if-any [] h = cc
  count_if-any (x ∷ xs) h = ground (arith, count_if-any xs)

  pub any-count_if : (xs : List A) → count_if p xs ≡ 0 → any p xs ≡ false
  any-count_if [] h = refl
  any-count_if (x ∷ xs) h = ground (arith, any-count_if xs)

  pub count_if-filter :
      (q : A → Bool) (xs : List A) → any p (filter q xs) ≡ true → 1 ≤ count_if p xs
  count_if-filter q [] h = cc
  count_if-filter q (x ∷ xs) h = ground (arith, count_if-filter q xs)

  -- One element more of a list.
  pub count_if-take :
      (n : ℕ) (xs : List A) {x : A}
      → get_elem? xs n ≡ some x
      → count_if p (take (suc n) xs) ≡ count_if p (take n xs) + one_if (p x)
  count_if-take n [] h = cc
  count_if-take zero (x ∷ xs) h = ground arith
  count_if-take (suc n) (x ∷ xs) h = omega (arith, count_if-take n xs h)

  -- A filter keeps what passes, and loses the rest.
  pub length-filter :
      (xs : List A) → length (filter (λ x. not (p x)) xs) + count_if p xs ≡ length xs
  length-filter [] = refl
  length-filter (x ∷ xs) = ground (arith, length-filter xs)

pub count_if-false {ℓ} : {A : Type ℓ} (xs : List A) → count_if (λ _. false) xs ≡ 0
count_if-false [] = refl
count_if-false (x ∷ xs) = omega (arith, count_if-false xs)

module _ {ℓ} {A : Type ℓ} (p q : A → Bool) where
  pub count_if-or : (xs : List A) → count_if (λ x. p x || q x) xs ≤ count_if p xs + count_if q xs
  count_if-or [] = omega arith
  count_if-or (x ∷ xs) = ground (arith, count_if-or xs)

  pub count_if_congr : ((x : A) → p x ≡ q x) → (xs : List A) → count_if p xs ≡ count_if q xs
  count_if_congr same [] = refl
  count_if_congr same (x ∷ xs) = ground (arith, same x, count_if_congr same xs)

  -- On a list where nothing passes `r`, what passes `p` passes `q`.
  pub count_if_le :
      (r : A → Bool) (xs : List A)
      → any r xs ≡ false
      → ((x : A) → r x ≡ false → p x ≡ true → q x ≡ true)
      → count_if p xs ≤ count_if q xs
  count_if_le r [] none_left implies = omega arith
  count_if_le r (x ∷ xs) none_left implies = elim (Bool-cases (p x)) [
    | inl passes ↦
        let q_passes = implies x (ground arith) passes in
        let rest = count_if_le r xs (ground arith) implies in
        rw (passes, q_passes) (omega (arith, rest))
    | inr fails ↦
        let rest = count_if_le r xs (ground arith) implies in rw fails (omega (arith, rest))
  ]

  pub count_if-filter_le : (xs : List A) → count_if p (filter q xs) ≤ count_if p xs
  count_if-filter_le [] = omega arith
  count_if-filter_le (x ∷ xs) = ground (arith, count_if-filter_le xs)

pub count_if-map {ℓ κ} :
    {A : Type ℓ} {B : Type κ} (p : B → Bool) (f : A → B) (xs : List A)
    → count_if p (map f xs) ≡ count_if (λ x. p (f x)) xs
count_if-map p f [] = refl
count_if-map p f (x ∷ xs) = omega (arith, count_if-map p f xs)

pub any-false {ℓ} : {A : Type ℓ} (xs : List A) → any (λ _. false) xs ≡ false
any-false [] = refl
any-false (x ∷ xs) = any-false xs
