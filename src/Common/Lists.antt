-- ===== src/Common/Lists.antt =====
-- Lists measured and indexed by native numbers, and the array methods that the source calls.
use Prim.Native.Nat.{ℕ, zero, suc, ◌+◌, ◌<◌, ◌≤◌}
use mathlib.Core.Path.{◌≡◌, refl, ap}
use mathlib.Core.Logic.{◌≢◌, inl, inr}
use mathlib.Core.Bool.{Bool, true, false, ◌||◌}
use mathlib.Core.List.{List, [], ◌∷◌, ◌++◌, map}
use mathlib.Core.Option.{Option, none, some}
use mathlib.Core.Option
use native.Mathlib.Omega.{arith}
use trueskill_bot.Common.Tests.{if◌then◌else◌, Bool-cases}

module _ {ℓ} {A : Type ℓ} where
  abbrev pub length : List A → ℕ
  length [] = 0
  length (x ∷ xs) = suc (length xs)

  abbrev pub get_elem? : List A → ℕ → Option A
  get_elem? [] i = none
  get_elem? (x ∷ xs) zero = some x
  get_elem? (x ∷ xs) (suc i) = get_elem? xs i

  -- A write out of bounds changes nothing.
  abbrev pub set : List A → ℕ → A → List A
  set [] i v = []
  set (x ∷ xs) zero v = v ∷ xs
  set (x ∷ xs) (suc i) v = x ∷ set xs i v

  -- `xs.map((x, j) => (j === i ? f(x) : x))`.
  abbrev pub modify : List A → ℕ → (A → A) → List A
  modify [] i f = []
  modify (x ∷ xs) zero f = f x ∷ xs
  modify (x ∷ xs) (suc i) f = x ∷ modify xs i f

  abbrev pub take : ℕ → List A → List A
  take zero xs = []
  take (suc n) [] = []
  take (suc n) (x ∷ xs) = x ∷ take n xs

  -- `xs.slice(n)`.
  abbrev pub drop : ℕ → List A → List A
  drop zero xs = xs
  drop (suc n) [] = []
  drop (suc n) (x ∷ xs) = drop n xs

  -- `xs.filter((_, j) => j !== i)`.
  abbrev pub erase_at : List A → ℕ → List A
  erase_at [] i = []
  erase_at (x ∷ xs) zero = xs
  erase_at (x ∷ xs) (suc i) = x ∷ erase_at xs i

  -- `xs.slice(0, -1)`.
  abbrev pub drop_last : List A → List A
  drop_last [] = []
  drop_last (x ∷ []) = []
  drop_last (x ∷ y ∷ ys) = x ∷ drop_last (y ∷ ys)

  abbrev pub get_last? : List A → Option A
  get_last? [] = none
  get_last? (x ∷ []) = some x
  get_last? (x ∷ y ∷ ys) = get_last? (y ∷ ys)

  abbrev pub filter : (A → Bool) → List A → List A
  filter p [] = []
  filter p (x ∷ xs) = if p x then x ∷ filter p xs else filter p xs

  -- `xs.find(p)`.
  abbrev pub find? : (A → Bool) → List A → Option A
  find? p [] = none
  find? p (x ∷ xs) = if p x then some x else find? p xs

  -- `xs.findIndex(p)`, with `none` for -1.
  abbrev pub find_index? : (A → Bool) → List A → Option ℕ
  find_index? p [] = none
  find_index? p (x ∷ xs) = if p x then some 0 else Option.map suc (find_index? p xs)

  -- `xs.some(p)`.
  abbrev pub any : (A → Bool) → List A → Bool
  any p [] = false
  any p (x ∷ xs) = p x || any p xs

  abbrev pub All {κ} : (A → Type κ) → List A → Type κ
  All P [] = Unit
  All P (x ∷ xs) = P x × All P xs

module _ {ℓ} {A : Type ℓ} where
  pub length-append : (xs ys : List A) → length (xs ++ ys) ≡ length xs + length ys
  length-append [] ys = omega arith
  length-append (x ∷ xs) ys = omega (arith, length-append xs ys)

  pub length-map {κ} : {B : Type κ} (f : A → B) (xs : List A) → length (map f xs) ≡ length xs
  length-map f [] = refl
  length-map f (x ∷ xs) = ap suc (length-map f xs)

  pub length-set : (xs : List A) (i : ℕ) (v : A) → length (set xs i v) ≡ length xs
  length-set [] i v = refl
  length-set (x ∷ xs) zero v = refl
  length-set (x ∷ xs) (suc i) v = ap suc (length-set xs i v)

  pub length-modify : (xs : List A) (i : ℕ) (f : A → A) → length (modify xs i f) ≡ length xs
  length-modify [] i f = refl
  length-modify (x ∷ xs) zero f = refl
  length-modify (x ∷ xs) (suc i) f = ap suc (length-modify xs i f)

  pub get_elem?-lt : (xs : List A) (i : ℕ) {x : A} → get_elem? xs i ≡ some x → i < length xs
  get_elem?-lt [] i h = cc
  get_elem?-lt (x ∷ xs) zero h = omega arith
  get_elem?-lt (x ∷ xs) (suc i) h = omega (arith, get_elem?-lt xs i h)

  pub get_elem?_total : (xs : List A) (i : ℕ) → i < length xs → (x : A) × (get_elem? xs i ≡ some x)
  get_elem?_total [] i h = elim h [ ]
  get_elem?_total (x ∷ xs) zero h = (x, refl)
  get_elem?_total (x ∷ xs) (suc i) h = get_elem?_total xs i (omega arith)

  pub get_last?-snoc : (xs : List A) (x : A) → get_last? (xs ++ x ∷ []) ≡ some x
  get_last?-snoc [] x = refl
  get_last?-snoc (y ∷ []) x = refl
  get_last?-snoc (y ∷ z ∷ zs) x = get_last?-snoc (z ∷ zs) x

  pub drop_last-snoc : (xs : List A) (x : A) → drop_last (xs ++ x ∷ []) ≡ xs
  drop_last-snoc [] x = refl
  drop_last-snoc (y ∷ []) x = refl
  drop_last-snoc (y ∷ z ∷ zs) x = ap (λ l. y ∷ l) (drop_last-snoc (z ∷ zs) x)

  -- A list with a last element is its front and that element.
  pub get_last?_decompose :
      (xs : List A) {x : A} → get_last? xs ≡ some x → xs ≡ drop_last xs ++ x ∷ []
  get_last?_decompose [] h = cc
  get_last?_decompose (y ∷ []) h = cc
  get_last?_decompose (y ∷ z ∷ zs) h = ap (λ l. y ∷ l) (get_last?_decompose (z ∷ zs) h)

  -- Only the first match counts.
  pub find_index?_sound :
      (p : A → Bool) (xs : List A) (i : ℕ)
      → find_index? p xs ≡ some i
      → (x : A) × (get_elem? xs i ≡ some x) × (p x ≡ true)
  find_index?_sound p [] i h = cc
  find_index?_sound p (x ∷ xs) zero h = (x, refl, ground arith)
  find_index?_sound p (x ∷ xs) (suc i) h = find_index?_sound p xs i (ground arith)

  pub find_index?-find? :
      (p : A → Bool) (xs : List A) {i : ℕ} → find_index? p xs ≡ some i → find? p xs ≡ get_elem? xs i
  find_index?-find? p [] h = cc
  find_index?-find? p (x ∷ xs) {i = zero} h = ground arith
  find_index?-find? p (x ∷ xs) {i = suc i} h = ground (arith, find_index?-find? p xs {i = i})

  pub find_index?-none : (p : A → Bool) (xs : List A) → find_index? p xs ≡ none → find? p xs ≡ none
  find_index?-none p [] h = refl
  find_index?-none p (x ∷ xs) h = ground (arith, find_index?-none p xs)

  pub get_elem?-modify_self :
      (xs : List A) (i : ℕ) (f : A → A) {x : A}
      → get_elem? xs i ≡ some x
      → get_elem? (modify xs i f) i ≡ some (f x)
  get_elem?-modify_self [] i f h = cc
  get_elem?-modify_self (x ∷ xs) zero f h = ground arith
  get_elem?-modify_self (x ∷ xs) (suc i) f h = get_elem?-modify_self xs i f h

  pub get_elem?-modify_ne :
      (xs : List A) (i j : ℕ) (f : A → A) → i ≢ j → get_elem? (modify xs i f) j ≡ get_elem? xs j
  get_elem?-modify_ne [] i j f h = refl
  get_elem?-modify_ne (x ∷ xs) zero zero f h = absurd (h refl)
  get_elem?-modify_ne (x ∷ xs) zero (suc j) f h = refl
  get_elem?-modify_ne (x ∷ xs) (suc i) zero f h = refl
  get_elem?-modify_ne (x ∷ xs) (suc i) (suc j) f h =
      get_elem?-modify_ne xs i j f (λ e. h (ap suc e))

  -- The second change at one place undoes the first where it takes `f x` back to `x`.
  pub modify-modify :
      (xs : List A) (i : ℕ) (f g : A → A) {x : A}
      → get_elem? xs i ≡ some x
      → g (f x) ≡ x
      → modify (modify xs i f) i g ≡ xs
  modify-modify [] i f g h e = cc
  modify-modify (x ∷ xs) zero f g h e = ground arith
  modify-modify (x ∷ xs) (suc i) f g h e = ap (λ l. x ∷ l) (modify-modify xs i f g h e)

  pub length-erase_at :
      (xs : List A) (i : ℕ) {x : A}
      → get_elem? xs i ≡ some x
      → suc (length (erase_at xs i)) ≡ length xs
  length-erase_at [] i h = cc
  length-erase_at (x ∷ xs) zero h = refl
  length-erase_at (x ∷ xs) (suc i) h = ap suc (length-erase_at xs i h)

  pub length-take_le : (n : ℕ) (xs : List A) → n ≤ length xs → length (take n xs) ≡ n
  length-take_le zero xs h = refl
  length-take_le (suc n) [] h = absurd (omega arith)
  length-take_le (suc n) (x ∷ xs) h = ap suc (length-take_le n xs (omega arith))

  -- An element that is left by a filter passes both tests.
  pub any-filter :
      (p q : A → Bool) (xs : List A)
      → any q (filter p xs) ≡ true
      → (x : A) × (p x ≡ true) × (q x ≡ true)
  any-filter p q [] h = cc
  any-filter p q (x ∷ xs) h = elim (Bool-cases (p x)) [
    | inr out ↦ any-filter p q xs (rw out at h)
    | inl kept ↦ elim (Bool-cases (q x)) [
      | inl found ↦ (x, kept, found)
      | inr other ↦ any-filter p q xs (ground arith)
    ]
  ]

  pub any-get_elem? :
      (q : A → Bool) (xs : List A) (i : ℕ) {x : A}
      → get_elem? xs i ≡ some x
      → q x ≡ true
      → any q xs ≡ true
  any-get_elem? q [] i found h = cc
  any-get_elem? q (x ∷ xs) zero found h = ground arith
  any-get_elem? q (x ∷ xs) (suc i) found h = ground (arith, any-get_elem? q xs i found h)
