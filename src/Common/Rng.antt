-- ===== src/Common/Rng.antt =====
-- `Math.random` and the seeded generators that callers pass: the k-th call returns the fraction
-- `rng k / unit`, and the Fisher-Yates loop that the draft modules share.
use native.Mathlib.Nat.{div-lt_iff_lt-mul}
use trueskill_bot.Common.{
  ℕ, zero, suc, ◌+◌, ◌*◌, ◌/◌, ◌^◌, ◌<◌, ◌≡◌, refl, Bool, List, [], ◌∷◌, Option, none, some, ◌∙◌,
  arith, ltb, length, get_elem?, set, count_if, count_if-set, length-set,
}

-- The number of fractions that `Math.random` draws from.
abbrev pub unit : ℕ
unit = 2 ^ 53

abbrev pub Rng : Type 0
Rng = ℕ → ℕ

-- What the language promises of `Math.random`: a result below 1.
abbrev pub IsRng : Rng → Type 0
IsRng rng = (k : ℕ) → rng k < unit

-- `Math.floor(rng() * bound)`.
unfoldable pub draw : ℕ → ℕ → ℕ
draw r bound = r * bound / unit

-- `rng() < 0.5`.
abbrev pub coin : ℕ → Bool
coin r = ltb (2 * r) unit

pub draw-lt : (r bound : ℕ) → r < unit → 0 < bound → draw r bound < bound
unfolding draw
draw-lt r bound h p = (div-lt_iff_lt-mul (omega arith)).1 (grind arith)

module _ {ℓ} {A : Type ℓ} where
  -- The exchange of `order[i]` and `order[j]`.
  abbrev swap_found : List A → ℕ → ℕ → Option A → Option A → List A
  swap_found xs i j (some x) (some y) = set (set xs i y) j x
  swap_found xs i j (some x) none = xs
  swap_found xs i j none y = xs

  unfoldable pub swap_at : List A → ℕ → ℕ → List A
  swap_at xs i j = swap_found xs i j (get_elem? xs i) (get_elem? xs j)

  -- The rounds `i`, `i - 1`, …, 1 of the loop; the k-th call of `rng` is the first to be made.
  unfoldable pub fisher_yates : Rng → ℕ → ℕ → List A → List A
  fisher_yates rng k zero xs = xs
  fisher_yates rng k (suc i) xs =
      fisher_yates rng (k + 1) i (swap_at xs (suc i) (draw (rng k) (suc i + 1)))

  length-swap_found :
      (xs : List A) (i j : ℕ) (x y : Option A) → length (swap_found xs i j x y) ≡ length xs
  length-swap_found xs i j (some x) (some y) = length-set (set xs i y) j x ∙ length-set xs i y
  length-swap_found xs i j (some x) none = refl
  length-swap_found xs i j none y = refl

  pub length-fisher_yates :
      (rng : Rng) (k i : ℕ) (xs : List A) → length (fisher_yates rng k i xs) ≡ length xs
  unfolding fisher_yates swap_at
  length-fisher_yates rng k zero xs = refl
  length-fisher_yates rng k (suc i) xs =
      length-fisher_yates rng (k + 1) i _ ∙ length-swap_found xs _ _ _ _

  module _ (p : A → Bool) where
    -- Where the second place is read after the first write, it still holds `y`, or it is the same.
    count_if-swap :
        (xs : List A) (i j : ℕ) {x y : A}
        → get_elem? xs i ≡ some x
        → get_elem? xs j ≡ some y
        → count_if p (set (set xs i y) j x) ≡ count_if p xs
    count_if-swap [] i j hx hy = cc
    count_if-swap (z ∷ zs) zero zero hx hy = ground arith
    count_if-swap (z ∷ zs) zero (suc j) {x} {y} hx hy = ground (arith, count_if-set p zs j x hy)
    count_if-swap (z ∷ zs) (suc i) zero {x} {y} hx hy = ground (arith, count_if-set p zs i y hx)
    count_if-swap (z ∷ zs) (suc i) (suc j) hx hy = omega (arith, count_if-swap zs i j hx hy)

    count_if-swap_found :
        (xs : List A) (i j : ℕ) (x y : Option A)
        → get_elem? xs i ≡ x
        → get_elem? xs j ≡ y
        → count_if p (swap_found xs i j x y) ≡ count_if p xs
    count_if-swap_found xs i j (some x) (some y) hx hy = count_if-swap xs i j hx hy
    count_if-swap_found xs i j (some x) none hx hy = refl
    count_if-swap_found xs i j none y hx hy = refl

    -- The loop reorders: every test passes as often after it as before.
    pub count_if-fisher_yates :
        (rng : Rng) (k i : ℕ) (xs : List A) → count_if p (fisher_yates rng k i xs) ≡ count_if p xs
    unfolding fisher_yates swap_at
    count_if-fisher_yates rng k zero xs = refl
    count_if-fisher_yates rng k (suc i) xs =
        count_if-fisher_yates rng (k + 1) i _
        ∙ count_if-swap_found xs _ _ (get_elem? xs (suc i)) (get_elem? xs _) refl refl
