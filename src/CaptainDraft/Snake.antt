-- ===== src/CaptainDraft/Snake.antt =====
-- The order of picks in a snake draft: `captainIndexForPick` and `shufflePickOrder` of
-- apps/bot/src/services/captain-draft/draft-logic.ts.
use native.Mathlib.Nat.{div-add-mod', mod-lt, add-zero, add-suc, suc-mul, zero-mul}
use trueskill_bot.Common.{
  ℕ, zero, suc, ◌+◌, ◌-◌, ◌*◌, ◌/◌, ◌%◌, ◌≤◌, ◌<◌, ◌≡◌, Bool, true, arith, ltb, ◌==◌, if◌then◌else◌,
  one_if, SameItems, length, ap, ◌∙◌, refl,
}
use trueskill_bot.Common.Rng.{Rng, count_if-fisher_yates, length-fisher_yates}
use trueskill_bot.CaptainDraft.Logic.{captain_index_for_pick, shuffle_pick_order, range_from}

-- A pick index is written as its round and its place in the round.
div_of_round : (n r p : ℕ) → p < n → (r * n + p) / n ≡ r
div_of_round n r p h = grind arith

mod_of_round : (n r p : ℕ) → p < n → (r * n + p) % n ≡ p
mod_of_round n r p h = grind arith

-- The slot that picks at place `p` of round `r`: forward in even rounds, backward in odd ones.
abbrev snake : ℕ → ℕ → ℕ → ℕ
snake n r p = if r % 2 == 0 then p else n - 1 - p

pub captain_index_for_pick-round :
    (n r p : ℕ) → p < n → captain_index_for_pick (r * n + p) n ≡ snake n r p
unfolding captain_index_for_pick
captain_index_for_pick-round n r p h =
    rw (div_of_round n r p h, mod_of_round n r p h) (ground arith)

pub captain_index_for_pick-lt : (n m : ℕ) → 0 < n → captain_index_for_pick m n < n
unfolding captain_index_for_pick
captain_index_for_pick-lt n m h = ground (arith, mod-lt m h)

-- How many of the picks 0, …, m - 1 fall to the slot.
pub picks_made : ℕ → ℕ → ℕ → ℕ
picks_made slot n zero = 0
picks_made slot n (suc m) = picks_made slot n m + one_if (captain_index_for_pick m n == slot)

-- Whether the slot has had its turn after `p` picks of round `r`.
abbrev had_turn : ℕ → ℕ → ℕ → ℕ → Bool
had_turn slot n r p = if r % 2 == 0 then ltb slot p else ltb (n - 1 - slot) p

-- The pick at place `p` is the slot's exactly when its turn comes with it.
had_turn-suc :
    (slot n r p : ℕ)
    → slot < n
    → p < n
    → one_if (had_turn slot n r (suc p))
      ≡ one_if (had_turn slot n r p) + one_if (snake n r p == slot)
had_turn-suc slot n r p hs hp = ground arith

picks_made-round :
    (slot n r p : ℕ)
    → slot < n
    → p ≤ n
    → picks_made slot n (r * n + p) ≡ picks_made slot n (r * n) + one_if (had_turn slot n r p)
unfolding picks_made
picks_made-round slot n r zero hs hp = rw add-zero (ground arith)
picks_made-round slot n r (suc p) hs hp =
    rw (add-suc, captain_index_for_pick-round n r p hp)
      (omega (arith, picks_made-round slot n r p hs (omega arith), had_turn-suc slot n r p hs hp))

had_turn-all : (slot n r : ℕ) → slot < n → had_turn slot n r n ≡ true
had_turn-all slot n r h = ground arith

picks_made-rounds : (slot n r : ℕ) → slot < n → picks_made slot n (r * n) ≡ r
unfolding picks_made
picks_made-rounds slot n zero h = rw zero-mul
picks_made-rounds slot n (suc r) h =
    rw (suc-mul, picks_made-round slot n r n h (omega arith), had_turn-all slot n r h)
      (omega (arith, picks_made-rounds slot n r h))

-- A snake draft is fair. Where there are captains, after `m` picks every slot has picked once in
-- each full round, and at most once more, so that the counts of two slots never differ by more than
-- one; and after `m` full rounds every slot has picked `m` times.
pub picks_made_balanced :
    (slot n m : ℕ)
    → slot < n
    → (m / n ≤ picks_made slot n m)
      × (picks_made slot n m ≤ m / n + 1)
      × (picks_made slot n (m * n) ≡ m)
picks_made_balanced slot n m h =
    let e =
      picks_made-round slot n (m / n) (m % n) h (omega (arith, mod-lt m {m = n} (omega arith))) in
    let e' = rw (div-add-mod' m n) at e in
    let whole = picks_made-rounds slot n (m / n) h in
    (ground arith, ground arith, picks_made-rounds slot n m h)

-- Two rounds in a row run in opposite directions: place `p` of one round and of the next belong to
-- slots that mirror each other, so whoever picks last in a round picks first in the next.
pub captain_index_for_pick_mirror :
    (n r p : ℕ)
    → p < n
    → captain_index_for_pick (r * n + p) n + captain_index_for_pick (suc r * n + p) n ≡ n - 1
captain_index_for_pick_mirror n r p h =
    rw (captain_index_for_pick-round n r p h, captain_index_for_pick-round n (suc r) p h)
      (ground arith)

pub shuffle_pick_order-SameItems :
    (count : ℕ) (rng : Rng) (k : ℕ)
    → SameItems (shuffle_pick_order count rng k) (range_from 0 count)
unfolding shuffle_pick_order
shuffle_pick_order-SameItems count rng k p = count_if-fisher_yates p rng k (count - 1) _

length-range_from : (i n : ℕ) → length (range_from i n) ≡ n
length-range_from i zero = refl
length-range_from i (suc n) = ap suc (length-range_from (suc i) n)

pub length-shuffle_pick_order :
    (count : ℕ) (rng : Rng) (k : ℕ) → length (shuffle_pick_order count rng k) ≡ count
unfolding shuffle_pick_order
length-shuffle_pick_order count rng k =
    length-fisher_yates rng k (count - 1) (range_from 0 count) ∙ length-range_from 0 count
