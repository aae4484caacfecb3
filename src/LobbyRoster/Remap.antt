-- ===== src/LobbyRoster/Remap.antt =====
-- Swaps written as pairs: apps/bot/src/services/lobby/remap.ts.
use mathlib.Core.Option
use trueskill_bot.Common.{
  List, Option, ok, ℕ, Bool, err, guard, if◌then◌else◌, none, ◌>>=◌, ◌∷◌, [], false, not, some,
  true, ◌*◌, ◌==◌, ◌>>◌, get_or_else, require, suc, ◌&&◌, ◌+◌, find?, ◌-◌, ◌||◌, length, take, drop,
}
use trueskill_bot.Game.{GameProfile, is_slot_in_profile}
use trueskill_bot.LobbyRoster.Types.{
  LobbyPlayer, Throws, invalid_slot, nick_unknown, no_pairs, invalid_pair, could_not_apply,
  both_forms, half_a_form, no_form,
}
use trueskill_bot.LobbyRoster.Logic.{has_nick, move_player}
use trueskill_bot.Player.Nick.{is_digit, is_empty, trim, normalize_nick}

pub record RemapPair : Type 0 where
  pub raw : List ℕ
  pub left : List ℕ
  pub right : List ℕ

pub data SwapForm : Type 0 where
  classic : (slot_a slot_b : ℕ) → SwapForm
  pairs : List ℕ → SwapForm

abbrev are_digits : List ℕ → Bool
are_digits [] = true
are_digits (c ∷ s) = is_digit c && are_digits s

-- `SLOT_TOKEN`: a digit that is not 0, then digits.
abbrev pub is_slot_token : List ℕ → Bool
is_slot_token [] = false
is_slot_token (c ∷ s) = is_digit c && not (c == b'0') && are_digits s

-- `Number(text)` on digits, with the value of those before.
abbrev pub number_from : ℕ → List ℕ → ℕ
number_from n [] = n
number_from n (c ∷ s) = number_from (10 * n + (c - b'0')) s

module _ (to_lower : List ℕ → List ℕ) where
  unfoldable pub resolve_remap_side : List ℕ → List LobbyPlayer → GameProfile → Throws ℕ
  resolve_remap_side token players profile =
      let trimmed = trim token in
      let nick = normalize_nick to_lower trimmed in
      if is_slot_token trimmed
      then guard (is_slot_in_profile profile (number_from 0 trimmed)) invalid_slot
        >> ok (number_from 0 trimmed)
      else require (find? (has_nick nick) players) (nick_unknown nick) >>= λ player. ok player.slot

-- `text.split(',')`.
abbrev split_commas : List ℕ → List (List ℕ)
split_commas [] = [] ∷ []
split_commas (c ∷ s) =
    let rest = split_commas s in if c == b',' then [] ∷ rest else join_first c rest
  where
    join_first : ℕ → List (List ℕ) → List (List ℕ)
    join_first d [] = (d ∷ []) ∷ []
    join_first d (first ∷ rest) = (d ∷ first) ∷ rest

-- `text.lastIndexOf('-')`, with `none` for -1.
abbrev last_dash : List ℕ → Option ℕ
last_dash [] = none
last_dash (c ∷ s) = elim (last_dash s) [
  | some i ↦ some (suc i)
  | none ↦ if c == b'-' then some 0 else none
]

-- One segment of the loop of `parseRemapPairs`.
unfoldable pub parse_pair : List ℕ → Throws RemapPair
parse_pair segment =
    let trimmed = trim segment in
    guard (not (is_empty trimmed)) (invalid_pair [])
    >> require (last_dash trimmed) (invalid_pair trimmed)
    >>= λ dash.
        guard (not (dash == 0 || dash + 1 == length trimmed)) (invalid_pair trimmed)
        >> (let left = trim (take dash trimmed) in
            let right = trim (drop (dash + 1) trimmed) in
            guard (not (is_empty left || is_empty right)) (invalid_pair trimmed)
            >> ok (record { raw = trimmed; left = left; right = right }))

abbrev parse_segments : List (List ℕ) → Throws (List RemapPair)
parse_segments [] = ok []
parse_segments (segment ∷ rest) =
    let later = parse_segments rest in
    parse_pair segment >>= λ pair. later >>= λ others. ok (pair ∷ others)

unfoldable pub parse_remap_pairs : List ℕ → Throws (List RemapPair)
unfolding parse_pair
parse_remap_pairs raw =
    guard (not (is_empty (trim raw))) no_pairs >> parse_segments (split_commas raw)

-- The `catch` of `applyRemapPairs`.
abbrev pub prefix {ℓ} : {A : Type ℓ} → RemapPair → Throws A → Throws A
prefix pair (ok a) = ok a
prefix pair (err e) = err (could_not_apply pair.raw e)

module _ (to_lower : List ℕ → List ℕ) (profile : GameProfile) where
  -- One round of the loop of `applyRemapPairs`.
  unfoldable pub apply_pair : List LobbyPlayer → RemapPair → Throws (List LobbyPlayer)
  apply_pair working pair = resolve_remap_side to_lower pair.left working profile >>= λ from.
      resolve_remap_side to_lower pair.right working profile >>= λ to.
      move_player working from to profile

  abbrev pub apply_each : List LobbyPlayer → List RemapPair → Throws (List LobbyPlayer)
  apply_each working [] = ok working
  apply_each working (pair ∷ rest) =
      prefix pair (apply_pair working pair) >>= λ moved. apply_each moved rest

module _ (to_lower : List ℕ → List ℕ) where
  unfoldable pub apply_remap_pairs :
      List LobbyPlayer → List ℕ → GameProfile → Throws (List LobbyPlayer)
  apply_remap_pairs players raw profile =
      parse_remap_pairs raw >>= λ parsed. apply_each to_lower profile players parsed

unfoldable pub resolve_swap_form :
    (slot_a slot_b : Option ℕ) (pairs_text : Option (List ℕ)) → Throws SwapForm
resolve_swap_form a b pairs_text = swap_form a b (get_or_else [] (Option.map trim pairs_text))
  where
    swap_form : Option ℕ → Option ℕ → List ℕ → Throws SwapForm
    swap_form none none [] = err no_form
    swap_form none none (c ∷ s) = ok (pairs (c ∷ s))
    swap_form (some x) (some y) [] = ok (classic x y)
    swap_form (some x) (some y) (c ∷ s) = err both_forms
    swap_form none (some y) [] = err half_a_form
    swap_form none (some y) (c ∷ s) = err both_forms
    swap_form (some x) none [] = err half_a_form
    swap_form (some x) none (c ∷ s) = err both_forms
