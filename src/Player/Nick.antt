-- ===== src/Player/Nick.antt =====
-- In-game nicks: apps/bot/src/services/player/player-nick.ts. A nick is a list of code points.
use trueskill_bot.Common.{
  ℕ, Bool, not, ◌&&◌, ◌||◌, List, [], ◌∷◌, Option, none, some, leb, ◌==◌, if◌then◌else◌, any,
  get_or_else, is_space, true, ◌≡◌, false, ◌↔◌, arith, refl,
}
use mathlib.Core.List.{reverse}
use Prim.Native.Char.{code}
use Prim.Native.String.{String, [], ◌∷◌}

-- What `.` does not match in a regular expression.
abbrev pub is_line_end : ℕ → Bool
is_line_end c = c == 10 || c == 13 || c == 8232 || c == 8233

abbrev pub is_digit : ℕ → Bool
is_digit c = leb b'0' c && leb c b'9'

unfoldable pub drop_spaces : List ℕ → List ℕ
drop_spaces [] = []
drop_spaces (c ∷ s) = if is_space c then drop_spaces s else c ∷ s

unfoldable pub trim : List ℕ → List ℕ
unfolding drop_spaces
trim s = reverse (drop_spaces (reverse (drop_spaces s)))

-- The reversed text without its digits.
unfoldable pub drop_digits : List ℕ → List ℕ
drop_digits [] = []
drop_digits (c ∷ s) = if is_digit c then drop_digits s else c ∷ s

-- The group of `/^(.*)#\d+$/` over the reversed text behind its digits.
abbrev before_hash : List ℕ → Option (List ℕ)
before_hash [] = none
before_hash (c ∷ s) = if c == b'#' && not (any is_line_end s) then some (reverse s) else none

-- `BATTLE_TAG_SUFFIX.exec(text)?.[1]`: at least one digit has to stand at the end.
abbrev match_reversed : List ℕ → Option (List ℕ)
match_reversed [] = none
match_reversed (c ∷ s) = if is_digit c then before_hash (drop_digits s) else none

unfoldable pub battle_tag_name : List ℕ → Option (List ℕ)
unfolding drop_digits
battle_tag_name text = match_reversed (reverse text)

unfoldable pub strip_battle_tag : List ℕ → List ℕ
unfolding trim battle_tag_name
strip_battle_tag nick = let trimmed = trim nick in get_or_else trimmed (battle_tag_name trimmed)

-- `to_lower` is the language's `toLowerCase`.
unfoldable pub normalize_nick : (List ℕ → List ℕ) → List ℕ → List ℕ
unfolding strip_battle_tag
normalize_nick to_lower nick = to_lower (strip_battle_tag nick)

-- `a === b` on texts.
abbrev pub same_text : List ℕ → List ℕ → Bool
same_text [] [] = true
same_text [] (d ∷ t) = false
same_text (c ∷ s) [] = false
same_text (c ∷ s) (d ∷ t) = c == d && same_text s t

abbrev pub is_empty : List ℕ → Bool
is_empty [] = true
is_empty (c ∷ s) = false

-- The code points of a text.
abbrev pub codes : String → List ℕ
codes [] = []
codes (c ∷ text) = code c ∷ codes text

pub same_text_iff : (s t : List ℕ) → (same_text s t ≡ true) ↔ (s ≡ t)
same_text_iff [] [] = ground arith
same_text_iff [] (d ∷ t) = ground arith
same_text_iff (c ∷ s) [] = ground arith
same_text_iff (c ∷ s) (d ∷ t) = ground (arith, same_text_iff s t)

pub same_text_refl : (s : List ℕ) → same_text s s ≡ true
same_text_refl s = (same_text_iff s s).1 refl
