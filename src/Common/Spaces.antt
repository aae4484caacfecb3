-- ===== src/Common/Spaces.antt =====
-- White space, and the `trim` of the language on texts.
use Prim.Native.Nat.{ℕ}
use Prim.Native.Char.{code}
use Prim.Native.String.{String, [], ◌∷◌}
use mathlib.Core.Path.{◌≡◌, refl}
use mathlib.Core.Bool.{Bool, true, false, ◌&&◌, ◌||◌}
use trueskill_bot.Common.Tests.{leb, ◌==◌, if◌then◌else◌}

-- The white space and the line ends that `trim` strips.
abbrev pub is_space : ℕ → Bool
is_space c =
    (leb 9 c && leb c 13)
    || c == 32
    || c == 160
    || c == 5760
    || (leb 8192 c && leb c 8202)
    || c == 8232
    || c == 8233
    || c == 8239
    || c == 8287
    || c == 12288
    || c == 65279

is_empty_text : String → Bool
is_empty_text [] = true
is_empty_text (c ∷ text) = false

trim_start : String → String
trim_start [] = []
trim_start (c ∷ text) = let rest = trim_start text in if is_space (code c) then rest else c ∷ text

trim_end : String → String
unfolding is_empty_text
trim_end [] = []
trim_end (c ∷ text) =
    let rest = trim_end text in if is_space (code c) && is_empty_text rest then [] else c ∷ rest

unfoldable pub trim_text : String → String
unfolding trim_start trim_end
trim_text text = trim_end (trim_start text)

trim_around : trim_text " \t a b \n" ≡ "a b"
unfolding trim_text
trim_around = refl
