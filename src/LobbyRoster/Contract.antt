-- ===== src/LobbyRoster/Contract.antt =====
-- What each command on a roster does to the map from slots to nicks.
use mathlib.Core.Option.{Option, some}
use trueskill_bot.Common.{List, ℕ, Option, some, ◌≡◌, get_or_else, none, []}
use mathlib.Core.Option
use trueskill_bot.Game.{GameProfile}
use trueskill_bot.LobbyRoster.Commands.{
  RosterCommand, add, claim, remove, leave, move, swap, remap, edit,
}
use trueskill_bot.LobbyRoster.Refinement.{Seating, Arrives, Leaves, Trades, Renames}
use trueskill_bot.Player.Nick.{normalize_nick, trim}

-- Any number of trades, one after the other.
pub data Traded (profile : GameProfile) : Seating → Seating → Type 0 where
  settled : {σ : Seating} → Traded profile σ σ
  traded :
      {σ ρ τ : Seating}
      → (a b : ℕ) → Trades profile a b σ ρ
      → Traded profile ρ τ
      → Traded profile σ τ

-- The player with a nick leaves the slot of that nick.
abbrev pub NickLeaves : List ℕ → Seating → Seating → Type 0
NickLeaves nick σ τ = (slot : ℕ) × (σ slot ≡ some nick) × Leaves slot σ τ

-- The nick that a removal looks for.
abbrev pub removal_nick : (List ℕ → List ℕ) → Option (List ℕ) → List ℕ
removal_nick to_lower nick = normalize_nick to_lower (get_or_else [] (Option.map trim nick))

abbrev pub Performs :
    (to_lower : List ℕ → List ℕ) (profile : GameProfile)
    → RosterCommand
    → Seating
    → Seating
    → Type 0
Performs to_lower profile (add nick slot) σ τ =
    Arrives profile slot (normalize_nick to_lower nick) σ τ
Performs to_lower profile (claim nick slot) σ τ =
    Arrives profile slot (normalize_nick to_lower nick) σ τ
Performs to_lower profile (remove nick (some slot)) σ τ = Leaves slot σ τ
Performs to_lower profile (remove nick none) σ τ = NickLeaves (removal_nick to_lower nick) σ τ
Performs to_lower profile (leave nick) σ τ =
    NickLeaves (removal_nick to_lower (some (normalize_nick to_lower nick))) σ τ
Performs to_lower profile (move a b) σ τ = Trades profile a b σ τ
Performs to_lower profile (swap a b) σ τ = Trades profile a b σ τ
Performs to_lower profile (remap text) σ τ = Traded profile σ τ
Performs to_lower profile (edit slot nick) σ τ = Renames slot (normalize_nick to_lower nick) σ τ
