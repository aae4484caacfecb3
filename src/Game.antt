-- ===== src/Game.antt =====
-- The games that the bot knows: apps/bot/src/domain/game-profile.ts. A slot is a natural number, as
-- Discord's integer options and the readers of rosters give it; a text is a list of code points.
use trueskill_bot.Common.{
  ℕ, Bool, ◌&&◌, Option, none, some, List, leb, if◌then◌else◌, Result, ok, err, String,
}
use trueskill_bot.Player.Nick.{codes}

-- `TeamId`: 1 or 2.
pub data TeamId : Type 0 where
  one two : TeamId

pub data HeroBinding : Type 0 where
  slot_bound optional_in_game : HeroBinding

pub data GameImportKind : Type 0 where
  no_import wc3stats : GameImportKind

pub data PostMatchStatsKind : Type 0 where
  no_stats wos2_bot_v1 : PostMatchStatsKind

pub data LobbySwapCommandKind : Type 0 where
  no_command wc3_bang_swap : LobbySwapCommandKind

pub record GameProfile : Type 0 where
  pub game_id : String
  pub display_name : String
  pub slot_count : ℕ
  pub team_a_max_slot : ℕ
  pub hero_binding : HeroBinding
  pub game_import : GameImportKind
  pub post_match_stats : PostMatchStatsKind
  pub lobby_swap_command : LobbySwapCommandKind
  pub rating_label : String
  pub team_names : TeamId → List ℕ
  pub side_win_loss_default : Bool
  pub match_history_shows_team : Bool
  pub hero_champion_roles : Bool

-- The names in a profile's `teamNames`.
abbrev pub names : String → String → TeamId → List ℕ
names a b one = codes a
names a b two = codes b

abbrev pub udbr : GameProfile
udbr = record {
  game_id = "warcraft3_udbr";
  display_name = "Ultimate Dragon Ball Reborn";
  slot_count = 12;
  team_a_max_slot = 6;
  hero_binding = slot_bound;
  game_import = wc3stats;
  post_match_stats = no_stats;
  lobby_swap_command = wc3_bang_swap;
  rating_label = "ki";
  team_names = names "Z Fighters" "Evil";
  side_win_loss_default = Bool.true;
  match_history_shows_team = Bool.true;
  hero_champion_roles = Bool.true;
}

abbrev pub wos : GameProfile
wos = record {
  game_id = "warcraft3_wos";
  display_name = "WOS";
  slot_count = 10;
  team_a_max_slot = 5;
  hero_binding = optional_in_game;
  game_import = wc3stats;
  post_match_stats = wos2_bot_v1;
  lobby_swap_command = wc3_bang_swap;
  rating_label = "sp";
  team_names = names "WOS Enjoyers" "WOS Haters";
  side_win_loss_default = Bool.false;
  match_history_shows_team = Bool.false;
  hero_champion_roles = Bool.false;
}

unfoldable pub is_slot_in_profile : GameProfile → ℕ → Bool
is_slot_in_profile profile slot = leb 1 slot && leb slot profile.slot_count

-- The error is the `RangeError` of a slot that the game does not have.
unfoldable pub team_for_slot : GameProfile → ℕ → Result ℕ TeamId
unfolding is_slot_in_profile
team_for_slot profile slot =
    if is_slot_in_profile profile slot
    then ok (if leb slot profile.team_a_max_slot then one else two)
    else err slot

unfoldable pub roster_hero_id : GameProfile → ℕ → Option ℕ
roster_hero_id profile slot = elim profile.hero_binding [
  | slot_bound ↦ some slot
  | optional_in_game ↦ none
]
