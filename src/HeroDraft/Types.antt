-- ===== src/HeroDraft/Types.antt =====
-- The data of a hero draft: apps/bot/src/services/hero-draft/draft-types.ts. The text of an instant
-- stands for its milliseconds, and an error for its message.
use trueskill_bot.Common.{ℕ, String, Option, none, List, [], ◌∷◌, Bool, true, false, Result}

pub data HeroDraftStatus : Type 0 where
  active complete cancelled : HeroDraftStatus

pub data HeroDraftActionKind : Type 0 where
  ban pick : HeroDraftActionKind

-- `HeroDraftTeamSide`: 1 or 2.
pub data HeroDraftTeamSide : Type 0 where
  one two : HeroDraftTeamSide

pub record HeroPoolEntry : Type 0 where
  pub object_id : ℕ
  pub name : String

pub record HeroDraftMember : Type 0 where
  pub key : String
  pub label : String
  pub discord_id : Option String

-- A ban is `none` where the team skipped it.
pub record HeroDraftTeam : Type 0 where
  pub side : HeroDraftTeamSide
  pub display_name : String
  pub captain : HeroDraftMember
  pub roster : List HeroDraftMember
  pub bans : List (Option ℕ)
  pub picks : List ℕ

pub record HeroDraftTurn : Type 0 where
  pub kind : HeroDraftActionKind
  pub team : HeroDraftTeamSide

abbrev pub default_timer_seconds : ℕ
default_timer_seconds = 60

abbrev bans : HeroDraftTeamSide → HeroDraftTurn
bans side = record { kind = ban; team = side }

abbrev picks : HeroDraftTeamSide → HeroDraftTurn
picks side = record { kind = pick; team = side }

abbrev pub hero_draft_sequence : List HeroDraftTurn
hero_draft_sequence =
    bans one
    ∷ bans two
    ∷ bans one
    ∷ bans two
    ∷ picks one
    ∷ picks two
    ∷ picks two
    ∷ picks one
    ∷ picks one
    ∷ picks two
    ∷ bans one
    ∷ bans two
    ∷ picks two
    ∷ picks one
    ∷ picks one
    ∷ picks two
    ∷ []

abbrev pub min_pool_size : ℕ
min_pool_size = 16

pub record HeroDraftState : Type 0 where
  pub teams : HeroDraftTeam × HeroDraftTeam
  pub pool : List HeroPoolEntry
  pub turn_index : ℕ
  pub action_deadline_at : Option ℕ
  pub select_page : ℕ

pub data HeroDraftError : Type 0 where
  missing_team : HeroDraftTeamSide → HeroDraftError
  already_complete hero_not_available no_heroes_left invalid_select_page : HeroDraftError
  expected_action : (expected actual : HeroDraftActionKind) → HeroDraftError
  not_waiting captain_not_linked cannot_cancel not_active wrong_game wrong_sides : HeroDraftError
  both_captains_must_be_linked small_catalog read_of_undefined : HeroDraftError
  not_your_turn : String → HeroDraftError

abbrev pub Throws {ℓ} : Type ℓ → Type ℓ
Throws A = Result HeroDraftError A

abbrev pub same_side : HeroDraftTeamSide → HeroDraftTeamSide → Bool
same_side one one = true
same_side two two = true
same_side _ _ = false

abbrev pub same_kind : HeroDraftActionKind → HeroDraftActionKind → Bool
same_kind ban ban = true
same_kind pick pick = true
same_kind _ _ = false

unfoldable pub empty_hero_draft_state :
    HeroDraftTeam × HeroDraftTeam → List HeroPoolEntry → HeroDraftState
empty_hero_draft_state teams pool = record {
  teams = teams;
  pool = pool;
  turn_index = 0;
  action_deadline_at = none;
  select_page = 0;
}
