-- ===== src/HeroDraft/Moves.antt =====
-- The one shape of all the moves of a hero draft: the team on the clock enters a ban, a skipped ban
-- or a pick, and the turn passes on. `applyTimeout` of
-- apps/bot/src/services/hero-draft/draft-logic.ts makes such a move too.
use trueskill_bot.Common.{
  ℕ, ◌≡◌, refl, arith, true, Option, none, some, ok, length, get_elem?, Option-cases, inl, inr,
}
use trueskill_bot.Common.Rng.{draw}
use trueskill_bot.HeroDraft.Types.{
  HeroDraftActionKind, ban, pick, HeroDraftTeam, HeroDraftTurn, HeroDraftState,
}
use trueskill_bot.HeroDraft.Logic.{
  current_turn, add_ban, add_pick, is_available, available_heroes, apply_ban, apply_skip_ban,
  apply_pick, pick_at_random, timeout_of_turn, apply_timeout,
}
use trueskill_bot.HeroDraft.Turns.{
  HasSides, after, apply_ban_inv, apply_skip_ban_inv, apply_pick_inv,
}

pub data Entry : Type 0 where
  banned : Option ℕ → Entry
  picked : ℕ → Entry

abbrev pub enter : Entry → HeroDraftTeam → HeroDraftTeam
enter (banned hero) = add_ban hero
enter (picked id) = add_pick id

abbrev pub kind_of : Entry → HeroDraftActionKind
kind_of (banned _) = ban
kind_of (picked _) = pick

abbrev pub hero_of : Entry → Option ℕ
hero_of (banned hero) = hero
hero_of (picked id) = some id

-- The hero that is entered, if any, is available.
abbrev pub IsFree : HeroDraftState → Option ℕ → Type 0
IsFree s none = Unit
IsFree s (some id) = is_available s id ≡ true

unfoldable pub IsMove : HeroDraftState → HeroDraftState → Type 0
IsMove s s' =
    (turn : HeroDraftTurn) × (entry : Entry) × (current_turn s ≡ some turn)
    × (turn.kind ≡ kind_of entry)
    × IsFree s (hero_of entry)
    × (s' ≡ after s turn (enter entry))

pub apply_ban-IsMove :
    (s s' : HeroDraftState) (id : ℕ) → HasSides s → apply_ban s id ≡ ok s' → IsMove s s'
unfolding IsMove
apply_ban-IsMove s s' id sides h =
    let (turn, now, kind, free, e) = apply_ban_inv s s' id sides h in
    (turn, banned (some id), now, kind, free, e)

pub apply_skip_ban-IsMove :
    (s s' : HeroDraftState) → HasSides s → apply_skip_ban s ≡ ok s' → IsMove s s'
unfolding IsMove
apply_skip_ban-IsMove s s' sides h =
    let (turn, now, kind, e) = apply_skip_ban_inv s s' sides h in
    (turn, banned none, now, kind, tt, e)

pub apply_pick-IsMove :
    (s s' : HeroDraftState) (id : ℕ) → HasSides s → apply_pick s id ≡ ok s' → IsMove s s'
unfolding IsMove
apply_pick-IsMove s s' id sides h =
    let (turn, now, kind, free, e) = apply_pick_inv s s' id sides h in
    (turn, picked id, now, kind, free, e)

pick_at_random-IsMove :
    (s s' : HeroDraftState) (r : ℕ) → HasSides s → pick_at_random s r ≡ ok s' → IsMove s s'
unfolding pick_at_random
pick_at_random-IsMove s s' r sides h =
    elim (Option-cases (get_elem? (available_heroes s) (draw r (length (available_heroes s))))) [
      | inl missing ↦ absurd (ground arith)
      | inr (hero, found) ↦ apply_pick-IsMove s s' hero.object_id sides (ground arith)
    ]

-- A timeout on a turn makes a move.
pub apply_timeout-IsMove :
    (s s' : HeroDraftState) (r : ℕ) (turn : HeroDraftTurn)
    → HasSides s
    → current_turn s ≡ some turn
    → apply_timeout s r ≡ ok s'
    → IsMove s s'
unfolding apply_timeout
apply_timeout-IsMove s s' r turn sides now h = timed_out turn.kind refl (rw now at h)
  where
    timed_out :
        (kind : HeroDraftActionKind)
        → turn.kind ≡ kind
        → timeout_of_turn s r (some turn) ≡ ok s'
        → IsMove s s'
    timed_out ban e h' = apply_skip_ban-IsMove s s' sides (rw e at h')
    timed_out pick e h' = pick_at_random-IsMove s s' r sides (rw e at h')
