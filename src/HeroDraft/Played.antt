-- ===== src/HeroDraft/Played.antt =====
-- The invariant of a hero draft, and that every move keeps it. The moves are those of
-- apps/bot/src/services/hero-draft/draft-logic.ts.
use trueskill_bot.Common.{
  ℕ, suc, ◌+◌, ◌≤◌, ◌≡◌, arith, Bool, true, ◌&&◌, Option, none, some, [], ◌∷◌, count_if,
  count_if-take, one_if, ◌==◌, ==_iff, length, length-append, take, get_elem?-lt, Bool-cases, inl,
  inr, subst, sym, ap, ◌<◌,
}
use trueskill_bot.HeroDraft.Types.{
  HeroDraftActionKind, ban, pick, HeroDraftTeamSide, one, two, HeroDraftState, HeroDraftTeam,
  HeroDraftTurn, hero_draft_sequence, same_kind, same_side,
}
use trueskill_bot.HeroDraft.Logic.{taken, current_turn, is_available}
use trueskill_bot.HeroDraft.Turns.{HasSides, after, update}
use trueskill_bot.HeroDraft.Moves.{Entry, banned, picked, enter, kind_of, hero_of, IsFree, IsMove}
use trueskill_bot.HeroDraft.Taken.{count_found, count_if-taken, available_lem}

abbrev pub is_turn : HeroDraftActionKind → HeroDraftTeamSide → HeroDraftTurn → Bool
is_turn kind side turn = same_kind turn.kind kind && same_side turn.team side

-- How many turns of a kind a team has had before turn `n`.
unfoldable pub turns_before : HeroDraftActionKind → HeroDraftTeamSide → ℕ → ℕ
turns_before kind side n = count_if (is_turn kind side) (take n hero_draft_sequence)

abbrev pub entries_of : HeroDraftActionKind → HeroDraftTeam → ℕ
entries_of ban team = length team.bans
entries_of pick team = length team.picks

abbrev pub team_on : HeroDraftTeamSide → HeroDraftTeam × HeroDraftTeam → HeroDraftTeam
team_on one (a, b) = a
team_on two (a, b) = b

-- The teams stand in order, each has an entry for each of its turns so far, no hero is taken twice,
-- and only heroes of the pool are taken.
pub record IsPlayed (s : HeroDraftState) : Type 0 where
  pub sides : HasSides s
  pub entries :
      (kind : HeroDraftActionKind) (side : HeroDraftTeamSide)
      → entries_of kind (team_on side s.teams) ≡ turns_before kind side s.turn_index
  pub once : (id : ℕ) → count_if (λ t. t == id) (taken s) ≤ 1
  pub from_pool :
      (id : ℕ) → count_if (λ t. t == id) (taken s) ≤ count_if (λ hero. hero.object_id == id) s.pool
  pub within : s.turn_index ≤ 16

entries_of-enter :
    (kind : HeroDraftActionKind) (entry : Entry) (team : HeroDraftTeam)
    → entries_of kind (enter entry team)
      ≡ entries_of kind team + one_if (same_kind (kind_of entry) kind)
entries_of-enter ban (banned hero) team = length-append team.bans (hero ∷ [])
entries_of-enter pick (banned hero) team = omega arith
entries_of-enter ban (picked id) team = omega arith
entries_of-enter pick (picked id) team = length-append team.picks (id ∷ [])

entries_of-update :
    (kind : HeroDraftActionKind) (side : HeroDraftTeamSide) (entry : Entry) (to : HeroDraftTeamSide)
    (a b : HeroDraftTeam)
    → entries_of kind (team_on side (update to (enter entry) (a, b)))
      ≡ entries_of kind (team_on side (a, b))
        + one_if (same_kind (kind_of entry) kind && same_side to side)
entries_of-update kind one entry one a b = ground (arith, entries_of-enter kind entry a)
entries_of-update kind one entry two a b = ground arith
entries_of-update kind two entry one a b = ground arith
entries_of-update kind two entry two a b = ground (arith, entries_of-enter kind entry b)

turns_before_suc :
    (kind : HeroDraftActionKind) (side : HeroDraftTeamSide) (s : HeroDraftState)
    (turn : HeroDraftTurn)
    → current_turn s ≡ some turn
    → turns_before kind side (s.turn_index + 1)
      ≡ turns_before kind side s.turn_index + one_if (is_turn kind side turn)
unfolding turns_before current_turn
turns_before_suc kind side s turn now =
    let one_more : suc s.turn_index ≡ s.turn_index + 1 = omega arith in
    subst
      (λ n.
        count_if (is_turn kind side) (take n hero_draft_sequence)
        ≡ count_if (is_turn kind side) (take s.turn_index hero_draft_sequence)
          + one_if (is_turn kind side turn))
      one_more (count_if-take (is_turn kind side) s.turn_index hero_draft_sequence now)

-- A free hero is not taken twice, and comes from the pool.
count_found_free :
    (s : HeroDraftState) (hero : Option ℕ) (id : ℕ)
    → IsFree s hero
    → count_if (λ t. t == id) (taken s) ≤ 1
    → count_if (λ t. t == id) (taken s) ≤ count_if (λ h. h.object_id == id) s.pool
    → (count_if (λ t. t == id) (taken s) + count_found (λ t. t == id) hero ≤ 1)
      × (count_if (λ t. t == id) (taken s) + count_found (λ t. t == id) hero
          ≤ count_if (λ h. h.object_id == id) s.pool)
count_found_free s none id free h1 h2 = (omega arith, omega arith)
count_found_free s (some n) id free h1 h2 = elim (Bool-cases (n == id)) [
  | inr other ↦ (rw other (omega arith), rw other (omega arith))
  | inl same ↦
      let e = (==_iff n id).0 same in
      let (away, there) = available_lem s id (subst (λ m. is_available s m ≡ true) e free) in
      (rw same (omega arith), rw same (omega arith))
]

update-sides :
    (to : HeroDraftTeamSide) (entry : Entry) (a b : HeroDraftTeam)
    → a.side ≡ one
    → b.side ≡ two
    → ((update to (enter entry) (a, b)).0.side ≡ one)
      × ((update to (enter entry) (a, b)).1.side ≡ two)
update-sides one (banned _) a b h1 h2 = (h1, h2)
update-sides one (picked _) a b h1 h2 = (h1, h2)
update-sides two (banned _) a b h1 h2 = (h1, h2)
update-sides two (picked _) a b h1 h2 = (h1, h2)

after-HasSides :
    (s : HeroDraftState) (turn : HeroDraftTurn) (entry : Entry)
    → HasSides s
    → HasSides (after s turn (enter entry))
unfolding HasSides
after-HasSides s turn entry (h1, h2) = update-sides turn.team entry s.teams.0 s.teams.1 h1 h2

pub current_turn-lt :
    (s : HeroDraftState) (turn : HeroDraftTurn) → current_turn s ≡ some turn → s.turn_index < 16
unfolding current_turn
current_turn-lt s turn now = get_elem?-lt hero_draft_sequence s.turn_index now

after-IsPlayed :
    (s : HeroDraftState) (turn : HeroDraftTurn) (entry : Entry)
    → IsPlayed s
    → current_turn s ≡ some turn
    → turn.kind ≡ kind_of entry
    → IsFree s (hero_of entry)
    → IsPlayed (after s turn (enter entry))
after-IsPlayed s turn entry p now kind free = record {
  sides = after-HasSides s turn entry p.sides;
  entries = λ k side.
      let flag : one_if (is_turn k side turn)
          ≡ one_if (same_kind (kind_of entry) k && same_side turn.team side) =
        ap (λ l. one_if (same_kind l k && same_side turn.team side)) kind in
      omega (
        arith,
        flag,
        p.entries k side,
        turns_before_suc k side s turn now,
        entries_of-update k side entry turn.team s.teams.0 s.teams.1,
      );
  once = λ id.
      let (once, from_pool) =
        count_found_free s (hero_of entry) id free (p.once id) (p.from_pool id) in
      omega (arith, count_if-taken (λ t. t == id) s turn entry);
  from_pool = λ id.
      let (once, from_pool) =
        count_found_free s (hero_of entry) id free (p.once id) (p.from_pool id) in
      omega (arith, count_if-taken (λ t. t == id) s turn entry);
  within = omega (arith, current_turn-lt s turn now);
}

pub IsMove-IsPlayed : (s s' : HeroDraftState) → IsPlayed s → IsMove s s' → IsPlayed s'
unfolding IsMove
IsMove-IsPlayed s s' p (turn, entry, now, kind, free, e) =
    subst IsPlayed (sym e) (after-IsPlayed s turn entry p now kind free)
