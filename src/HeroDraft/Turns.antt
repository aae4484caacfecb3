-- ===== src/HeroDraft/Turns.antt =====
-- What a ban, a skipped ban, a pick and a timeout do on each branch: `applyBan`, `applySkipBan`,
-- `applyPick` and `applyTimeout` of apps/bot/src/services/hero-draft/draft-logic.ts.
use trueskill_bot.Common.{
  ℕ, ◌≡◌, inl, inr, refl, arith, true, none, some, ok, Bool-cases, Option-cases, Result-cases,
}
use trueskill_bot.HeroDraft.Types.{
  HeroDraftActionKind, ban, pick, HeroDraftTeamSide, one, two, HeroDraftTeam, HeroDraftTurn,
  HeroDraftState, same_kind,
}
use trueskill_bot.HeroDraft.Logic.{
  current_turn, team_by_side, assert_active_turn, with_advanced_turn, replace_team, add_ban,
  add_pick, is_available, apply_ban, apply_skip_ban, apply_pick,
}

-- The teams stand in the order of their sides.
unfoldable pub HasSides : HeroDraftState → Type 0
HasSides s = (s.teams.0.side ≡ one) × (s.teams.1.side ≡ two)

abbrev pub update :
    HeroDraftTeamSide
    → (HeroDraftTeam → HeroDraftTeam)
    → HeroDraftTeam × HeroDraftTeam
    → HeroDraftTeam × HeroDraftTeam
update one f (a, b) = (f a, b)
update two f (a, b) = (a, f b)

-- The state after the team on the clock was changed by `f`.
abbrev pub after : HeroDraftState → HeroDraftTurn → (HeroDraftTeam → HeroDraftTeam) → HeroDraftState
after s turn f = with_advanced_turn s (update turn.team f s.teams)

team_by_side_lem :
    (s : HeroDraftState) (side : HeroDraftTeamSide)
    → HasSides s
    → (t : HeroDraftTeam) × (team_by_side s side ≡ ok t)
      × ((f : HeroDraftTeam → HeroDraftTeam) → replace_team s side (f t) ≡ update side f s.teams)
unfolding team_by_side replace_team HasSides
team_by_side_lem s one (h1, h2) = (s.teams.0, rw h1 refl, λ f. rw h1 (rw h2 refl))
team_by_side_lem s two (h1, h2) = (s.teams.1, rw h1 (rw h2 refl), λ f. rw h1 (rw h2 refl))

same_kind_sound : (k l : HeroDraftActionKind) → same_kind k l ≡ true → k ≡ l
same_kind_sound ban ban h = refl
same_kind_sound pick pick h = refl
same_kind_sound ban pick h = cc
same_kind_sound pick ban h = cc

assert_active_turn_inv :
    (s : HeroDraftState) (kind : HeroDraftActionKind) (turn : HeroDraftTurn)
    → assert_active_turn s kind ≡ ok turn
    → (current_turn s ≡ some turn) × (turn.kind ≡ kind)
unfolding assert_active_turn
assert_active_turn_inv s kind turn h = elim (Option-cases (current_turn s)) [
  | inl over ↦ absurd (ground arith)
  | inr (t, now) ↦ elim (Bool-cases (same_kind t.kind kind)) [
    | inl fits ↦ ground (arith, same_kind_sound t.kind kind)
    | inr other ↦ absurd (ground arith)
  ]
]

pub apply_skip_ban_inv :
    (s s' : HeroDraftState)
    → HasSides s
    → apply_skip_ban s ≡ ok s'
    → (turn : HeroDraftTurn) × (current_turn s ≡ some turn)
      × (turn.kind ≡ ban)
      × (s' ≡ after s turn (add_ban none))
unfolding apply_skip_ban
apply_skip_ban_inv s s' sides h = elim (Result-cases (assert_active_turn s ban)) [
  | inl (e, refused) ↦ absurd (ground arith)
  | inr (turn, granted) ↦
      let (now, kind) = assert_active_turn_inv s ban turn granted in
      let (t, found, put) = team_by_side_lem s turn.team sides in
      (turn, now, kind, ground (arith, put (add_ban none)))
]

pub apply_ban_inv :
    (s s' : HeroDraftState) (id : ℕ)
    → HasSides s
    → apply_ban s id ≡ ok s'
    → (turn : HeroDraftTurn) × (current_turn s ≡ some turn)
      × (turn.kind ≡ ban)
      × (is_available s id ≡ true)
      × (s' ≡ after s turn (add_ban (some id)))
unfolding apply_ban
apply_ban_inv s s' id sides h = elim (Result-cases (assert_active_turn s ban)) [
  | inl (e, refused) ↦ absurd (ground arith)
  | inr (turn, granted) ↦
      let (now, kind) = assert_active_turn_inv s ban turn granted in
      let (t, found, put) = team_by_side_lem s turn.team sides in
      (turn, now, kind, ground arith, ground (arith, put (add_ban (some id))))
]

pub apply_pick_inv :
    (s s' : HeroDraftState) (id : ℕ)
    → HasSides s
    → apply_pick s id ≡ ok s'
    → (turn : HeroDraftTurn) × (current_turn s ≡ some turn)
      × (turn.kind ≡ pick)
      × (is_available s id ≡ true)
      × (s' ≡ after s turn (add_pick id))
unfolding apply_pick
apply_pick_inv s s' id sides h = elim (Result-cases (assert_active_turn s pick)) [
  | inl (e, refused) ↦ absurd (ground arith)
  | inr (turn, granted) ↦
      let (now, kind) = assert_active_turn_inv s pick turn granted in
      let (t, found, put) = team_by_side_lem s turn.team sides in
      (turn, now, kind, ground arith, ground (arith, put (add_pick id)))
]

same_kind_refl : (k : HeroDraftActionKind) → same_kind k k ≡ true
same_kind_refl ban = refl
same_kind_refl pick = refl

assert_active_turn_total :
    (s : HeroDraftState) (turn : HeroDraftTurn)
    → current_turn s ≡ some turn
    → assert_active_turn s turn.kind ≡ ok turn
unfolding assert_active_turn
assert_active_turn_total s turn now = rw now (rw (same_kind_refl turn.kind) refl)

-- On its turn a ban may always be skipped.
pub apply_skip_ban_total :
    (s : HeroDraftState) (turn : HeroDraftTurn)
    → HasSides s
    → current_turn s ≡ some turn
    → turn.kind ≡ ban
    → apply_skip_ban s ≡ ok (after s turn (add_ban none))
unfolding apply_skip_ban
apply_skip_ban_total s turn sides now kind =
    let granted = assert_active_turn_total s turn now in
    let (t, found, put) = team_by_side_lem s turn.team sides in ground (arith, put (add_ban none))

-- On its turn any available hero may be picked.
pub apply_pick_total :
    (s : HeroDraftState) (turn : HeroDraftTurn) (id : ℕ)
    → HasSides s
    → current_turn s ≡ some turn
    → turn.kind ≡ pick
    → is_available s id ≡ true
    → apply_pick s id ≡ ok (after s turn (add_pick id))
unfolding apply_pick
apply_pick_total s turn id sides now kind free =
    let granted = assert_active_turn_total s turn now in
    let (t, found, put) = team_by_side_lem s turn.team sides in ground (arith, put (add_pick id))
