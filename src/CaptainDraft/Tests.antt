-- ===== src/CaptainDraft/Tests.antt =====
-- A captain draft of two captains and three members: runs of the model, and the theorems at its
-- states.
use trueskill_bot.HeroDraft.Types.{cancelled}
use trueskill_bot.CaptainDraft.Channel.{
  HasOneDraft, is_active_in, load_active_draft_for_channel, start_captain_draft,
  start_captain_draft_lem,
}
use trueskill_bot.CaptainDraft.Begin.{build_teams_from_captains_lem}
use trueskill_bot.CaptainDraft.Exchange.{
  IsReplaced, IsSwapped, replace_participant_exact, swap_participants_exact,
}
use trueskill_bot.CaptainDraft.Authority.{apply_captain_draft_pick_authority}
use trueskill_bot.CaptainDraft.Turns.{
  IsIndexed, after_pick, current_captain_key_lem, apply_pick_lem,
}
use trueskill_bot.CaptainDraft.Snake.{
  picks_made, captain_index_for_pick_mirror, picks_made_balanced,
}
use trueskill_bot.CaptainDraft.Members.{rostered}
use trueskill_bot.CaptainDraft.Actions.{DraftRow, assert_current_captain_pick, save_draft_state}
use trueskill_bot.CaptainDraft.Consistent.{IsConsistent}
use trueskill_bot.CaptainDraft.WellFormed.{IsLed}
use trueskill_bot.CaptainDraft.Lifecycle.{
  create_draft, execute, Reach, set_the_captains, begin, next, created_draft_IsConsistent, here,
}
use trueskill_bot.Common.Rng.{Rng}
use trueskill_bot.CaptainDraft.Commands.{apply_captain_draft_pick}
use trueskill_bot.CaptainDraft.Logic.{
  ParticipantLocation, apply_pick, build_teams_from_captains, captain_index_for_pick,
  move_participant, remove_from_team, replace_participant, swap_participants, current_captain_key,
  locate_participant, shuffle_pick_order, team_index_for_pick, undo_last_pick, find_participant,
  next_status_after_mutation, clone_state_with_participant_at, is_captain_key,
}
use trueskill_bot.Common.{
  ℕ, ok, List, [], ◌∷◌, String, ◌≡◌, arith, refl, none, some, SameItems, find_index?, ◌/◌, eq_iff,
  err, ◌*◌, ◌^◌, ◌≤◌, length, true, ◌+◌, All, ◌⊎◌, false, get_elem?, Bool, any, count_if,
  Bool-cases, not, inl, ◌&&◌, inr, count_if-le-length,
}
use trueskill_bot.CaptainDraft.Types.{
  DraftParticipant, DraftTeam, DraftState, CaptainDraftStatus, Throws, active, empty_draft_state,
  has_key, not_your_turn, cannot_swap_captains, player_not_in_pool, cancelled, draft_already_active,
  no_active_draft,
}

abbrev player : String → DraftParticipant
player key = record { key = key; label = key; discord_id = some key }

abbrev led_by : String → ℕ → List DraftParticipant → DraftTeam
led_by key i others = record {
  captain_key = key;
  display_name = key;
  roster = player key ∷ others;
  pick_order_index = i;
}

-- A test for distinct keys.
distinct_test : List DraftParticipant → Bool
distinct_test [] = true
distinct_test (p ∷ ps) = not (any (has_key p.key) ps) && distinct_test ps

absent_of_test :
    (key : String) (ps : List DraftParticipant)
    → any (has_key key) ps ≡ false
    → count_if (has_key key) ps ≡ 0
absent_of_test key [] h = refl
absent_of_test key (p ∷ ps) h = ground (arith, absent_of_test key ps)

distinct_of_test :
    (ps : List DraftParticipant)
    → distinct_test ps ≡ true
    → (key : String) → count_if (has_key key) ps ≤ 1
unfolding distinct_test
distinct_of_test [] h key = omega arith
distinct_of_test (p ∷ ps) h key = elim (Bool-cases (has_key key p)) [
  | inl same ↦
      let e = (eq_iff p.key key).0 same in
      let away : any (has_key p.key) ps ≡ false = ground arith in
      let none_left = absent_of_test key ps (rw e at away) in rw same (omega arith)
  | inr other ↦ rw other (omega (arith, distinct_of_test ps (ground arith) key))
]

abbrev at_start : DraftState
at_start = record {
  captains = player "a" ∷ player "b" ∷ [];
  member_pool = player "x" ∷ player "y" ∷ player "z" ∷ [];
  pick_order = 0 ∷ 1 ∷ [];
  teams = led_by "a" 0 [] ∷ led_by "b" 1 [] ∷ [];
  pick_index = 0;
}

abbrev y_picked : DraftState
y_picked = record {
  captains = player "a" ∷ player "b" ∷ [];
  member_pool = player "x" ∷ player "z" ∷ [];
  pick_order = 0 ∷ 1 ∷ [];
  teams = led_by "a" 0 (player "y" ∷ []) ∷ led_by "b" 1 [] ∷ [];
  pick_index = 1;
}

abbrev row_of : CaptainDraftStatus → DraftState → DraftRow
row_of status state = record {
  id = "d1";
  guild_id = "g";
  channel_id = "c";
  status = status;
  state = state;
  draft_message_id = none;
}

picks : Unit {0}
unfolding apply_pick team_index_for_pick captain_index_for_pick undo_last_pick
picks = tt

pick_y : apply_pick at_start "y" ≡ ok y_picked
unfolding picks
pick_y = refl

pick_nobody : apply_pick at_start "q" ≡ err player_not_in_pool
unfolding picks
pick_nobody = refl

apply_pick_lem_example :
    ((find_index? (has_key "y") at_start.member_pool ≡ none)
      × (apply_pick at_start "y" ≡ err player_not_in_pool))
    ⊎ ((i : ℕ) × (x : DraftParticipant) × (find_index? (has_key "y") at_start.member_pool ≡ some i)
        × (get_elem? at_start.member_pool i ≡ some x)
        × (apply_pick at_start "y" ≡ ok (after_pick at_start i x)))
apply_pick_lem_example = apply_pick_lem at_start "y" (omega arith) (omega arith)

current_captain_key_lem_example :
    (current_captain_key y_picked ≡ some "b")
    × (team_index_for_pick y_picked y_picked.pick_index
        ≡ ok (captain_index_for_pick y_picked.pick_index (length y_picked.teams)))
unfolding captain_index_for_pick
current_captain_key_lem_example =
    current_captain_key_lem y_picked (led_by "b" 1 []) (omega arith) (omega arith) refl

picks_made_balanced_example :
    (7 / 3 ≤ picks_made 1 3 7) × (picks_made 1 3 7 ≤ 7 / 3 + 1) × (picks_made 1 3 (7 * 3) ≡ 7)
picks_made_balanced_example = picks_made_balanced 1 3 7 (omega arith)

captain_index_for_pick_mirror_example :
    captain_index_for_pick (2 * 3 + 1) 3 + captain_index_for_pick (3 * 3 + 1) 3 ≡ 2
captain_index_for_pick_mirror_example = captain_index_for_pick_mirror 3 2 1 (omega arith)

abbrev swapped : DraftState
swapped = record {
  captains = player "a" ∷ player "b" ∷ [];
  member_pool = player "y" ∷ player "z" ∷ [];
  pick_order = 0 ∷ 1 ∷ [];
  teams = led_by "a" 0 (player "x" ∷ []) ∷ led_by "b" 1 [] ∷ [];
  pick_index = 1;
}

changes : Unit {0}
unfolding swap_participants replace_participant move_participant locate_participant find_participant
    clone_state_with_participant_at is_captain_key remove_from_team
changes = tt

swap_xy : swap_participants y_picked "x" "y" ≡ ok swapped
unfolding changes
swap_xy = refl

swap_captain : swap_participants y_picked "x" "a" ≡ err cannot_swap_captains
unfolding changes
swap_captain = refl

swap_participants_exact_example :
    (loc_a loc_b : ParticipantLocation) × (a b : DraftParticipant) × (has_key "x" a ≡ true)
    × (has_key "y" b ≡ true)
    × (is_captain_key y_picked "x" ≡ false)
    × (is_captain_key y_picked "y" ≡ false)
    × IsSwapped y_picked swapped loc_a loc_b a b
swap_participants_exact_example =
    swap_participants_exact y_picked swapped "x" "y" (λ e. cc ((eq_iff "x" "y").1 e)) swap_xy

abbrev replaced : DraftState
replaced = record y_picked { teams = led_by "a" 0 (player "w" ∷ []) ∷ led_by "b" 1 [] ∷ [] }

replace_y : replace_participant y_picked "y" (player "w") ≡ ok replaced
unfolding changes
replace_y = refl

replace_participant_exact_example :
    (loc : ParticipantLocation) × (x : DraftParticipant) × (has_key "y" x ≡ true)
    × (is_captain_key y_picked "y" ≡ false)
    × IsReplaced y_picked replaced loc x (player "w")
replace_participant_exact_example =
    replace_participant_exact y_picked replaced "y" (player "w") replace_y

abbrev moved : DraftState
moved = record y_picked { teams = led_by "a" 0 [] ∷ led_by "b" 1 (player "y" ∷ []) ∷ [] }

commands : Unit {0}
unfolding picks changes apply_captain_draft_pick assert_current_captain_pick current_captain_key
    next_status_after_mutation
commands = tt

a_picks_y :
    apply_captain_draft_pick (row_of active at_start) "a" "y" ≡ (row_of active y_picked, none)
unfolding commands
a_picks_y = refl

b_picks_y :
    apply_captain_draft_pick (row_of active at_start) "b" "y"
    ≡ (row_of active at_start, some (not_your_turn "a"))
unfolding commands
b_picks_y = refl

apply_captain_draft_pick_authority_example :
    (s' : DraftState) × (captain_key : String) × (captain : DraftParticipant) × (active ≡ active)
    × (current_captain_key at_start ≡ some captain_key)
    × (find_participant at_start captain_key ≡ some captain)
    × (captain.discord_id ≡ some "a")
    × (apply_pick at_start "y" ≡ ok s')
    × (row_of active y_picked
        ≡ save_draft_state (row_of active at_start) (next_status_after_mutation active s') s')
apply_captain_draft_pick_authority_example =
    apply_captain_draft_pick_authority (row_of active at_start) (row_of active y_picked) "a" "y"
      a_picks_y

half : Rng
half k = 2 ^ 52

build_teams_from_captains_lem_example :
    (teams : List DraftTeam) × (build_teams_from_captains at_start.captains
        (shuffle_pick_order 2 half 0)
      ≡ ok teams)
    × IsIndexed 0 teams
    × All IsLed teams
    × (length teams ≡ 2)
    × SameItems (rostered teams) at_start.captains
build_teams_from_captains_lem_example = build_teams_from_captains_lem at_start.captains half 0

abbrev two_captains : Throws (List DraftParticipant)
two_captains = ok (player "a" ∷ player "b" ∷ [])

begun :
    Reach
      (λ s. s)
      (create_draft "d1" "g" "c")
      (execute (λ s. s) (create_draft "d1" "g" "c") (set_the_captains two_captains)).0
unfolding create_draft empty_draft_state
begun =
    next here (set_the_captains two_captains)
      (distinct_of_test (player "a" ∷ player "b" ∷ []) (unfold distinct_test in refl))

created_draft_IsConsistent_example :
    IsConsistent
      (execute
        (λ s. s)
        (execute (λ s. s) (create_draft "d1" "g" "c") (set_the_captains two_captains)).0
        (begin half 0 (ok "m"))).0
created_draft_IsConsistent_example =
    created_draft_IsConsistent (λ s. s) "d1" "g" "c" (next begun (begin half 0 (ok "m")) tt)

abbrev over : List DraftRow
over = record (row_of active at_start) { status = cancelled } ∷ []

over-HasOneDraft : HasOneDraft over
unfolding HasOneDraft
over-HasOneDraft guild_id channel_id =
    ground (arith, count_if-le-length (is_active_in guild_id channel_id) over)

start_captain_draft_lem_example :
    ((row : DraftRow) × (load_active_draft_for_channel over "g" "c" ≡ ok row)
      × (is_active_in "g" "c" row ≡ true)
      × (start_captain_draft over "d2" "g" "c" ≡ err draft_already_active))
    ⊎ ((store' : List DraftRow) × (load_active_draft_for_channel over "g" "c" ≡ err no_active_draft)
        × (start_captain_draft over "d2" "g" "c" ≡ ok store')
        × (load_active_draft_for_channel store' "g" "c" ≡ ok (create_draft "d2" "g" "c"))
        × HasOneDraft store')
start_captain_draft_lem_example = start_captain_draft_lem over "d2" "g" "c" over-HasOneDraft
