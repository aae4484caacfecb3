-- ===== src/Match/Tests.antt =====
-- A league match of two against one: runs of the model, and the theorems at its states.
use trueskill_bot.Common.{
  List, String, false, map, some, ℕ, ◌≡◌, [], if◌then◌else◌, none, ok, refl, ◌∷◌, arith, ◌+◌,
  count_if, get_elem?, ◌≤◌,
}
use trueskill_bot.Game.{udbr, TeamId, one, two}
use trueskill_bot.Player.Nick.{codes}
use trueskill_bot.Match.Types.{completed, MatchPlayer, RatingUpdate, RatingKey, Desk}
use trueskill_bot.Match.Completion.{Findings, GivenSlots, complete_match}
use trueskill_bot.Match.Report.{is_at}
use trueskill_bot.Match.Approval.{approve_mitigation_match}
use trueskill_bot.Match.Lobby.{set_lobby_locked_slots}
use trueskill_bot.Match.Locked.{mode_of, set_lobby_locked_slots_lem}
use trueskill_bot.Match.Progress.{approve_mitigation_match_progress}
use trueskill_bot.LobbyRoster.Locks.{slot_lock}
use trueskill_bot.Match.Commands.{
  lock_selection, MatchCommand, start, complete, request_mitigation, approve_mitigation, flag_dcs,
  run,
}
use trueskill_bot.Match.Sound.{IsSound}
use trueskill_bot.Match.Steps.{Follows}
use trueskill_bot.Match.Restore.{has_key, all_entry_keys}
use trueskill_bot.Match.Lifecycle.{
  new_player, ResolvedPlayer, create_pending_match, run_all, created_match_IsSound, run-Follows,
}

abbrev player : String → TeamId → ℕ → ResolvedPlayer
player id team slot = record {
  player_id = id;
  nick = codes id;
  team = team;
  slot = slot;
  hero_id = some slot;
  is_quitter = false;
}

abbrev roster : List ResolvedPlayer
roster = player "ana" one 1 ∷ player "bob" one 2 ∷ player "eve" two 7 ∷ []

abbrev points : TeamId → ℕ
points one = 30
points two = 20

-- A rating that gives points to each of the rows of a match.
abbrev rate : (RatingKey → ℕ) → RatingUpdate → RatingKey → ℕ
rate ratings update key =
    if has_key key (all_entry_keys update.entries)
    then ratings key + points update.winning_team
    else ratings key

abbrev created : Desk ℕ
created = create_pending_match "m" "host" (some "league") none roster (λ key. 1000)

abbrev found : Findings
found = record { was_new = λ id. false; ki_of = λ id. 1000; now = 100 }

abbrev evening : List MatchCommand
evening =
    start none
    ∷ flag_dcs (2 ∷ [])
    ∷ request_mitigation one (2 ∷ []) (7 ∷ []) none 25 "message"
    ∷ approve_mitigation found
    ∷ []

abbrev finished : Desk ℕ
finished = run_all rate udbr created evening

quits_without_dc : map (λ p. p.is_dc) finished.row.players ≡ false ∷ false ∷ false ∷ []
unfolding run_all trueskill_bot.Match.Approval.approve_mitigation_match
    trueskill_bot.Match.Approval.request_mitigation_approval trueskill_bot.Match.Report.set_dcs
    trueskill_bot.Match.Lobby.start_match trueskill_bot.Match.Lobby.assert_unique_nicks
    trueskill_bot.Match.Lobby.assert_both_teams_occupied
    trueskill_bot.Match.Report.assert_known_slots complete_match
    trueskill_bot.Match.Completion.completed_league
quits_without_dc = refl

taxed : map (λ p. p.griefer_ki_accrued) finished.row.players ≡ none ∷ none ∷ some 250 ∷ []
unfolding run_all trueskill_bot.Match.Approval.approve_mitigation_match
    trueskill_bot.Match.Approval.request_mitigation_approval trueskill_bot.Match.Report.set_dcs
    trueskill_bot.Match.Lobby.start_match trueskill_bot.Match.Lobby.assert_unique_nicks
    trueskill_bot.Match.Lobby.assert_both_teams_occupied
    trueskill_bot.Match.Report.assert_known_slots complete_match
    trueskill_bot.Match.Completion.completed_league
taxed = refl

rated : finished.ratings (record { player = "eve"; hero = some 7 }) ≡ 1030
unfolding run_all trueskill_bot.Match.Approval.approve_mitigation_match
    trueskill_bot.Match.Approval.request_mitigation_approval trueskill_bot.Match.Report.set_dcs
    trueskill_bot.Match.Lobby.start_match trueskill_bot.Match.Lobby.assert_unique_nicks
    trueskill_bot.Match.Lobby.assert_both_teams_occupied
    trueskill_bot.Match.Report.assert_known_slots complete_match
    trueskill_bot.Match.Completion.completed_league trueskill_bot.Match.Report.to_rating_entries
rated = refl

created_match_IsSound_example : IsSound finished
created_match_IsSound_example =
    created_match_IsSound rate udbr "m" "host" (some "league") none roster (λ key. 1000) evening

abbrev started : Desk ℕ
started = run_all rate udbr created (start none ∷ [])

abbrev given : GivenSlots
given = record { quitters = some []; griefers = none; dcs = none }

abbrev completed_desk : Desk ℕ
completed_desk = run_all rate udbr started (complete found one given 0 ∷ [])

run-Follows_example : Follows started.row.status completed_desk.row.status
unfolding run complete_match run_all trueskill_bot.Match.Lobby.start_match
    trueskill_bot.Match.Lobby.assert_unique_nicks
    trueskill_bot.Match.Lobby.assert_both_teams_occupied
    trueskill_bot.Match.Report.assert_known_slots
run-Follows_example =
    run-Follows rate udbr started completed_desk (complete found one given 0) completion_run
  where
    completion_run : run rate udbr started (complete found one given 0) ≡ ok completed_desk
    completion_run = refl

abbrev awaiting : Desk ℕ
awaiting =
    run_all rate udbr created
      (start none ∷ request_mitigation two (2 ∷ []) [] none 50 "message" ∷ [])

awaiting-IsSound : IsSound awaiting
awaiting-IsSound =
    created_match_IsSound rate udbr "m" "host" (some "league") none roster (λ key. 1000)
      (start none ∷ request_mitigation two (2 ∷ []) [] none 50 "message" ∷ [])

approve_mitigation_match_progress_example :
    (desk : Desk ℕ) × (approve_mitigation_match rate udbr found awaiting.row awaiting ≡ ok desk)
    × (desk.row.status ≡ completed)
unfolding run_all trueskill_bot.Match.Approval.request_mitigation_approval
    trueskill_bot.Match.Lobby.start_match trueskill_bot.Match.Lobby.assert_unique_nicks
    trueskill_bot.Match.Lobby.assert_both_teams_occupied
approve_mitigation_match_progress_example =
    approve_mitigation_match_progress rate udbr found awaiting "league" awaiting-IsSound refl refl
      refl refl

abbrev ana : MatchPlayer
ana = new_player (player "ana" one 1)

abbrev locked_desk : Desk ℕ
locked_desk = run_all rate udbr created (lock_selection false (1 ∷ 7 ∷ []) slot_lock ∷ [])

selection : set_lobby_locked_slots udbr false created (1 ∷ 7 ∷ []) slot_lock ≡ ok locked_desk
unfolding set_lobby_locked_slots trueskill_bot.Match.Lobby.assert_lockable
    trueskill_bot.LobbyRoster.Locks.lock_changes_for_selection trueskill_bot.Game.is_slot_in_profile
    run_all
selection = refl

apart : (slot : ℕ) → count_if (is_at slot) created.row.players ≤ 1
apart slot = ground arith

set_lobby_locked_slots_lem_example :
    (after : MatchPlayer) × (get_elem? locked_desk.row.players 0 ≡ some after)
    × (after.slot ≡ 1)
    × (mode_of after ≡ slot_lock)
set_lobby_locked_slots_lem_example =
    set_lobby_locked_slots_lem udbr false created locked_desk (1 ∷ 7 ∷ []) slot_lock 0 ana apart
      selection refl
