-- ===== src/LobbyDraft/Lifecycle.antt =====
-- A lobby draft from its start up to the choice of heroes: `castVote`, `closeVote`, `chooseCoin`,
-- `applySide` and `applyPick` of apps/bot/src/services/lobby-draft/draft-logic.ts in any order. A
-- timeout before the heroes makes one of these steps.
use trueskill_bot.Common.{
  ℕ, ◌≤◌, ◌≡◌, subst, arith, ◌&&◌, List, [], String, count_if, count_if-append, Option, ok,
  Bool-cases, inl, inr, length, ◌==◌, refl,
}
use trueskill_bot.Common.Rng.{Rng}
use trueskill_bot.LobbyDraft.Types.{
  LobbyDraftState, LobbyDraftParticipant, CoinChoice, TeamId, Throws, keys_of,
  initial_lobby_draft_state, vote, LobbyDraftPhase, coin_choice, side, pick, hero,
}
use trueskill_bot.LobbyDraft.Logic.{
  cast_vote, close_vote, close_vote_if_done, choose_coin, apply_pick, apply_side, assert_phase,
  same_phase, set_ballot, voted_count, linked_participants, distinct,
}
use trueskill_bot.LobbyDraft.Members.{is_key}
use trueskill_bot.LobbyDraft.Partition.{
  members, IsPartition, close_vote-IsPartition, choose_coin-IsPartition, apply_side-IsPartition,
  apply_pick-IsPartition,
}
use trueskill_bot.LobbyDraft.Phases.{
  IsInPhase, PhaseInv, close_vote-IsInPhase, choose_coin-IsInPhase, apply_side-IsInPhase,
  apply_pick-IsInPhase,
}

pub data Command : Type 0 where
  cast : (voter : String) (candidate_keys : List String) → Rng → ℕ → Command
  close : Rng → ℕ → Command
  take_coin : CoinChoice → Command
  choose_side : TeamId → Command
  draft_player : (key : String) → Command

unfoldable pub run : LobbyDraftState → Command → Throws LobbyDraftState
run s (cast voter keys rng k) = cast_vote s voter keys rng k
run s (close rng k) = close_vote s rng k
run s (take_coin choice) = choose_coin s choice
run s (choose_side chosen) = apply_side s chosen
run s (draft_player key) = apply_pick s key

-- The states that accepted commands lead to.
pub data Reach (start : LobbyDraftState) : LobbyDraftState → Type 0 where
  here : Reach start start
  next :
      {s : LobbyDraftState}
      → Reach start s
      → (command : Command) (s' : LobbyDraftState) → run s command ≡ ok s'
      → Reach start s'

voted-IsPartition :
    (s : LobbyDraftState) (votes : List (String × List String))
    → IsPartition s
    → IsPartition (record s { votes = votes })
unfolding members
voted-IsPartition s votes p = record { once = p.once; same = p.same }

close_vote_if_done-IsPartition :
    (s s' : LobbyDraftState) (rng : Rng) (k : ℕ)
    → IsPartition s
    → close_vote_if_done s rng k ≡ ok s'
    → IsPartition s'
unfolding close_vote_if_done
close_vote_if_done-IsPartition s s' rng k p h =
    elim (Bool-cases
      (same_phase s.phase vote && (voted_count s == length (linked_participants s.participants)))) [
        | inl done ↦ close_vote-IsPartition s s' rng k p (rw done at h)
        | inr open_still ↦
            let h' = rw open_still at h in let e : s ≡ s' = cc in subst IsPartition e p
      ]

cast_vote_inv :
    (s s' : LobbyDraftState) (voter : String) (candidate_keys : List String) (rng : Rng) (k : ℕ)
    → cast_vote s voter candidate_keys rng k ≡ ok s'
    → close_vote_if_done
        (record s { votes = set_ballot s.votes voter (distinct candidate_keys) })
        rng
        k
      ≡ ok s'
unfolding cast_vote assert_phase
cast_vote_inv s s' voter candidate_keys rng k h = ground arith

initial-IsPartition :
    (participants : List LobbyDraftParticipant) (deadline : Option ℕ)
    → ((key : String) → count_if (is_key key) (keys_of participants) ≤ 1)
    → IsPartition (initial_lobby_draft_state participants deadline)
unfolding members initial_lobby_draft_state
initial-IsPartition participants deadline distinct_keys = record {
  once = distinct_keys;
  same = λ q. omega (arith, count_if-append q (keys_of participants) []);
}

run-IsPartition :
    (s s' : LobbyDraftState) (command : Command)
    → IsPartition s
    → run s command ≡ ok s'
    → IsPartition s'
unfolding run
run-IsPartition s s' (cast voter keys rng k) p h =
    let votes = set_ballot s.votes voter (distinct keys) in
    close_vote_if_done-IsPartition (record s { votes = votes }) s' rng k
      (voted-IsPartition s votes p) (cast_vote_inv s s' voter keys rng k h)
run-IsPartition s s' (close rng k) p h = close_vote-IsPartition s s' rng k p h
run-IsPartition s s' (take_coin choice) p h = choose_coin-IsPartition s s' choice p h
run-IsPartition s s' (choose_side chosen) p h = apply_side-IsPartition s s' chosen p h
run-IsPartition s s' (draft_player key) p h = apply_pick-IsPartition s s' key p h

pub started_draft_IsPartition :
    (participants : List LobbyDraftParticipant) (deadline : Option ℕ) {s : LobbyDraftState}
    → ((key : String) → count_if (is_key key) (keys_of participants) ≤ 1)
    → Reach (initial_lobby_draft_state participants deadline) s
    → IsPartition s
started_draft_IsPartition participants deadline distinct_keys here =
    initial-IsPartition participants deadline distinct_keys
started_draft_IsPartition participants deadline distinct_keys (next {s} r command s' h) =
    run-IsPartition s s' command (started_draft_IsPartition participants deadline distinct_keys r) h

close_vote_if_done-IsInPhase :
    (s s' : LobbyDraftState) (rng : Rng) (k : ℕ)
    → IsInPhase s
    → close_vote_if_done s rng k ≡ ok s'
    → IsInPhase s'
unfolding close_vote_if_done
close_vote_if_done-IsInPhase s s' rng k p h =
    elim (Bool-cases
      (same_phase s.phase vote && (voted_count s == length (linked_participants s.participants)))) [
        | inl done ↦ close_vote-IsInPhase s s' rng k (rw done at h)
        | inr open_still ↦ let h' = rw open_still at h in let e : s ≡ s' = cc in subst IsInPhase e p
      ]

voted-IsInPhase :
    (s : LobbyDraftState) (votes : List (String × List String))
    → (phase : LobbyDraftPhase) → PhaseInv phase s
    → PhaseInv phase (record s { votes = votes })
voted-IsInPhase s votes vote p = p
voted-IsInPhase s votes coin_choice p = p
voted-IsInPhase s votes side p = p
voted-IsInPhase s votes pick p = p
voted-IsInPhase s votes hero p = p

run-IsInPhase :
    (s s' : LobbyDraftState) (command : Command)
    → IsInPhase s
    → run s command ≡ ok s'
    → IsInPhase s'
unfolding run IsInPhase
run-IsInPhase s s' (cast voter keys rng k) p h =
    let votes = set_ballot s.votes voter (distinct keys) in
    close_vote_if_done-IsInPhase (record s { votes = votes }) s' rng k
      (voted-IsInPhase s votes s.phase p) (cast_vote_inv s s' voter keys rng k h)
run-IsInPhase s s' (close rng k) p h = close_vote-IsInPhase s s' rng k h
run-IsInPhase s s' (take_coin choice) p h = choose_coin-IsInPhase s s' choice h
run-IsInPhase s s' (choose_side chosen) p h = apply_side-IsInPhase s s' chosen h
run-IsInPhase s s' (draft_player key) p h = apply_pick-IsInPhase s s' key p h

pub started_draft_IsInPhase :
    (participants : List LobbyDraftParticipant) (deadline : Option ℕ) {s : LobbyDraftState}
    → Reach (initial_lobby_draft_state participants deadline) s
    → IsInPhase s
unfolding initial_lobby_draft_state IsInPhase
started_draft_IsInPhase participants deadline here = refl
started_draft_IsInPhase participants deadline (next {s} r command s' h) =
    run-IsInPhase s s' command (started_draft_IsInPhase participants deadline r) h
