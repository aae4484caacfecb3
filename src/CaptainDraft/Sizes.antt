-- ===== src/CaptainDraft/Sizes.antt =====
-- How many teams a draft has: the operations of
-- apps/bot/src/services/captain-draft/draft-logic.ts neither add nor drop a team.
use trueskill_bot.CaptainDraft.Moves.{move_participant_inv}
use trueskill_bot.CaptainDraft.PreservedByMods.{remove_from_pool_inv}
use trueskill_bot.CaptainDraft.Exchange.{
  replace_participant_inv, swap_participants_same, swap_participants_inv,
}
use trueskill_bot.CaptainDraft.Removal.{remove_from_team_inv}
use trueskill_bot.CaptainDraft.Members.{add_to_team_inv, apply_pick_inv, undo_last_pick_inv}
use trueskill_bot.CaptainDraft.Logic.{
  ParticipantLocation, add_to_team, apply_pick, clone_state_with_participant_at, move_participant,
  remove_from_pool, remove_from_team, replace_participant, swap_participants, undo_last_pick, pool,
  take_out, drop_key, team, add_to_roster, drop_last_of_roster, put_in_roster,
}
use trueskill_bot.Common.{
  List, [], ◌∷◌, ◌≡◌, ok, length, String, List, Bool-cases, map, length-modify, str_eq, ◌∷◌, ap,
  inl, refl, suc, sym, ◌∙◌, inr,
}
use trueskill_bot.CaptainDraft.Types.{DraftState, DraftParticipant}

length-map {ℓ κ} :
    {A : Type ℓ} {B : Type κ} (f : A → B) (xs : List A) → length (map f xs) ≡ length xs
length-map f [] = refl
length-map f (x ∷ xs) = ap suc (length-map f xs)

pub apply_pick-teams :
    (s s' : DraftState) (key : String) → apply_pick s key ≡ ok s' → length s'.teams ≡ length s.teams
apply_pick-teams s s' key h =
    let (i, t, x, _, _, _, e) = apply_pick_inv s s' key h in
    rw e (length-modify s.teams t (add_to_roster x))

pub undo_last_pick-teams :
    (s s' : DraftState) → undo_last_pick s ≡ ok s' → length s'.teams ≡ length s.teams
undo_last_pick-teams s s' h =
    let (t, u, x, _, _, _, _, _, e) = undo_last_pick_inv s s' h in
    rw e (length-modify s.teams t drop_last_of_roster)

pub add_to_team-teams :
    (s s' : DraftState) (key captain_key : String)
    → add_to_team s key captain_key ≡ ok s'
    → length s'.teams ≡ length s.teams
add_to_team-teams s s' key captain_key h =
    let (i, t, x, _, _, _, e) = add_to_team_inv s s' key captain_key h in
    rw e (length-modify s.teams t (add_to_roster x))

pub remove_from_team-teams :
    (s s' : DraftState) (key : String)
    → remove_from_team s key ≡ ok s'
    → length s'.teams ≡ length s.teams
remove_from_team-teams s s' key h =
    let (x, _, _, e) = remove_from_team_inv s s' key h in rw e (length-map (drop_key key) s.teams)

pub remove_from_pool-teams :
    (s s' : DraftState) (key : String)
    → remove_from_pool s key ≡ ok s'
    → length s'.teams ≡ length s.teams
remove_from_pool-teams s s' key h = rw (remove_from_pool_inv s s' key h)

clone-teams :
    (s : DraftState) (loc : ParticipantLocation) (y : DraftParticipant)
    → length (clone_state_with_participant_at s loc y).teams ≡ length s.teams
unfolding clone_state_with_participant_at
clone-teams s (pool i) y = refl
clone-teams s (team t j) y = length-modify s.teams t (put_in_roster j y)

pub replace_participant-teams :
    (s s' : DraftState) (key : String) (incoming : DraftParticipant)
    → replace_participant s key incoming ≡ ok s'
    → length s'.teams ≡ length s.teams
replace_participant-teams s s' key incoming h =
    let (loc, _, _, e) = replace_participant_inv s s' key incoming h in
    rw e (clone-teams s loc incoming)

pub swap_participants-teams :
    (s s' : DraftState) (key_a key_b : String)
    → swap_participants s key_a key_b ≡ ok s'
    → length s'.teams ≡ length s.teams
swap_participants-teams s s' key_a key_b h = elim (Bool-cases (str_eq key_a key_b)) [
  | inl same ↦
      ap (λ t. length (DraftState.teams t)) (sym (swap_participants_same s s' key_a key_b same h))
  | inr different ↦
      let (loc_a, loc_b, a, b, _, _, _, _, _, _, e) =
        swap_participants_inv s s' key_a key_b different h in
      rw e (clone-teams (clone_state_with_participant_at s loc_a b) loc_b a ∙ clone-teams s loc_a b)
]

take_out-teams :
    (s : DraftState) (loc : ParticipantLocation) (key : String)
    → length (take_out s loc key).teams ≡ length s.teams
take_out-teams s (pool i) key = refl
take_out-teams s (team t j) key = length-modify s.teams t _

pub move_participant-teams :
    (s s' : DraftState) (key to_captain_key : String)
    → move_participant s key to_captain_key ≡ ok s'
    → length s'.teams ≡ length s.teams
move_participant-teams s s' key to h =
    let (target, loc, x, _, _, _, _, _, e) = move_participant_inv s s' key to h in
    let next = take_out s loc key in
    rw e (length-modify next.teams target (add_to_roster x) ∙ take_out-teams s loc key)
