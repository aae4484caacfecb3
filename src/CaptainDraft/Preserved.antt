-- ===== src/CaptainDraft/Preserved.antt =====
-- The operations of apps/bot/src/services/captain-draft/draft-logic.ts keep a draft well formed.
use trueskill_bot.Common.{
  ◌<◌, ◌≡◌, refl, subst, String, [], ◌∷◌, ◌++◌, some, arith, length, get_elem?, ok, count_if,
  count_if-append, eq_iff,
}
use trueskill_bot.CaptainDraft.Types.{DraftParticipant, DraftTeam, DraftState, has_key}
use trueskill_bot.CaptainDraft.Logic.{
  add_to_roster, apply_pick, drop_last_of_roster, undo_last_pick, add_to_pool, add_to_team,
}
use trueskill_bot.CaptainDraft.Members.{
  rostered, everyone, apply_pick_inv, apply_pick-SameItems, undo_last_pick_inv,
  undo_last_pick-SameItems, add_to_team_inv, add_to_team-SameItems,
}
use trueskill_bot.CaptainDraft.Turns.{IsIndexed-modify}
use trueskill_bot.CaptainDraft.WellFormed.{
  IsWellFormed, All-modify, LedBy-append, LedBy-drop_last, distinct_of_SameItems,
}

pub apply_pick-IsWellFormed :
    (s s' : DraftState) (key : String) → IsWellFormed s → apply_pick s key ≡ ok s' → IsWellFormed s'
apply_pick-IsWellFormed s s' key w h =
    let (i, t, x, _, ht, hx, e) = apply_pick_inv s s' key h in
    let same = distinct_of_SameItems s s' (apply_pick-SameItems s s' key h) w.distinct in
    record {
      ordered = rw e (IsIndexed-modify 0 t s.teams (add_to_roster x) (λ _. refl) w.ordered);
      led = rw e (
          All-modify s.teams t (add_to_roster x) (λ u _ l. LedBy-append u.captain_key u.roster _ l)
            w.led);
      distinct = same;
    }

pub undo_last_pick-IsWellFormed :
    (s s' : DraftState) → IsWellFormed s → undo_last_pick s ≡ ok s' → IsWellFormed s'
undo_last_pick-IsWellFormed s s' w h =
    let (t, u, x, _, _, hu, hl, _, e) = undo_last_pick_inv s s' h in
    let same = distinct_of_SameItems s s' (undo_last_pick-SameItems s s' h) w.distinct in
    let long : (v : DraftTeam) → get_elem? s.teams t ≡ some v → 1 < length v.roster = λ v hv.
      let same_team : u ≡ v = cc in subst (λ z. 1 < length (DraftTeam.roster z)) same_team hl in
    record {
      ordered = rw e (IsIndexed-modify 0 t s.teams drop_last_of_roster (λ _. refl) w.ordered);
      led = rw e (
          All-modify s.teams t drop_last_of_roster
            (λ v hv l. LedBy-drop_last v.captain_key v.roster (long v hv) l) w.led);
      distinct = same;
    }

pub add_to_team-IsWellFormed :
    (s s' : DraftState) (key captain_key : String)
    → IsWellFormed s
    → add_to_team s key captain_key ≡ ok s'
    → IsWellFormed s'
add_to_team-IsWellFormed s s' key captain_key w h =
    let (i, t, x, _, _, _, e) = add_to_team_inv s s' key captain_key h in
    let same =
      distinct_of_SameItems s s' (add_to_team-SameItems s s' key captain_key h) w.distinct in
    record {
      ordered = rw e (IsIndexed-modify 0 t s.teams (add_to_roster x) (λ _. refl) w.ordered);
      led = rw e (
          All-modify s.teams t (add_to_roster x) (λ u _ l. LedBy-append u.captain_key u.roster _ l)
            w.led);
      distinct = same;
    }

-- A newcomer whose key nobody has.
pub add_to_pool-IsWellFormed :
    (s : DraftState) (player : DraftParticipant)
    → IsWellFormed s
    → count_if (has_key player.key) (everyone s) ≡ 0
    → IsWellFormed (add_to_pool s player)
unfolding add_to_pool
add_to_pool-IsWellFormed s player w fresh = record {
  ordered = w.ordered;
  led = w.led;
  distinct = λ key. ground (
    arith,
    eq_iff player.key key,
    w.distinct key,
    count_if-append (has_key key) s.member_pool (rostered s.teams),
    count_if-append (has_key key) (s.member_pool ++ player ∷ []) (rostered s.teams),
    count_if-append (has_key key) s.member_pool (player ∷ []),
  );
}
