-- ===== src/CaptainDraft/Members.antt =====
-- Who takes part in a captain draft: the pool and the rosters together, counted under any test.
use trueskill_bot.Common.{
  ℕ, zero, suc, ◌+◌, ◌-◌, ◌<◌, ◌≡◌, ap, String, Bool, true, List, [], ◌∷◌, ◌++◌, some, arith,
  length, get_elem?, modify, erase_at, drop_last, get_last?, find_index?, ok, count_if, SameItems,
  count_if-append, count_if-erase_at, get_last?_decompose, find_index?_sound,
}
use trueskill_bot.CaptainDraft.Types.{DraftParticipant, DraftTeam, DraftState, has_key, has_captain}
use trueskill_bot.CaptainDraft.Logic.{
  team_index_for_pick, captain_index_for_pick, in_pick_order, add_to_roster, apply_pick,
  drop_last_of_roster, undo_last_pick, add_to_team,
}

-- All the roster seats, team by team.
abbrev pub rostered : List DraftTeam → List DraftParticipant
rostered [] = []
rostered (t ∷ ts) = t.roster ++ rostered ts

abbrev pub everyone : DraftState → List DraftParticipant
everyone s = s.member_pool ++ rostered s.teams

module _ (p : DraftParticipant → Bool) where
  pub count_if-rostered-modify :
      (ts : List DraftTeam) (i : ℕ) (f : DraftTeam → DraftTeam) {t : DraftTeam}
      → get_elem? ts i ≡ some t
      → count_if p (rostered (modify ts i f)) + count_if p t.roster
        ≡ count_if p (rostered ts) + count_if p (f t).roster
  count_if-rostered-modify [] i f h = cc
  count_if-rostered-modify (u ∷ ts) zero f {t} h =
      let e : u ≡ t = cc in
      rw (← e) (
        omega (
          arith,
          count_if-append p u.roster (rostered ts),
          count_if-append p (f u).roster (rostered ts),
        ))
  count_if-rostered-modify (u ∷ ts) (suc i) f h = omega (
    arith,
    count_if-append p u.roster (rostered ts),
    count_if-append p u.roster (rostered (modify ts i f)),
    count_if-rostered-modify ts i f h,
  )

  -- A player who moves from place `i` of the pool to the end of a roster is still counted once.
  count_if-seat :
      (pool : List DraftParticipant) (ts : List DraftTeam) (i t : ℕ) {x : DraftParticipant}
      {u : DraftTeam}
      → get_elem? pool i ≡ some x
      → get_elem? ts t ≡ some u
      → count_if p (erase_at pool i ++ rostered (modify ts t (add_to_roster x)))
        ≡ count_if p (pool ++ rostered ts)
  count_if-seat pool ts i t {x} {u} hx hu = omega (
    arith,
    count_if-append p pool (rostered ts),
    count_if-append p (erase_at pool i) (rostered (modify ts t (add_to_roster x))),
    count_if-append p u.roster (x ∷ []),
    count_if-erase_at p pool i hx,
    count_if-rostered-modify ts t (add_to_roster x) hu,
  )

  -- The last of a roster goes to the end of the pool.
  count_if-unseat :
      (pool : List DraftParticipant) (ts : List DraftTeam) (t : ℕ) {x : DraftParticipant}
      {u : DraftTeam}
      → get_elem? ts t ≡ some u
      → get_last? u.roster ≡ some x
      → count_if p ((pool ++ x ∷ []) ++ rostered (modify ts t drop_last_of_roster))
        ≡ count_if p (pool ++ rostered ts)
  count_if-unseat pool ts t {x} {u} hu hx = omega (
    arith,
    count_if-append p pool (rostered ts),
    count_if-append p (pool ++ x ∷ []) (rostered (modify ts t drop_last_of_roster)),
    count_if-append p pool (x ∷ []),
    count_if-append p (drop_last u.roster) (x ∷ []),
    ap (count_if p) (get_last?_decompose u.roster hx),
    count_if-rostered-modify ts t drop_last_of_roster hu,
  )

-- A team on the clock is a team of the draft.
pub team_index_for_pick_sound :
    (s : DraftState) (n t : ℕ)
    → team_index_for_pick s n ≡ ok t
    → (u : DraftTeam) × (get_elem? s.teams t ≡ some u)
      × (in_pick_order (captain_index_for_pick n (length s.teams)) u ≡ true)
unfolding team_index_for_pick
team_index_for_pick_sound s n t h =
    find_index?_sound (in_pick_order (captain_index_for_pick n (length s.teams))) s.teams t
      (ground arith)

-- What a successful pick did.
pub apply_pick_inv :
    (s s' : DraftState) (key : String)
    → apply_pick s key ≡ ok s'
    → (i t : ℕ) × (x : DraftParticipant) × (find_index? (has_key key) s.member_pool ≡ some i)
      × (team_index_for_pick s s.pick_index ≡ ok t)
      × (get_elem? s.member_pool i ≡ some x)
      × (s' ≡ record s {
        member_pool = erase_at s.member_pool i;
        teams = modify s.teams t (add_to_roster x);
        pick_index = s.pick_index + 1;
      })
unfolding apply_pick
apply_pick_inv s s' key h = ground arith

-- A pick changes nobody's place in the draft but the one who is picked: the pool and the rosters
-- together hold the same people, as often, before it and after it.
pub apply_pick-SameItems :
    (s s' : DraftState) (key : String)
    → apply_pick s key ≡ ok s'
    → SameItems (everyone s') (everyone s)
apply_pick-SameItems s s' key h p =
    let (i, t, x, _, ht, hx, e) = apply_pick_inv s s' key h in
    let (u, hu, _) = team_index_for_pick_sound s s.pick_index t ht in
    rw e (count_if-seat p s.member_pool s.teams i t hx hu)

pub undo_last_pick_inv :
    (s s' : DraftState)
    → undo_last_pick s ≡ ok s'
    → (t : ℕ) × (u : DraftTeam) × (x : DraftParticipant) × (0 < s.pick_index)
      × (team_index_for_pick s (s.pick_index - 1) ≡ ok t)
      × (get_elem? s.teams t ≡ some u)
      × (1 < length u.roster)
      × (get_last? u.roster ≡ some x)
      × (s' ≡ record s {
        member_pool = s.member_pool ++ x ∷ [];
        teams = modify s.teams t drop_last_of_roster;
        pick_index = s.pick_index - 1;
      })
unfolding undo_last_pick
undo_last_pick_inv s s' h = ground arith

pub undo_last_pick-SameItems :
    (s s' : DraftState) → undo_last_pick s ≡ ok s' → SameItems (everyone s') (everyone s)
undo_last_pick-SameItems s s' h p =
    let (t, u, x, _, _, hu, _, hx, e) = undo_last_pick_inv s s' h in
    rw e (count_if-unseat p s.member_pool s.teams t hu hx)

pub add_to_team_inv :
    (s s' : DraftState) (key captain_key : String)
    → add_to_team s key captain_key ≡ ok s'
    → (i t : ℕ) × (x : DraftParticipant) × (find_index? (has_captain captain_key) s.teams ≡ some t)
      × (find_index? (has_key key) s.member_pool ≡ some i)
      × (get_elem? s.member_pool i ≡ some x)
      × (s' ≡ record s {
        member_pool = erase_at s.member_pool i;
        teams = modify s.teams t (add_to_roster x);
      })
unfolding add_to_team
add_to_team_inv s s' key captain_key h = ground arith

pub add_to_team-SameItems :
    (s s' : DraftState) (key captain_key : String)
    → add_to_team s key captain_key ≡ ok s'
    → SameItems (everyone s') (everyone s)
add_to_team-SameItems s s' key captain_key h p =
    let (i, t, x, ht, _, hx, e) = add_to_team_inv s s' key captain_key h in
    let (u, hu, _) = find_index?_sound (has_captain captain_key) s.teams t ht in
    rw e (count_if-seat p s.member_pool s.teams i t hx hu)
