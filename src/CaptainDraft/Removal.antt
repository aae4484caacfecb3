-- ===== src/CaptainDraft/Removal.antt =====
-- Taking a participant out by key: `removeFromPool`, `removeFromTeam` and `moveParticipant` of
-- apps/bot/src/services/captain-draft/draft-logic.ts, in a draft where keys are distinct.
use trueskill_bot.Common.{
  ℕ, zero, suc, ◌+◌, ◌≤◌, ◌<◌, ◌≡◌, refl, ap, ◌∙◌, String, Bool, true, false, List, [], ◌∷◌, ◌++◌,
  map, Option, none, some, arith, Bool-cases, Option-cases, inl, inr, get_elem?, modify, find?,
  find_index?, ok, one_if, count_if, SameItems, count_if-append, find_index?_sound,
  find_index?-none, find_index?-find?,
}
use trueskill_bot.CaptainDraft.Types.{DraftParticipant, DraftTeam, DraftState, has_key}
use trueskill_bot.CaptainDraft.Logic.{
  is_captain_key, without_key, drop_key, last_removed, remove_from_team, ParticipantLocation, pool,
  team, take_out,
}
use trueskill_bot.CaptainDraft.Members.{rostered, everyone, count_if-rostered-modify}
use trueskill_bot.CaptainDraft.Locate.{At}
use trueskill_bot.CaptainDraft.WellFormed.{HasDistinctKeys}

module _ (key : String) where
  without_key_absent :
      (xs : List DraftParticipant) → count_if (has_key key) xs ≡ 0 → without_key key xs ≡ xs
  without_key_absent [] h = refl
  without_key_absent (x ∷ xs) h = ground (arith, without_key_absent xs)

  find?_absent :
      (xs : List DraftParticipant) → count_if (has_key key) xs ≡ 0 → find? (has_key key) xs ≡ none
  find?_absent [] h = refl
  find?_absent (x ∷ xs) h = ground (arith, find?_absent xs)

  find_index?_absent :
      (xs : List DraftParticipant)
      → count_if (has_key key) xs ≡ 0
      → find_index? (has_key key) xs ≡ none
  find_index?_absent [] h = refl
  find_index?_absent (x ∷ xs) h = ground (arith, find_index?_absent xs)

  count-pos :
      (xs : List DraftParticipant) (j : ℕ) {x : DraftParticipant}
      → get_elem? xs j ≡ some x
      → has_key key x ≡ true
      → 0 < count_if (has_key key) xs
  count-pos [] j h e = cc
  count-pos (y ∷ ys) zero h e = ground arith
  count-pos (y ∷ ys) (suc j) h e = ground (arith, count-pos ys j h e)

  -- Taking out a key that occurs once takes out its one bearer.
  pub count_if-without_key :
      (p : DraftParticipant → Bool) (xs : List DraftParticipant) (j : ℕ) {x : DraftParticipant}
      → count_if (has_key key) xs ≤ 1
      → get_elem? xs j ≡ some x
      → has_key key x ≡ true
      → count_if p (without_key key xs) + one_if (p x) ≡ count_if p xs
  count_if-without_key p [] j l h e = cc
  count_if-without_key p (y ∷ ys) zero l h e = ground (arith, without_key_absent ys)
  count_if-without_key p (y ∷ ys) (suc j) l h e =
      ground (arith, count-pos ys j h e, count_if-without_key p ys j (omega arith) h e)

  find?_place :
      (xs : List DraftParticipant) {x : DraftParticipant}
      → find? (has_key key) xs ≡ some x
      → (j : ℕ) × (get_elem? xs j ≡ some x) × (has_key key x ≡ true)
  find?_place [] h = cc
  find?_place (y ∷ ys) {x} h = elim (Bool-cases (has_key key y)) [
    | inl yes_key ↦ (0, ground arith, ground arith)
    | inr no_key ↦ let (j, hj, hk) = find?_place ys {x = x} (ground arith) in (suc j, hj, hk)
  ]

  drop_key_absent :
      (ts : List DraftTeam) → count_if (has_key key) (rostered ts) ≡ 0 → map (drop_key key) ts ≡ ts
  drop_key_absent [] h = refl
  drop_key_absent (t ∷ ts) h =
      let split = count_if-append (has_key key) t.roster (rostered ts) in
      ground (arith, find_index?_absent t.roster (omega arith), drop_key_absent ts (omega arith))

  last_removed_absent :
      (o : Option DraftParticipant) (ts : List DraftTeam)
      → count_if (has_key key) (rostered ts) ≡ 0
      → last_removed key o ts ≡ o
  last_removed_absent o [] h = refl
  last_removed_absent o (t ∷ ts) h =
      let split = count_if-append (has_key key) t.roster (rostered ts) in
      rw (find?_absent t.roster (omega arith)) (last_removed_absent o ts (omega arith))

  -- The player whom the `map` of `removeFromTeam` takes off a roster is the one it remembers.
  count_if-drop_key :
      (p : DraftParticipant → Bool) (ts : List DraftTeam) {x : DraftParticipant}
      → count_if (has_key key) (rostered ts) ≤ 1
      → last_removed key none ts ≡ some x
      → count_if p (rostered (map (drop_key key) ts)) + one_if (p x) ≡ count_if p (rostered ts)
  count_if-drop_key p [] l h = cc
  count_if-drop_key p (t ∷ ts) {x} l h =
      let split = count_if-append (has_key key) t.roster (rostered ts) in
      let whole = count_if-append p t.roster (rostered ts) in
      elim (Option-cases (find_index? (has_key key) t.roster)) [
        | inl missing ↦
            let gone = find_index?-none (has_key key) t.roster missing in
            let ih = count_if-drop_key p ts {x = x} (omega arith) (rw gone at h) in
            rw missing
              (omega (arith, ih, count_if-append p t.roster (rostered (map (drop_key key) ts))))
        | inr (j, found) ↦
            let (y, hy, ky) = find_index?_sound (has_key key) t.roster j found in
            let found_y = find_index?-find? (has_key key) t.roster found ∙ hy in
            let pos = count-pos t.roster j hy ky in
            let none_left : count_if (has_key key) (rostered ts) ≡ 0 = omega arith in
            let h' = rw found_y at h in
            let same : y ≡ x = cc (h', last_removed_absent (some y) ts none_left) in
            let without = count_if-without_key p t.roster j (omega arith) hy ky in
            rw (found, drop_key_absent ts none_left)
              (omega (
                arith,
                without,
                ap (λ z. one_if (p z)) same,
                count_if-append p (without_key key t.roster) (rostered ts),
              ))
      ]

count-part :
    (s : DraftState) (key : String)
    → HasDistinctKeys s
    → (count_if (has_key key) s.member_pool ≤ 1) × (count_if (has_key key) (rostered s.teams) ≤ 1)
count-part s key d =
    let whole = count_if-append (has_key key) s.member_pool (rostered s.teams) in
    let one = d key in (omega arith, omega arith)

count-team :
    (p : DraftParticipant → Bool) (ts : List DraftTeam) (i : ℕ) {u : DraftTeam}
    → get_elem? ts i ≡ some u
    → count_if p u.roster ≤ count_if p (rostered ts)
count-team p [] i h = cc
count-team p (t ∷ ts) zero {u} h =
    let e : t ≡ u = cc in rw (← e) (omega (arith, count_if-append p t.roster (rostered ts)))
count-team p (t ∷ ts) (suc i) h =
    omega (arith, count_if-append p t.roster (rostered ts), count-team p ts i h)

pub remove_from_team_inv :
    (s s' : DraftState) (key : String)
    → remove_from_team s key ≡ ok s'
    → (x : DraftParticipant) × (last_removed key none s.teams ≡ some x)
      × (is_captain_key s key ≡ false)
      × (s'
          ≡ record s { teams = map (drop_key key) s.teams; member_pool = s.member_pool ++ x ∷ [] })
unfolding remove_from_team
remove_from_team_inv s s' key h = ground arith

pub remove_from_team-SameItems :
    (s s' : DraftState) (key : String)
    → HasDistinctKeys s
    → remove_from_team s key ≡ ok s'
    → SameItems (everyone s') (everyone s)
remove_from_team-SameItems s s' key d h p =
    let (x, hx, _, e) = remove_from_team_inv s s' key h in
    let teams' = map (drop_key key) s.teams in
    rw e (
      omega (
        arith,
        count_if-drop_key key p s.teams (count-part s key d).1 hx,
        count_if-append p s.member_pool (rostered s.teams),
        count_if-append p s.member_pool (x ∷ []),
        count_if-append p (s.member_pool ++ x ∷ []) (rostered teams'),
      ))

-- Taking the participant out at their place leaves everyone else.
pub count_if-take_out :
    (p : DraftParticipant → Bool) (s : DraftState) (loc : ParticipantLocation) (key : String)
    (x : DraftParticipant)
    → HasDistinctKeys s
    → At s loc x
    → has_key key x ≡ true
    → count_if p (everyone (take_out s loc key)) + one_if (p x) ≡ count_if p (everyone s)
count_if-take_out p s (pool i) key x d h k = omega (
  arith,
  count_if-without_key key p s.member_pool i (count-part s key d).0 h k,
  count_if-append p s.member_pool (rostered s.teams),
  count_if-append p (without_key key s.member_pool) (rostered s.teams),
)
count_if-take_out p s (team i j) key x d (u, hu, h) k =
    let f = λ (t : DraftTeam). record t { roster = without_key key t.roster } in
    let once : count_if (has_key key) u.roster ≤ 1 =
      omega (arith, (count-part s key d).1, count-team (has_key key) s.teams i hu) in
    omega (
      arith,
      count_if-without_key key p u.roster j once h k,
      count_if-rostered-modify p s.teams i f hu,
      count_if-append p s.member_pool (rostered s.teams),
      count_if-append p s.member_pool (rostered (modify s.teams i f)),
    )
