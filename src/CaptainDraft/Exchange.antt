-- ===== src/CaptainDraft/Exchange.antt =====
-- Writing to one place of a draft, and the two operations that do so: `cloneStateWithParticipantAt`,
-- `replaceParticipant` and `swapParticipants` of
-- apps/bot/src/services/captain-draft/draft-logic.ts.
use trueskill_bot.Common.{
  ◌+◌, ◌≡◌, ◌≢◌, sym, ap, ◌∙◌, subst, String, Bool, true, false, some, arith, ◌==◌, str_eq,
  Bool-cases, Option-cases, inl, inr, modify, ok, one_if, count_if, SameItems, count_if-append,
  eq_iff, get_elem?-modify_self, get_elem?-modify_ne, ==_iff, count_if-modify, List, Option,
  if◌then◌else◌, ◌&&◌, get_elem?, ℕ, none, refl,
}
use trueskill_bot.CaptainDraft.Types.{DraftParticipant, DraftState, has_key, DraftTeam}
use trueskill_bot.CaptainDraft.Logic.{
  is_captain_key, find_participant, ParticipantLocation, pool, team, locate_participant,
  put_in_roster, clone_state_with_participant_at, replace_participant, swap_participants,
}
use trueskill_bot.CaptainDraft.Members.{rostered, everyone, count_if-rostered-modify}
use trueskill_bot.CaptainDraft.Locate.{At, locate_participant_sound}

-- The write puts `y` in for `x`, and leaves the rest.
pub count_if-clone :
    (p : DraftParticipant → Bool) (s : DraftState) (loc : ParticipantLocation)
    (x y : DraftParticipant)
    → At s loc x
    → count_if p (everyone (clone_state_with_participant_at s loc y)) + one_if (p x)
      ≡ count_if p (everyone s) + one_if (p y)
unfolding clone_state_with_participant_at
count_if-clone p s (pool i) x y h = omega (
  arith,
  count_if-append p s.member_pool (rostered s.teams),
  count_if-append p (modify s.member_pool i (λ _. y)) (rostered s.teams),
  count_if-modify p s.member_pool i (λ _. y) h,
)
count_if-clone p s (team t j) x y (u, hu, hx) = omega (
  arith,
  count_if-append p s.member_pool (rostered s.teams),
  count_if-append p s.member_pool (rostered (modify s.teams t (put_in_roster j y))),
  count_if-rostered-modify p s.teams t (put_in_roster j y) hu,
  count_if-modify p u.roster j (λ _. y) hx,
)

pub At-clone_self :
    (s : DraftState) (loc : ParticipantLocation) (x y : DraftParticipant)
    → At s loc x
    → At (clone_state_with_participant_at s loc y) loc y
unfolding clone_state_with_participant_at
At-clone_self s (pool i) x y h = get_elem?-modify_self s.member_pool i (λ _. y) h
At-clone_self s (team t j) x y (u, hu, hx) = (
  put_in_roster j y u,
  get_elem?-modify_self s.teams t (put_in_roster j y) hu,
  get_elem?-modify_self u.roster j (λ _. y) hx,
)

pub At-clone_ne :
    (s : DraftState) (loc other : ParticipantLocation) (x y : DraftParticipant)
    → loc ≢ other
    → At s other x
    → At (clone_state_with_participant_at s loc y) other x
unfolding clone_state_with_participant_at
At-clone_ne s (pool i) (pool j) x y d h =
    get_elem?-modify_ne s.member_pool i j (λ _. y) (λ e. d (ap pool e)) ∙ h
At-clone_ne s (pool i) (team t j) x y d h = h
At-clone_ne s (team t j) (pool i) x y d h = h
At-clone_ne s (team t j) (team t' j') x y d (u, hu, hx) = elim (Bool-cases (t == t')) [
  | inl same ↦
      let e = (==_iff t t').0 same in
      let d' : j ≢ j' = λ e'. d (cc) in
      (
        put_in_roster j y u,
        rw (← e) (get_elem?-modify_self s.teams t (put_in_roster j y) (rw e hu)),
        get_elem?-modify_ne u.roster j j' (λ _. y) d' ∙ hx,
      )
  | inr different ↦
      (u, get_elem?-modify_ne s.teams t t' (put_in_roster j y) (ground arith) ∙ hu, hx)
]

-- One place holds one participant.
pub At-unique :
    (s : DraftState) (loc : ParticipantLocation) (x y : DraftParticipant)
    → At s loc x
    → At s loc y
    → x ≡ y
At-unique s (pool i) x y h k = cc
At-unique s (team t j) x y (u, hu, hx) (v, hv, hy) = let e : u ≡ v = cc in cc

abbrev pub seat_of : Option DraftTeam → ℕ → Option DraftParticipant
seat_of (some u) j = get_elem? u.roster j
seat_of none j = none

-- Who stands at a place, if anybody does.
abbrev pub occupant : DraftState → ParticipantLocation → Option DraftParticipant
occupant s (pool i) = get_elem? s.member_pool i
occupant s (team t j) = seat_of (get_elem? s.teams t) j

abbrev pub same_place : ParticipantLocation → ParticipantLocation → Bool
same_place (pool i) (pool j) = i == j
same_place (team t j) (team t' j') = t == t' && j == j'
same_place _ _ = false

get_elem?-modify :
    (xs : List DraftParticipant) (i j : ℕ) (y : DraftParticipant) {x : DraftParticipant}
    → get_elem? xs i ≡ some x
    → get_elem? (modify xs i (λ _. y)) j ≡ (if i == j then some y else get_elem? xs j)
get_elem?-modify xs i j y h = elim (Bool-cases (i == j)) [
  | inl same ↦ rw same (
      subst (λ k. get_elem? (modify xs i (λ _. y)) k ≡ some y) ((==_iff i j).0 same)
        (get_elem?-modify_self xs i (λ _. y) h))
  | inr other ↦ rw other (get_elem?-modify_ne xs i j (λ _. y) (ground arith))
]

-- The write is seen at its place, and nowhere else.
occupant-clone :
    (s : DraftState) (loc l : ParticipantLocation) (x y : DraftParticipant)
    → At s loc x
    → occupant (clone_state_with_participant_at s loc y) l
      ≡ (if same_place loc l then some y else occupant s l)
unfolding clone_state_with_participant_at
occupant-clone s (pool i) (pool j) x y h = get_elem?-modify s.member_pool i j y h
occupant-clone s (pool i) (team t j) x y h = refl
occupant-clone s (team t j) (pool i) x y h = refl
occupant-clone s (team t j) (team t' j') x y (u, hu, hx) = elim (Bool-cases (t == t')) [
  | inl same ↦
      let e = (==_iff t t').0 same in
      let hu' : get_elem? s.teams t' ≡ some u = rw (← e) hu in
      let written : get_elem? (modify s.teams t (put_in_roster j y)) t'
          ≡ some (put_in_roster j y u) =
        rw (← e) (get_elem?-modify_self s.teams t (put_in_roster j y) hu) in
      rw (same, written, hu') (get_elem?-modify u.roster j j' y hx)
  | inr other ↦ rw (other, get_elem?-modify_ne s.teams t t' (put_in_roster j y) (ground arith))
]

At-occupant :
    (s : DraftState) (loc : ParticipantLocation) (x : DraftParticipant)
    → At s loc x
    → occupant s loc ≡ some x
At-occupant s (pool i) x h = h
At-occupant s (team t j) x (u, hu, hx) = rw hu hx

-- `s'` is `s` with `y` in the place of `x`: there, and nowhere else, the occupant differs.
pub record IsReplaced (s s' : DraftState) (loc : ParticipantLocation) (x y : DraftParticipant)
    : Type 0 where
  pub before : occupant s loc ≡ some x
  pub after :
      (l : ParticipantLocation)
      → occupant s' l ≡ (if same_place loc l then some y else occupant s l)
  pub counted :
      (p : DraftParticipant → Bool)
      → count_if p (everyone s') + one_if (p x) ≡ count_if p (everyone s) + one_if (p y)

-- `s'` is `s` with `a` and `b` in one another's places, and all others where they were.
pub record IsSwapped (s s' : DraftState) (loc_a loc_b : ParticipantLocation)
    (a b : DraftParticipant) : Type 0 where
  pub before_a : occupant s loc_a ≡ some a
  pub before_b : occupant s loc_b ≡ some b
  pub after :
      (l : ParticipantLocation)
      → occupant s' l ≡ (
          if same_place loc_b l
          then some a
          else if same_place loc_a l
          then some b
          else occupant s l)
  pub apart : same_place loc_a loc_b ≡ false
  pub counted : SameItems (everyone s') (everyone s)

clone-IsReplaced :
    (s : DraftState) (loc : ParticipantLocation) (x y : DraftParticipant)
    → At s loc x
    → IsReplaced s (clone_state_with_participant_at s loc y) loc x y
clone-IsReplaced s loc x y h = record {
  before = At-occupant s loc x h;
  after = λ l. occupant-clone s loc l x y h;
  counted = λ p. count_if-clone p s loc x y h;
}

same_place-eq : (l m : ParticipantLocation) → same_place l m ≡ true → l ≡ m
same_place-eq (pool i) (pool j) h = ap pool ((==_iff i j).0 h)
same_place-eq (pool i) (team t j) h = cc
same_place-eq (team t j) (pool i) h = cc
same_place-eq (team t j) (team t' j') h = ground arith

same_place_ne : (l m : ParticipantLocation) → l ≢ m → same_place l m ≡ false
same_place_ne l m d = elim (Bool-cases (same_place l m)) [
  | inl same ↦ absurd (d (same_place-eq l m same))
  | inr other ↦ other
]

clone_twice-IsSwapped :
    (s : DraftState) (loc_a loc_b : ParticipantLocation) (a b : DraftParticipant)
    → loc_a ≢ loc_b
    → At s loc_a a
    → At s loc_b b
    → IsSwapped s
        (clone_state_with_participant_at (clone_state_with_participant_at s loc_a b) loc_b a)
        loc_a
        loc_b
        a
        b
clone_twice-IsSwapped s loc_a loc_b a b d ha hb =
    let s1 = clone_state_with_participant_at s loc_a b in
    let hb' : At s1 loc_b b = At-clone_ne s loc_a loc_b b b d hb in
    record {
      before_a = At-occupant s loc_a a ha;
      before_b = At-occupant s loc_b b hb;
      after = λ l.
          occupant-clone s1 loc_b l b a hb'
          ∙ ap (λ o. if same_place loc_b l then some a else o) (occupant-clone s loc_a l a b ha);
      apart = same_place_ne loc_a loc_b d;
      counted =
          λ p. omega (arith, count_if-clone p s loc_a a b ha, count_if-clone p s1 loc_b b a hb');
    }

-- Two keys that differ are found at two places.
pub places_differ :
    (s : DraftState) (loc_a loc_b : ParticipantLocation) (a b : DraftParticipant)
    (key_a key_b : String)
    → key_a ≢ key_b
    → At s loc_a a
    → At s loc_b b
    → has_key key_a a ≡ true
    → has_key key_b b ≡ true
    → loc_a ≢ loc_b
places_differ s loc_a loc_b a b key_a key_b d ha hb ka kb e =
    let same = At-unique s loc_b a b (subst (λ l. At s l a) e ha) hb in
    d (sym ((eq_iff a.key key_a).0 ka) ∙ ap DraftParticipant.key same ∙ (eq_iff b.key key_b).0 kb)

pub replace_participant_inv :
    (s s' : DraftState) (key : String) (incoming : DraftParticipant)
    → replace_participant s key incoming ≡ ok s'
    → (loc : ParticipantLocation) × (locate_participant s key ≡ some loc)
      × (is_captain_key s key ≡ false)
      × (s' ≡ clone_state_with_participant_at s loc incoming)
unfolding replace_participant
replace_participant_inv s s' key incoming h = elim (Option-cases (locate_participant s key)) [
  | inl missing ↦ absurd (ground arith)
  | inr (loc, found) ↦ (loc, found, ground arith, ground arith)
]

-- A replacement that succeeds takes exactly one person of the outgoing key, whose key is no
-- captain's, out of the draft, and puts the newcomer in at the same place. Every other place holds
-- whom it held before, and under every test the newcomer is counted for the one who left.
pub replace_participant_exact :
    (s s' : DraftState) (key : String) (incoming : DraftParticipant)
    → replace_participant s key incoming ≡ ok s'
    → (loc : ParticipantLocation) × (x : DraftParticipant) × (has_key key x ≡ true)
      × (is_captain_key s key ≡ false)
      × IsReplaced s s' loc x incoming
replace_participant_exact s s' key incoming h =
    let (loc, hl, hc, e) = replace_participant_inv s s' key incoming h in
    let (x, hx, hk, _) = locate_participant_sound s key loc hl in
    (
      loc,
      x,
      hk,
      hc,
      subst (λ t. IsReplaced s t loc x incoming) (sym e) (clone-IsReplaced s loc x incoming hx),
    )

pub swap_participants_inv :
    (s s' : DraftState) (key_a key_b : String)
    → str_eq key_a key_b ≡ false
    → swap_participants s key_a key_b ≡ ok s'
    → (loc_a loc_b : ParticipantLocation) × (a b : DraftParticipant) × (locate_participant s key_a
        ≡ some loc_a)
      × (locate_participant s key_b ≡ some loc_b)
      × (find_participant s key_a ≡ some a)
      × (find_participant s key_b ≡ some b)
      × (is_captain_key s key_a ≡ false)
      × (is_captain_key s key_b ≡ false)
      × (s' ≡ clone_state_with_participant_at (clone_state_with_participant_at s loc_a b) loc_b a)
unfolding swap_participants
swap_participants_inv s s' key_a key_b d h = elim (Option-cases (locate_participant s key_a)) [
  | inl missing ↦ absurd (ground arith)
  | inr (loc_a, fa) ↦ elim (Option-cases (locate_participant s key_b)) [
    | inl missing ↦ absurd (ground arith)
    | inr (loc_b, fb) ↦
        let (a, _, _, ha) = locate_participant_sound s key_a loc_a fa in
        let (b, _, _, hb) = locate_participant_sound s key_b loc_b fb in
        (loc_a, loc_b, a, b, fa, fb, ha, hb, ground arith, ground arith, ground arith)
  ]
]

-- The participant whom a search by key finds stands at the place that the search by place finds.
pub find_participant-At :
    (s : DraftState) (key : String) (loc : ParticipantLocation) (x : DraftParticipant)
    → locate_participant s key ≡ some loc
    → find_participant s key ≡ some x
    → At s loc x × (has_key key x ≡ true)
find_participant-At s key loc x hl hf =
    let (y, hy, hk, hf') = locate_participant_sound s key loc hl in
    let e : y ≡ x = cc in (subst (At s loc) e hy, subst (λ z. has_key key z ≡ true) e hk)

-- A swap of two different keys that succeeds exchanges two people, neither of whose keys is a
-- captain's: each stands where the other stood, every other place is unchanged, and the draft holds
-- the same people as before.
pub swap_participants_exact :
    (s s' : DraftState) (key_a key_b : String)
    → key_a ≢ key_b
    → swap_participants s key_a key_b ≡ ok s'
    → (loc_a loc_b : ParticipantLocation) × (a b : DraftParticipant) × (has_key key_a a ≡ true)
      × (has_key key_b b ≡ true)
      × (is_captain_key s key_a ≡ false)
      × (is_captain_key s key_b ≡ false)
      × IsSwapped s s' loc_a loc_b a b
swap_participants_exact s s' key_a key_b d h =
    let (loc_a, loc_b, a, b, la, lb, fa, fb, ca, cb, e) =
      swap_participants_inv s s' key_a key_b (ground (arith, eq_iff key_a key_b)) h in
    let (ha, ka) = find_participant-At s key_a loc_a a la fa in
    let (hb, kb) = find_participant-At s key_b loc_b b lb fb in
    let d' = places_differ s loc_a loc_b a b key_a key_b d ha hb ka kb in
    (
      loc_a,
      loc_b,
      a,
      b,
      ka,
      kb,
      ca,
      cb,
      subst (λ t. IsSwapped s t loc_a loc_b a b) (sym e)
          (clone_twice-IsSwapped s loc_a loc_b a b d' ha hb),
    )

pub swap_participants_same :
    (s s' : DraftState) (key_a key_b : String)
    → str_eq key_a key_b ≡ true
    → swap_participants s key_a key_b ≡ ok s'
    → s ≡ s'
unfolding swap_participants
swap_participants_same s s' key_a key_b d h = let h' = rw d at h in cc
