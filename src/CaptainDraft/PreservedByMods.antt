-- ===== src/CaptainDraft/PreservedByMods.antt =====
-- The moderator's operations of apps/bot/src/services/captain-draft/draft-logic.ts keep a draft well
-- formed: removing, replacing, swapping and moving players.
use trueskill_bot.Common.{
  zero, suc, refl, ℕ, ◌≡◌, subst, String, List, [], ◌∷◌, arith, eq_iff, count_if, Bool, any, map,
  true, false, modify, ok, ◌≤◌, All, Bool-cases, count_if-append, suc, get_elem?, is_some, str_eq,
  find_index?, inl, some, inr, ◌≢◌, ◌∙◌,
}
use trueskill_bot.CaptainDraft.Types.{DraftParticipant, DraftTeam, DraftState, has_key, has_captain}
use trueskill_bot.CaptainDraft.Logic.{
  ParticipantLocation, pool, team, clone_state_with_participant_at, is_captain_key, without_key,
  remove_from_pool, remove_from_team, replace_participant, swap_participants, drop_key,
  put_in_roster, move_participant, take_out, add_to_roster,
}
use trueskill_bot.CaptainDraft.Members.{everyone, rostered}
use trueskill_bot.CaptainDraft.Locate.{At, locate_participant_sound}
use trueskill_bot.CaptainDraft.Exchange.{
  replace_participant_inv, swap_participants_inv, swap_participants_exact, find_participant-At,
  At-clone_ne, places_differ, count_if-clone, swap_participants_same,
}
use trueskill_bot.CaptainDraft.Removal.{remove_from_team_inv, remove_from_team-SameItems}
use trueskill_bot.CaptainDraft.Moves.{move_participant_inv, move_participant-SameItems}
use trueskill_bot.CaptainDraft.Turns.{IsIndexed, IsIndexed-modify}
use trueskill_bot.CaptainDraft.WellFormed.{
  IsLed, IsWellFormed, All-modify, LedBy-without_key, LedBy-modify, is_captain_key_false,
  distinct_of_SameItems, LedBy-append,
}

pub count_if-without_key_le :
    (p : DraftParticipant → Bool) (key : String) (xs : List DraftParticipant)
    → count_if p (without_key key xs) ≤ count_if p xs
count_if-without_key_le p key [] = omega arith
count_if-without_key_le p key (x ∷ xs) = ground (arith, count_if-without_key_le p key xs)

pub remove_from_pool_inv :
    (s s' : DraftState) (key : String)
    → remove_from_pool s key ≡ ok s'
    → s' ≡ record s { member_pool = without_key key s.member_pool }
unfolding remove_from_pool
remove_from_pool_inv s s' key h = ground arith

-- A removal from the pool that succeeds keeps the draft well formed.
pub remove_from_pool-IsWellFormed :
    (s s' : DraftState) (key : String)
    → IsWellFormed s
    → remove_from_pool s key ≡ ok s'
    → IsWellFormed s'
remove_from_pool-IsWellFormed s s' key w h =
    let e = remove_from_pool_inv s s' key h in
    record {
      ordered = rw e w.ordered;
      led = rw e w.led;
      distinct = λ k. rw e (
          omega (
            arith,
            w.distinct k,
            count_if-without_key_le (has_key k) key s.member_pool,
            count_if-append (has_key k) s.member_pool (rostered s.teams),
            count_if-append (has_key k) (without_key key s.member_pool) (rostered s.teams),
          ));
    }

IsIndexed-drop_key :
    (n : ℕ) (key : String) (ts : List DraftTeam)
    → IsIndexed n ts
    → IsIndexed n (map (drop_key key) ts)
IsIndexed-drop_key n key [] h = tt
IsIndexed-drop_key n key (t ∷ ts) h = (ground arith, IsIndexed-drop_key (suc n) key ts h.1)

All-drop_key :
    (key : String) (ts : List DraftTeam)
    → any (has_captain key) ts ≡ false
    → All IsLed ts
    → All IsLed (map (drop_key key) ts)
All-drop_key key [] c h = tt
All-drop_key key (t ∷ ts) c h = (
  elim (Bool-cases (is_some (find_index? (has_key key) t.roster))) [
    | inl here ↦ rw here (LedBy-without_key t.captain_key key t.roster (ground arith) h.0)
    | inr away ↦ rw away h.0
  ],
  All-drop_key key ts (ground arith) h.1,
)

pub remove_from_team-IsWellFormed :
    (s s' : DraftState) (key : String)
    → IsWellFormed s
    → remove_from_team s key ≡ ok s'
    → IsWellFormed s'
unfolding is_captain_key
remove_from_team-IsWellFormed s s' key w h =
    let (x, _, c, e) = remove_from_team_inv s s' key h in
    let same =
      distinct_of_SameItems s s' (remove_from_team-SameItems s s' key w.distinct h) w.distinct in
    record {
      ordered = rw e (IsIndexed-drop_key 0 key s.teams w.ordered);
      led = rw e (All-drop_key key s.teams c w.led);
      distinct = same;
    }

-- A write over a player who is no captain keeps the order and the captains.
clone-IsLed :
    (s : DraftState) (loc : ParticipantLocation) (x y : DraftParticipant) (key : String)
    → At s loc x
    → has_key key x ≡ true
    → is_captain_key s key ≡ false
    → IsIndexed 0 s.teams
    → All IsLed s.teams
    → let s' = clone_state_with_participant_at s loc y in IsIndexed 0 s'.teams × All IsLed s'.teams
unfolding clone_state_with_participant_at is_captain_key
clone-IsLed s (pool i) x y key h k c o l = (o, l)
clone-IsLed s (team t j) x y key (u, hu, hx) k c o l = (
  IsIndexed-modify 0 t s.teams (put_in_roster j y) (λ _. refl) o,
  All-modify s.teams t (put_in_roster j y)
      (λ v hv lv.
        let same : u ≡ v = cc in
        let hx' : get_elem? v.roster j ≡ some x = cc in
        let d = is_captain_key_false key s.teams t c hv in
        LedBy-modify v.captain_key v.roster j x y hx'
          (ground (arith, eq_iff x.key v.captain_key, eq_iff x.key key, eq_iff v.captain_key key))
          lv)
      l,
)

any-put_in_roster :
    (key : String) (ts : List DraftTeam) (i j : ℕ) (y : DraftParticipant)
    → any (has_captain key) (modify ts i (put_in_roster j y)) ≡ any (has_captain key) ts
any-put_in_roster key [] i j y = refl
any-put_in_roster key (t ∷ ts) zero j y = refl
any-put_in_roster key (t ∷ ts) (suc i) j y = rw (any-put_in_roster key ts i j y)

is_captain_key-clone :
    (s : DraftState) (loc : ParticipantLocation) (y : DraftParticipant) (key : String)
    → is_captain_key (clone_state_with_participant_at s loc y) key ≡ is_captain_key s key
unfolding clone_state_with_participant_at is_captain_key
is_captain_key-clone s (pool i) y key = refl
is_captain_key-clone s (team t j) y key = any-put_in_roster key s.teams t j y

-- The newcomer's key is one that nobody has.
pub replace_participant-IsWellFormed :
    (s s' : DraftState) (key : String) (incoming : DraftParticipant)
    → IsWellFormed s
    → count_if (has_key incoming.key) (everyone s) ≡ 0
    → replace_participant s key incoming ≡ ok s'
    → IsWellFormed s'
replace_participant-IsWellFormed s s' key incoming w fresh h =
    let (loc, hl, c, e) = replace_participant_inv s s' key incoming h in
    let (x, hx, hk, _) = locate_participant_sound s key loc hl in
    let (o, l) = clone-IsLed s loc x incoming key hx hk c w.ordered w.led in
    record {
      ordered = rw e o;
      led = rw e l;
      distinct = λ k. rw e (
          ground (
            arith,
            eq_iff incoming.key k,
            w.distinct k,
            count_if-clone (has_key k) s loc x incoming hx,
          ));
    }

pub swap_participants-IsWellFormed :
    (s s' : DraftState) (key_a key_b : String)
    → IsWellFormed s
    → swap_participants s key_a key_b ≡ ok s'
    → IsWellFormed s'
swap_participants-IsWellFormed s s' key_a key_b w h = elim (Bool-cases (str_eq key_a key_b)) [
  | inl same ↦ subst IsWellFormed (swap_participants_same s s' key_a key_b same h) w
  | inr different ↦
      let (loc_a, loc_b, a, b, la, lb, fa, fb, ca, cb, e) =
        swap_participants_inv s s' key_a key_b different h in
      let (ha, ka) = find_participant-At s key_a loc_a a la fa in
      let (hb, kb) = find_participant-At s key_b loc_b b lb fb in
      let d : key_a ≢ key_b = ground (arith, eq_iff key_a key_b) in
      let d' = places_differ s loc_a loc_b a b key_a key_b d ha hb ka kb in
      let s1 = clone_state_with_participant_at s loc_a b in
      let (o, l) = clone-IsLed s loc_a a b key_a ha ka ca w.ordered w.led in
      let (o', l') =
        clone-IsLed s1 loc_b b a key_b (At-clone_ne s loc_a loc_b b b d' hb) kb
          (is_captain_key-clone s loc_a b key_b ∙ cb) o l in
      let (_, _, _, _, _, _, _, _, swapped) = swap_participants_exact s s' key_a key_b d h in
      record {
        ordered = rw e o';
        led = rw e l';
        distinct = distinct_of_SameItems s s' swapped.counted w.distinct;
      }
]

take_out-IsLed :
    (s : DraftState) (loc : ParticipantLocation) (key : String)
    → is_captain_key s key ≡ false
    → IsIndexed 0 s.teams
    → All IsLed s.teams
    → IsIndexed 0 (take_out s loc key).teams × All IsLed (take_out s loc key).teams
unfolding is_captain_key
take_out-IsLed s (pool i) key c o l = (o, l)
take_out-IsLed s (team t j) key c o l =
    let f = λ (u : DraftTeam). record u { roster = without_key key u.roster } in
    (
      IsIndexed-modify 0 t s.teams f (λ _. refl) o,
      All-modify s.teams t f
          (λ u hu lu.
            LedBy-without_key u.captain_key key u.roster (is_captain_key_false key s.teams t c hu)
              lu)
          l,
    )

pub move_participant-IsWellFormed :
    (s s' : DraftState) (key to_captain_key : String)
    → IsWellFormed s
    → move_participant s key to_captain_key ≡ ok s'
    → IsWellFormed s'
move_participant-IsWellFormed s s' key to w h =
    let (target, loc, x, _, _, _, _, c, e) = move_participant_inv s s' key to h in
    let (o, l) = take_out-IsLed s loc key c w.ordered w.led in
    let next = take_out s loc key in
    record {
      ordered = rw e (IsIndexed-modify 0 target next.teams (add_to_roster x) (λ _. refl) o);
      led = rw e (
          All-modify next.teams target (add_to_roster x)
            (λ u _ lu. LedBy-append u.captain_key u.roster _ lu) l);
      distinct =
          distinct_of_SameItems s s' (move_participant-SameItems s s' key to w.distinct h)
            w.distinct;
    }
