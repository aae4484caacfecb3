-- ===== src/CaptainDraft/Locate.antt =====
-- Where a participant stands, and what writing to that place does: `locateParticipant`,
-- `cloneStateWithParticipantAt`, `replaceParticipant` and `swapParticipants` of
-- apps/bot/src/services/captain-draft/draft-logic.ts.
use trueskill_bot.Common.{
  ℕ, suc, ◌+◌, ◌≡◌, refl, sym, subst, String, true, List, [], ◌∷◌, some, arith, Option-cases, inl,
  inr, get_elem?, find_index?, find_index?_sound, find_index?-find?, find_index?-none,
}
use trueskill_bot.CaptainDraft.Types.{DraftParticipant, DraftTeam, DraftState, has_key}
use trueskill_bot.CaptainDraft.Logic.{
  find_on_teams, find_participant, ParticipantLocation, pool, team, locate_on_teams,
  locate_participant,
}

-- The participant stands at the place.
abbrev pub At : DraftState → ParticipantLocation → DraftParticipant → Type 0
At s (pool i) x = get_elem? s.member_pool i ≡ some x
At s (team t j) x =
    (u : DraftTeam) × (get_elem? s.teams t ≡ some u) × (get_elem? u.roster j ≡ some x)

locate_on_teams_sound :
    (key : String) (n : ℕ) (ts : List DraftTeam) {loc : ParticipantLocation}
    → locate_on_teams key n ts ≡ some loc
    → (t j : ℕ) × (u : DraftTeam) × (x : DraftParticipant) × (loc ≡ team (n + t) j)
      × (get_elem? ts t ≡ some u)
      × (get_elem? u.roster j ≡ some x)
      × (has_key key x ≡ true)
      × (find_on_teams key ts ≡ some x)
locate_on_teams_sound key n [] h = cc
locate_on_teams_sound key n (u ∷ ts) {loc} h =
    elim (Option-cases (find_index? (has_key key) u.roster)) [
      | inl missing ↦
          let (t, j, v, x, e, hv, hx, hk, hf) =
            locate_on_teams_sound key (suc n) ts {loc = loc} (ground arith) in
          let none_here = find_index?-none (has_key key) u.roster missing in
          (suc t, j, v, x, ground arith, hv, hx, hk, ground arith)
      | inr (j, found) ↦
          let (x, hx, hk) = find_index?_sound (has_key key) u.roster j found in
          let e = find_index?-find? (has_key key) u.roster found in
          (0, j, u, x, ground arith, refl, hx, hk, ground arith)
    ]

-- A place that is found holds the participant of that key whom a search by key finds.
pub locate_participant_sound :
    (s : DraftState) (key : String) (loc : ParticipantLocation)
    → locate_participant s key ≡ some loc
    → (x : DraftParticipant) × At s loc x
      × (has_key key x ≡ true)
      × (find_participant s key ≡ some x)
unfolding locate_participant find_participant
locate_participant_sound s key loc h =
    elim (Option-cases (find_index? (has_key key) s.member_pool)) [
      | inl missing ↦
          let (t, j, u, x, e, hu, hx, hk, hf) =
            locate_on_teams_sound key 0 s.teams {loc = loc} (ground arith) in
          let none_here = find_index?-none (has_key key) s.member_pool missing in
          let e' : loc ≡ team t j = ground arith in
          (x, subst (λ l. At s l x) (sym e') (u, hu, hx), hk, ground arith)
      | inr (i, found) ↦
          let (x, hx, hk) = find_index?_sound (has_key key) s.member_pool i found in
          let e = find_index?-find? (has_key key) s.member_pool found in
          let e' : loc ≡ pool i = ground arith in
          (x, subst (λ l. At s l x) (sym e') hx, hk, ground arith)
    ]
