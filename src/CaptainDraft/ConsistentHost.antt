-- ===== src/CaptainDraft/ConsistentHost.antt =====
-- The commands of apps/bot/src/services/captain-draft/draft-actions.ts keep a stored draft consistent
-- with its status: setting up, beginning, cancelling, renaming and publishing.
use trueskill_bot.CaptainDraft.Begin.{build_teams_from_captains_lem}
use trueskill_bot.CaptainDraft.WellFormed.{IsLed}
use trueskill_bot.CaptainDraft.Turns.{IsIndexed}
use trueskill_bot.CaptainDraft.Members.{rostered, everyone}
use trueskill_bot.CaptainDraft.Logic.{
  next_status_after_mutation, build_teams_from_captains, shuffle_pick_order,
}
use trueskill_bot.CaptainDraft.Types.{
  CaptainDraftStatus, DraftState, DraftTeam, Throws, cancelled, complete, setup, active,
  has_captain, has_key,
}
use trueskill_bot.Common.Rng.{Rng}
use trueskill_bot.CaptainDraft.Actions.{
  DraftRow, rename_team_in_state, save_draft_state, assert_team_captain_rename, rename, same_status,
  settle, assert_draft_status,
}
use trueskill_bot.Common.{
  trim_text, ℕ, ok, List, [], ◌∷◌, String, ◌≡◌, ◌≤◌, ◌<◌, arith, refl, inl, ap, subst, any, map,
  All, Bool-cases, true, length, ◌∙◌, inr, some, suc, ◌++◌, SameItems, ◌>>◌, count_if-append,
}
use trueskill_bot.CaptainDraft.Consistent.{
  checked, checked-keeps, IsConsistent, IsSetUp, StatusInv, next_status-StatusInv, settle-keeps,
}
use trueskill_bot.CaptainDraft.Commands.{
  cancel_captain_draft, mod_rename_team, publish_captain_draft, rename_captain_team,
  ensure_complete_if_pool_empty, begin_steps, begin_captain_draft,
}

healed-StatusInv :
    (status : CaptainDraftStatus) (s : DraftState)
    → StatusInv status s
    → StatusInv (next_status_after_mutation status s) s
unfolding next_status_after_mutation
healed-StatusInv setup s c = c
healed-StatusInv active s c = next_status-StatusInv active s (inl refl) c.0 c.1
healed-StatusInv complete s c = c
healed-StatusInv cancelled s c = c

rostered-rename :
    (key name : String) (ts : List DraftTeam) → rostered (map (rename key name) ts) ≡ rostered ts
rostered-rename key name [] = refl
rostered-rename key name (t ∷ ts) = elim (Bool-cases (has_captain key t)) [
  | inl same ↦ rw (same, rostered-rename key name ts)
  | inr other ↦ rw (other, rostered-rename key name ts)
]

rename-IsLed :
    (n : ℕ) (key name : String) (ts : List DraftTeam)
    → IsIndexed n ts
    → All IsLed ts
    → IsIndexed n (map (rename key name) ts)
      × All IsLed (map (rename key name) ts)
      × (length (map (rename key name) ts) ≡ length ts)
rename-IsLed n key name [] o l = (tt, tt, refl)
rename-IsLed n key name (t ∷ ts) o l =
    let (o', l', e) = rename-IsLed (suc n) key name ts o.1 l.1 in
    elim (Bool-cases (has_captain key t)) [
      | inl same ↦ rw same ((o.0, o'), (l.0, l'), ap suc e)
      | inr other ↦ rw other ((o.0, o'), (l.0, l'), ap suc e)
    ]

rename_team_in_state_inv :
    (s s' : DraftState) (key name : String)
    → rename_team_in_state s key name ≡ ok s'
    → s' ≡ record s { teams = map (rename key (trim_text name)) s.teams }
unfolding rename_team_in_state
rename_team_in_state_inv s s' key name h = ground arith

rename_team_in_state-StatusInv :
    (s s' : DraftState) (key name : String)
    → rename_team_in_state s key name ≡ ok s'
    → StatusInv complete s
    → StatusInv complete s'
rename_team_in_state-StatusInv s s' key name h (w, n) =
    let e = rename_team_in_state_inv s s' key name h in
    let (o, l, len) = rename-IsLed 0 key (trim_text name) s.teams w.ordered w.led in
    let same : everyone s' ≡ everyone s =
      ap everyone e
      ∙ ap (λ ps. s.member_pool ++ ps) (rostered-rename key (trim_text name) s.teams) in
    (
      record { ordered = rw e o; led = rw e l; distinct = λ k. rw same (w.distinct k) },
      rw e (rw len n),
    )

allowed_complete :
    (status : CaptainDraftStatus)
    → any (same_status status) (complete ∷ []) ≡ true
    → status ≡ complete
allowed_complete setup h = cc
allowed_complete active h = cc
allowed_complete complete h = refl
allowed_complete cancelled h = cc

renaming-IsConsistent :
    (row : DraftRow) (check : Throws (Unit {0})) (key name : String)
    → IsConsistent row
    → IsConsistent
        (settle row (
          checked row
            (complete ∷ [])
            check
            (rename_team_in_state row.state key name)
            (λ s. save_draft_state row complete s))).0
renaming-IsConsistent row check key name c =
    checked-keeps IsConsistent row (complete ∷ []) check (rename_team_in_state row.state key name)
      (λ s. save_draft_state row complete s) c
      λ s' hop _ fits.
        rename_team_in_state-StatusInv row.state s' key name hop
          (subst (λ t. StatusInv t row.state) (allowed_complete row.status fits) c)

pub rename_captain_team-IsConsistent :
    (row : DraftRow) (actor key name : String)
    → IsConsistent row
    → IsConsistent (rename_captain_team row actor key name).0
unfolding rename_captain_team
rename_captain_team-IsConsistent row actor key name c =
    renaming-IsConsistent (ensure_complete_if_pool_empty row)
      (assert_team_captain_rename row.state actor key) key name
      (healed-StatusInv row.status row.state c)

pub mod_rename_team-IsConsistent :
    (row : DraftRow) (key name : String)
    → IsConsistent row
    → IsConsistent (mod_rename_team row key name).0
unfolding mod_rename_team
mod_rename_team-IsConsistent row key name c =
    renaming-IsConsistent (ensure_complete_if_pool_empty row) (ok tt) key name
      (healed-StatusInv row.status row.state c)

-- A command that only checks the status and stores a row.
only_checked-IsConsistent :
    (row stored : DraftRow) (allowed : List CaptainDraftStatus)
    → IsConsistent row
    → IsConsistent stored
    → IsConsistent (settle row (assert_draft_status row allowed >> ok stored)).0
only_checked-IsConsistent row stored allowed c c' =
    elim (Bool-cases (any (same_status row.status) allowed)) [
      | inl fits ↦ rw fits c'
      | inr other ↦ rw other c
    ]

pub publish_captain_draft-IsConsistent :
    (row : DraftRow) → IsConsistent row → IsConsistent (publish_captain_draft row).0
unfolding publish_captain_draft
publish_captain_draft-IsConsistent row c =
    let healed = healed-StatusInv row.status row.state c in
    let stored = ensure_complete_if_pool_empty row in
    only_checked-IsConsistent stored stored (complete ∷ []) healed healed

pub cancel_captain_draft-IsConsistent :
    (row : DraftRow) → IsConsistent row → IsConsistent (cancel_captain_draft row).0
unfolding cancel_captain_draft
cancel_captain_draft-IsConsistent row c =
    only_checked-IsConsistent row (save_draft_state row cancelled row.state)
      (setup ∷ active ∷ complete ∷ []) c tt

begin_steps_inv :
    (rng : Rng) (k : ℕ) (row saved : DraftRow) (message : Throws String)
    → begin_steps rng k row message ≡ ok saved
    → (teams : List DraftTeam) × (id : String) × (build_teams_from_captains row.state.captains
          (shuffle_pick_order (length row.state.captains) rng k)
        ≡ ok teams)
      × (message ≡ ok id)
      × (any (same_status row.status) (setup ∷ []) ≡ true)
      × (2 ≤ length row.state.captains)
      × (0 < length row.state.member_pool)
      × (let state = row.state in
          saved ≡ record row {
            status = active;
            state = record state {
              pick_order = shuffle_pick_order (length row.state.captains) rng k;
              teams = teams;
              pick_index = 0;
            };
            draft_message_id = some id;
          })
begin_steps_inv rng k row saved message h = ground arith

pub allowed_setup :
    (status : CaptainDraftStatus) → any (same_status status) (setup ∷ []) ≡ true → status ≡ setup
allowed_setup setup h = refl
allowed_setup active h = cc
allowed_setup complete h = cc
allowed_setup cancelled h = cc

-- A draft that begins is a running draft: two teams or more, each led by its captain, in pick order.
begun-StatusInv :
    (s : DraftState) (rng : Rng) (k : ℕ) (teams : List DraftTeam) (order : List ℕ)
    → IsSetUp s
    → 2 ≤ length s.captains
    → 0 < length s.member_pool
    → IsIndexed 0 teams
    → All IsLed teams
    → length teams ≡ length s.captains
    → SameItems (rostered teams) s.captains
    → StatusInv active (record s { pick_order = order; teams = teams; pick_index = 0 })
begun-StatusInv s rng k teams order (_, d) hc hm o l len same = (
  record {
    ordered = o;
    led = l;
    distinct = λ key. omega (
      arith,
      d key,
      same (has_key key),
      count_if-append (has_key key) s.member_pool (rostered teams),
      count_if-append (has_key key) s.captains s.member_pool,
    );
  },
  rw len hc,
  hm,
)

pub begin_captain_draft-IsConsistent :
    (rng : Rng) (k : ℕ) (row : DraftRow) (message : Throws String)
    → IsConsistent row
    → IsConsistent (begin_captain_draft rng k row message).0
unfolding begin_captain_draft
begin_captain_draft-IsConsistent rng k row message c =
    settle-keeps IsConsistent row (begin_steps rng k row message) c λ saved h.
      let (teams, id, hb, _, fits, hc, hm, e) = begin_steps_inv rng k row saved message h in
      let (teams', hb', o, l, len, same) = build_teams_from_captains_lem row.state.captains rng k in
      let et : teams' ≡ teams = cc in
      let c' = subst (λ t. StatusInv t row.state) (allowed_setup row.status fits) c in
      rw e (
        begun-StatusInv row.state rng k teams _ c' hc hm (subst (IsIndexed 0) et o)
          (subst (All IsLed) et l) (subst (λ ts. length ts ≡ length row.state.captains) et len)
          (subst (λ ts. SameItems (rostered ts) row.state.captains) et same))
