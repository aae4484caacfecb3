-- ===== src/CaptainDraft/Consistent.antt =====
-- What holds of a stored draft in each status, and that each command of
-- apps/bot/src/services/captain-draft/draft-actions.ts and draft-mod-actions.ts keeps it.
use trueskill_bot.CaptainDraft.WellFormed.{IsWellFormed}
use trueskill_bot.CaptainDraft.Logic.{next_status_after_mutation}
use trueskill_bot.Common.{
  ok, List, [], ◌∷◌, String, ◌≡◌, ◌⊎◌, ◌≤◌, ◌<◌, arith, count_if, err, length, inl, refl, inr, ◌++◌,
  Bool-cases, ◌==◌, ltb, true, any, ◌>>◌, ◌>>=◌, ◌≢◌,
}
use trueskill_bot.CaptainDraft.Types.{
  CaptainDraftStatus, setup, active, complete, cancelled, DraftState, DraftParticipant, Throws,
  has_key,
}
use trueskill_bot.CaptainDraft.Actions.{DraftRow, settle, assert_draft_status, same_status}

-- Before it begins a draft has no teams, and its captains and members have distinct keys.
abbrev pub HasDistinctEntrants : List DraftParticipant → List DraftParticipant → Type 0
HasDistinctEntrants captains members =
    (key : String) → count_if (has_key key) (captains ++ members) ≤ 1

-- A running draft has at least two teams and a player to pick.
abbrev pub StatusInv : CaptainDraftStatus → DraftState → Type 0
StatusInv setup s = (s.teams ≡ []) × HasDistinctEntrants s.captains s.member_pool
StatusInv active s = IsWellFormed s × (2 ≤ length s.teams) × (0 < length s.member_pool)
StatusInv complete s = IsWellFormed s × (2 ≤ length s.teams)
StatusInv cancelled s = Unit

abbrev pub IsConsistent : DraftRow → Type 0
IsConsistent row = StatusInv row.status row.state

-- The status that is stored after a mutation is the one that the new state bears out.
pub next_status-StatusInv :
    (status : CaptainDraftStatus) (s : DraftState)
    → (status ≡ active) ⊎ (status ≡ complete)
    → IsWellFormed s
    → 2 ≤ length s.teams
    → StatusInv (next_status_after_mutation status s) s
unfolding next_status_after_mutation
next_status-StatusInv setup s h w n = elim h [ inl e ↦ cc | inr e ↦ cc ]
next_status-StatusInv cancelled s h w n = tt
next_status-StatusInv complete s h w n = (w, n)
next_status-StatusInv active s h w n = elim (Bool-cases (length s.member_pool == 0)) [
  | inl empty ↦
      let some_teams : ltb 0 (length s.teams) ≡ true = ground arith in rw (empty, some_teams) (w, n)
  | inr more ↦ rw more (w, n, ground arith)
]

-- What holds of the row and of every row that is stored holds of the outcome.
pub settle-keeps :
    (P : DraftRow → Type 0) (row : DraftRow) (m : Throws DraftRow)
    → P row
    → ((saved : DraftRow) → m ≡ ok saved → P saved)
    → P (settle row m).0
settle-keeps P row (ok saved) h k = k saved refl
settle-keeps P row (err e) h k = h

-- A draft that has not begun.
abbrev pub IsSetUp : DraftState → Type 0
IsSetUp s = StatusInv setup s

-- The outcome of an operation, from what it keeps in each status that the command allows.
pub next_status-keeps :
    (status : CaptainDraftStatus) (s s' : DraftState)
    → StatusInv status s
    → any (same_status status) (setup ∷ active ∷ complete ∷ []) ≡ true
    → (status ≡ setup → IsSetUp s → IsSetUp s')
    → (IsWellFormed s → IsWellFormed s')
    → length s'.teams ≡ length s.teams
    → StatusInv (next_status_after_mutation status s') s'
unfolding next_status_after_mutation
next_status-keeps setup s s' c a k w n = k refl c
next_status-keeps active s s' c a k w n =
    next_status-StatusInv active s' (inl refl) (w c.0) (rw n c.1)
next_status-keeps complete s s' c a k w n =
    next_status-StatusInv complete s' (inr refl) (w c.0) (rw n c.1)
next_status-keeps cancelled s s' c a k w n = tt

-- A command that checks the status, makes another check, runs one operation and stores its result.
abbrev pub checked :
    DraftRow
    → List CaptainDraftStatus
    → Throws (Unit {0})
    → Throws DraftState
    → (DraftState → DraftRow)
    → Throws DraftRow
checked row allowed check op store = do
  assert_draft_status row allowed
  check
  next_state ← op
  ok (store next_state)

checked_op-keeps :
    (P : DraftRow → Type 0) (row : DraftRow) (check : Throws (Unit {0})) (op : Throws DraftState)
    (store : DraftState → DraftRow)
    → P row
    → ((s' : DraftState) → op ≡ ok s' → check ≡ ok tt → P (store s'))
    → P (settle row (check >>= λ _. op >>= λ s. ok (store s))).0
checked_op-keeps P row (ok _) (ok s') store h k = k s' refl refl
checked_op-keeps P row (ok _) (err e) store h k = h
checked_op-keeps P row (err e) op store h k = h

pub checked-keeps :
    (P : DraftRow → Type 0) (row : DraftRow) (allowed : List CaptainDraftStatus)
    (check : Throws (Unit {0})) (op : Throws DraftState) (store : DraftState → DraftRow)
    → P row
    → ((s' : DraftState)
        → op ≡ ok s'
        → check ≡ ok tt
        → any (same_status row.status) allowed ≡ true
        → P (store s'))
    → P (settle row (checked row allowed check op store)).0
checked-keeps P row allowed check op store h k =
    elim (Bool-cases (any (same_status row.status) allowed)) [
      | inl fits ↦ rw fits (checked_op-keeps P row check op store h (λ s' ho hc. k s' ho hc fits))
      | inr other ↦ rw other h
    ]

pub allowed_running :
    (status : CaptainDraftStatus)
    → any (same_status status) (active ∷ complete ∷ []) ≡ true
    → (any (same_status status) (setup ∷ active ∷ complete ∷ []) ≡ true) × (status ≢ setup)
allowed_running setup h = cc
allowed_running active h = (refl, λ e. cc)
allowed_running complete h = (refl, λ e. cc)
allowed_running cancelled h = cc
