-- ===== src/CaptainDraft/Channel.antt =====
-- The drafts of a channel: `findActiveDraftForChannel` of
-- apps/bot/src/services/captain-draft/draft-state.ts, and `startCaptainDraft` and
-- `loadActiveDraftForChannel` of draft-actions.ts, on the stored rows, the newest first.
use trueskill_bot.Common.{
  ◌≤◌, ◌≡◌, ◌⊎◌, refl, arith, Bool, true, ◌&&◌, Option, none, some, List, [], ◌∷◌, String, str_eq,
  any, find?, count_if, Option-cases, Bool-cases, inl, inr, ok, err, require, eq_iff, eq_refl,
  subst,
}
use trueskill_bot.CaptainDraft.Types.{
  CaptainDraftStatus, setup, active, complete, Throws, draft_already_active, no_active_draft,
}
use trueskill_bot.CaptainDraft.Actions.{DraftRow, same_status}
use trueskill_bot.CaptainDraft.Lifecycle.{create_draft}

abbrev pub active_statuses : List CaptainDraftStatus
active_statuses = setup ∷ active ∷ complete ∷ []

-- The `where` of the query.
unfoldable pub is_active_in : String → String → DraftRow → Bool
is_active_in guild_id channel_id row =
    str_eq row.guild_id guild_id
    && str_eq row.channel_id channel_id
    && any (same_status row.status) active_statuses

unfoldable pub find_active_draft_for_channel : List DraftRow → String → String → Option DraftRow
find_active_draft_for_channel store guild_id channel_id =
    find? (is_active_in guild_id channel_id) store

unfoldable pub load_active_draft_for_channel : List DraftRow → String → String → Throws DraftRow
load_active_draft_for_channel store guild_id channel_id =
    require (find_active_draft_for_channel store guild_id channel_id) no_active_draft

abbrev create_unless : List DraftRow → DraftRow → Option DraftRow → Throws (List DraftRow)
create_unless store row (some _) = err draft_already_active
create_unless store row none = ok (row ∷ store)

-- `id` is the fresh id that the database gives the row.
unfoldable pub start_captain_draft :
    List DraftRow → String → String → String → Throws (List DraftRow)
start_captain_draft store id guild_id channel_id =
    create_unless store (create_draft id guild_id channel_id)
      (find_active_draft_for_channel store guild_id channel_id)

-- Each channel has one draft at most that is not cancelled.
unfoldable pub HasOneDraft : List DraftRow → Type 0
HasOneDraft store =
    (guild_id channel_id : String) → count_if (is_active_in guild_id channel_id) store ≤ 1

find?-none_count :
    (p : DraftRow → Bool) (store : List DraftRow) → find? p store ≡ none → count_if p store ≡ 0
find?-none_count p [] h = refl
find?-none_count p (x ∷ xs) h = ground (arith, find?-none_count p xs)

find?_passes :
    (p : DraftRow → Bool) (store : List DraftRow) (row : DraftRow)
    → find? p store ≡ some row
    → p row ≡ true
find?_passes p [] row h = cc
find?_passes p (x ∷ xs) row h = elim (Bool-cases (p x)) [
  | inl passes ↦ let h' = rw passes at h in let e : x ≡ row = cc in subst (λ r. p r ≡ true) e passes
  | inr fails ↦ find?_passes p xs row (rw fails at h)
]

created_in :
    (id guild_id channel_id g c : String)
    → is_active_in g c (create_draft id guild_id channel_id) ≡ true
    → (guild_id ≡ g) × (channel_id ≡ c)
unfolding is_active_in create_draft
created_in id guild_id channel_id g c h =
    (ground (arith, eq_iff guild_id g), ground (arith, eq_iff channel_id c))

created-is_active_in :
    (id guild_id channel_id : String)
    → is_active_in guild_id channel_id (create_draft id guild_id channel_id) ≡ true
unfolding is_active_in create_draft
created-is_active_in id guild_id channel_id = rw (eq_refl guild_id) (rw (eq_refl channel_id) refl)

create_draft-HasOneDraft :
    (store : List DraftRow) (id guild_id channel_id : String)
    → HasOneDraft store
    → find_active_draft_for_channel store guild_id channel_id ≡ none
    → HasOneDraft (create_draft id guild_id channel_id ∷ store)
unfolding HasOneDraft find_active_draft_for_channel
create_draft-HasOneDraft store id guild_id channel_id one free g c =
    elim (Bool-cases (is_active_in g c (create_draft id guild_id channel_id))) [
      | inr other ↦ rw other (omega (arith, one g c))
      | inl here ↦
          let (eg, ec) = created_in id guild_id channel_id g c here in
          let none_yet = find?-none_count (is_active_in guild_id channel_id) store free in
          let none_here =
            subst (λ h. count_if (is_active_in h c) store ≡ 0) eg
              (subst (λ d. count_if (is_active_in guild_id d) store ≡ 0) ec none_yet) in
          rw here (omega arith)
    ]

-- Where no channel has two drafts that are not cancelled: a start is refused exactly when the channel
-- has such a draft; else the new draft is the one that the channel's commands load, and still no
-- channel has two.
pub start_captain_draft_lem :
    (store : List DraftRow) (id guild_id channel_id : String)
    → HasOneDraft store
    → ((row : DraftRow) × (load_active_draft_for_channel store guild_id channel_id ≡ ok row)
        × (is_active_in guild_id channel_id row ≡ true)
        × (start_captain_draft store id guild_id channel_id ≡ err draft_already_active))
      ⊎ ((store' : List DraftRow) × (load_active_draft_for_channel store guild_id channel_id
            ≡ err no_active_draft)
          × (start_captain_draft store id guild_id channel_id ≡ ok store')
          × (load_active_draft_for_channel store' guild_id channel_id
              ≡ ok (create_draft id guild_id channel_id))
          × HasOneDraft store')
unfolding start_captain_draft load_active_draft_for_channel find_active_draft_for_channel
start_captain_draft_lem store id guild_id channel_id one =
    elim (Option-cases (find? (is_active_in guild_id channel_id) store)) [
      | inr (row, found) ↦ inl (
        row,
        rw found refl,
        find?_passes (is_active_in guild_id channel_id) store row found,
        rw found refl,
      )
      | inl free ↦ inr (
        create_draft id guild_id channel_id ∷ store,
        rw free refl,
        rw free refl,
        rw (created-is_active_in id guild_id channel_id) refl,
        create_draft-HasOneDraft store id guild_id channel_id one free,
      )
    ]
