-- ===== src/CaptainDraft/ConsistentEntrants.antt =====
-- The commands of apps/bot/src/services/captain-draft/draft-mod-actions.ts that change who takes part
-- keep a stored draft consistent with its status: adding, removing and replacing players.
use trueskill_bot.CaptainDraft.Locate.{At, locate_participant_sound}
use trueskill_bot.CaptainDraft.PreservedByMods.{
  remove_from_pool_inv, count_if-without_key_le, remove_from_pool-IsWellFormed,
  replace_participant-IsWellFormed, remove_from_team-IsWellFormed,
}
use trueskill_bot.CaptainDraft.Removal.{remove_from_team_inv}
use trueskill_bot.CaptainDraft.Exchange.{replace_participant_inv}
use trueskill_bot.CaptainDraft.Sizes.{
  add_to_team-teams, remove_from_pool-teams, replace_participant-teams, remove_from_team-teams,
}
use trueskill_bot.CaptainDraft.Members.{everyone, rostered}
use trueskill_bot.CaptainDraft.Preserved.{add_to_pool-IsWellFormed, add_to_team-IsWellFormed}
use trueskill_bot.CaptainDraft.WellFormed.{IsWellFormed}
use trueskill_bot.CaptainDraft.Actions.{DraftRow, settle, is_in_draft}
use trueskill_bot.CaptainDraft.Types.{
  CaptainDraftStatus, DraftState, DraftParticipant, Throws, setup, has_key, active, complete,
  already_in_draft,
}
use trueskill_bot.Common.{
  ok, [], ◌∷◌, String, ◌≡◌, arith, refl, sym, ap, subst, eq_iff, count_if, Option, count_if-append,
  ◌≢◌, length, some, ◌++◌, none, ◌∙◌, guard, not, count_if-modify, modify, get_elem?,
}
use trueskill_bot.CaptainDraft.Logic.{
  team, pool, add_to_pool, clone_state_with_participant_at, remove_from_pool, remove_from_team,
  replace_participant, ParticipantLocation, last_removed, without_key,
}
use trueskill_bot.CaptainDraft.Consistent.{
  checked, checked-keeps, next_status-keeps, IsConsistent, IsSetUp,
}
use trueskill_bot.CaptainDraft.Commands.{
  persist_and_refresh, mod_add_player, add_by_status, add_player_to_team, assert_can_add,
  Whereabouts, mod_remove_player, mod_replace_player, remove_from, participant_location, in_pool,
  on_team, missing,
}

-- Nobody in the draft has the key. Keys are random UUIDs, so the participants whom a command makes
-- meet this.
abbrev pub IsFreshKey : String → DraftState → Type 0
IsFreshKey key s =
    (count_if (has_key key) s.captains ≡ 0) × (count_if (has_key key) (everyone s) ≡ 0)

-- What an operation keeps, whichever status allows it.
record KeepsAll (status : CaptainDraftStatus) (s s' : DraftState) : Type 0 where
  set_up : status ≡ setup → IsSetUp s → IsSetUp s'
  well_formed : IsWellFormed s → IsWellFormed s'
  teams : length s'.teams ≡ length s.teams

any_status-IsConsistent :
    (row : DraftRow) (check : Throws (Unit {0})) (op : Throws DraftState)
    → IsConsistent row
    → ((s' : DraftState) → op ≡ ok s' → KeepsAll row.status row.state s')
    → IsConsistent
        (settle row
          (checked row (setup ∷ active ∷ complete ∷ []) check op (persist_and_refresh row))).0
any_status-IsConsistent row check op c k =
    checked-keeps IsConsistent row (setup ∷ active ∷ complete ∷ []) check op
      (persist_and_refresh row) c
      λ s' hop _ fits.
        let kept = k s' hop in
        next_status-keeps row.status row.state s' c fits kept.set_up kept.well_formed kept.teams

add_to_pool-IsSetUp :
    (s : DraftState) (player : DraftParticipant)
    → IsFreshKey player.key s
    → IsSetUp s
    → IsSetUp (add_to_pool s player)
unfolding add_to_pool
add_to_pool-IsSetUp s player (c, e) (none_yet, d) = (
  none_yet,
  λ key. ground (
    arith,
    eq_iff player.key key,
    d key,
    count_if-append (has_key key) s.member_pool (rostered s.teams),
    count_if-append (has_key key) s.captains s.member_pool,
    count_if-append (has_key key) s.captains (s.member_pool ++ player ∷ []),
    count_if-append (has_key key) s.member_pool (player ∷ []),
  ),
)

add_to_pool-teams :
    (s : DraftState) (player : DraftParticipant) → (add_to_pool s player).teams ≡ s.teams
unfolding add_to_pool
add_to_pool-teams s player = refl

add_to_pool-KeepsAll :
    (status : CaptainDraftStatus) (s : DraftState) (player : DraftParticipant)
    → IsFreshKey player.key s
    → KeepsAll status s (add_to_pool s player)
add_to_pool-KeepsAll status s player fresh = record {
  set_up = λ _. add_to_pool-IsSetUp s player fresh;
  well_formed = λ w. add_to_pool-IsWellFormed s player w fresh.1;
  teams = ap length (add_to_pool-teams s player);
}

add_player_to_team-KeepsAll :
    (status : CaptainDraftStatus) (s s' : DraftState) (player : DraftParticipant) (key : String)
    → status ≢ setup
    → IsFreshKey player.key s
    → add_player_to_team s player key ≡ ok s'
    → KeepsAll status s s'
add_player_to_team-KeepsAll status s s' player key ne fresh h =
    let mid = add_to_pool s player in
    record {
      set_up = λ e _. absurd (ne e);
      well_formed = λ w.
          add_to_team-IsWellFormed mid s' player.key key
            (add_to_pool-IsWellFormed s player w fresh.1) h;
      teams = add_to_team-teams mid s' player.key key h ∙ ap length (add_to_pool-teams s player);
    }

add_by_status-KeepsAll :
    (status : CaptainDraftStatus) (s s' : DraftState) (player : DraftParticipant)
    (team_key : Option String)
    → IsFreshKey player.key s
    → add_by_status status s player team_key ≡ ok s'
    → KeepsAll status s s'
add_by_status-KeepsAll complete s s' player (some key) fresh h =
    add_player_to_team-KeepsAll complete s s' player key (λ e. cc) fresh h
add_by_status-KeepsAll complete s s' player none fresh h = cc
add_by_status-KeepsAll active s s' player (some key) fresh h =
    add_player_to_team-KeepsAll active s s' player key (λ e. cc) fresh h
add_by_status-KeepsAll status s s' player team_key fresh h =
    let same : add_to_pool s player ≡ s' = cc in
    subst (KeepsAll _ s) same (add_to_pool-KeepsAll _ s player fresh)

pub mod_add_player-IsConsistent :
    (normalize : String → String) (row : DraftRow) (player : DraftParticipant)
    (team_key : Option String)
    → IsConsistent row
    → IsFreshKey player.key row.state
    → IsConsistent (mod_add_player normalize row player team_key).0
unfolding mod_add_player
mod_add_player-IsConsistent normalize row player team_key c fresh =
    any_status-IsConsistent row (assert_can_add normalize row player team_key)
      (add_by_status row.status row.state player team_key) c
      (λ s' h. add_by_status-KeepsAll row.status row.state s' player team_key fresh h)

remove_from_pool-IsSetUp :
    (s s' : DraftState) (key : String) → remove_from_pool s key ≡ ok s' → IsSetUp s → IsSetUp s'
remove_from_pool-IsSetUp s s' key h (none_yet, d) =
    let e = remove_from_pool_inv s s' key h in
    rw e (
      none_yet,
      λ k. omega (
        arith,
        d k,
        count_if-without_key_le (has_key k) key s.member_pool,
        count_if-append (has_key k) s.captains s.member_pool,
        count_if-append (has_key k) s.captains (without_key key s.member_pool),
      ),
    )

-- Without teams nobody is taken off a roster.
remove_from_team-IsSetUp :
    (s s' : DraftState) (key : String) → remove_from_team s key ≡ ok s' → IsSetUp s → IsSetUp s'
remove_from_team-IsSetUp s s' key h (none_yet, d) =
    let (x, removed, _, _) = remove_from_team_inv s s' key h in
    let removed' : none ≡ some x =
      subst (λ ts. last_removed key none ts ≡ some x) none_yet removed in
    cc

remove_from-KeepsAll :
    (status : CaptainDraftStatus) (place : Whereabouts) (s s' : DraftState) (key : String)
    → remove_from place s key ≡ ok s'
    → KeepsAll status s s'
remove_from-KeepsAll status in_pool s s' key h = record {
  set_up = λ _. remove_from_pool-IsSetUp s s' key h;
  well_formed = λ w. remove_from_pool-IsWellFormed s s' key w h;
  teams = remove_from_pool-teams s s' key h;
}
remove_from-KeepsAll status on_team s s' key h = record {
  set_up = λ _. remove_from_team-IsSetUp s s' key h;
  well_formed = λ w. remove_from_team-IsWellFormed s s' key w h;
  teams = remove_from_team-teams s s' key h;
}
remove_from-KeepsAll status missing s s' key h = cc

pub mod_remove_player-IsConsistent :
    (row : DraftRow) (key : String) → IsConsistent row → IsConsistent (mod_remove_player row key).0
unfolding mod_remove_player
mod_remove_player-IsConsistent row key c =
    any_status-IsConsistent row (ok tt)
      (remove_from (participant_location row.state key) row.state key) c
      (λ s' h.
        remove_from-KeepsAll row.status (participant_location row.state key) row.state s' key h)

clone-IsSetUp :
    (s : DraftState) (loc : ParticipantLocation) (x y : DraftParticipant)
    → At s loc x
    → IsFreshKey y.key s
    → IsSetUp s
    → IsSetUp (clone_state_with_participant_at s loc y)
unfolding clone_state_with_participant_at
clone-IsSetUp s (pool i) x y hx fresh (none_yet, d) = (
  none_yet,
  λ key. ground (
    arith,
    eq_iff y.key key,
    d key,
    fresh.0,
    fresh.1,
    count_if-modify (has_key key) s.member_pool i (λ _. y) hx,
    count_if-append (has_key key) s.member_pool (rostered s.teams),
    count_if-append (has_key key) s.captains s.member_pool,
    count_if-append (has_key key) s.captains (modify s.member_pool i (λ _. y)),
  ),
)
clone-IsSetUp s (team t j) x y (u, hu, hx) fresh (none_yet, d) =
    let hu' : none ≡ some u = subst (λ ts. get_elem? ts t ≡ some u) none_yet hu in cc

replace_participant-KeepsAll :
    (status : CaptainDraftStatus) (s s' : DraftState) (key : String) (incoming : DraftParticipant)
    → IsFreshKey incoming.key s
    → replace_participant s key incoming ≡ ok s'
    → KeepsAll status s s'
replace_participant-KeepsAll status s s' key incoming fresh h =
    let (loc, hl, _, e) = replace_participant_inv s s' key incoming h in
    let (x, hx, _, _) = locate_participant_sound s key loc hl in
    record {
      set_up = λ _ su. subst IsSetUp (sym e) (clone-IsSetUp s loc x incoming hx fresh su);
      well_formed = λ w. replace_participant-IsWellFormed s s' key incoming w fresh.1 h;
      teams = replace_participant-teams s s' key incoming h;
    }

pub mod_replace_player-IsConsistent :
    (normalize : String → String) (row : DraftRow) (key : String) (incoming : DraftParticipant)
    → IsConsistent row
    → IsFreshKey incoming.key row.state
    → IsConsistent (mod_replace_player normalize row key incoming).0
unfolding mod_replace_player
mod_replace_player-IsConsistent normalize row key incoming c fresh =
    any_status-IsConsistent row
      (guard (not (is_in_draft normalize row.state incoming)) already_in_draft)
      (replace_participant row.state key incoming) c
      (λ s' h. replace_participant-KeepsAll row.status row.state s' key incoming fresh h)
