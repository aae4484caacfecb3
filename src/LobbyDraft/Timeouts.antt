-- ===== src/LobbyDraft/Timeouts.antt =====
-- The deadlines of a lobby draft lead to its end: `applyTimeout` of
-- apps/bot/src/services/lobby-draft/draft-logic.ts.
use trueskill_bot.LobbyDraft.Resolved.{resolve_hero_phase_lem}
use trueskill_bot.LobbyDraft.Heroes.{heroes_of_team, resolve_hero_phase}
use trueskill_bot.LobbyDraft.Partition.{IsPartition}
use trueskill_bot.LobbyDraft.Assign.{Power}
use trueskill_bot.Common.{
  ℕ, ◌+◌, ◌≤◌, ◌<◌, ◌≡◌, refl, arith, Bool, true, not, none, some, is_some, List, [], ◌∷◌, String,
  str_eq, eq_refl, any, filter, length, one_if, ok, ap, ◌∙◌, Bool-cases, inl, inr, if◌then◌else◌,
  count_if-any, length-map, ◌&&◌, ◌-◌, length-filter, ◌⊎◌, SameItems, ◌>>=◌, get_or_else, guard,
  require, ◌>>◌,
}
use trueskill_bot.Common.Rng.{Rng, coin, length-fisher_yates}
use trueskill_bot.Game.{GameProfile, TeamId}
use trueskill_bot.LobbyDraft.Types.{
  LobbyDraftState, LobbyDraftPhase, LobbyDraftTeam, vote, coin_choice, pick, side, hero, CoinChoice,
  take_first_pick, take_side, Throws, keys_of, winners, stale_action,
}
use trueskill_bot.LobbyDraft.Logic.{
  candidates, tally_votes, sort_by_votes, votes_for, top_two, shuffle, close_vote, open_with,
  assert_phase, choose_coin, coin_taken, picked, pick_once, auto_pick, auto_last_pick, apply_pick,
  apply_side, sided, is_empty, phase_after_picks, calls_of_shuffle, same_phase, update,
  picking_team, draft_to, take_sides, require_teams,
}
use trueskill_bot.LobbyDraft.Tally.{sort_by_votes-SameItems}
use trueskill_bot.LobbyDraft.Leftovers.{length-count_if}
use trueskill_bot.LobbyDraft.Members.{is_key, any_of_count}
use trueskill_bot.LobbyDraft.Phases.{is_picking}
use trueskill_bot.LobbyDraft.Removal.{pick_first}

abbrev pub remaining_in : LobbyDraftPhase → LobbyDraftState → ℕ
remaining_in vote s = length s.participants + 4
remaining_in coin_choice s = length s.pool + 3
remaining_in side s = length s.pool + 2
remaining_in pick s = length s.pool + 1
remaining_in hero s = if is_some s.hero_result then 0 else 1

-- How many deadlines are left at most.
abbrev pub remaining : LobbyDraftState → ℕ
remaining s = remaining_in s.phase s

abbrev pub Advances : ℕ → Throws LobbyDraftState → Type 0
Advances n attempt = (s' : LobbyDraftState) × (attempt ≡ ok s') × (remaining s' < n)

length-filter_le {ℓ} : {A : Type ℓ} (q : A → Bool) (xs : List A) → length (filter q xs) ≤ length xs
length-filter_le q [] = omega arith
length-filter_le q (x ∷ xs) = ground (arith, length-filter_le q xs)

length-keys_of : (s : LobbyDraftState) → length (keys_of s.participants) ≡ length s.participants
length-keys_of s = length-map _ s.participants

top_two_total :
    (xs : List String) → 2 ≤ length xs → (captains : String × String) × (top_two xs ≡ ok captains)
top_two_total [] two_there = absurd (omega (arith, two_there))
top_two_total (x ∷ []) two_there = absurd (omega (arith, two_there))
top_two_total (x ∷ y ∷ rest) two_there = ((x, y), refl)

tally_total :
    (s : LobbyDraftState) (rng : Rng) (k : ℕ)
    → 2 ≤ length (candidates s)
    → (captains : String × String) × (tally_votes s rng k ≡ ok captains)
unfolding tally_votes shuffle
tally_total s rng k two_there =
    let shuffled = shuffle rng k (candidates s) in
    let sorted = sort_by_votes (votes_for s) shuffled in
    top_two_total sorted (
      omega (
        arith,
        two_there,
        length-count_if sorted,
        length-count_if shuffled,
        sort_by_votes-SameItems (votes_for s) shuffled (λ _. true),
        length-fisher_yates rng k (length (candidates s) - 1) (candidates s),
      ))

opened_remaining :
    (s : LobbyDraftState) (winner loser : String)
    → remaining (open_with s winner loser) < length s.participants + 4
unfolding open_with
opened_remaining s winner loser = omega (
  arith,
  length-filter_le (λ k. not (str_eq k winner) && not (str_eq k loser)) (keys_of s.participants),
  length-keys_of s,
)

pub close_vote-Advances :
    (s : LobbyDraftState) (rng : Rng) (k : ℕ)
    → s.phase ≡ vote
    → 2 ≤ length (candidates s)
    → Advances (length s.participants + 4) (close_vote s rng k)
unfolding close_vote assert_phase
close_vote-Advances s rng k phase two_there =
    let (captains, tallied) = tally_total s rng k two_there in
    elim (Bool-cases (coin (rng (k + calls_of_shuffle (length (candidates s)))))) [
      | inl heads ↦ (
        open_with s captains.0 captains.1,
        ground arith,
        opened_remaining s captains.0 captains.1,
      )
      | inr tails ↦ (
        open_with s captains.1 captains.0,
        ground arith,
        opened_remaining s captains.1 captains.0,
      )
    ]

pub choose_coin-Advances :
    (s : LobbyDraftState) (choice : CoinChoice)
    → s.phase ≡ coin_choice
    → is_some s.teams ≡ true
    → Advances (length s.pool + 3) (choose_coin s choice)
unfolding choose_coin assert_phase
choose_coin-Advances s take_first_pick phase there =
    (coin_taken s take_first_pick, ground arith, omega arith)
choose_coin-Advances s take_side phase there = (coin_taken s take_side, ground arith, omega arith)

-- The phase after the last pick leaves at most two deadlines.
after_picks_remaining :
    (s : LobbyDraftState) (phase : LobbyDraftPhase)
    → s.pool ≡ []
    → (phase ≡ hero) ⊎ (phase ≡ side)
    → remaining_in phase s ≤ 2
after_picks_remaining s phase empty (inl e) = rw e (elim (Bool-cases (is_some s.hero_result)) [
  | inl there ↦ rw there (omega arith)
  | inr fresh ↦ rw fresh (omega arith)
])
after_picks_remaining s phase empty (inr e) = rw e (rw empty (omega arith))

phase_after_picks-cases :
    (teams : LobbyDraftTeam × LobbyDraftTeam)
    → (phase_after_picks teams ≡ hero) ⊎ (phase_after_picks teams ≡ side)
phase_after_picks-cases (a, b) = elim (Bool-cases (is_some a.side)) [
  | inl there ↦ inl (rw there refl)
  | inr none_yet ↦ inr (rw none_yet refl)
]

without_shorter :
    (key : String) (pool : List String)
    → any (is_key key) pool ≡ true
    → length (filter (λ k. not (str_eq k key)) pool) < length pool
without_shorter key pool there =
    omega (arith, length-filter (is_key key) pool, count_if-any (is_key key) pool there)

picks_remaining :
    (s : LobbyDraftState) (after : LobbyDraftPhase) (pool : List String) (n : ℕ)
    → s.pool ≡ pool
    → (after ≡ hero) ⊎ (after ≡ side)
    → 2 ≤ n
    → length pool < n
    → remaining_in (if is_empty pool then after else pick) s < n + 1
picks_remaining s after [] n e over two_there fewer =
    omega (arith, two_there, after_picks_remaining s after e over)
picks_remaining s after (key ∷ pool) n e over two_there fewer = rw e (omega (arith, fewer))

remaining-picked :
    (s : LobbyDraftState) (teams : LobbyDraftTeam × LobbyDraftTeam) (key : String) (n : ℕ)
    → 2 ≤ n
    → length (filter (λ k. not (str_eq k key)) s.pool) < n
    → remaining (picked s teams key) < n + 1
unfolding picked
remaining-picked s teams key n two_there fewer =
    picks_remaining (picked s teams key)
      (phase_after_picks (update (picking_team s) (draft_to key) teams))
      (filter (λ k. not (str_eq k key)) s.pool) n refl
      (phase_after_picks-cases (update (picking_team s) (draft_to key) teams)) two_there fewer

pick_once_accepts :
    (s : LobbyDraftState) (teams : LobbyDraftTeam × LobbyDraftTeam) (key : String)
    → same_phase s.phase pick ≡ true
    → s.teams ≡ some teams
    → any (is_key key) s.pool ≡ true
    → pick_once s key ≡ ok (picked s teams key)
unfolding pick_once assert_phase
pick_once_accepts s teams key phase drafted there = ground arith

-- The automatic last pick is accepted and leaves no more deadlines than before.
auto_pick-Advances :
    (s : LobbyDraftState) (teams : LobbyDraftTeam × LobbyDraftTeam) (pool : List String) (n : ℕ)
    → s.pool ≡ pool
    → s.teams ≡ some teams
    → remaining s < n
    → Advances n (auto_pick s pool)
auto_pick-Advances s teams [] n e drafted fewer = (s, refl, fewer)
auto_pick-Advances s teams (key ∷ l ∷ ls) n e drafted fewer = (s, refl, fewer)
auto_pick-Advances s teams (key ∷ []) n e drafted fewer =
    elim (Bool-cases (same_phase s.phase pick)) [
      | inr over ↦ (s, rw over refl, fewer)
      | inl picking ↦
          let there : any (is_key key) s.pool ≡ true =
            ap (any (is_key key)) e ∙ rw (eq_refl key) refl in
          let gone = without_shorter key s.pool there in
          let one = ap length e in
          let now = ap (λ ph. remaining_in ph s) (is_picking s.phase picking) in
          let fewer' = remaining-picked s teams key 2 (omega arith) (omega (arith, gone, one)) in
          (
            picked s teams key,
            rw picking (pick_once_accepts s teams key picking drafted there),
            omega (arith, fewer', fewer, one, now),
          )
    ]

apply_pick-Advances :
    (s : LobbyDraftState) (teams : LobbyDraftTeam × LobbyDraftTeam) (key : String)
    → s.phase ≡ pick
    → s.teams ≡ some teams
    → 2 ≤ length s.pool
    → any (is_key key) s.pool ≡ true
    → Advances (length s.pool + 1) (apply_pick s key)
unfolding apply_pick auto_last_pick picked
apply_pick-Advances s teams key phase drafted two_there there =
    let made = pick_once_accepts s teams key (ap (λ ph. same_phase ph pick) phase) drafted there in
    let next = picked s teams key in
    let (s', e, fewer) =
      auto_pick-Advances next (update (picking_team s) (draft_to key) teams) next.pool
        (length s.pool + 1) refl refl
        (remaining-picked s teams key (length s.pool) two_there
          (without_shorter key s.pool there)) in
    (s', ap (λ r. r >>= auto_last_pick) made ∙ e, fewer)

pub pick_first-Advances :
    (s : LobbyDraftState) (teams : LobbyDraftTeam × LobbyDraftTeam) (keys : List String)
    → s.phase ≡ pick
    → s.teams ≡ some teams
    → 2 ≤ length s.pool
    → SameItems keys s.pool
    → Advances (length s.pool + 1) (pick_first s keys)
pick_first-Advances s teams [] phase drafted two_there same =
    absurd (omega (arith, two_there, length-count_if s.pool, same (λ _. true)))
pick_first-Advances s teams (key ∷ keys) phase drafted two_there same =
    let own = ap one_if (eq_refl key) in
    apply_pick-Advances s teams key phase drafted two_there
      (any_of_count (is_key key) s.pool (omega (arith, own, same (is_key key))))

sides_remaining :
    (s : LobbyDraftState) (pool : List String)
    → s.pool ≡ pool
    → remaining_in (if is_empty pool then hero else pick) s < length pool + 2
sides_remaining s [] e = elim (Bool-cases (is_some s.hero_result)) [
  | inl there ↦ rw there (omega arith)
  | inr fresh ↦ rw fresh (omega arith)
]
sides_remaining s (key ∷ pool) e = rw e (omega arith)

pub apply_side-Advances :
    (s : LobbyDraftState) (teams : LobbyDraftTeam × LobbyDraftTeam) (chosen : TeamId)
    → s.phase ≡ side
    → s.teams ≡ some teams
    → Advances (length s.pool + 2) (apply_side s chosen)
unfolding apply_side auto_last_pick sided assert_phase
apply_side-Advances s teams chosen phase drafted =
    let next = sided s teams chosen in
    let (s', e, fewer) =
      auto_pick-Advances next (take_sides (get_or_else winners s.side_chooser_team) chosen teams)
        next.pool (length s.pool + 2) refl refl (sides_remaining next s.pool refl) in
    let fits : assert_phase s side ≡ ok _ =
      ap (λ ph. guard (same_phase ph side) stale_action) phase in
    let found = ap (λ t. require t stale_action) drafted in
    (
      s',
      ap (λ r. r >> (require_teams s >>= (λ t. auto_last_pick (sided s t chosen)))) fits
          ∙ ap (λ r. r >>= (λ t. auto_last_pick (sided s t chosen))) found
          ∙ e,
      fewer,
    )

pub resolve_hero_phase-Advances :
    (power : Power) (s : LobbyDraftState) (profile : GameProfile) (rng : Rng) (k : ℕ)
    (a b : LobbyDraftTeam)
    → IsPartition s
    → s.phase ≡ hero
    → s.hero_result ≡ none
    → s.teams ≡ some (a, b)
    → length a.roster ≤ length (heroes_of_team profile a)
    → length b.roster ≤ length (heroes_of_team profile b)
    → Advances 1 (resolve_hero_phase power s profile rng k)
resolve_hero_phase-Advances power s profile rng k a b p phase fresh drafted fits_a fits_b =
    let (result, e, given) =
      resolve_hero_phase_lem power s profile rng k a b p phase fresh drafted fits_a fits_b in
    let now : LobbyDraftState = record s { hero_result = some result } in
    let rank = ap (λ ph. remaining_in ph now) phase in (now, e, omega (arith, rank))
