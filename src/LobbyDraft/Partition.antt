-- ===== src/LobbyDraft/Partition.antt =====
-- Nobody is lost and nobody is drafted twice: `closeVote`, `chooseCoin`, `applySide` and `applyPick`
-- of apps/bot/src/services/lobby-draft/draft-logic.ts.
use trueskill_bot.Common.{
  ℕ, ◌+◌, ◌≤◌, ◌≡◌, refl, ap, sym, ◌∙◌, subst, arith, Bool, true, false, not, ◌&&◌, List, [], ◌∷◌,
  ◌++◌, any, filter, String, str_eq, count_if, count_if-append, one_if, SameItems, Bool-cases, inl,
  inr, Option, none, some, ok, Option-cases, Result-cases, get_or_else, length, eq_refl,
}
use trueskill_bot.Common.Rng.{Rng, coin}
use trueskill_bot.LobbyDraft.Types.{
  LobbyDraftState, LobbyDraftTeam, TeamIndex, winners, losers, keys_of, TeamId, CoinChoice,
  take_first_pick, take_side, pick, side, vote, coin_choice,
}
use trueskill_bot.LobbyDraft.Logic.{
  candidates, update, draft_to, take_sides, picked, pick_once, auto_pick, auto_last_pick,
  apply_pick, apply_side, choose_coin, open_with, close_vote, picking_team, same_phase,
  assert_phase, tally_votes, calls_of_shuffle, sided, coin_taken,
}
use trueskill_bot.LobbyDraft.Tally.{tally_votes_lem}
use trueskill_bot.LobbyDraft.Members.{
  is_key, without, count_if-without, count_if-candidates, candidates_once, any_of_count,
  filter-filter,
}

abbrev pub rosters : Option (LobbyDraftTeam × LobbyDraftTeam) → List String
rosters none = []
rosters (some (a, b)) = a.roster ++ b.roster

unfoldable pub members : LobbyDraftState → List String
members s = s.pool ++ rosters s.teams

-- The participants have distinct keys, and each of them is in the pool or in a roster, once.
pub record IsPartition (s : LobbyDraftState) : Type 0 where
  pub once : (key : String) → count_if (is_key key) (keys_of s.participants) ≤ 1
  pub same : SameItems (members s) (keys_of s.participants)

pool_once :
    (s : LobbyDraftState) → IsPartition s → (key : String) → count_if (is_key key) s.pool ≤ 1
unfolding members
pool_once s p key =
    omega (
      arith,
      p.once key,
      p.same (is_key key),
      count_if-append (is_key key) s.pool (rosters s.teams),
    )

count_if-update :
    (p : String → Bool) (t : TeamIndex) (key : String) (teams : LobbyDraftTeam × LobbyDraftTeam)
    → count_if p (rosters (some (update t (draft_to key) teams)))
      ≡ count_if p (rosters (some teams)) + one_if (p key)
count_if-update p winners key (a, b) = omega (
  arith,
  count_if-append p (a.roster ++ key ∷ []) b.roster,
  count_if-append p a.roster (key ∷ []),
  count_if-append p a.roster b.roster,
)
count_if-update p losers key (a, b) = omega (
  arith,
  count_if-append p a.roster (b.roster ++ key ∷ []),
  count_if-append p b.roster (key ∷ []),
  count_if-append p a.roster b.roster,
)

picked-IsPartition :
    (s : LobbyDraftState) (teams : LobbyDraftTeam × LobbyDraftTeam) (key : String)
    → IsPartition s
    → s.teams ≡ some teams
    → any (is_key key) s.pool ≡ true
    → IsPartition (picked s teams key)
unfolding members picked
picked-IsPartition s teams key p drafted there = record {
  once = p.once;
  same = λ q.
      let before : count_if q (rosters s.teams) ≡ count_if q (rosters (some teams)) =
        ap (λ t. count_if q (rosters t)) drafted in
      omega (
        arith,
        p.same q,
        before,
        count_if-append q s.pool (rosters s.teams),
        count_if-append q (without key s.pool)
            (rosters (some (update (picking_team s) (draft_to key) teams))),
        count_if-update q (picking_team s) key teams,
        count_if-without q key s.pool there (pool_once s p key),
      );
}

pub pick_once_inv :
    (s s' : LobbyDraftState) (key : String)
    → pick_once s key ≡ ok s'
    → (teams : LobbyDraftTeam × LobbyDraftTeam) × (s.teams ≡ some teams)
      × (any (is_key key) s.pool ≡ true)
      × (s' ≡ picked s teams key)
unfolding pick_once assert_phase
pick_once_inv s s' key h = elim (Option-cases s.teams) [
  | inl none_yet ↦ absurd (ground arith)
  | inr (teams, drafted) ↦ (teams, drafted, ground arith, ground arith)
]

pick_once-IsPartition :
    (s s' : LobbyDraftState) (key : String)
    → IsPartition s
    → pick_once s key ≡ ok s'
    → IsPartition s'
pick_once-IsPartition s s' key p h =
    let (teams, drafted, there, e) = pick_once_inv s s' key h in
    subst IsPartition (sym e) (picked-IsPartition s teams key p drafted there)

pub auto_pick-IsPartition :
    (s s' : LobbyDraftState) (pool : List String)
    → IsPartition s
    → auto_pick s pool ≡ ok s'
    → IsPartition s'
auto_pick-IsPartition s s' [] p h = let e : s ≡ s' = cc in subst IsPartition e p
auto_pick-IsPartition s s' (key ∷ l ∷ ls) p h = let e : s ≡ s' = cc in subst IsPartition e p
auto_pick-IsPartition s s' (key ∷ []) p h = elim (Bool-cases (same_phase s.phase pick)) [
  | inl picking ↦ pick_once-IsPartition s s' key p (rw picking at h)
  | inr over ↦ let h' = rw over at h in let e : s ≡ s' = cc in subst IsPartition e p
]

pub apply_pick-IsPartition :
    (s s' : LobbyDraftState) (key : String)
    → IsPartition s
    → apply_pick s key ≡ ok s'
    → IsPartition s'
unfolding apply_pick auto_last_pick
apply_pick-IsPartition s s' key p h = elim (Result-cases (pick_once s key)) [
  | inl (e, refused) ↦ absurd (ground arith)
  | inr (next, made) ↦
      auto_pick-IsPartition next s' next.pool (pick_once-IsPartition s next key p made)
        (rw made at h)
]

rosters-take_sides :
    (t : TeamIndex) (chosen : TeamId) (teams : LobbyDraftTeam × LobbyDraftTeam)
    → rosters (some (take_sides t chosen teams)) ≡ rosters (some teams)
rosters-take_sides winners chosen (a, b) = refl
rosters-take_sides losers chosen (a, b) = refl

sided-IsPartition :
    (s : LobbyDraftState) (teams : LobbyDraftTeam × LobbyDraftTeam) (chosen : TeamId)
    → IsPartition s
    → s.teams ≡ some teams
    → IsPartition (sided s teams chosen)
unfolding members sided
sided-IsPartition s teams chosen p drafted = record {
  once = p.once;
  same = λ q.
      let rosters_same : rosters
            (some (take_sides (get_or_else winners s.side_chooser_team) chosen teams))
          ≡ rosters s.teams =
        rosters-take_sides (get_or_else winners s.side_chooser_team) chosen teams
        ∙ ap rosters (sym drafted) in
      ap (λ r. count_if q (s.pool ++ r)) rosters_same ∙ p.same q;
}

pub apply_side-IsPartition :
    (s s' : LobbyDraftState) (chosen : TeamId)
    → IsPartition s
    → apply_side s chosen ≡ ok s'
    → IsPartition s'
unfolding apply_side auto_last_pick assert_phase sided
apply_side-IsPartition s s' chosen p h = elim (Bool-cases (same_phase s.phase side)) [
  | inr other ↦ absurd (ground arith)
  | inl fits ↦ elim (Option-cases s.teams) [
    | inl none_yet ↦ absurd (ground arith)
    | inr (teams, drafted) ↦
        let h' = rw fits at h in
        auto_pick-IsPartition (sided s teams chosen) s' (sided s teams chosen).pool
          (sided-IsPartition s teams chosen p drafted) (rw drafted at h')
  ]
]

coin_taken-IsPartition :
    (s : LobbyDraftState) (choice : CoinChoice) → IsPartition s → IsPartition (coin_taken s choice)
unfolding members
coin_taken-IsPartition s take_first_pick p = record { once = p.once; same = p.same }
coin_taken-IsPartition s take_side p = record { once = p.once; same = p.same }

pub choose_coin-IsPartition :
    (s s' : LobbyDraftState) (choice : CoinChoice)
    → IsPartition s
    → choose_coin s choice ≡ ok s'
    → IsPartition s'
unfolding choose_coin assert_phase
choose_coin-IsPartition s s' choice p h = elim (Bool-cases (same_phase s.phase coin_choice)) [
  | inr other ↦ absurd (ground arith)
  | inl fits ↦ elim (Option-cases s.teams) [
    | inl none_yet ↦ absurd (ground arith)
    | inr (teams, drafted) ↦
        let h1 = rw fits at h in
        let h2 = rw drafted at h1 in
        let e : coin_taken s choice ≡ s' = cc in
        subst IsPartition e (coin_taken-IsPartition s choice p)
  ]
]

captains_differ :
    (s : LobbyDraftState) (winner loser : String) (rest : List String)
    → SameItems (winner ∷ loser ∷ rest) (candidates s)
    → str_eq winner loser ≡ false
captains_differ s winner loser rest same = elim (Bool-cases (str_eq winner loser)) [
  | inr other ↦ other
  | inl equal ↦
      let own = ap one_if (eq_refl loser) in
      let theirs = ap one_if equal in
      absurd (omega (arith, own, theirs, candidates_once s loser, same (is_key loser)))
]

-- A candidate is a participant.
candidate_there :
    (s : LobbyDraftState) (key : String)
    → 1 ≤ count_if (is_key key) (candidates s)
    → 1 ≤ count_if (is_key key) (keys_of s.participants)
candidate_there s key h = omega (arith, count_if-candidates (is_key key) s)

without_captains :
    (s : LobbyDraftState) (winner loser : String) (rest : List String) (q : String → Bool)
    → IsPartition s
    → SameItems (winner ∷ loser ∷ rest) (candidates s)
    → count_if q (without loser (without winner (keys_of s.participants)))
        + one_if (q winner)
        + one_if (q loser)
      ≡ count_if q (keys_of s.participants)
without_captains s winner loser rest q p same =
    let keys = keys_of s.participants in
    let own_w = ap one_if (eq_refl winner) in
    let own_l = ap one_if (eq_refl loser) in
    let differ = ap one_if (captains_differ s winner loser rest same) in
    let w_in = candidate_there s winner (omega (arith, own_w, same (is_key winner))) in
    let l_in = candidate_there s loser (omega (arith, own_l, same (is_key loser))) in
    let w_there = any_of_count (is_key winner) keys w_in in
    let l_left = count_if-without (is_key loser) winner keys w_there (p.once winner) in
    let l_there =
      any_of_count (is_key loser) (without winner keys) (omega (arith, l_left, l_in, differ)) in
    omega (
      arith,
      count_if-without q winner keys w_there (p.once winner),
      count_if-without q loser (without winner keys) l_there (omega (arith, l_left, p.once loser)),
    )

-- The two captains lead their teams, and all others wait in the pool.
opened-IsPartition :
    (s : LobbyDraftState) (winner loser : String) (rest : List String)
    → IsPartition s
    → SameItems (winner ∷ loser ∷ rest) (candidates s)
    → IsPartition (open_with s winner loser)
unfolding members open_with
opened-IsPartition s winner loser rest p same = record {
  once = p.once;
  same = λ q.
      let keys = keys_of s.participants in
      let pool = filter (λ k. not (str_eq k winner) && not (str_eq k loser)) keys in
      let two_steps =
        ap (count_if q)
          (filter-filter (λ k. not (str_eq k winner)) (λ k. not (str_eq k loser)) keys) in
      omega (
        arith,
        two_steps,
        count_if-append q pool (winner ∷ loser ∷ []),
        without_captains s winner loser rest q p same,
      );
}

pub close_vote-IsPartition :
    (s s' : LobbyDraftState) (rng : Rng) (k : ℕ)
    → IsPartition s
    → close_vote s rng k ≡ ok s'
    → IsPartition s'
unfolding close_vote assert_phase
close_vote-IsPartition s s' rng k p h = elim (Bool-cases (same_phase s.phase vote)) [
  | inr other ↦ absurd (ground arith)
  | inl fits ↦ elim (Result-cases (tally_votes s rng k)) [
    | inl (e, refused) ↦ absurd (ground arith)
    | inr (captains, tallied) ↦
        let (rest, same, first, others) = tally_votes_lem s rng k captains tallied in
        let same' : SameItems (captains.1 ∷ captains.0 ∷ rest) (candidates s) =
          λ q. omega (arith, same q) in
        let h1 = rw fits at h in
        let h2 = rw tallied at h1 in
        elim (Bool-cases (coin (rng (k + calls_of_shuffle (length (candidates s)))))) [
          | inl heads ↦
              let h3 = rw heads at h2 in
              let e : open_with s captains.0 captains.1 ≡ s' = cc in
              subst IsPartition e (opened-IsPartition s captains.0 captains.1 rest p same)
          | inr tails ↦
              let h3 = rw tails at h2 in
              let e : open_with s captains.1 captains.0 ≡ s' = cc in
              subst IsPartition e (opened-IsPartition s captains.1 captains.0 rest p same')
        ]
  ]
]
