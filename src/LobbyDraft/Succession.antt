-- ===== src/LobbyDraft/Succession.antt =====
-- A player who leaves a team of a lobby draft, and the captain who takes over: the loop over the teams in
-- `removeParticipant` of apps/bot/src/services/lobby-draft/draft-logic.ts.
use trueskill_bot.Common.{
  ℕ, ◌+◌, ◌-◌, ◌≤◌, ◌≡◌, refl, arith, Bool, true, ◌&&◌, Option, none, some, List, [], ◌∷◌, String,
  str_eq, any, filter, count_if, one_if, ok, ap, ◌∙◌, sym, Bool-cases, inl, inr, find?, length,
  eq_refl, count_if-any, count_if-filter_le, any-count_if,
}
use trueskill_bot.Common.Rng.{Rng, count_if-fisher_yates}
use trueskill_bot.LobbyDraft.Types.{LobbyDraftState, LobbyDraftParticipant, LobbyDraftTeam, keys_of}
use trueskill_bot.LobbyDraft.Logic.{shuffle, calls_of_shuffle}
use trueskill_bot.LobbyDraft.Heroes.{includes}
use trueskill_bot.LobbyDraft.Leavers.{other_than}
use trueskill_bot.LobbyDraft.Removal.{Left, is_linked_key, led_by, from_pool, succeed, leave_team}
use trueskill_bot.LobbyDraft.Members.{
  is_key, count_if-without, count_if-without_absent, any_of_count,
}

pub count_if-other_than :
    (q : String → Bool) (key : String) (xs : List String)
    → count_if q (filter (other_than key) xs) ≡ count_if (λ k. other_than key k && q k) xs
count_if-other_than q key [] = refl
count_if-other_than q key (x ∷ xs) = ground (arith, count_if-other_than q key xs)

pub keys_of-other_than :
    (q : String → Bool) (key : String) (ps : List LobbyDraftParticipant)
    → count_if q (keys_of (filter (λ p. other_than key p.key) ps))
      ≡ count_if (λ k. other_than key k && q k) (keys_of ps)
keys_of-other_than q key [] = refl
keys_of-other_than q key (p ∷ ps) = ground (arith, keys_of-other_than q key ps)

found_there :
    (f : String → Bool) (xs : List String) (x : String)
    → find? f xs ≡ some x
    → any (is_key x) xs ≡ true
found_there f [] x e = absurd (ground arith)
found_there f (y ∷ ys) x e = elim (Bool-cases (f y)) [
  | inl here ↦
      let same : y ≡ x = ground arith in
      let own : str_eq y x ≡ true = ap (str_eq y) (sym same) ∙ eq_refl y in ground arith
  | inr away ↦ ground (arith, found_there f ys x)
]

-- The players of the pool and the team, the leaver left out, are those of before.
abbrev pub IsLeft : List String → List String → Left → Type 0
IsLeft pool roster left =
    (q : String → Bool)
    → count_if q left.pool + count_if q left.team.roster ≡ count_if q pool + count_if q roster

led_by-IsLeft :
    (successor : String) (roster : List String)
    → any (is_key successor) roster ≡ true
    → count_if (is_key successor) roster ≤ 1
    → (q : String → Bool)
    → count_if q (successor ∷ filter (other_than successor) roster) ≡ count_if q roster
led_by-IsLeft successor roster there once q =
    omega (arith, count_if-without q successor roster there once)

from_pool-IsLeft :
    (linked roster pool : List String) (team : LobbyDraftTeam) (calls : ℕ) (left : Left)
    → ((key : String) → count_if (is_key key) linked ≤ count_if (is_key key) pool)
    → ((key : String) → count_if (is_key key) pool + count_if (is_key key) roster ≤ 1)
    → from_pool linked roster pool team calls ≡ ok left
    → IsLeft pool roster left
from_pool-IsLeft [] roster pool team calls left within once h q = absurd (ground arith)
from_pool-IsLeft (x ∷ others) roster pool team calls left within once h q =
    let e : record { team = led_by x roster team; pool = filter (other_than x) pool; calls = calls }
        ≡ left =
      cc in
    let counted = ap (λ l. count_if q l.pool + count_if q l.team.roster) e in
    let own = ap one_if (eq_refl x) in
    let in_pool = any_of_count (is_key x) pool (omega (arith, own, within x)) in
    let at_least = count_if-any (is_key x) pool in_pool in
    let away = any-count_if (is_key x) roster (omega (arith, once x, at_least)) in
    omega (
      arith,
      counted,
      count_if-without q x pool in_pool (omega (arith, once x)),
      count_if-without_absent q x roster away,
    )

succeed-IsLeft :
    (next : LobbyDraftState) (chosen : Option String) (roster : List String) (team : LobbyDraftTeam)
    (rng : Rng) (k : ℕ) (left : Left)
    → ((key : String) → count_if (is_key key) next.pool + count_if (is_key key) roster ≤ 1)
    → find? (is_linked_key next) roster ≡ chosen
    → succeed next chosen roster team rng k ≡ ok left
    → IsLeft next.pool roster left
unfolding shuffle
succeed-IsLeft next (some successor) roster team rng k left once chosen h q =
    let e : record { team = led_by successor roster team; pool = next.pool; calls = k } ≡ left =
      cc in
    let counted = ap (λ l. count_if q l.pool + count_if q l.team.roster) e in
    omega (
      arith,
      counted,
      led_by-IsLeft successor roster (found_there (is_linked_key next) roster successor chosen)
          (omega (arith, once successor)) q,
    )
succeed-IsLeft next none roster team rng k left once chosen h q =
    let linked = filter (is_linked_key next) next.pool in
    from_pool-IsLeft (shuffle rng k linked) roster next.pool team
      (k + calls_of_shuffle (length linked)) left
      (λ key. omega (
        arith,
        shuffled (is_key key) linked,
        count_if-filter_le (is_key key) (is_linked_key next) next.pool,
      ))
      once h q
  where
    shuffled :
        (p : String → Bool) (xs : List String) → count_if p (shuffle rng k xs) ≡ count_if p xs
    shuffled p xs = count_if-fisher_yates p rng k (length xs - 1) xs

pub leave_team-IsLeft :
    (next : LobbyDraftState) (key : String) (team : LobbyDraftTeam) (rng : Rng) (k : ℕ)
    (left : Left)
    → ((x : String) → count_if (is_key x) next.pool + count_if (is_key x) team.roster ≤ 1)
    → leave_team next key team rng k ≡ ok left
    → IsLeft next.pool (filter (other_than key) team.roster) left
unfolding leave_team
leave_team-IsLeft next key team rng k left once h =
    let roster = filter (other_than key) team.roster in
    elim (Bool-cases (includes key team.roster)) [
      | inr absent ↦
          let e : record { team = team; pool = next.pool; calls = k } ≡ left = ground arith in
          λ q.
            let counted = ap (λ l. count_if q l.pool + count_if q l.team.roster) e in
            omega (arith, counted, count_if-without_absent q key team.roster absent)
      | inl there ↦
          let h1 = rw there at h in
          elim (Bool-cases (str_eq team.captain_key key)) [
            | inr other ↦
                let e : record {
                  team = record team { roster = roster };
                  pool = next.pool;
                  calls = k;
                }
                    ≡ left =
                  ground arith in
                λ q. ap (λ l. count_if q l.pool + count_if q l.team.roster) (sym e)
            | inl captain ↦
                succeed-IsLeft next (find? (is_linked_key next) roster) roster team rng k left
                  (λ x.
                    omega
                      (arith, once x, count_if-filter_le (is_key x) (other_than key) team.roster))
                  refl (rw captain at h1)
          ]
    ]
