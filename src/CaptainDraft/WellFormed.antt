-- ===== src/CaptainDraft/WellFormed.antt =====
-- What holds of a captain draft between two operations of
-- apps/bot/src/services/captain-draft/draft-logic.ts, and that each of them keeps it.
use trueskill_bot.Common.{
  ℕ, zero, suc, ◌≤◌, ◌<◌, ◌≡◌, refl, String, true, false, List, [], ◌∷◌, ◌++◌, some, arith, str_eq,
  All, any, drop_last, length, get_elem?, modify, count_if, SameItems, eq_iff,
}
use trueskill_bot.CaptainDraft.Types.{DraftParticipant, DraftTeam, DraftState, has_key, has_captain}
use trueskill_bot.CaptainDraft.Logic.{without_key}
use trueskill_bot.CaptainDraft.Members.{everyone}
use trueskill_bot.CaptainDraft.Turns.{IsIndexed}

-- The captain heads the roster.
abbrev pub LedBy : String → List DraftParticipant → Type 0
LedBy key [] = ⊥
LedBy key (p ∷ ps) = has_key key p ≡ true

abbrev pub IsLed : DraftTeam → Type 0
IsLed t = LedBy t.captain_key t.roster

-- No key occurs twice in the pool and the rosters.
abbrev pub HasDistinctKeys : DraftState → Type 0
HasDistinctKeys s = (key : String) → count_if (has_key key) (everyone s) ≤ 1

pub record IsWellFormed (s : DraftState) : Type 0 where
  pub ordered : IsIndexed 0 s.teams
  pub led : All IsLed s.teams
  pub distinct : HasDistinctKeys s

pub All-modify :
    (ts : List DraftTeam) (i : ℕ) (f : DraftTeam → DraftTeam)
    → ((t : DraftTeam) → get_elem? ts i ≡ some t → IsLed t → IsLed (f t))
    → All IsLed ts
    → All IsLed (modify ts i f)
All-modify [] i f k h = tt
All-modify (t ∷ ts) zero f k h = (k t refl h.0, h.1)
All-modify (t ∷ ts) (suc i) f k h = (h.0, All-modify ts i f k h.1)

pub LedBy-append :
    (key : String) (xs ys : List DraftParticipant) → LedBy key xs → LedBy key (xs ++ ys)
LedBy-append key [] ys h = absurd h
LedBy-append key (x ∷ xs) ys h = h

pub LedBy-drop_last :
    (key : String) (xs : List DraftParticipant)
    → 1 < length xs
    → LedBy key xs
    → LedBy key (drop_last xs)
LedBy-drop_last key [] l h = absurd h
LedBy-drop_last key (x ∷ []) l h = absurd (omega arith)
LedBy-drop_last key (x ∷ y ∷ ys) l h = h

-- Taking out another key keeps the head.
pub LedBy-without_key :
    (key other : String) (xs : List DraftParticipant)
    → str_eq key other ≡ false
    → LedBy key xs
    → LedBy key (without_key other xs)
LedBy-without_key key other [] d h = absurd h
LedBy-without_key key other (x ∷ xs) d h =
    ground (arith, eq_iff x.key key, eq_iff x.key other, eq_iff key other)

-- A write over a player of another key keeps the head.
pub LedBy-modify :
    (key : String) (xs : List DraftParticipant) (j : ℕ) (x y : DraftParticipant)
    → get_elem? xs j ≡ some x
    → has_key key x ≡ false
    → LedBy key xs
    → LedBy key (modify xs j (λ _. y))
LedBy-modify key [] j x y hx d h = absurd h
LedBy-modify key (z ∷ zs) zero x y hx d h = cc
LedBy-modify key (z ∷ zs) (suc j) x y hx d h = h

-- A key that is no captain's differs from the captain's key of each team.
pub is_captain_key_false :
    (key : String) (ts : List DraftTeam) (i : ℕ) {t : DraftTeam}
    → any (has_captain key) ts ≡ false
    → get_elem? ts i ≡ some t
    → str_eq t.captain_key key ≡ false
is_captain_key_false key [] i h e = cc
is_captain_key_false key (u ∷ ts) zero {t} h e = let e' : u ≡ t = cc in rw (← e') (ground arith)
is_captain_key_false key (u ∷ ts) (suc i) h e = is_captain_key_false key ts i (ground arith) e

pub distinct_of_SameItems :
    (s s' : DraftState)
    → SameItems (everyone s') (everyone s)
    → HasDistinctKeys s
    → HasDistinctKeys s'
distinct_of_SameItems s s' e h key = rw (e (has_key key)) (h key)
