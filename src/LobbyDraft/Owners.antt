-- ===== src/LobbyDraft/Owners.antt =====
-- The map `ownerByHero` and the set `seen` of apps/bot/src/services/lobby-draft/hero-assign.ts.
use trueskill_bot.Common.{
  ℕ, suc, ◌+◌, ◌≤◌, ◌≡◌, refl, arith, Bool, true, false, not, ◌==◌, none, some, List, [], ◌∷◌,
  String, str_eq, All, count_if, one_if, Bool-cases, inl, inr, Option-cases, ap, if◌then◌else◌, ◌∙◌,
  subst, sym,
}
use trueskill_bot.LobbyDraft.Assign.{has, owner_of, set_owner, owns}

abbrev pub unseen : List ℕ → List ℕ → ℕ
unseen seen heroes = count_if (λ h. not (has h seen)) heroes

pub unseen_grows :
    (a b heroes : List ℕ)
    → ((h : ℕ) → has h a ≡ true → has h b ≡ true)
    → unseen b heroes ≤ unseen a heroes
unseen_grows a b [] f = omega arith
unseen_grows a b (h ∷ hs) f = elim (Bool-cases (has h a)) [
  | inl there ↦ let later = f h there in let ih = unseen_grows a b hs f in ground arith
  | inr absent ↦ let ih = unseen_grows a b hs f in ground arith
]

pub unseen_mark :
    (seen heroes : List ℕ) (h : ℕ)
    → has h seen ≡ false
    → has h heroes ≡ true
    → suc (unseen (h ∷ seen) heroes) ≤ unseen seen heroes
unseen_mark seen [] h e there = absurd (ground arith)
unseen_mark seen (x ∷ xs) h e there = elim (Bool-cases (x == h)) [
  | inl own ↦
      let same : x ≡ h = ground arith in
      let rest = unseen_grows seen (h ∷ seen) xs (λ y seen_y. ground arith) in
      let now : has x seen ≡ false = ap (λ y. has y seen) same ∙ e in ground arith
  | inr other ↦ let ih = unseen_mark seen xs h e (ground arith) in ground arith
]

pub owner_of-set_owner_other :
    (owners : List (ℕ × String)) (h g : ℕ) (key : String)
    → (h == g) ≡ false
    → owner_of (set_owner owners h key) g ≡ owner_of owners g
owner_of-set_owner_other [] h g key e = ground arith
owner_of-set_owner_other ((x, old) ∷ owners) h g key e =
    let ih = owner_of-set_owner_other owners h g key e in ground arith

-- One more hero for the new owner, and one less for the old one.
pub count_if-set_owner :
    (owners : List (ℕ × String)) (h : ℕ) (key old k : String)
    → owner_of owners h ≡ some old
    → count_if (owns k) (set_owner owners h key) + one_if (str_eq old k)
      ≡ count_if (owns k) owners + one_if (str_eq key k)
count_if-set_owner [] h key old k e = absurd (ground arith)
count_if-set_owner ((x, o) ∷ owners) h key old k e = elim (Bool-cases (x == h)) [
  | inl own ↦ let same : o ≡ old = ground arith in ground arith
  | inr other ↦ let ih = count_if-set_owner owners h key old k (ground arith) in ground arith
]

pub count_if-set_owner_new :
    (owners : List (ℕ × String)) (h : ℕ) (key k : String)
    → owner_of owners h ≡ none
    → count_if (owns k) (set_owner owners h key) ≡ count_if (owns k) owners + one_if (str_eq key k)
count_if-set_owner_new [] h key k e = ground arith
count_if-set_owner_new ((x, o) ∷ owners) h key k e =
    let ih = count_if-set_owner_new owners h key k (ground arith) in ground arith

-- The entries for a hero.
abbrev pub is_for : ℕ → (ℕ × String) → Bool
is_for h entry = entry.0 == h

pub count_if-is_for-none :
    (owners : List (ℕ × String)) (h : ℕ) → owner_of owners h ≡ none → count_if (is_for h) owners ≡ 0
count_if-is_for-none [] h e = refl
count_if-is_for-none ((x, o) ∷ owners) h e =
    let ih = count_if-is_for-none owners h (ground arith) in ground arith

count_if-is_for-set_owner :
    (owners : List (ℕ × String)) (h g : ℕ) (key old : String)
    → owner_of owners h ≡ some old
    → count_if (is_for g) (set_owner owners h key) ≡ count_if (is_for g) owners
count_if-is_for-set_owner [] h g key old e = absurd (ground arith)
count_if-is_for-set_owner ((x, o) ∷ owners) h g key old e = elim (Bool-cases (x == h)) [
  | inl own ↦ ground arith
  | inr other ↦ let ih = count_if-is_for-set_owner owners h g key old (ground arith) in ground arith
]

count_if-is_for-set_owner_new :
    (owners : List (ℕ × String)) (h g : ℕ) (key : String)
    → owner_of owners h ≡ none
    → count_if (is_for g) (set_owner owners h key) ≡ count_if (is_for g) owners + one_if (h == g)
count_if-is_for-set_owner_new [] h g key e = ground arith
count_if-is_for-set_owner_new ((x, o) ∷ owners) h g key e =
    let ih = count_if-is_for-set_owner_new owners h g key (ground arith) in ground arith

-- No hero has two owners, before and after.
pub set_owner_once :
    (owners : List (ℕ × String)) (h : ℕ) (key : String)
    → ((g : ℕ) → count_if (is_for g) owners ≤ 1)
    → (g : ℕ) → count_if (is_for g) (set_owner owners h key) ≤ 1
set_owner_once owners h key once g = elim (Option-cases (owner_of owners h)) [
  | inr (old, e) ↦ omega (arith, once g, count_if-is_for-set_owner owners h g key old e)
  | inl e ↦ elim (Bool-cases (h == g)) [
    | inl own ↦
        let same : h ≡ g = ground arith in
        let e' : owner_of owners g ≡ none = rw same at e in
        let one = ap one_if own in
        omega (
          arith,
          one,
          count_if-is_for-none owners g e',
          count_if-is_for-set_owner_new owners h g key e,
        )
    | inr other ↦
        let none_more = ap one_if other in
        omega (arith, none_more, once g, count_if-is_for-set_owner_new owners h g key e)
  ]
]

All-if {ℓ κ} :
    {A : Type κ} (P : A → Type ℓ) (xs ys : List A) (b : Bool)
    → (b ≡ true → All P xs)
    → (b ≡ false → All P ys)
    → All P (if b then xs else ys)
All-if P xs ys true f g = f refl
All-if P xs ys false f g = g refl

pub All-set_owner {ℓ} :
    (P : (ℕ × String) → Type ℓ) (owners : List (ℕ × String)) (h : ℕ) (key : String)
    → All P owners
    → P (h, key)
    → All P (set_owner owners h key)
All-set_owner P [] h key all p = (p, _)
All-set_owner P ((x, o) ∷ owners) h key all p =
    All-if P _ _ (x == h)
      (λ own. let same : x ≡ h = ground arith in (subst (λ y. P (y, key)) (sym same) p, all.1))
      (λ other. (all.0, All-set_owner P owners h key all.1 p))
