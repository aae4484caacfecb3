-- ===== src/LobbyDraft/Augment.antt =====
-- The augmenting paths of `tryAssign` in apps/bot/src/services/lobby-draft/hero-assign.ts.
use trueskill_bot.Common.{
  ℕ, zero, suc, ◌+◌, ◌≤◌, ◌<◌, ◌≡◌, refl, arith, Bool, true, false, ◌==◌, ◌&&◌, none, some, List,
  [], ◌∷◌, String, str_eq, All, count_if, one_if, Bool-cases, inl, inr, Option-cases, ◌∙◌, ap,
}
use trueskill_bot.LobbyDraft.Assign.{
  has, owner_of, set_owner, owns, Search, Attempt, mark, give, settle, try_wishes, try_assign,
}
use trueskill_bot.LobbyDraft.Owners.{
  unseen, unseen_grows, unseen_mark, owner_of-set_owner_other, count_if-set_owner,
  count_if-set_owner_new, is_for, set_owner_once, All-set_owner,
}

-- No hero is given to two players, and every owner wanted the hero.
pub record IsMatching (wishes : String → List ℕ) (owners : List (ℕ × String)) : Type 0 where
  pub once : (h : ℕ) → count_if (is_for h) owners ≤ 1
  pub liked : All (λ e. has e.0 (wishes e.1) ≡ true) owners

-- What `tryAssign(key, seen)` does: where it finds a hero, the player has one more and all others
-- have as many as before, and otherwise all have; heroes seen before stay with their owners.
pub record IsServed (wishes : String → List ℕ) (key : String) (s : Search) (found : Bool)
    (s' : Search) : Type 0 where
  pub grows : (h : ℕ) → has h s.seen ≡ true → has h s'.seen ≡ true
  pub keeps : (h : ℕ) → has h s.seen ≡ true → owner_of s'.owners h ≡ owner_of s.owners h
  pub counts :
      (k : String)
      → count_if (owns k) s'.owners ≡ count_if (owns k) s.owners + one_if (found && str_eq key k)
  pub sound : IsMatching wishes s.owners → IsMatching wishes s'.owners

abbrev pub Serves : (String → List ℕ) → String → Search → Attempt → Type 0
Serves wishes key s attempt =
    (found : Bool) × (s' : Search) × (attempt ≡ some (found, s')) × IsServed wishes key s found s'

seen_differ : (h g : ℕ) (seen : List ℕ) → has h seen ≡ false → has g seen ≡ true → (h == g) ≡ false
seen_differ h g seen e there = elim (Bool-cases (h == g)) [
  | inr other ↦ other
  | inl own ↦
      let same : h ≡ g = ground arith in
      let here : has h seen ≡ true = ap (λ y. has y seen) same ∙ there in absurd (ground arith)
]

module _ (wishes : String → List ℕ) where
  give-IsMatching :
      (h : ℕ) (key : String) (owners : List (ℕ × String))
      → has h (wishes key) ≡ true
      → IsMatching wishes owners
      → IsMatching wishes (set_owner owners h key)
  give-IsMatching h key owners want m = record {
    once = set_owner_once owners h key m.once;
    liked = All-set_owner _ owners h key m.liked want;
  }

  unserved : (key : String) (s : Search) → IsServed wishes key s false s
  unserved key s = record {
    grows = λ h e. e;
    keeps = λ h e. refl;
    counts = λ k. omega arith;
    sound = λ m. m;
  }

  -- A hero that nobody has.
  given_new :
      (h : ℕ) (key : String) (s : Search)
      → has h s.seen ≡ false
      → has h (wishes key) ≡ true
      → owner_of s.owners h ≡ none
      → IsServed wishes key s true (give h key (mark h s))
  given_new h key s unseen_h want e = record {
    grows = λ g there. ground arith;
    keeps = λ g there.
        owner_of-set_owner_other s.owners h g key (seen_differ h g s.seen unseen_h there);
    counts = λ k. count_if-set_owner_new s.owners h key k e;
    sound = give-IsMatching h key s.owners want;
  }

  -- A hero whose owner found another one.
  given_freed :
      (h : ℕ) (key owner : String) (s s' : Search)
      → has h s.seen ≡ false
      → has h (wishes key) ≡ true
      → owner_of s.owners h ≡ some owner
      → IsServed wishes owner (mark h s) true s'
      → IsServed wishes key s true (give h key s')
  given_freed h key owner s s' unseen_h want e served = record {
    grows = λ g there. served.grows g (ground arith);
    keeps = λ g there.
        owner_of-set_owner_other s'.owners h g key (seen_differ h g s.seen unseen_h there)
        ∙ served.keeps g (ground arith);
    counts = λ k.
        let still : owner_of s'.owners h ≡ some owner = served.keeps h (ground arith) ∙ e in
        omega (arith, count_if-set_owner s'.owners h key owner k still, served.counts k);
    sound = λ m. give-IsMatching h key s'.owners want (served.sound m);
  }

  -- The next round, after one that changed nothing.
  next_round :
      (h : ℕ) (key owner : String) (s s1 s2 : Search) (found : Bool)
      → IsServed wishes owner (mark h s) false s1
      → IsServed wishes key s1 found s2
      → IsServed wishes key s found s2
  next_round h key owner s s1 s2 found a b = record {
    grows = λ g there. b.grows g (a.grows g (ground arith));
    keeps = λ g there. b.keeps g (a.grows g (ground arith)) ∙ a.keeps g (ground arith);
    counts = λ k. omega (arith, a.counts k, b.counts k);
    sound = λ m. b.sound (a.sound m);
  }

  settle-Serves :
      (h : ℕ) (key owner : String) (s s' : Search) (found : Bool) (next : Search → Attempt)
      → has h s.seen ≡ false
      → has h (wishes key) ≡ true
      → owner_of s.owners h ≡ some owner
      → IsServed wishes owner (mark h s) found s'
      → Serves wishes key s' (next s')
      → Serves wishes key s (settle h key (some (found, s')) next)
  settle-Serves h key owner s s' true next new want e served rest =
      (true, give h key s', refl, given_freed h key owner s s' new want e served)
  settle-Serves h key owner s s' false next new want e served rest =
      let (found, last, computed, more) = rest in
      (found, last, computed, next_round h key owner s s' last found served more)

  module _ (heroes : List ℕ)
      (within : (key : String) (h : ℕ) → has h (wishes key) ≡ true → has h heroes ≡ true) where
    -- The loop over wishes serves, where its calls do.
    try_wishes-Serves :
        (again : String → Search → Attempt) (fuel : ℕ) (key : String) (own : List ℕ) (s : Search)
        → ((owner : String) (now : Search)
            → unseen now.seen heroes < fuel
            → Serves wishes owner now (again owner now))
        → All (λ h. has h (wishes key) ≡ true) own
        → unseen s.seen heroes ≤ fuel
        → Serves wishes key s (try_wishes again key own s)
    unfolding try_wishes
    try_wishes-Serves again fuel key [] s serves liked enough = (false, s, refl, unserved key s)
    try_wishes-Serves again fuel key (h ∷ own) s serves liked enough =
        elim (Bool-cases (has h s.seen)) [
          | inl old ↦
              let (found, s', e, served) =
                try_wishes-Serves again fuel key own s serves liked.1 enough in
              (found, s', ground arith, served)
          | inr new ↦
              let less = unseen_mark s.seen heroes h new (within key h liked.0) in
              elim (Option-cases (owner_of s.owners h)) [
                | inl free ↦
                    (true, give h key (mark h s), ground arith, given_new h key s new liked.0 free)
                | inr (owner, taken) ↦
                    let (found, s', asked, served) =
                      serves owner (mark h s) (omega (arith, less, enough)) in
                    let fewer = unseen_grows (h ∷ s.seen) s'.seen heroes served.grows in
                    let (found', last, e, all) =
                      settle-Serves h key owner s s' found (try_wishes again key own) new liked.0
                        taken served
                        (try_wishes-Serves again fuel key own s' serves liked.1
                          (omega (arith, fewer, less, enough))) in
                    (found', last, ground arith, all)
              ]
        ]

    own_wishes :
        (key : String) (own : List ℕ)
        → ((h : ℕ) → has h own ≡ true → has h (wishes key) ≡ true)
        → All (λ h. has h (wishes key) ≡ true) own
    own_wishes key [] f = _
    own_wishes key (h ∷ own) f =
        (f h (ground arith), own_wishes key own (λ g there. f g (ground arith)))

    -- With more fuel than heroes left to ask for, `tryAssign` comes to an end: either it finds
    -- nothing and everybody has as many heroes as before, or the player alone has one more.
    pub try_assign-Serves :
        (fuel : ℕ) (key : String) (s : Search)
        → unseen s.seen heroes < fuel
        → Serves wishes key s (try_assign wishes fuel key s)
    unfolding try_assign
    try_assign-Serves zero key s enough = absurd (omega (arith, enough))
    try_assign-Serves (suc fuel) key s enough =
        try_wishes-Serves (try_assign wishes fuel) fuel key (wishes key) s (try_assign-Serves fuel)
          (own_wishes key (wishes key) (λ h there. there)) (omega (arith, enough))
