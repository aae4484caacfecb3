-- ===== src/LobbyDraft/Assign.antt =====
-- The heroes of one side: apps/bot/src/services/lobby-draft/hero-assign.ts. The power
-- of floating-point numbers is a parameter. The keys of the players are taken to
-- be distinct, as those of a roster are: the maps by key are lists.
use trueskill_bot.Common.{
  ℕ, zero, suc, ◌+◌, ltb, ◌==◌, Bool, true, false, not, ◌&&◌, if◌then◌else◌, Option, none, some,
  is_some, List, [], ◌∷◌, any, filter, length, String, str_eq, ok, err, ◌++◌, get_or_else, leb, map,
}
use trueskill_bot.Common.Rng.{Rng}
use trueskill_bot.LobbyDraft.Types.{
  HeroAssignment, wanted, contested, random, too_many_players, Throws,
}
use trueskill_bot.LobbyDraft.Logic.{shuffle, calls_of_shuffle}

pub record Wisher : Type 0 where
  pub key : String
  pub wishes : List ℕ
  pub weight : Option ℕ

abbrev pub has : ℕ → List ℕ → Bool
has h hs = any (λ x. x == h) hs

-- `rng() ** (1 / weight)`: the order of the floating-point results, as natural numbers.
abbrev pub Power : Type 0
Power = ℕ → ℕ → ℕ

-- `Math.max(item.weight ?? 1, 1)`.
abbrev pub weight_of : Wisher → ℕ
weight_of p = let w = get_or_else 1 p.weight in if leb 1 w then w else 1

unfoldable pub scored : Power → Rng → ℕ → List Wisher → List (ℕ × Wisher)
scored power rng k [] = []
scored power rng k (p ∷ ps) = (power (rng k) (weight_of p), p) ∷ scored power rng (k + 1) ps

-- The stable sort by score, the highest first.
unfoldable pub insert_by_score : (ℕ × Wisher) → List (ℕ × Wisher) → List (ℕ × Wisher)
insert_by_score x [] = x ∷ []
insert_by_score x (y ∷ ys) =
    let rest = insert_by_score x ys in if leb y.0 x.0 then x ∷ y ∷ ys else y ∷ rest

unfoldable pub sort_by_score : List (ℕ × Wisher) → List (ℕ × Wisher)
sort_by_score [] = []
sort_by_score (x ∷ xs) = insert_by_score x (sort_by_score xs)

-- `weightedOrder`: the players in the order in which they go, from the k-th call of `rng` on.
unfoldable pub weighted_order : Power → Rng → ℕ → List Wisher → List Wisher
weighted_order power rng k items = map (λ x. x.1) (sort_by_score (scored power rng k items))

-- `wanted.get(key) ?? []`.
abbrev pub wishes_of : List Wisher → String → List ℕ
wishes_of [] key = []
wishes_of (p ∷ ps) key = if str_eq p.key key then p.wishes else wishes_of ps key

-- The map `wanted`: the wishes that the side has, each list shuffled.
unfoldable pub shuffled_wishes : Rng → ℕ → List ℕ → List Wisher → List Wisher
shuffled_wishes rng k heroes [] = []
shuffled_wishes rng k heroes (p ∷ ps) =
    let there = filter (λ h. has h heroes) p.wishes in
    record p { wishes = shuffle rng k there }
    ∷ shuffled_wishes rng (k + calls_of_shuffle (length there)) heroes ps

abbrev pub calls_of_wishes : List ℕ → List Wisher → ℕ
calls_of_wishes heroes [] = 0
calls_of_wishes heroes (p ∷ ps) =
    calls_of_shuffle (length (filter (λ h. has h heroes) p.wishes)) + calls_of_wishes heroes ps

-- `seen` and `ownerByHero`.
pub record Search : Type 0 where
  pub seen : List ℕ
  pub owners : List (ℕ × String)

-- `ownerByHero.get(hero)`.
abbrev pub owner_of : List (ℕ × String) → ℕ → Option String
owner_of [] hero_id = none
owner_of ((h, key) ∷ owners) hero_id = if h == hero_id then some key else owner_of owners hero_id

-- `ownerByHero.set(hero, key)`.
abbrev pub set_owner : List (ℕ × String) → ℕ → String → List (ℕ × String)
set_owner [] hero_id key = (hero_id, key) ∷ []
set_owner ((h, old) ∷ owners) hero_id key =
    let rest = set_owner owners hero_id key in
    if h == hero_id then (h, key) ∷ owners else (h, old) ∷ rest

abbrev pub Attempt : Type 0
Attempt = Option (Bool × Search)

abbrev pub mark : ℕ → Search → Search
mark hero_id s = record s { seen = hero_id ∷ s.seen }

abbrev pub give : ℕ → String → Search → Search
give hero_id key s = record s { owners = set_owner s.owners hero_id key }

-- `owner === undefined || tryAssign(owner, seen)`.
abbrev pub release : (String → Search → Attempt) → Option String → Search → Attempt
release again none s = some (true, s)
release again (some owner) s = again owner s

-- The end of a round of the loop of `tryAssign`, where `next` is the rest of the loop.
abbrev pub settle : ℕ → String → Attempt → (Search → Attempt) → Attempt
settle hero_id key none next = none
settle hero_id key (some (true, s)) next = some (true, give hero_id key s)
settle hero_id key (some (false, s)) next = next s

-- The loop over a player's wishes; `again` is the call of `tryAssign` in it.
unfoldable pub try_wishes : (String → Search → Attempt) → String → List ℕ → Search → Attempt
try_wishes again key [] s = some (false, s)
try_wishes again key (hero_id ∷ wishes) s =
    let next : Search → Attempt = λ now. try_wishes again key wishes now in
    if has hero_id s.seen
    then next s
    else settle hero_id key (release again (owner_of s.owners hero_id) (mark hero_id s)) next

-- `tryAssign`, on fuel: none where the fuel is used up.
unfoldable pub try_assign : (String → List ℕ) → ℕ → String → Search → Attempt
try_assign wishes zero key s = none
try_assign wishes (suc fuel) key s = try_wishes (try_assign wishes fuel) key (wishes key) s

abbrev pub owners_after : Attempt → List (ℕ × String) → List (ℕ × String)
owners_after none owners = owners
owners_after (some (found, s)) owners = s.owners

-- `for (const key of wanted.keys()) tryAssign(key, new Set())`.
unfoldable pub match_all :
    (String → List ℕ) → ℕ → List String → List (ℕ × String) → List (ℕ × String)
match_all wishes fuel [] owners = owners
match_all wishes fuel (key ∷ keys) owners =
    match_all wishes fuel keys
      (owners_after (try_assign wishes fuel key (record { seen = []; owners = owners })) owners)

abbrev pub owns : String → (ℕ × String) → Bool
owns key entry = str_eq entry.1 key

abbrev pub is_matched : List (ℕ × String) → String → Bool
is_matched owners key = any (owns key) owners

-- Someone else wanted the hero and got none of their wishes.
abbrev pub is_contested : List Wisher → List (ℕ × String) → (ℕ × String) → Bool
is_contested players owners entry =
    any (λ p. not (str_eq p.key entry.1) && has entry.0 p.wishes && not (is_matched owners p.key))
      players

-- The assignments of the matched players.
unfoldable pub granted :
    List Wisher → List (ℕ × String) → List (ℕ × String) → List (String × HeroAssignment)
granted players owners [] = []
granted players owners ((hero_id, key) ∷ entries) =
    (
      key,
      record {
        hero_id = hero_id;
        how = if is_contested players owners (hero_id, key) then contested else wanted;
      },
    )
    ∷ granted players owners entries

-- The others get the free heroes; `free.shift()` of an empty list is no hero.
unfoldable pub leftover : List (ℕ × String) → List String → List ℕ → List (String × HeroAssignment)
leftover owners [] free = []
leftover owners (key ∷ keys) [] = []
leftover owners (key ∷ keys) (hero_id ∷ free) =
    if is_matched owners key
    then leftover owners keys (hero_id ∷ free)
    else (key, record { hero_id = hero_id; how = random }) ∷ leftover owners keys free

abbrev pub keys_in : List Wisher → List String
keys_in [] = []
keys_in (p ∷ ps) = p.key ∷ keys_in ps

abbrev pub free_heroes : List (ℕ × String) → List ℕ → List ℕ
free_heroes owners heroes = filter (λ h. not (is_some (owner_of owners h))) heroes

-- The owners when every player has been tried.
unfoldable pub matching : Power → List Wisher → List ℕ → Rng → ℕ → List (ℕ × String)
matching power players heroes rng k =
    let turns =
      shuffled_wishes rng (k + length players) heroes (weighted_order power rng k players) in
    match_all (wishes_of turns) (length heroes + 1) (keys_in turns) []

unfoldable pub assign_heroes :
    Power → List Wisher → List ℕ → Rng → ℕ → Throws (List (String × HeroAssignment))
assign_heroes power players heroes rng k =
    let turns = weighted_order power rng k players in
    let owners = matching power players heroes rng k in
    let calls = length players + calls_of_wishes heroes turns in
    if ltb (length heroes) (length players)
    then err too_many_players
    else ok (
        granted players owners owners
        ++ leftover owners (keys_in turns) (shuffle rng (k + calls) (free_heroes owners heroes)))
