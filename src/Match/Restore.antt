-- ===== src/Match/Restore.antt =====
-- The correction of a match against its completion: a void takes the ratings back, and a flip gives
-- what a completion with the other winner gives.
use trueskill_bot.Common.{
  List, ◌≡◌, Bool, false, map, true, ℕ, ◌∷◌, String, [], any, if◌then◌else◌, ◌++◌, Bool-cases, ap,
  refl, inl, inr, Option, eq_iff, ◌||◌, ◌∙◌, arith, length, ok, some, Option-cases, ◌==◌,
  length-map, ==_iff, sym,
}
use trueskill_bot.Game.{GameProfile, TeamId}
use trueskill_bot.Match.Types.{MatchPlayer, RatingRosterEntry, RatingUpdate, RatingKey, Desk}
use trueskill_bot.Match.Report.{
  is_event_match, resolve_slots, to_rating_entries, normalize_mitigation_percent,
}
use trueskill_bot.Match.Completion.{
  Findings, GivenSlots, complete_match, completed_league, keys_of, all_keys, same_hero, same_key,
  snapshots_of, rating_keys,
}
use trueskill_bot.Match.Correction.{restore_one, restore_match_rating_snapshots}

abbrev pub entry_keys : RatingRosterEntry → List RatingKey
entry_keys entry = rating_keys entry.player_id entry.hero_id

abbrev pub all_entry_keys : List RatingRosterEntry → List RatingKey
all_entry_keys [] = []
all_entry_keys (entry ∷ entries) = entry_keys entry ++ all_entry_keys entries

abbrev pub has_key : RatingKey → List RatingKey → Bool
has_key key keys = any (λ k. same_key k key) keys

-- `applyMatchRatings` writes the rating rows of the players that it is given, and no others.
abbrev pub WritesOnlyEntries :
    {R : Type 0} → ((RatingKey → R) → RatingUpdate → RatingKey → R) → Type 0
WritesOnlyEntries {R = R} rate =
    (ratings : RatingKey → R) (update : RatingUpdate) (key : RatingKey)
    → has_key key (all_entry_keys update.entries) ≡ false
    → rate ratings update key ≡ ratings key

same_hero_sound : (h k : Option ℕ) → same_hero h k ≡ true → h ≡ k
same_hero_sound h k e = ground arith

same_key_sound : (k l : RatingKey) → same_key k l ≡ true → k ≡ l
same_key_sound k l h =
    let players : k.player ≡ l.player = (eq_iff k.player l.player).0 (ground arith) in
    let heroes : k.hero ≡ l.hero = same_hero_sound k.hero l.hero (ground arith) in
    λ i. record { player = players i; hero = heroes i }

all_entry_keys-to_rating_entries :
    (players : List MatchPlayer) (quitters griefers dcs : List ℕ) (was_new : String → Bool)
    → all_entry_keys (to_rating_entries players quitters griefers dcs was_new) ≡ all_keys players
unfolding to_rating_entries
all_entry_keys-to_rating_entries [] quitters griefers dcs was_new = refl
all_entry_keys-to_rating_entries (player ∷ players) quitters griefers dcs was_new =
    ap (λ rest. keys_of player ++ rest)
      (all_entry_keys-to_rating_entries players quitters griefers dcs was_new)

-- A write that keeps the ids and the heroes keeps the rating rows.
all_keys-map :
    (f : MatchPlayer → MatchPlayer) (players : List MatchPlayer)
    → ((player : MatchPlayer) → keys_of (f player) ≡ keys_of player)
    → all_keys (map f players) ≡ all_keys players
all_keys-map f [] same = refl
all_keys-map f (player ∷ players) same =
    let rest = all_keys-map f players same in let first = same player in cc

restored_choice :
    {R : Type 0} (here later : Bool) (new old value : R)
    → (here ≡ true → new ≡ value)
    → (if later then value else if here then new else old) ≡ (if here || later then value else old)
restored_choice true true new old value same = refl
restored_choice true false new old value same = same refl
restored_choice false true new old value same = refl
restored_choice false false new old value same = refl

module _ {R : Type 0} where
  -- Restoring gives each row that has a snapshot its value, and leaves the others.
  restore-snapshots :
      (keys : List RatingKey) (base ratings : RatingKey → R) (key : RatingKey)
      → restore_match_rating_snapshots
          (map (λ k. record { of_row = k; value = base k }) keys)
          ratings
          key
        ≡ (if has_key key keys then base key else ratings key)
  restore-snapshots [] base ratings key = refl
  restore-snapshots (k ∷ keys) base ratings key =
      let rest =
        restore-snapshots keys base (restore_one (record { of_row = k; value = base k }) ratings)
          key in
      rest
      ∙ restored_choice (same_key k key) (has_key key keys) (base k) (ratings key) (base key)
          (λ same. ap base (same_key_sound k key same))

  pub length-snapshots_of :
      (f : MatchPlayer → MatchPlayer) (players : List MatchPlayer) (ratings : RatingKey → R)
      → ((player : MatchPlayer) → keys_of (f player) ≡ keys_of player)
      → (length (snapshots_of players ratings) == length (all_keys (map f players))) ≡ true
  length-snapshots_of f players ratings same =
      let kept = ap length (all_keys-map f players same) in
      let measured : length (snapshots_of players ratings) ≡ length (all_keys players) =
        length-map (λ key. record { of_row = key; value = ratings key }) (all_keys players) in
      (==_iff _ _).1 (measured ∙ sym kept)

module _ {R : Type 0} (rate : (RatingKey → R) → RatingUpdate → RatingKey → R) where
  -- What an accepted completion of a league match has checked, and its outcome.
  pub record IsCompletion (found : Findings) (team : TeamId) (given : GivenSlots) (percent : ℕ)
      (desk desk' : Desk R) : Type 0 where
    pub league : String
    pub of_league : desk.row.league_id ≡ some league
    pub result :
        completed_league rate found team
          (resolve_slots MatchPlayer.is_quitter desk.row.players given.quitters)
          (resolve_slots MatchPlayer.is_griefer desk.row.players given.griefers)
          (resolve_slots MatchPlayer.is_dc desk.row.players given.dcs)
          (normalize_mitigation_percent percent)
          desk
        ≡ desk'

  pub complete_match-IsCompletion :
      (profile : GameProfile) (found : Findings) (desk desk' : Desk R) (team : TeamId)
      (given : GivenSlots) (percent : ℕ)
      → is_event_match desk.row ≡ false
      → complete_match rate profile found desk team given percent ≡ ok desk'
      → IsCompletion found team given percent desk desk'
  unfolding complete_match
  complete_match-IsCompletion profile found desk desk' team given percent no_event h =
      elim (Option-cases desk.row.league_id) [
        | inl missing ↦ absurd (ground arith)
        | inr (league, of_league) ↦ record {
          league = league;
          of_league = of_league;
          result = ground arith;
        }
      ]

  -- Restoring the snapshots of a completion gives the ratings before it.
  pub restored :
      (found : Findings) (team : TeamId) (quitters griefers dcs : List ℕ) (mitigation : ℕ)
      (desk : Desk R)
      → WritesOnlyEntries rate
      → (key : RatingKey)
      → restore_match_rating_snapshots
          (snapshots_of desk.row.players desk.ratings)
          (completed_league rate found team quitters griefers dcs mitigation desk).ratings
          key
        ≡ desk.ratings key
  unfolding completed_league
  restored found team quitters griefers dcs mitigation desk only key =
      let players = desk.row.players in
      let after =
        (completed_league rate found team quitters griefers dcs mitigation desk).ratings in
      let chosen = restore-snapshots (all_keys players) desk.ratings after key in
      let keys = all_entry_keys-to_rating_entries players quitters griefers dcs found.was_new in
      elim (Bool-cases (has_key key (all_keys players))) [
        | inl rated ↦ chosen ∙ ap (λ b. if b then desk.ratings key else after key) rated
        | inr away ↦
            chosen
            ∙ ap (λ b. if b then desk.ratings key else after key) away
            ∙ only desk.ratings _ key (ap (has_key key) keys ∙ away)
      ]
