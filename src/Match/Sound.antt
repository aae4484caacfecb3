-- ===== src/Match/Sound.antt =====
-- The invariant of a match, and the operations on its players that keep it.
use trueskill_bot.Common.{
  Bool, List, ◌≡◌, All, false, not, true, ℕ, Option, String, arith, is_some, map, ◌&&◌, ◌∷◌, [],
  some, none,
}
use trueskill_bot.Game.{TeamId}
use trueskill_bot.LobbyRoster.Locks.{LobbyLockMode, unlocked, slot_lock, side_lock}
use trueskill_bot.Match.Types.{MatchPlayer, Desk}
use trueskill_bot.Match.Report.{
  is_finished, mark_quitter, mark_griefer, mark_dc, report_player, accrue,
}
use trueskill_bot.Match.Correction.{is_completed, flip_player, accrue_again, void_player}
use trueskill_bot.Match.Approval.{stored_winner, is_waiting_for_mitigation, request_player}
use trueskill_bot.Match.Lobby.{lock_player, lock_all}
use trueskill_bot.Match.Closing.{cancel_griefer, where_given, clear_griefer, clear_dc}

abbrev pub same_bool : Bool → Bool → Bool
same_bool true b = b
same_bool false b = not b

-- No quitter has the DC flag, no seat both locks, and a player has a result once the match is
-- completed, and only then.
abbrev pub is_sound_player : (has_result : Bool) → MatchPlayer → Bool
is_sound_player has_result player =
    not (player.is_quitter && player.is_dc)
    && not (player.locked && player.side_locked)
    && same_bool (is_some player.result) has_result

abbrev pub SoundPlayers : (has_result : Bool) → List MatchPlayer → Type 0
SoundPlayers has_result players = All (λ player. is_sound_player has_result player ≡ true) players

pub record IsSound {R : Type 0} (desk : Desk R) : Type 0 where
  pub players : SoundPlayers (is_completed desk.row.status) desk.row.players
  pub winner :
      is_waiting_for_mitigation desk.row.status ≡ true
      → is_some (stored_winner desk.row.approval_winner_team) ≡ true
  pub fresh : is_finished desk.row.status ≡ false → desk.snapshots ≡ []

-- A write to one player that keeps soundness, with the match completed before and after or not.
abbrev pub Keeps : Bool → Bool → (MatchPlayer → MatchPlayer) → Type 0
Keeps before after f =
    (player : MatchPlayer)
    → is_sound_player before player ≡ true
    → is_sound_player after (f player) ≡ true

pub SoundPlayers-map :
    (before after : Bool) (f : MatchPlayer → MatchPlayer) (players : List MatchPlayer)
    → Keeps before after f
    → SoundPlayers before players
    → SoundPlayers after (map f players)
SoundPlayers-map before after f [] keeps sound = sound
SoundPlayers-map before after f (player ∷ players) keeps sound =
    (keeps player sound.0, SoundPlayers-map before after f players keeps sound.1)

pub mark_quitter-Keeps : (b : Bool) (slots : List ℕ) → Keeps b b (mark_quitter slots)
mark_quitter-Keeps b slots player sound = ground arith

pub mark_griefer-Keeps : (b : Bool) (slots : List ℕ) → Keeps b b (mark_griefer slots)
mark_griefer-Keeps b slots player sound = ground arith

pub mark_dc-Keeps : (b : Bool) (slots : List ℕ) → Keeps b b (mark_dc slots)
mark_dc-Keeps b slots player sound = ground arith

pub report_player-Keeps :
    (b : Bool) (team : TeamId) (quitters griefers dcs : List ℕ) (was_new : String → Bool)
    → Keeps b true (report_player team quitters griefers dcs was_new)
report_player-Keeps b team quitters griefers dcs was_new player sound = ground arith

pub accrue-Keeps :
    (b : Bool) (quitters griefers : List ℕ) (ki_of : String → ℕ)
    → Keeps b b (accrue quitters griefers ki_of)
accrue-Keeps b quitters griefers ki_of player sound = sound

pub flip_player-Keeps :
    (team : TeamId) (quitters : List ℕ) → Keeps true true (flip_player team quitters)
flip_player-Keeps team quitters player sound = ground arith

pub accrue_again-Keeps :
    (b : Bool) (quitters : List ℕ) (ki_of : String → ℕ) → Keeps b b (accrue_again quitters ki_of)
accrue_again-Keeps b quitters ki_of player sound = sound

pub void_player-Keeps : (b : Bool) → Keeps b false void_player
void_player-Keeps b player sound = ground arith

pub request_player-Keeps :
    (seen : List MatchPlayer) (quitters griefers : List ℕ) (dcs : Option (List ℕ))
    → Keeps false false (request_player seen quitters griefers dcs)
request_player-Keeps seen quitters griefers dcs player sound = ground arith

pub lock_player-Keeps : (b : Bool) (change : ℕ × LobbyLockMode) → Keeps b b (lock_player change)
lock_player-Keeps b (slot, unlocked) player sound = ground arith
lock_player-Keeps b (slot, slot_lock) player sound = ground arith
lock_player-Keeps b (slot, side_lock) player sound = ground arith

pub lock_all_sound :
    (b : Bool) (changes : List (ℕ × LobbyLockMode)) (players : List MatchPlayer)
    → SoundPlayers b players
    → SoundPlayers b (lock_all changes players)
lock_all_sound b [] players sound = sound
lock_all_sound b (change ∷ changes) players sound =
    lock_all_sound b changes (map (lock_player change) players)
      (SoundPlayers-map b b (lock_player change) players (lock_player-Keeps b change) sound)

pub cancel_griefer-Keeps : (b : Bool) (slots : List ℕ) → Keeps b b (cancel_griefer slots)
cancel_griefer-Keeps b slots player sound = ground arith

pub where_given-Keeps :
    (b : Bool) (mark : List ℕ → MatchPlayer → MatchPlayer) (given : Option (List ℕ))
    → ((slots : List ℕ) → Keeps b b (mark slots))
    → Keeps b b (where_given mark given)
where_given-Keeps b mark none keeps player sound = sound
where_given-Keeps b mark (some slots) keeps player sound = keeps slots player sound

pub clear_griefer-Keeps : (b : Bool) (slots : List ℕ) → Keeps b b (clear_griefer slots)
clear_griefer-Keeps b slots player sound = ground arith

pub clear_dc-Keeps : (b : Bool) (slots : List ℕ) → Keeps b b (clear_dc slots)
clear_dc-Keeps b slots player sound = ground arith
