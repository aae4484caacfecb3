-- ===== src/Lib.antt =====
-- The drafts, lobbies and matches of the TrueSkill bot.
--
-- The bot runs drafts of players and heroes on Discord, for lobbies of its games, and matches from the lobby to the report, and keeps each of them as one row of a
-- database: a status and a state. A command loads the row, checks its status and who asks,
-- computes the next state by a pure function, stores the row, and then posts messages. The
-- modules model the pure functions and the commands on the row; messages, embeds and the
-- database are left out.
--
-- Common: what the others share: Boolean tests and lists over the native numbers (Tests, Lists),
-- multisets as counting functions (Count: count_if and SameItems), results with errors (Errors),
-- white space and `trim` (Spaces), and a stream of random numbers (Rng). `Math.random()` is a
-- number k / 2^53 below 1, and `Math.floor(Math.random() * n)` is k * n / 2^53; where the code
-- may be given any source of randomness, a stream is a function from positions to such k.
--
-- Player.Nick: apps/bot/src/services/player/player-nick.ts (stripBattleTag, normalizeNick), on
-- lists of code points, with toLowerCase as a parameter.
--
-- CaptainDraft: apps/bot/src/services/captain-draft, where captains pick their teams in a snake
-- order. Types is draft-types.ts; Logic is draft-logic.ts, one function for each of its
-- functions under its name (apply_pick for applyPick); Actions has the row, the checks of
-- draft-auth.ts and the helpers of draft-actions.ts; Commands has the commands of
-- draft-actions.ts and draft-mod-actions.ts (set_captains ... publish_captain_draft,
-- mod_add_player ... mod_rename_team), each from the loaded row to the stored row and the error
-- that is thrown, if any. A command that throws before it stores leaves the row as it was. What
-- a command makes of its text (the participants, or an error) and the id of the message that it
-- posts are arguments. Lifecycle puts all the commands together: a datum for each command,
-- `execute`, and the rows that are reached from `createDraft`. Channel has the stored rows of
-- all channels, the newest first, with the start of a draft and the query for the draft of a
-- channel. The other modules hold the lemmas: Snake (the pick order), Members and Locate (who is
-- in the draft, and where), Turns (picking and undoing), Exchange (replacing and swapping),
-- Moves, Removal, WellFormed with Preserved and PreservedByMods (the invariant of the state),
-- and Consistent with its children (the invariant of the row, for each group of commands). Tests
-- runs the model on a draft of two captains and three members.
--
-- Participants are told apart by key, as the code does. The keys come from the resolver, which
-- is not modelled: that new participants have fresh keys is an assumption, `BringsFreshKeys`, on
-- the commands that bring some in. A Discord id is taken to be a non-empty text.
--
-- HeroDraft: apps/bot/src/services/hero-draft, where two teams ban and pick heroes in a fixed
-- sequence of sixteen turns. Types and Logic are draft-types.ts and draft-logic.ts; Actions has
-- the commands of draft-actions.ts with the check of draft-auth.ts, on the row together with the
-- timer that draft-timer.ts keeps for it, where `now` is the clock in milliseconds. Turns says
-- what each operation does, Moves gives them one shape, Taken and Played have the invariant of
-- the state, Timeouts and Finish the run of a draft that nobody answers, Sound and Lifecycle the
-- invariant of row and timer under all commands, timeouts and restarts, and Timer what a command
-- does to the timer. The commands of one draft run one after the other; two that overlap are not
-- modelled. A timer that is given to a command is a number of seconds that is not negative.
--
-- Game: apps/bot/src/domain/game-profile.ts, the profiles of the games, with their slots and teams.
--
-- LobbyRoster: apps/bot/src/services/lobby, the roster of a pending lobby, a list of players at
-- slots. Types and Logic are its data and roster.ts, Remap is remap.ts (swaps that are written as
-- pairs), Locks is locked-slots.ts. Accepted says what an accepted operation has checked and
-- returns; Seats has the invariant of a roster, Commands the commands of actions.ts in any order;
-- Refinement and Contract relate them to a map from slots to nicks, and Search is about the
-- lowest empty slot of a team. A slot is a natural number. Storing a roster is a matter of the
-- matches.
--
-- LobbyDraft: apps/bot/src/services/lobby-draft, where the players of a lobby vote for two
-- captains, who flip a coin, choose sides and pick, and each player gets a hero. Types is
-- draft-types.ts; draft-logic.ts is Logic up to the choice of heroes, Heroes for that choice,
-- Leavers and Removal for players who leave and for the deadlines; Assign is hero-assign.ts. The
-- log of the draft is left out. `applyPick` and `autoLastPick` call each other, and the model
-- writes this out: `apply_pick` is one pick and, when one player is left after it, another. The
-- search of an augmenting path runs on fuel, one more than the heroes of the side: each call marks
-- a hero that was not marked before. The power of two floating-point numbers that the players are
-- ordered by is a parameter. Tally has the vote count, Members the lemmas on lists of keys,
-- Partition, Phases and Lifecycle the invariants; Owners, Augment, Matched, Leftovers and Assigned
-- are about the assignment, Resolved about both teams, Timeouts and Deadlines about the deadlines, Handover
-- about players who are replaced, Succession and Farewell about those who are removed.
--
-- Match: apps/bot/src/services/match, one match with the rows of its players, its rating snapshots,
-- and the ratings of its league. Types has the rows of the database, with the columns that the
-- code of the model reads or writes; Report, Completion and Closing are match-report.ts (flags,
-- `completeMatch`, the end without a winner), Correction is match-correction.ts, Approval is
-- match-approval.ts and match-mitigation-approval.ts, and Lobby the start, the cancellation and
-- the locks of match-service.ts. A command that loads the match before its transaction has the
-- loaded match as an argument, `seen`, apart from the row that it writes; Commands runs each
-- command on what it has just loaded. `applyMatchRatings`, which calls a third-party package, is
-- the parameter `rate`; that it writes only the rating rows of the players that it is given is the
-- hypothesis `WritesOnlyEntries`. What a completion reads elsewhere (who is New, the display ki,
-- the clock) is the argument `found`. Sound is the invariant of a match; Steps and Ends are about
-- single commands, Lifecycle about all of them, Restore and Flip about corrections, Progress about
-- approvals, Locked about locks. No other match is completed in between: ratings are those of one
-- match alone.
--
-- Not modelled: how the state is read back from JSON, the storage and the timer of a lobby draft,
-- and everything that the manifest lists as such: the storage of a roster, the rating update,
-- leagues, leaderboards, the replay parsers, and the Discord front end.
pub mod Common
pub mod Game
pub mod Player
pub mod CaptainDraft
pub mod HeroDraft
pub mod LobbyRoster
pub mod LobbyDraft
pub mod Match
