-- ===== src/LobbyDraft/Farewell.antt =====
-- Nobody is lost when a player of a lobby draft is removed: `removeParticipant` of
-- apps/bot/src/services/lobby-draft/draft-logic.ts.
use trueskill_bot.Common.{some, List, String}
use trueskill_bot.Common.Rng.{Rng}
use trueskill_bot.LobbyDraft.Types.{LobbyDraftState, LobbyDraftTeam}

abbrev with_both : LobbyDraftState → List String → LobbyDraftTeam → LobbyDraftTeam → LobbyDraftState
with_both s pool a b = record s { pool = pool; teams = some (a, b) }
