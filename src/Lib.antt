-- ===== src/Lib.antt =====
-- Vaelmour: the server's rooms and economy, what players carry and gather, the combat engine and the
-- levels.
--
-- The program is the authoritative server of a multiplayer game and the rules that it shares with
-- the client. Players gather in rooms and start expeditions into rifts
-- (server/rooms/RoomManager.ts), fight round by round (src/combat/engine.ts), gain experience
-- (src/progression/progression.ts), and deal with one another on a market, by direct trades and by
-- paid party slots (server/economy/EconomyService.ts). Each change of the stored state is one
-- transaction of a repository under an operation key
-- (server/repositories/InMemoryPlayerRepository.ts), so that a repeated request is harmless.
--
-- Files.
-- - Prelude and its children: tests, lists, sorting, integers, maps; names of the library.
-- - Data: shared/game-data/types.ts and StoredPlayerProfile of server/repositories/types.ts.
-- - Economy.Types: shared/economy-types.ts and EconomyState. Economy.Monad: one transaction as a
--   state and error monad. Economy.Store: the private helpers of EconomyService. Economy.Market:
--   match and settleFill. Economy.Orders: createSellOrder, createBuyOrder, cancelMarketOrder.
--   Economy.Trades and Economy.TradeEnd: the direct trades. Economy.Slots: the party slots.
--   Economy.Repository: economyTransact and startExpeditionTransact, with transact in
--   Economy.Repository.Profiles. Economy.Service: the requests.
--   Proofs: Economy.Valuation (rules for additive quantities), Economy.Totals, Economy.Conservation,
--   Economy.Market.Book, Economy.Market.Fills, Economy.Market.Uncrossed, Economy.Market.Settled,
--   Economy.Books, Economy.Repository.Keys, Economy.Repository.Retries.
-- - Combat.Types, Combat.Engine, Combat.Round: src/combat/engine.ts with src/types/game.ts and
--   src/data/config/balance.ts. Combat.AutoPotion: shared/game-data/autoBattle.ts. Combat.Enemies:
--   server/combat/firstRiftEnemyFactory.ts. Proofs: Combat.Fates, Combat.Victory,
--   Combat.Chosen.
-- - Progression: src/progression/progression.ts and shared/game-data/progression.ts. Proofs:
--   Progression.Levels.
-- - Players: server/players/PlayerStateService.ts. Players.Attempt is what a mutation may throw,
--   Players.Bag the helpers on lists of entries, Players.Inventory equip and unequip, Players.Items
--   the other operations on items, Players.Rifts the progress in the rifts of
--   shared/game-data/rifts/index.ts, Players.Profile the stats and the character of a profile.
--   Proofs: Players.Purses, Players.Unlocks, Players.Counts, Players.Held,
--   Players.Consumed, Players.Crafted, Players.Outcomes.
-- - Professions: server/professions/ProfessionService.ts and shared/professions.ts, the gathering
--   jobs. Proofs: Professions.Jobs.
-- - Loot: server/loot/professionLoot.ts. Proofs: Loot.Living.
-- - Rooms: server/rooms/RoomManager.ts and server/types/room.ts. Rooms.Handler is a handler as a
--   function on the state of the manager that keeps its writes when it fails or throws, Rooms.Types
--   the state and what the manager is given, Rooms.Store its reads and writes and the calls of the
--   services, Rooms.Lobby and Rooms.Leaving the lobby, Rooms.Start the start of an expedition,
--   Rooms.Battle and Rooms.Rounds the rounds, Rooms.Rewards the rewards and the loot, Rooms.Votes
--   the votes, Rooms.Peers the connections, Rooms.Events what happens to the manager. Proofs:
--   Rooms.Keeping, which shows once that every handler keeps any invariant with the laws of
--   Rooms.Keeping.Laws, and its children; Rooms.Roster and Rooms.Wealth and Rooms.Once, which fill these laws, with
--   Rooms.Entries; Rooms.Decision with its child Wins; Rooms.Locked with Lobby and Play.
-- - Social: server/social/FriendsService.ts and server/social/social-utils.ts, the friends and the
--   blocks, and socialTransact around them. Social.Types the records and the tables, Social.Friends
--   the calls. Proofs: Social.Pairs, Social.Amity and Social.Relation, the
--   relation of the friends that the calls implement, with their children Calls. Social.ChatRate:
--   server/chat/ChatRateLimiter.ts.
-- - The modules named Tests hold runs at concrete inputs.
--
-- How the model reads the code. Identifiers are numbers, since the code compares them and does
-- nothing else with them, but for canonicalPair, for which the players are
-- numbered in the order of their identifiers; the two orders on texts (localeCompare and <) and the normalization of
-- names are parameters, as are randomUUID, the clock, the random generator and floating point.
-- Coins are integers, so that a balance below zero can be told from zero. A Map is an association
-- list in insertion order, and an object that the code mutates through a reference is read and
-- written under its key. A throw discards the clone on which a transaction works, so an error
-- carries no state. A handler of the rooms, instead, keeps its writes; it runs to its end before the
-- next one, so the interleavings at its awaits are not modelled. The texts of operation keys are
-- given as functions of their parts, and the tables of content are parameters. Fees of one and two percent are rounded up in exact arithmetic: for amounts
-- below 2 ^ 46 the doubles agree.
--
-- Bounds. A matching of orders runs on as many rounds as there are units in the open buy orders of
-- the item, and one more, since a fill takes at least one unit; the loop that gains levels runs on
-- one round more than the points of experience, and one for level 0; the levels of a profession run up
-- to the greatest, 60.
--
-- Not modelled: the read-only snapshots and every message to a client, buyNow and sellNow, the texts
-- of the combat log, guilds, chat but for the rate limiter, the rewards of professions, authentication, the creation
-- of a player and the operation keys around the operations of Players and Professions that the rooms
-- do not call, telemetry and play sessions, the database behind Prisma, the network and the user
-- interface.
pub mod Prelude
pub mod Data
pub mod Economy
pub mod Combat
pub mod Players
pub mod Professions
pub mod Progression
pub mod Loot
pub mod Rooms
pub mod Social
