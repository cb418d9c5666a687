-- ===== src/Lib.antt =====
-- Verification of the Alicia server, the game server of src/ and include/.
--
-- The program is a set of servers (lobby, ranch, race, messenger) on one process. Clients speak a
-- binary command protocol: a network server collects their bytes, CommandServer cuts them into
-- commands, and a handler per command works on the rooms, races, trackers and data records behind it.
-- This library models the parts with logic and state of their own. Each part is a module for its
-- state and operations, with child modules for what is proved of it:
--
--   Util/Stream              SinkStream and SourceStream of src/libserver/util/Stream.cpp
--   Util/Scheduler           Scheduler of src/libserver/util/Scheduler.cpp
--   Util/Time, Util/Text     packed times and the splitting of strings in src/libserver/util/Util.cpp
--   Network/MessageMagic     the magic of src/libserver/network/command/CommandProtocol.cpp
--   Network/CommandServer    receiving in src/libserver/network/command/CommandServer.cpp
--   Network/CommandDeferrer  include/libserver/network/command/CommandDeferrer.hpp
--   Data/Storage             include/libserver/data/DataStorage.hpp with Record.hpp
--   Data/Repair              the tests for damaged data in src/libserver/data/DataRepair.cpp
--   Room, Room/System        src/server/room/Room.cpp and src/server/system/RoomSystem.cpp
--   System/Otp               src/server/system/OtpSystem.cpp
--   System/Matchmaking       src/server/system/MatchmakingSystem.cpp
--   System/Reward            src/server/system/RewardSystem.cpp
--   System/Infraction        src/server/system/InfractionSystem.cpp
--   System/Item              src/server/system/ItemSystem.cpp
--   System/Quest             src/server/system/QuestSystem.cpp
--   System/Horse             src/server/system/HorseSystem.cpp
--   Registry/Horse           classes, potentials and grades in src/libserver/registry/HorseRegistry.cpp
--   Registry/Character       src/libserver/registry/CharacterRegistry.cpp
--   Ranch/Tracker            src/server/tracker/RanchTracker.cpp
--   Ranch/Market             src/server/ranch/BreedingMarket.cpp: registering, ending, the snapshot
--   Ranch/Genetics           ancestry, grade and stats of foals in src/server/ranch/Genetics.cpp
--   Race/P2dIdPool           include/server/race/P2dIdPool.hpp
--   Race/Tracker             src/server/tracker/RaceTracker.cpp
--   Race/Magic               src/server/race/MagicSystem.cpp
--   Race/Instance            the stages and the gauge in src/server/race/RaceInstance.cpp
--   Race/Results             the winning team and the new master at the end of a race, there too
--
-- A definition keeps the name of its function or field in lower case with underscores: AddPlayer is
-- `add_player`, `_nextCharacterOid` is `next_character_oid`. An operation is a function from the state
-- to its answer and the state it leaves. Code that throws answers an Outcome, with the state as it is
-- when the exception leaves. Common has the numbers, lists, maps and outcomes that all parts share.
--
-- Numbers are natural numbers, with the wrap of a 64-bit, 32-bit or 16-bit number written out where the
-- source can reach it. A clock reading or a random choice is an argument. A data source is a
-- parameter: three listeners over a state of its own, with what the cache relies on as a record of
-- laws (Data/Storage/View). The handlers of the commands are a parameter of the receive loop: a
-- function on a state of theirs that may set the client's code. The tax on the earnings of a stallion, a floating-point product, is a
-- function that is no more than its argument. A std::map or std::unordered_map is an association
-- list, and nothing proved depends on its order. What a mutex protects is one step. The receive loop
-- and the loop over a string run on fuel: a command takes at least four bytes and a character one, so
-- the number of bytes is fuel enough, which is proved; so do the splitting of a string, the classes of a
-- horse, of which there are thirty, and its potential, with ten levels. The stats of a foal are scaled
-- by a double: the product is a function that is no more than the exact quotient.
--
-- Not modelled are the sockets, the message definitions of the protocol, the configuration and
-- registry files, the data sources behind the cache, and what the handlers of the single commands
-- do, which compose the parts above; floating-point positions and amounts are left out.
pub mod Common
pub mod Util
pub mod Network
pub mod Data
pub mod Registry
pub mod Race
pub mod Ranch
pub mod Room
pub mod System
