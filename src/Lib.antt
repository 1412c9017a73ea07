-- ===== src/Lib.antt =====
-- A model of the services of the MyRide API, and what they guarantee.
--
-- The program is a NestJS backend for group trips. Users sign in by phone, create trips with stops,
-- ask to join or join by a shareable link, follow their progress through the stops, chat, share their
-- positions, raise SOS alerts and form communities. Each module below models one service; the files
-- under src/modules/<name>/ hold the code.
--
--   * Entities: the rows of src/modules/trips/entities/. Ids are natural numbers, since the code
--     only compares them, times are numbers of milliseconds or seconds as the file says.
--   * Store: the tables that the trip services share, their exceptions, and the invariant of trips and
--     participants (Store.Members, Store.Capacity). A table is the list of its rows, and findOne,
--     find, UPDATE and DELETE are the functions of Common.Table.
--   * Trips: src/modules/trips/trips.service.ts. Trips.Membership has requestJoin, approveJoin,
--     rejectJoin, leaveTrip and listJoinRequests, Trips.Editing has create, findOne, update, cancel
--     and loadFullTrip, Trips.Listing has list and discover. Trips.History has the sequences of calls
--     as a step relation, Trips.Standing how a user stands with a trip and the moves that the
--     contract of membership allows, Trips.Lifecycle the refinement.
--   * Progress: src/modules/trips/stop-progress.service.ts, with ensureRowsExist in Progress.Seed.
--   * ShareLinks: src/modules/share-links/share-links.service.ts, with what a visitor does with a
--     link in ShareLinks.Joining.
--   * Auth: src/modules/auth/auth.service.ts, one-time codes in Auth.Otp and tokens in Auth.Tokens.
--   * Users: src/modules/users/users.service.ts, and updateProfile of src/modules/auth/auth.service.ts.
--   * Redis: what the services use of Redis's strings and counters, as a record of operations and laws,
--     with an instance. Sorted sets are in Chat.Window, streams in Chat.Stream, the keys of positions
--     in Location.Storage, each with an instance.
--   * Sos: src/modules/sos/sos.service.ts.
--   * Chat: src/modules/chat/. Chat.Access has room access and its cache, Chat.Limits the flood control
--     and the rate limit of positions, Chat.Window the rate limit of reactions, Chat.Posting
--     queueMessage and reply snapshots, Chat.Stream the message stream and its flush, Chat.History the
--     pages of a room, Chat.Reactions the reactions, Chat.Worker the flush worker, Chat.Gateway the
--     sockets and their handlers (Gateway.Handlers, Gateway.Reacting), Chat.Rest the HTTP routes.
--   * Departure: how the chat gets the messages of leaveTrip.
--   * Location: src/modules/location/, with the gateway in Location.Gateway and the HTTP routes in
--     Location.Rest.
--   * Community: src/modules/community/community.service.ts, invitations in Community.Invites, the
--     lists in Community.Browsing.
--   * VoiceCall: src/modules/voice-call/voice-call.service.ts.
--   * Version: src/modules/version/version.service.ts.
--   * Tests: a small store, a small chat server, and the runs of each theorem on them.
--
-- How the code is written here. A method is a function of the state to its result and the next state
-- (Common.Monad): an exception is an error value, what was written before it stays written, and a
-- transaction takes its writes back. The clock, generated ids, random tokens, bcrypt, the token
-- library and Firebase are arguments. Messages to other services, whose failures the code drops, are
-- listed in an outbox. Approving a request calls the seeding of Progress, joining by a link uses
-- the checks of Trips.Membership, and the gateways call the services they are given. What a gateway
-- emits is a list, each entry with the socket or the room that gets it.
--
-- Loops over lists are structural. The one fuel is the number of pages that a client of the history
-- asks for (Chat.History.Walk), and one page more than there are messages is proved to be enough. The
-- timer of the flush worker, which runs for ever, is a step relation.
--
-- Not modelled: the other HTTP controllers, configuration, the push servers, the wiring of Socket.IO's
-- Redis adapter, and the signing of tokens, which are input and output; slugify, which is an argument of
-- create; the haversine distance and PostGIS, which are arguments; and concurrency between requests:
-- each method runs alone.
pub mod Common
pub mod Entities
pub mod Store
pub mod Progress
pub mod Trips
pub mod Departure
pub mod ShareLinks
pub mod Redis
pub mod Auth
pub mod Users
pub mod Community
pub mod Sos
pub mod Chat
pub mod Location
pub mod VoiceCall
pub mod Version
pub mod Tests
