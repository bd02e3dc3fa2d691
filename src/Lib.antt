-- ===== src/Lib.antt =====
-- Voxply server: a verification of the logic of the hub (hub/), of the identity protocol that it
-- shares with the clients (identity/), of the sign-in at a farm of hubs (farm/) and of the directory of
-- farms (seed/).
--
-- The program. A hub is a chat server: HTTP handlers (hub/src/routes) over one SQLite database
-- (hub/src/db/migrations.rs). Every handler first asks hub/src/permissions.rs what the signed-in user
-- may do. Messages that other parties must be able to check are signed over bytes that
-- identity/src/wire.rs lays out. A background worker (hub/src/dm_worker.rs) retries deliveries. A hub
-- also takes tokens that its farm signs; farm and directory have a database each, modelled likewise.
--
-- How it is modelled. The database is a record of tables, each the list of its rows (Db.antt), and SQL
-- statements are operations on such lists (Sql.antt, with their laws in Sql/Laws.antt,
-- Sql/Keys.antt and Sql/Upsert.antt). A handler `Result<T, (StatusCode, String)>` is a function from
-- the database to a reply and the database afterwards (Exec.antt): what was written before an early return stays
-- written, as in the source, where only `post_complete` uses a transaction. Requests run one after the
-- other. A query is answered; the only failures of the database are broken constraints (primary keys,
-- UNIQUE, and REFERENCES, which sqlx enforces), and the driver's own text is left out. The clock and
-- fresh identifiers are arguments. Audit events, which are tasks of their own, and log lines are left
-- out, and with them the panic of `&key[..16]` on a shorter key.
--
-- The files:
--   Common.antt, Common/*: names of the libraries, Boolean tests, `i64` (Int), `str` (Text), lists;
--   Exec.antt, Exec/Rules.antt, Exec/Success.antt: handlers, the rules by which their invariants are
--     proved, and what those that succeed leave behind;
--   Permissions.antt: hub/src/permissions.rs, `user_permissions` and `UserPermissions`;
--   Roles.antt: hub/src/routes/roles.rs, a function for each handler; Roles/Ops.antt has its requests
--     as one type, Roles/Rank.antt and Roles/Owner.antt the proofs;
--   Moderation.antt, Moderation/Channel.antt: hub/src/routes/moderation.rs, the hub-wide part and the
--     part about channels and voice; Moderation/Ops.antt, Guard.antt and Effects.antt the proofs;
--   Channels.antt, Channels/Update.antt: hub/src/routes/channels.rs; Channels/Tree.antt (what the
--     loops compute), Acyclic.antt and Limits.antt the proofs;
--   Wire.antt: `signing_bytes` of every message of identity/src/wire.rs; Wire/Bytes.antt and
--     Wire/Injective.antt the proofs;
--   Crypto.antt: hex, UTF-8, ed25519 and SHA-256 as parameters, and the two functions that check a
--     signature with them (identity/src/lib.rs, identity/src/wire.rs);
--   Pairing.antt: hub/src/routes/pairing.rs; Pairing/Invariant.antt, Status.antt and
--     Progress.antt the proofs;
--   Auth.antt: hub/src/auth/handlers.rs; Auth/Account.antt has the requests and the shared state,
--     Auth/Challenge.antt, Gates.antt and Entry.antt the parts of `verify`, Auth/Middleware.antt is
--     hub/src/auth/middleware.rs; Auth/Kept.antt and Frame.antt say what a sign-in leaves alone,
--     Auth/Replay.antt, Admission.antt, Owner.antt, Bans.antt, Session.antt and FarmToken.antt the proofs;
--   Identity.antt: hub/src/routes/identity.rs; Identity/Register.antt has the register that it
--     implements, Identity/Versions.antt and Blocks.antt what follows;
--   Recovery.antt, Recovery/Decide.antt: hub/src/routes/recovery.rs; Recovery/Outcome.antt and Closed.antt
--     the proofs;
--   BotCheck.antt: hub/src/routes/challenge.rs; BotCheck/Once.antt the proofs;
--   Lobby.antt: hub/src/routes/lobby.rs; Lobby/Level.antt the proof;
--   Farm.antt, Farm/Token.antt: farm/src/routes/auth.rs, farm/src/routes/revoke.rs and farm/src/token.rs;
--     Farm/Accepted.antt the proof, which joins them with the hub's middleware;
--   Seed.antt: seed/src/routes/farms.rs and seed/src/revalidation.rs; Seed/Listing.antt the proofs;
--   Invites.antt: hub/src/routes/invites.rs; Invites/Uses.antt the proof;
--   Friends.antt: hub/src/routes/friends.rs; Friends/Consent.antt the proofs;
--   Pow.antt: identity/src/pow.rs; Pow/Level.antt and Pow/Search.antt the proofs;
--   Outbox.antt: hub/src/dm_worker.rs; Outbox/Attempts.antt and Outbox/Due.antt the proofs;
--   Tests.antt, Tests/*: runs on a small hub, and each theorem applied to one.
--
-- Bounds and fuel. `climb` has 49 rounds and `ancestor_within` 50, as the loops of channels.rs have.
-- The search of `compute_security_level` has none in the source; its model takes fuel, and the theorem
-- on it says how much finds a nonce. Times and priorities are integers, with the wrap of `i64` written
-- out where a number from a request is added (the clock plus a constant stays far below 2^63);
-- lengths and casts of the wire format wrap at 32 bits.
--
-- Not modelled: messages, posts, direct messages beyond the outbox, alliances and federation, badges,
-- the issue of certificates, games, bots, the rate limiter (hub/src/rate_limit.rs, which counts in
-- floating point), the WebSocket and voice (hub/src/routes/ws.rs), and the hubs, games and
-- administration of the farm. Of the modelled files, the query `list_farms` of the directory, the reads
-- `list_channels`, `list_channel_voice_mutes`, `list_raise_hands` and the voice read-outs of
-- channels.rs.
pub mod Common
pub mod Exec
pub mod Sql
pub mod Db
pub mod Permissions
pub mod Roles
pub mod Moderation
pub mod Auth
pub mod Identity
pub mod Recovery
pub mod BotCheck
pub mod Lobby
pub mod Channels
pub mod Wire
pub mod Crypto
pub mod Pairing
pub mod Pow
pub mod Outbox
pub mod Invites
pub mod Friends
pub mod Tests
pub mod Farm
pub mod Seed
