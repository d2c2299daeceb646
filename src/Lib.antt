-- ===== src/Lib.antt =====
-- The collaboration server of Along (server/, Go): shared focus sessions of a pair of accounts.
--
-- Parts and files. server/internal/domain holds the models (Domain/Models.antt) and the state
-- machine NextState (Domain/StateMachine.antt). server/internal/store/collaboration.go is the
-- store of sessions on PostgreSQL: Store/Schema.antt has the tables of
-- server/migrations/000001_initial.sql as lists of rows in a record `Db`, and Store/Tx.antt a
-- transaction as a function from a database to an error (a rollback) or a value and a new database,
-- with `do` blocks in place of the chains of `if err != nil`. Store/Events.antt has appendPairEvent
-- and enqueuePartnerNotification, Store/Idempotency.antt the idempotency keys, and Store/Sessions/
-- the operations: Read (readSession, requirePairMember), Elapsed (completeElapsedSession), Start
-- (StartSession, ImportSoloSession), Transition (transitionSession), Care (AddNote, AddCheer),
-- Queries (CurrentSession, SessionHistory, PairEvents). A Go function is named as its definition,
-- in snake case; where it first looks for a stored response, its second half is `…_new`.
-- Store/Sessions/Calls.antt runs sequences of calls. Store/Pairing.antt has CreatePairInvite,
-- AcceptPairInvite and Pair, and Store/Push.antt the devices and the queue of notification jobs of
-- server/internal/store/push.go. Worker.antt is the worker of server/internal/apns/client.go, which
-- claims jobs from that queue and settles them, with Client.Send in Worker/Client.antt and
-- server/internal/push/cipher.go in Worker/Cipher.antt. server/internal/store/auth.go is
-- Store/Auth/: Accounts (accounts and credentials), Challenges, Logins (ActivateAccount,
-- CreateLoginSession, createSession), Recovery, Refresh (RotateRefresh), Identity
-- (ValidateAuthSession and the lists) and Revoke. Store/Auth/Calls.antt runs sequences of
-- its calls that change the database. Of server/internal/httpapi, Http/Handler.antt has
-- mapError and server/internal/apperror/error.go, Http/Sync.antt POST /v1/sync, which runs its
-- commands through the store one after another, Http/Sessions.antt and Http/Pairs.antt the handlers
-- of collaboration_handlers.go, Http/SignIn.antt and Http/SignIn/Accounts.antt those of
-- auth_handlers.go, Http/RateLimit.antt the rate limiter of middleware.go, and Http/Access.antt its
-- authenticate and other middlewares. Of server/internal/auth, Service.antt has Refresh, Recover
-- and RegenerateRecoveryCodes, Service/Ceremonies.antt and Service/Ceremonies/Logins.antt the
-- passkey ceremonies, Service/Tokens.antt the access and refresh tokens of token.go, and
-- Service/RecoveryCodes.antt recovery.go. Config.antt and its children are server/internal/config,
-- Migrate.antt is server/internal/migrate, and Hub.antt the hub of server/internal/realtime. A
-- handler or a method of the service is a function of the database whose outcome is a value or an
-- error, and an error keeps what the earlier calls of the store have committed.
--
-- Conventions. A UUID, a digest and a time (in microseconds) are natural numbers; `s.now()`,
-- `clock_timestamp()` and the drawn UUIDs come in a record `Env`, where the database's clock is
-- read once in a call. SQL text is translated statement by statement: SELECT, UPDATE and INSERT are
-- `find`, `select`, `update` and an append with the primary keys, unique indexes and CHECKs that
-- the schema declares for it; a drawn UUID is taken to be new, and foreign keys are not checked.
-- The durations of the configuration are signed, and in nanoseconds.
-- A subtraction of times is written so that it does not pass below 0 for times after 1970.
-- RotateRefresh commits the revocation of a family before it returns ErrRefreshReuse, so reuse is
-- a value of the transaction and not an error, which would be a rollback. The arguments that grant a
-- session and its first refresh token are one record `Grant`. SHA-256, base64, Argon2, the decoding
-- of JSON, random numbers and what Client.Send answers are arguments. Deleting a pending account
-- deletes the rows that refer to it (ON DELETE CASCADE).
-- Versions and cursors (bigint) do not wrap; the duration of a Retry-After does. Loops are structural, but for the decimal digits of a
-- number n, which have n + 1 as fuel, and more gives the same digits.
--
-- A call of the store is one step. For those that run a serializable transaction (StartSession,
-- ImportSoloSession, JoinSession, TransitionSession, AddNote, AddCheer, CreatePairInvite,
-- AcceptPairInvite, ActivateAccount, CreateLoginSession, UseRecoveryCode, RotateRefresh,
-- ReplaceRecoveryCodes and RevokePushToken) the isolation lets them be; a serialization failure would
-- be a further error that changes nothing. CurrentSession, RevokeCredential, RevokeInstallation and
-- ClaimPushJobs run a transaction of the default isolation, and the others, SessionHistory,
-- PairEvents and Pair among them, open none: for these the model leaves out what other calls do
-- between their statements.
--
-- A call of the store has the errors that its statements give and none from outside the database,
-- such as a cancelled context or a lost connection. So the deletion of a pending account by
-- BeginAccountRegistration, whose error the source discards, does not fail here. JSON is kept as the
-- value that it encodes.
--
-- Not modelled: routing, the pages and the diagnostics of server/internal/httpapi, its middlewares
-- for request ids, panics and the access log, and the frames of the WebSocket, which are glue over
-- net/http or go to the log alone; what the libraries go-webauthn, golang-jwt, Argon2, AES-GCM and
-- HTTP/2 do, which are parameters; logging and the entry points, which are start-up and I/O; and
-- the mobile client, which is not written in Go.
mod Prelude
pub mod Domain
pub mod Store
pub mod Worker
pub mod Http
pub mod Service
pub mod Hub
pub mod Config
pub mod Migrate
mod Tests
