-- ===== src/Lib.antt =====
-- Zhyvo: rooms in which people share photos and videos for a few days.
--
-- The services of the Go back end as state passing functions, with the theorems that make them correct.
-- An HTTP request calls one method of a service; the method reads and writes PostgreSQL, mostly in one
-- transaction, and calls the object store. `cmd/worker` runs the cleanup of expired uploads and rooms.
-- The services meet in the database: an upload reserves capacity in the room's row, a completion turns
-- the reservation into use, and an abort, an expiry or a deletion gives it back. The invariant
-- `Capacity.IsSound` ties these counters to the rows that they count.
--
-- Files:
--   Base            Boolean tests, lists, tables (find, modify, delete, sum, unique keys), Go's
--                   integers and strings, decimal numerals and raw base64.
--   Schema          the tables of migrations/00001 to 00004, one record for each, and `Db`.
--   Exec            how a method runs: `World` (committed database, open transaction, calls of the
--                   object store), `Env` (what a request meets), errors, and the monad `M`.
--   Capacity        the invariant, and what each kind of statement does to it.
--   Media           internal/media/service.go: `Initiate`, `PartURLs`, `Complete`, `Abort`,
--                   `releaseReservation`; Media/Gallery: internal/media/gallery.go, with
--                   `Gallery` in Browse.
--   Room            internal/room: Create, Queries (`Preview`, `Get`, `List`, `Members`), Join, Manage
--                   (`Update`, `Delete`), Validate, Slug, Password.
--   Cleanup         internal/cleanup/service.go: `runBatch` and what it calls.
--   Thumbnail       internal/thumbnail/service.go: `runBatch` and what it calls.
--   Auth            internal/auth: Token (access tokens), Telegram (initData and the display name),
--                   Sessions (the statements), Login (`CreateAnonymous`, `CreateTelegram`), Refresh, Revoke
--                   (`Revoke`, `SessionIsActive`, `GetIdentity`), and Grants, the abstract map of refresh
--                   tokens that the service implements.
--   HttpApi         internal/httpapi: RateLimit, Authenticate (`requireAuth`), the handlers in Uploads,
--                   Rooms and Accounts, the responses in Respond, and `NewRouter` in Router.
--   ObjectStore     internal/objectstore/store.go: Presign (signed URLs, `Stat`) and Disposition.
--   Config          internal/config/config.go: `Load`.
--   System          the requests and batches as steps of the database, and what they reach.
--   Tests           concrete inputs, and the theorems applied to them.
-- A file below one of these that ends in Sound, Succeeds, Ends, Retry, Outcome, Repeat, Effect, Access,
-- Numbers, Numbered, Next, Sorted, Isolation, Verify, Normal, Canonical, Parse, Rotated, Rotates, Once,
-- Opens, Logins, Refines, Sessions, Serves, Process, Valid, Accepts, Bounds, Safe, Guarded, Reads, Acts,
-- Steps, Separate or Authorized holds proofs about the module above it, but for Media/Validate/Canonical and
-- Auth/Sessions, which define; so do Room/Owner, Room/Create/Attempts, Cleanup/Rooms, Cleanup/Loops,
-- Cleanup/Doomed, Media/Initiate/Room, Media/Current and the children of Base/Table and Capacity.
--
-- State and operations. A method `Service.X` is a function of the same name in snake case from `Env`, its
-- arguments and the `World` to a result and the `World` that it leaves. `begin_tx` copies the committed
-- database, statements change the copy, `commit_tx` writes it back; a return before the commit leaves
-- the committed database alone, like the deferred rollback. Every statement and every call of the
-- object store can fail on its own (`Env.fails`), CHECK constraints and unique indexes are tests of the
-- statements that can meet them, and SKIP LOCKED passes over rows that `Env.locked` names. A lock
-- (FOR UPDATE, the advisory lock) orders transactions; a theorem about a transaction that starts in any
-- sound state covers what other requests did before it.
--
-- Bounds and fuel. Numbers of rows and columns are natural numbers; sizes and part numbers of a request
-- are signed, and the sum that `lockRoomForUpload` compares wraps at 2^64. Times are seconds; a
-- nanosecond clock only refines them. The attempts at a slug are the eight of the source. The loops of
-- the workers take fuel, and `Cleanup.Ends` and `Thumbnail.Ends` show how much is enough.
--
-- Parameters: the clocks, uuid, crypto/rand, SHA-256, argon2, time formatting, PostgreSQL's upper(trim()),
-- ffmpeg, the texts of errors and the answers of the object store are fields of `Env`; the token bucket
-- of a client is an argument of the rate limiter; golang-jwt and the text form of a UUID are the record
-- `Jwt`, with their documented behaviour as `IsJwt`; url.ParseQuery, HMAC-SHA-256 and the JSON of a user
-- are the record `Signing`; the signer and the StatObject of MinIO are the record `Minio`; the decoding
-- of a gallery cursor is an argument of `gallery`; os.Getenv and time.ParseDuration are arguments of
-- `Config.load`, and decoded JSON is an argument of a handler. Strings are lists of code points; case
-- mapping covers the letters that have an ASCII counterpart.
--
-- Not modelled: the text of a gallery cursor, JSON, which routes the router puts
-- the rate limiter before, chi's own middleware, the calls of internal/objectstore that only pass on to
-- MinIO (`Remove`, `RemovePrefix`, `PutFile`, the multipart calls), internal/database and cmd (start-up),
-- and the front end in frontend. Foreign keys beyond the cascades of a deleted room are not checked by the
-- statements.
pub mod Base
pub mod Schema
pub mod Exec
pub mod Capacity
pub mod Media
pub mod Room
pub mod Cleanup
pub mod Thumbnail
pub mod Auth
pub mod HttpApi
pub mod Config
pub mod ObjectStore
pub mod System
mod Tests
