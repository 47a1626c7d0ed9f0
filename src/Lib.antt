-- ===== src/Lib.antt =====
-- BrineVault: a data room for real-world assets. A chain (Sui) holds pools, data rooms, members
-- and documents, an indexer mirrors the chain's events into a database, an API server reads the
-- database and signs users in, documents are encrypted in the browser and stored on Walrus.
--
-- The parts, and the files that model them:
--   Shared   packages/shared/src/types: roles as masks (roles.ts), the states of a pool and the
--            whitelist of their transitions (pool.ts), with histories of a pool as an indexed type
--   Crypto   packages/encryption-sdk/src/keys/recovery.ts: gfMul and gfInv (Gf256), splitSecret and
--            recoverSecret (Shamir), over a proof of Lagrange interpolation at 0 in any field of
--            characteristic two (Lagrange)
--   Walrus   packages/walrus-sdk/src: withRetry (Retry), split and reassemble (Chunks),
--            WalrusClient and ChunkedUploader (Client), ChunkedDownloader (Download), the laws of a
--            network that keeps its blobs (Store), uploads and downloads together (RoundTrip)
--   Db       packages/db/src: the rows and the statements (Tables), the repositories of the tables
--            that mirror the chain (Chain) and their listings (Listing), with their unique, check
--            and foreign-key constraints
--   Indexer  apps/indexer/src: the event handlers (Handlers), processBatch, the polling loop and
--            the cursor (Loop); a handler is a sequence of statements on the store of Db that may
--            throw
--   Api      apps/api/src: SessionService (Session), AuthService (Auth), BillingService with its
--            repository and the subscription monitor (Billing), OrgsService with invite codes
--            (Orgs), the guards of rates, roles, access tokens and CSRF tokens (Guards),
--            verifyZkLogin (Auth/ZkLogin), the checks that the services share (Access), the
--            services of pools, data rooms, documents, reviews and decisions (Pools, Datarooms,
--            Documents, Reviews) over the store that the indexer writes, ChecklistService
--            (Checklist), AuditService (Audit), NotificationsService and the dispatcher
--            (Notifications)
--   Sui      apps/api/src/infra/sui/sui-tx.service.ts: the parameters of the builders (Params), the
--            builders (Builders), the signatures of the Move functions in
--            contracts/rwa_dataroom/sources (Entries), the request schemas of
--            apps/api/src/modules (Requests)
--   Encryption  packages/encryption-sdk/src: the engines (Engine), hashes (Hash), wrapping and
--            rotation of folder keys (Keys), over a record of Web Crypto's operations
--   Web      apps/web/src/lib/api/client.ts: ApiClient over any network (Client)
--   Tests    concrete runs
--
-- Conventions. Ids, addresses, digests, hashes and texts that the code only compares are numbers.
-- Time is an argument. Mutable state is a record passed on; an exception is a value of Result, and
-- what was written before it stays. Random bytes, HTTP, the signature check, the token hash,
-- the calendar, what the Sui SDK takes for an address and what of the database fails in a run of the
-- monitor are parameters. A random UUID is an argument or the next number. Bytes are numbers below 256; the source's bit operations on them
-- stay below 2 ^ 9. A table holds its newest row first, which is the order of the listings by time
-- of insertion. A transaction is the record of its Move call; the bytes of it are the SDK's. Calls
-- that run at once in one Promise.all are run in their order.
--
-- Fuel: gfMul halves its second operand, so that operand is enough; gfInv's exponent is 254; split
-- makes at most one round for a byte, the batches at most one for a chunk, both for sizes that
-- are not 0.
--
-- Not modelled: the bodies of the Move functions, the web interface but for its API client, the
-- controllers, the lengths of texts in the validation schemas, and what the Sui SDK, the token
-- library and Web Crypto do.
pub mod Base
pub mod Shared
pub mod Crypto
pub mod Walrus
pub mod Tests
pub mod Db
pub mod Indexer
pub mod Api
pub mod Sui
pub mod Web
pub mod Encryption
