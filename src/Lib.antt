-- ===== src/Lib.antt =====
-- The patent storage service: users submit patents with an uploaded document, admins approve or
-- decline them, and an outbox tells a search service which patents are in the corpus. An Express
-- application (src/app.js, src/controllers, src/routes) hands each request to a service
-- (src/services), which reads and writes Postgres through `@prisma/client` and an object storage
-- through presigned URLs. A second process, the relay (src/workers/outboxRelay.js), publishes the
-- rows of the outbox on a Kafka topic.
--
-- Schema and State are prisma/schema.prisma: one record per table, with its unique constraints,
-- and the state that all handlers share. Exec is an asynchronous function that may throw over
-- that state; `transaction` is `prisma.$transaction`. Prisma is the database client as an
-- interface with the documented laws of its calls; Prisma/Memory meets them with lists. What the
-- database leaves open is a parameter: the order of rows that `ORDER BY` does not tell apart
-- (Prisma/Ordered), the order of `RETURNING` and the locks of other transactions (the record Engine
-- of Outbox/Defs). Errors is
-- src/utils/errors.js, Events is src/events/patentEvents.js, Storage is
-- src/services/storageService.js, with the file names of uploads in Storage/Filename.
--
-- Patents is src/services/patentService.js with src/services/patents: Lifecycle (the transition
-- table and the conditional write), Access, Relations, Documents, Review (submit, approve,
-- decline, delete), Editing and Updating (create, edit), Listing, Reads. Outbox is
-- src/services/outboxService.js and the relay. Corpus is the consumer's view: it puts every
-- transaction of the patent service and every write of the relay into one step relation, and ties
-- the outbox to the statuses. Users is src/services/userService.js: sessions with rotating
-- refresh tokens, accounts; Users/Seed is prisma/seed.js. Catalog is the categories and the
-- inventors. Middlewares is src/middlewares/idempotency.js and the error handler. Dto is
-- src/utils/dto.js, Controllers is src/controllers. Middlewares/Auth is src/middlewares/auth.js,
-- Middlewares/Requests the request ids and the key of the limit on logins, Validation is
-- src/utils/validation/shared.js as far as ids, passwords and names go, Routes is src/routes:
-- each route with its guard and the check of its id. Samples holds the data of the tests, which
-- stand in the Examples modules.
--
-- Frontend is the session of the single-page application: Client is
-- frontend/src/services/apiClient.ts with tokenStore.ts (requests, the refresh and the retry),
-- Provider is authService.ts with context/AuthContext.tsx, Guards is App.tsx with the routes,
-- Server puts the handlers of the API behind the page, Forms is utils/validation.ts. A request of
-- a page runs to its end before the next, but in Parallel, which follows the refresh token while
-- requests share a refresh, and in Interleaved, which runs the callbacks of the page in any order.
--
-- A function of the source keeps its name in snake case. A handler reads before its transaction,
-- and other requests run in between; so each transaction is a definition of its own (`review_tx`,
-- `update_tx`, `rotate_tx`), whose arguments from earlier reads are arbitrary in Corpus. Where
-- two transactions overlap under READ COMMITTED, the statement that was read is an argument of
-- the body (`review_body`). Times are numbers of milliseconds and arguments, as are random texts.
-- The relay's loop is run on the list of its wake-ups, and Outbox/Passes says how many are
-- enough. No loop needs fuel but the printing of a number (Prelude/Decimal), whose fuel is above
-- the number and so above the count of its digits.
--
-- Not modelled: express-validator chains on bodies and queries, the limits of requests, the
-- process start, the pages of the front end and the Kafka Connect script; the columns
-- `updated_at`, `s3_file_url` and `ai_confidence_score`; the gaps of id sequences; the cut of an
-- error text to 2000 characters; bcrypt, jsonwebtoken, the broker and the object storage, which
-- are interfaces.
pub mod Prelude
pub mod Errors
pub mod Exec
pub mod Prisma
pub mod Schema
pub mod Events
pub mod State
pub mod Patents
pub mod Storage
pub mod Outbox
pub mod Corpus
pub mod Validation
pub mod Users
pub mod Catalog
pub mod Dto
pub mod Controllers
pub mod Routes
pub mod Frontend
pub mod Middlewares
pub mod Samples
