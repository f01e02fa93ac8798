-- ===== src/Lib.antt =====
-- Verification of the payment simulator: an API that accepts card payments (app.js), a PostgreSQL
-- store with a transactional outbox (store/store.js, outbox/outboxProcessor.js), and workers that
-- process the accepted transactions from a queue (jobs/).
--
-- How the parts interact. `POST /pay` authenticates a client, hashes and validates the body, asks
-- the risk rules, removes the card data and stores the transaction with an outbox event in one
-- database transaction. The outbox publisher claims events and enqueues them. A worker takes a job,
-- claims its transaction for the length of a lease, renews the lease while it works, decides by the
-- processor and the routed system, and finalizes. Claims that are left behind are recovered, and a
-- failed job is retried or kept as a dead letter.
--
-- Files, with the code that each models:
--   Value            JavaScript data and conversions; numbers are IEEE doubles in Value/Numbers
--   Sensitive        utils/sensitiveData.js; sanitizeText is in Redact
--   Redact           sanitizeText of utils/sensitiveData.js, with its regular expressions
--   RequestHash      utils/requestHash.js, with JSON.stringify in RequestHash/Json
--   Config           config/config.js
--   Validation       validation/validator.js
--   Risk             risk/riskEngine.js
--   Systems          broker/router.js, processor/processor.js, systems/*.js
--   Text, Auth       middleware/apiKeyAuth.js, statusAuthorization.js, corsConfig.js
--   RateLimiter      middleware/rateLimiter.js, the limiter over Redis
--   Store/Tables     the tables as lists of rows, and UPDATE and SELECT on them
--   Store/Sql        one connection: BEGIN, statements that may fail, COMMIT, ROLLBACK
--   Store/Save       insertOutboxEvent and saveTransactionWithOutbox of store/store.js
--   Store/Updates    the other statements of store/store.js
--   Jobs             jobs/transactionJobHandler.js; Jobs/Failures: jobs/transactionWorker.js
--   Outbox           outbox/outboxProcessor.js: statements; Outbox/Publish: claim and publication;
--                    Outbox/Interval: startOutboxProcessor
--   Recovery         recovery/transactionRecovery.js
--   Migrate          db/migrate.js
--   Metrics          observability/metrics.js
--   App              POST /pay and GET /status/:id of app.js; App/Server: the middleware and all
--                    routes
--   Processes        api.js, worker.js, outbox.js: start-up checks and shutdown
--   Settlement       generateSettlement.js
--   Queue            queue/queue.js
--   System           all processes as steps on the shared database and queue
--   Prelude, Tests   shared helpers; sample data and runs
-- A child module that is not named here holds what is proved of the code in its parent.
--
-- How state is modelled. A handler that talks to the database in one transaction is a function from
-- a session to a result and a session; every statement may fail before it runs, or run and lose its
-- answer (`Fault`). A statement that runs on its own is a function on the tables. `Action` and
-- `perform` interleave them: the job handler is cut at its database calls. `Reachable` lets any
-- process take any step; in `Claiming` a publisher publishes only events that a claim answered. The
-- two intervals are state machines of ticks and ends of rounds, with the other processes' changes in
-- between. A thrown error is a value of `Result`. Times are numbers of milliseconds. All recursion is
-- structural; there is no fuel.
--
-- What stands for code outside the repository. `Host` holds what the JavaScript engine and its
-- modules compute (number parsing and printing, SHA-256, HMAC, the environment, the comparison of
-- buffers) and the text that the PostgreSQL driver sends for a parameter; a theorem that relies on
-- one of them names the law. PostgreSQL statements, BullMQ's rule that a known job id is not added
-- again, and the Redis script are written out as the code relies on them.
--
-- What is not modelled, and why. Log lines. The construction of connection pools, queues, workers
-- and servers, and the limiter of the package express-rate-limit: I/O and other packages. Waiting
-- of two open database transactions for each other: each database transaction runs by itself; a
-- round of the publisher is one step of its interval, and in System its statements are steps. A
-- job leaves the queue when it completes (`removeOnComplete`), as a step of its own. PostgreSQL
-- keeps an amount and a text as they are sent: neither the rounding of NUMERIC(12,2) nor the
-- length limits of VARCHAR are there. A refusal of POST /pay is its code and reason, without the
-- status text beside them. Settings in milliseconds are whole numbers, and one below 0 counts as
-- 0. `timingSafeEqual` is total; that it throws on texts of different lengths is left open by
-- saying nothing of its answer there. The gaps that a rollback leaves in serial ids. Property
-- names that are array indices or `__proto__`.
pub mod Prelude
pub mod Value
pub mod Sensitive
pub mod Config
pub mod Validation
pub mod Processes
pub mod Recovery
pub mod Redact
pub mod Risk
pub mod Systems
pub mod Text
pub mod Auth
pub mod RequestHash
pub mod RateLimiter
pub mod Store
pub mod Jobs
pub mod Outbox
pub mod App
pub mod Settlement
pub mod Queue
pub mod System
pub mod Metrics
pub mod Migrate
pub mod Tests
