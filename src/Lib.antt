-- ===== src/Lib.antt =====
-- Nebula ID: the id generators of the service and the machinery that keeps them serving.
--
-- The service issues 64-bit ids by one of several algorithms. A snowflake id packs the time, the
-- datacenter, the worker and a count within the millisecond; a segment id is the next number of a
-- range that a loader has reserved. A circuit breaker guards a dependency, the failure detector
-- says which datacenter may be used, and the degradation manager counts the failures of every
-- algorithm and says which one is in effect. The router takes a request to an algorithm and, where
-- that fails, along a fallback chain, and tells the degradation manager how each call ended. The
-- ranges of the segment algorithm come from a table, a transaction at a time under a lock for the
-- key. Worker ids and the lock that is shared between processes are kept in etcd. The HTTP handler
-- that parses an id reads the snowflake fields back, and the middleware in front of the handlers
-- refuses clients that failed to authenticate too often. Behind it, the routes let the keys of
-- administrators manage workspaces and keys, and the keys of users manage the groups and the business
-- tags of one workspace, all of them rows of a database.
--
-- Files and code:
--   Types: `CoreError`, `Id` and `AlgorithmType` of src/core/types/error.rs and src/core/types/id.rs,
--     and `HealthStatus` of src/core/algorithm/traits.rs.
--   Snowflake: `SnowflakeAlgorithm` of src/core/algorithm/snowflake.rs and its configuration of
--     src/core/config/algorithm.rs. The state is a record of the source's atomics; `generate_id`,
--     `generate_id_with_timestamp`, `construct_id` and `batch_generate` keep their names. The readings
--     of the clock are a list. Snowflake/Race is `generate_id` once more, one atomic access at a
--     time, for two callers.
--   ParseId: `extract_snowflake_metadata` of src/server/handlers/id_handlers.rs.
--   CircuitBreaker: src/core/algorithm/circuit_breaker.rs, all operations under their names.
--   AlgorithmRouter: `AlgorithmRouter` of src/core/algorithm/router.rs over the manager of
--     Degradation. An algorithm is a handle, and its call an argument, as it is a trait object there.
--   Segment: `Segment`, `DoubleBuffer` and the generating methods of src/core/algorithm/segment.rs. The
--     loader is a list of its answers. Segment/Runs is many calls, one after the other. Segment/Qps is
--     `QpsWindow` of the same file.
--   DcFailure: `DcHealthState` and `DcFailureDetector` of the same file.
--   Degradation: src/core/algorithm/degradation_manager.rs; Degradation/State is
--     `AlgorithmHealthState`. The answers of the algorithms to a health check are a function.
--   Repository: `allocate_segment` and `allocate_segment_with_dc` of src/core/database/repository.rs. A
--     row of the table is a record, and the whole transaction one function; `fault` is the error that
--     the database gives it, if any, and then nothing has changed. `default_dc` is the column's
--     default. Repository/Loader is the loaders of src/core/algorithm/segment.rs, and
--     Repository/Processes any number of processes, each with a buffer of its own, over one table.
--   LocalLock: `LocalDistributedLock` of src/core/coordinator/local.rs.
--   Etcd: src/core/coordinator/etcd.rs. `Client` is the trait `EtcdClientOps`, Etcd/Server what is
--     relied on of the service behind it, and Etcd/Memory a service that has it. Etcd/Worker is
--     `EtcdWorkerAllocator`, with a constructor of `Phase` for each point between two calls of etcd,
--     and Etcd/System any number of processes, which release only ids that they hold, though `release`
--     would delete the key of any id. Etcd/Lock is `EtcdDistributedLock` and its guard.
--   MemoryDao: `MemoryGarrisonDao` of src/server/auth/memory_dao.rs, the store with expiry times, and
--     MemoryDao/Glob its `glob_match`, MemoryDao/Counter its counters.
--   ApiKeyAuth: the failures that `ApiKeyAuth` of src/server/middleware/api_key_auth.rs tracks, and its
--     `auth_middleware` from there.
--   Catalog: the entities of src/core/database, with the tables and constraints of connection.rs there.
--     Catalog/Workspaces, Groups, BizTags and ApiKeys are the traits of src/core/database/repository.rs
--     that `SeaOrmRepository` implements, under their names. A query takes a store to an answer or an
--     error and a store; the store has a sequence of failures of the database, of drawn uuids and of
--     drawn secrets. Catalog/Triple and Keeps are the rules that the proofs about queries use.
--     Catalog/Preload is their queries over several tables, and Catalog/Names the text of algorithms and
--     formats in src/core/types/id.rs.
--   Http: src/server/router.rs. Http/Routes has a constructor for every endpoint that needs a key and the
--     layers before the handlers, Http/Handlers the handlers and their checks, Http/Service
--     `ConfigManager` of src/server/config/management.rs with the handlers of
--     src/server/handlers/biz_tag_handlers.rs, and Http/Keys those of api_key_handlers.rs and
--     workspace_handlers.rs there. Http/Separation, Tenancy, Shown, UserKeys and AdminKeys are the proofs.
--   Alert: `AlertState` and `evaluate_rule` of src/core/monitoring/core.rs, where what the evaluator says is
--     an argument.
--   Prelude: Boolean tests, lists, machine words, bits and association lists.
--
-- Bounds and fuel. A word of w bits wraps at 2 ^ w, as in a release build; where a theorem asks for
-- fewer than 2 ^ 64 operations, it is because of a counter. No loop runs on fuel of the model's own:
-- a loop goes through the clock readings or the loader's answers, and a call that has used them up is
-- `waiting`, never a result; theorems of progress say which readings or answers are enough. The
-- three rounds of a segment call, the hundred retries of a snowflake batch and the three attempts at
-- a lock are the source's. An allocation of a worker id is run for 511 calls of etcd, one for the
-- lease and two for each of the 255 ids. A number of 64 bits is printed with at most twenty digits.
--
-- Not modelled. There are no floating-point numbers: the comparison of what is left of a segment with
-- the switch threshold is a parameter, and the circuit breaker's test that a quotient of two counters
-- is above a half is written without the quotient, and the step that `StepCalculator` works out is an
-- argument. UUIDs come from the uuid crate, hashes of secrets from argon2, the tests of a request's
-- body from the validator crate. Redis, the texts of HTTP, gRPC, configuration files, audit and metrics
-- export are I/O. Except in Snowflake/Race, Etcd/System and Repository/Processes, one caller runs at a
-- time.
pub mod Prelude
pub mod Types
pub mod Snowflake
pub mod ParseId
pub mod CircuitBreaker
pub mod Segment
pub mod Degradation
pub mod DcFailure
pub mod MemoryDao
pub mod LocalLock
pub mod Repository
pub mod AlgorithmRouter
pub mod Etcd
pub mod ApiKeyAuth
pub mod Alert
pub mod Catalog
pub mod Http
