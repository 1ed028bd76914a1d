-- ===== src/Lib.antt =====
-- Verification of the identity access graph platform: its backend (apps/backend) takes the records
-- of directories and files in, builds a graph of identities and access from them, and looks for
-- risks in that graph; the frontend (apps/frontend) reads access to Linux hosts and paths out of it,
-- and filters what it shows. Paths are from the root of the repository.
--
-- Parts and files:
--
-- - Prelude: Boolean tests, lists, results, and JSON values (`Prelude.Json`: `undefined`, `null`,
--   Booleans, numbers, texts, arrays, objects; `Prelude.JsonText`: `String(v)` and
--   `JSON.stringify`).
-- - Pipeline: apps/backend/src/pipeline/pipeline-engine.ts and packages/shared-types/src/pipeline.ts.
--   `Pipeline.Types` holds the enumerations and records, `Pipeline.Engine` the fields of
--   `PipelineEngine` and the synchronous parts of `executeRemainingStages` (`advance`, `finish`),
--   `Pipeline.Methods` the methods (start, pause, resume, seed, nextStage, previousStage, replay,
--   reset, persistenceState, restore). What is behind an `await` is a `Thread` of a `System`;
--   `Pipeline.Step` resumes threads in any order, between any calls. `Pipeline.Run` runs one start
--   to its end without interleaving, against the plain recursion `run_stages`; `Pipeline.Schedule`
--   is about all interleavings of a caller that does not start a second activation over a first;
--   `Pipeline.Hazards` and `Pipeline.Failures` about what happens otherwise; `Pipeline.Back` about
--   stepping back.
-- - Pipeline.Stages: the five handlers of apps/backend/src/pipeline/stages/index.ts, which the engine
--   calls through `stageHandlers`. `Pipeline.Stages.Integrity`, `Matching` and `Keeps` are about
--   the graph they accept, the identities they match and the records they keep.
-- - Queue: apps/backend/src/imports/import-queue.service.ts over the rows of `ImportJobEntity` and
--   `ImportAuditLogEntity` (apps/backend/src/database/entities.ts). `Queue.Jobs` has the methods
--   that a worker calls (enqueue, claim, checkpoint, complete, fail), `Queue.Control` the others
--   (failPermanent, requeueRecovered, cancel, retry, stats), `Queue.Events` sequences of calls.
-- - Worker: apps/backend/src/imports/import-worker.service.ts, whose `tick` takes jobs from the queue
--   and whose `runJob` hands them back. Activations of `tick` that wait for a claim are counted.
-- - Risk: apps/backend/src/risk/finding.repository.ts (`Risk.Repository`, `Risk.Listing`) and the part
--   of `scan` in apps/backend/src/risk/risk.service.ts that detects, stores and resolves findings
--   (`Risk.Scan`).
-- - Csv: apps/backend/src/imports/parsers/csv-parser.ts. `Csv.Line` reads a line, `Csv.Sheet` has the
--   handler of a line, `Csv.Parsed` the sheet that results.
-- - Chunks: `parseCsvChunked` of apps/backend/src/imports/parsers/chunked-parser.ts, which hands the
--   rows of a large file on in chunks and saves checkpoints between them.
-- - Correlate: apps/backend/src/imports/correlation, which groups imported records to identities.
--   `Correlate.Keys` (the strategies), `Correlate.Conflicts` (conflicts, merge of fields),
--   `Correlate.Groups` (the loop over the records) and `Correlate.Results` model it; a group that
--   the index refers to is its place in the array.
-- - Linux: apps/frontend/src/services/linuxGraphAdapter.ts, with the types of
--   apps/frontend/src/types/linux.ts and graph.ts. `Linux.Graph` has the graph and its look-ups,
--   `Linux.Host` the row of a host, `Linux.Policies`, `Linux.Users` and `Linux.Directory` what reaches
--   it, `Linux.Effective`, `Linux.Depends` and `Linux.Hazards` the computations of the tabs,
--   `Linux.Detail` the cache and `Linux.Filtering` the list; `Linux.Calls` sequences of calls.
--   `getLinuxUsersForHost` pushes into arrays of the graph: each function gives the graph back.
--   `Linux.Pure`, `Linux.Criteria`, `Linux.Granted` and `Linux.Needed` describe the results without
--   state; the others lead from the code to these descriptions. Each call has a clock of its own.
-- - Paths: apps/frontend/src/services/graphInvestigation.ts. `Paths.Search` has `shortestPath` and its
--   cache, `Paths.Blast` has `blastRadius`, `attackPath` and `subgraph`. `Paths.Walks` says what a
--   path is; `Paths.Queues`, `Paths.Scanned`, `Paths.Searching`, `Paths.Rounds` and `Paths.Found` lead
--   to what is found, `Paths.Ends` to the end of the search. `Paths.Lockstep` and `Paths.Reached`
--   compare the two searches; `Paths.Attack` and `Paths.Closed` are about the other two.
-- - Filters: `filteredData` and the presets of apps/frontend/src/hooks/useGraphFilters.ts are in
--   `Filters.Apply`, with the setters and the choices; `Filters.Shown` is about the graph that is shown.
-- - Limiter: apps/backend/src/common/rate-limiter.guard.ts. `Limiter.Bucket` has `canActivate` and the
--   timer's clean-up, with tokens in exact parts in place of floating-point fractions.
--
-- Conventions: a clock reading, a fresh identifier and the outcome of code that is not modelled are
-- arguments. Numbers are whole and not negative; a `Date` is a text or a number of milliseconds
-- since 1970, and the database and the process read one clock. Fuel: a run in `Pipeline.Run` takes
-- a number of rounds, and as many as there are stages are enough, since each round completes a
-- stage or ends; `decimal` takes the number itself and one more, which is more than its digits;
-- `search` and `blast_search` in `Paths` take two rounds for each link and one more, since each round
-- but the first takes an end of a link that was not visited before. All other loops are over lists.
-- A statement on the database is one step, and succeeds.
--
-- Parameters: the handlers of an engine and its timeout (`Config`; the theorems on the whole
-- pipeline take `stage_handlers`), the rules, scores and digests of a scan (`Services`, `RiskRule`),
-- the configuration of the queue and of the parser, the lines that node:readline hands on; of the
-- Linux adapter the reading of dates, the moment one year ago and `toLowerCase`; of the filters
-- `toLowerCase`; of the correlation
-- `toLowerCase`, `toUpperCase` and the digest.
--
-- Not modelled: HTTP controllers, the database and Neo4j, authentication, the connectors' clients,
-- the rest of the frontend; the attack paths of the backend, the validation, mapping and conversion of imported
-- records, and the identity resolution; of a scan its lock, its notification and its failure
-- branch; the wording of the CSV parser's warnings; lengths of delays.
pub mod Prelude
pub mod Pipeline
pub mod Queue
pub mod Worker
pub mod Risk
pub mod Csv
pub mod Linux
pub mod Correlate
pub mod Paths
pub mod Filters
pub mod Limiter
pub mod Chunks
