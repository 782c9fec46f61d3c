-- ===== src/Lib.antt =====
-- The replay subsystem of the League of Legends AI coach (backend/app): uploads of a recorded
-- match, the queue of jobs that process and delete them, and the limits of the public gateway.
--
-- The parts and how they meet. A client creates a replay, uploads the video, completes the upload
-- and later deletes the replay; each request is a few transactions on the replay tables and calls of
-- the object store (services/replays/service.py). Completing and retrying queue a PROCESS job,
-- deleting a DELETE_ALL job; a worker claims jobs, beats while it works and settles them
-- (repositories/replays.py, services/replays/processor.py); a timer recovers the jobs of workers
-- that were lost and sweeps what has outlived its retention.
--
-- Which file models what (paths below backend/app):
--   Domain, Domain/Times: services/replays/domain.py, the enums, times and coverage;
--   Rows: models/replay.py, the rows of the three tables, and the status sets;
--   Database: the tables as lists, what a transaction raises, and the constraints that
--     backend/alembic/versions/0002_replay_r1.py declares;
--   Repo/Replays, Repo/Jobs, Repo/Recovery, Repo/Retention, Repo/Artifacts:
--     repositories/replays.py, one function per method of SqlReplayRepository,
--     SqlReplayJobRepository and SqlReplayArtifactRepository;
--   Repo/Sound and below: what holds between transactions, and each operation against it;
--   Repo/Transition, Repo/Queueing, Repo/Claims: single operations against their contracts;
--   Repo/Steps, Repo/Reach, Repo/Buried: the transactions as a step relation, and its invariants;
--   Service/Calls, Service/Create, Service/Complete, Service/Manage: services/replays/service.py
--     with security.py and the interface of storage/base.py; Service/Runs, Service/Requests,
--     Service/Deletes, Service/Returns, Service/Promise, Service/Retried, Service/Access: what the
--     requests do and give;
--   Service/Enqueue, Service/Enqueued: enqueue_idempotent of repositories/replays.py, an insert and a
--     read in a session of its own, with other sessions between them;
--   Processor, Processor/Deletion: classify_process_error, _retry_delay, _fail_job,
--     _handle_process_failure, delete_source and delete_all of services/replays/processor.py, with
--     Processor/Failing, Processor/Mirror and Processor/Deleted about them;
--   Processor/Pipeline, Processor/Process, Processor/Process/Extract, Processor/Process/Run: process,
--     _process_in_scratch, _upsert_frame, _transition, the guards against a deletion and the cleanup
--     of a cancelled job, of the same file, with the modules below them about these, above all
--     Processor/Process/Ready for a run that ends READY and Processor/Process/Ends for all ends;
--   Frames and below: the frame plan of the same file;
--   RateLimit and below: the counters of services/replays/rate_limit.py;
--   Routing, Routing/Order: core/routing.py; Errors: core/errors.py; RiotId, RiotId/Parts:
--     services/parsing/players.py and core/normalization.py;
--   Detection and below: repositories/platform_detections.py and models/platform_detection.py, with
--     Detection/Service and Detection/Service/Requests for services/platform_detection.py and the
--     other modules of Detection about them;
--   Media: validate_probe, _TailBuffer and _read_stdout of services/replays/media.py, Media/Progress:
--     its _RateLimitedProgress; Media/Normalize: normalize, extract_frame and the check of the video
--     that is made; Media/Buffers, Media/Lines, Media/Accepts, Media/Normal,
--     Media/Published about them;
--   Prelude and below: numbers, lists, tables, exceptions; Tests and below: concrete runs.
--
-- How state and operations correspond. A table is a list of records, a column of texts that stand
-- for an enum holds the enum, a UUID is a number and an instant a number of microseconds. A
-- transaction maps the tables to its result and the new tables, or raises and changes nothing. A
-- request passes a world: the tables, the object store and the number of its transactions; what
-- other sessions do before each of them is the function `others`. Draws of uuid4(), of the clock,
-- of the access token and of the jitter are arguments. The object store, the keyed hash, the
-- extension of a file name and the stored matches are parameters. A text that is too long for its
-- column is an error where it can come about: in the table of detected platforms.
--
-- Bounds and fuel. No definition needs fuel: every loop goes over a list. Frame times are integers,
-- and 5400000 ms is the longest video that the settings admit.
--
-- Floats are fractions with a sign where they are compared; what the processor computes of them
-- (milliseconds of a duration, the share of the frames that are done) is a parameter.
--
-- Not modelled: transactions that overlap (skip_locked passes over rows that another one has
-- locked), progress callbacks that overlap, the FFmpeg processes with their command lines and the
-- parsing of their output, the storage backends, the worker loop, the HTTP routes, the Riot client,
-- the sharing of a running detection, matches and players, static data, configuration, metrics and
-- logging.
pub mod Prelude
pub mod Domain
pub mod Frames
pub mod RateLimit
pub mod Rows
pub mod Database
pub mod Repo
pub mod Service
pub mod Processor
pub mod Errors
pub mod Routing
pub mod RiotId
pub mod Detection
pub mod Media
pub mod Tests
