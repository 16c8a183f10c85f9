-- ===== src/Lib.antt =====
-- piLoci: a self-hosted memory service for coding assistants. Clients send captured sessions; the
-- service keeps them as rows, distils them by a language model into memories and instincts when the
-- small device has room for it, watches its own health, and pairs devices with accounts.
--
-- The parts, and the files that model them:
-- - The rows (src/piloci/db/models.py, `RawSession`): Curator/RawSessions.
-- - The ceiling on waiting rows (src/piloci/curator/backlog.py), which an ingest enforces:
--   Curator/Backlog, its theorems in Backlog/Ceiling.
-- - The scheduler (src/piloci/curator/scheduler.py): Curator/Scheduler has `decide` and
--   `_recommend_chunks`, Scheduler/Window `IdleWindow` and `parse_idle_window`; the theorems are in
--   Scheduler/Window, Gates and Chunks.
-- - The worker (src/piloci/curator/distillation_worker.py): Curator/Worker has the choice of a batch,
--   `_process_one`, the handler of exceptions and `run_distillation_pass`; Worker/Outcome says what
--   becomes of a row, Worker/Retries follows a row through many passes, Worker/Loop is one round of the
--   loop of `run_distillation_worker`, with `_build_scheduler_config` and `_decide`.
-- - The health monitor (src/piloci/notify/health.py): Notify/Alerts has the state machine
--   `_eval_breach`, Notify/Monitor the four evaluators, the queue of the quiet hours and one iteration
--   of `run_health_monitor`; the theorems are in Alerts/Spacing, Monitor/Queue and Monitor/Digest.
--   Notify/Heartbeat is the periodic report.
-- - The pairing of devices (src/piloci/auth/device_pairing.py): Auth/DevicePairing, with Delivery and Creation.
-- - The session store (src/piloci/auth/session.py): Auth/Sessions has the sessions, with Limit and Ending,
--   Auth/LoginFails the counters of failed logins, with Window.
-- - The install codes (src/piloci/auth/install_pairing.py): Auth/InstallPairing, with Once.
-- - The prefilter (src/piloci/curator/prefilter.py): Curator/Prefilter, with Verdicts.
-- - Local logins (src/piloci/auth/local.py): Auth/Local has the password policy and `login`, Local/Access
--   its theorems, Local/Signup `signup`.
-- - The ingest (src/piloci/api/routes.py, `route_ingest` and `route_sessions_ingest`): Curator/Ingest, with
--   Ceiling and Again. The handlers are told whether a body is over its limit.
-- - The extraction (src/piloci/curator/extraction.py): Curator/Extraction has the cuts of a transcript,
--   the deduplication and `extract_session_multipass`; Extraction/Windows is about the chunks, Sampling about those of a little longer text,
--   Extraction/Merging about what is left of their extractions.
-- - Teams (src/piloci/api/team_routes.py): Teams has the handlers of teams, members and invites, over the
--   tables in Teams/Records. Teams/Access says who may change what, Owners that a team keeps its owner,
--   Answers that an invite is answered once, Joining who becomes a member; Members counts rows.
-- - The documents of teams (the same file, and src/piloci/storage/team_files.py): Teams/Documents, with
--   Documents/Pull for `route_pull_documents`. Documents/Cases says what a request can do to the site,
--   Edits is about uploaders, versions and paths, Conflicts about two edits of one version, Blobs
--   about shared bytes, Following about a client that follows a diff.
-- - The store of memories (src/piloci/storage/lancedb_store.py): Storage/Memories has the methods for a
--   project over the rows in Memories/Records, Memories/Team those for a team, Memories/Search the
--   searches, Memories/Chunks the chunks of documents. Memories/Isolation says which rows a write touches, Memories/Reading what is read
--   after it, Search/Visible what a search may find. Storage/Lance is the database.
-- - The store of instincts (src/piloci/storage/instincts_store.py): Storage/Instincts, with Confidence (its floats), Bounds,
--   Promotion and Recommended.
-- - The memory tools (src/piloci/tools/memory_tools.py): Tools/Memory has `handle_memory`, with Refusals
--   and Duplicates, Tools/Recall `handle_recall`, with Previews.
-- - The cache of embeddings (src/piloci/storage/cache.py): Storage/Cache, with Recency and Runs.
-- - The retention pass (src/piloci/ops/maintenance.py): Ops/Maintenance.
-- - Shared: Prelude (tests, lists, association lists, results, floats), Text (the string methods that
--   the parser calls) and Db (the statements of SQL).
--
-- How they interact: an ingest stores a pending row and calls the backlog's ceiling, the scheduler
-- decides from the count of pending rows and the readings when the worker runs, the worker distils
-- or fails rows, the monitor alerts when rows are stuck, and the retention pass deletes old rows. They
-- share the table of rows. An ingest asks the prefilter first, and the worker's extraction sends the
-- chunks of a transcript to a model. The memory tools ask the table of members who is in a team, and then
-- call the store of memories.
--
-- What is a parameter: the SQL database (Db.Sql, with the documented effect of each statement in
-- Db.IsSql), Redis (Auth.Redis and Auth.LoginFails.Counters, with IsRedis and IsCounters), the JSON
-- codec of a pairing (IsCodec), the hashes and codes of a login (Secrets), the issuing of a session
-- in a login (an argument, which `create_session` fills), the texts and hashes of the team handlers
-- (Teams.Texts, Documents.Contents), the directory of blobs (Files, with IsFiles), LanceDB (Storage.Lance, with IsLance and IsEngine),
-- the JSON of metadata (Memories.Records.Codec, with IsCodec), the arithmetic of scores (Arithmetic), the chat with a model
-- and the floats of the starts of windows (Division, with IsDivision), and floats (Floats, with the order laws where a theorem needs them).
-- Each has an instance: Db/Table, Redis/Memory, the Examples modules, and thousandths in Prelude.
-- The language model and the stores of memories are the values of `Attempt`, which say how they answer.
--
-- Conventions: times are numbers of seconds, times of day numbers of microseconds; a method takes the
-- state and returns it with its result; what the code draws at random or reads from a clock or a sensor
-- comes in as an argument. A call of a store runs with no other client's call in between. Loops are
-- over lists, but for the one of `_split_full_coverage`: its fuel is the length of the text, which is
-- enough since each step moves by one character or more. The numbers are Python's integers, which do not overflow; a
-- subtraction is guarded or of a cutoff in the past.
--
-- Not modelled: the other HTTP routes, the command line, the installer, the wiki of teams, the set-up of the vector store,
-- prompts and HTTP calls of the language models; of the modelled files, the reads of /proc and /sys,
-- the timers, the log lines, password resets, the validation of a model's single items, and the field
-- `last_value`, which no code reads.
pub mod Prelude
pub mod Text
pub mod Db
pub mod Storage
pub mod Curator
pub mod Notify
pub mod Auth
pub mod Ops
pub mod Teams
pub mod Tools
