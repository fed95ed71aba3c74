-- ===== src/Lib.antt =====
-- HealthArchive backend: a model of its core and the theorems about it.
--
-- The program crawls websites into archives. A worker (ha_backend) picks jobs from a database, runs
-- archive_tool for each of them and decides from the outcome whether the job is retried. archive_tool
-- watches its crawler container through the logs: a monitor finds stalls and floods of errors and
-- sends messages to the main loop, which adapts the crawl (fewer workers, another VPN exit, a restart
-- of the container) as long as there are budgets left, and keeps what has to survive a restart in a
-- state file. Snapshots of the same page, day and content are marked as duplicates, and the archive is
-- searched with a query language of its own. On the host, two watchdogs look after the crawls: one finds
-- jobs without progress, stops their runner, has their rows marked and starts the runner again, and starts
-- a queued annual job where too few run; the other starts a worker that is down while jobs wait.
--
-- What models what (paths from the root of the repository):
--   Crawl/State      src/archive_tool/state.py, class CrawlState: `init` (`__init__`),
--                    `load_persistent_state`, `save_persistent_state`, `add_temp_dir`,
--                    `get_temp_dir_paths`, `update_progress`, `record_error` and the resets
--   Crawl/Env        the file system that those methods ask
--   Crawl/Strategies src/archive_tool/strategies.py, one function for each strategy
--   Crawl/Monitor    src/archive_tool/monitor.py: `parse_log_line` and `check`
--                    (`_check_stall_and_error_conditions`)
--   Crawl/Intervention  src/archive_tool/main.py: what the inner loop does with a message of the
--                    monitor (`handle_message`) and `should_attempt_container_restart`
--   Crawl/Start      src/archive_tool/main.py, `main` up to its outer loop: the checks, the number of
--                    workers and the mode of the run; and `main` as a whole
--   Crawl/Stages     src/archive_tool/main.py, the outer loop: `run_stage` (one iteration), `decide`
--                    (what follows a stage) and `crawl_loop`; Prepare is what precedes a container,
--                    Watch the inner loop, Final the final build, the summary and the exit code
--   Docker           src/archive_tool/docker_runner.py, the command lines (`build_zimit_args`,
--                    `build_docker_run_cmd`), and `filter_args_for_final_run` of
--                    src/archive_tool/utils.py
--   Infra            src/ha_backend/infra_errors.py
--   Contract         src/ha_backend/archive_contract.py (ArchiveToolOptions, and ArchiveJobConfig in
--                    JobConfig); Command has the arguments
--                    that src/ha_backend/jobs.py builds from the options (`build_tool_extra_args`,
--                    `build_command`) and the checks of src/archive_tool/cli.py; Reading and Switches
--                    say what the arguments hold, and Accepted what the checks make of them
--   Registry         src/ha_backend/job_registry.py, the scope arguments of the canada.ca sources; the
--                    templates of the sources and `build_job_config` in Templates, with the
--                    theorems on it in Built and Switch
--   Jobs             src/ha_backend/jobs.py, `run_persistent_job` and its verdicts, and the columns of
--                    ArchiveJob (src/ha_backend/models.py) that it and the worker use
--   Worker           src/ha_backend/worker/main.py: selection, an iteration, the loop
--   Query            src/ha_backend/search_query.py: the tokenizer (Query) and the parser
--                    (Query/Parser)
--   Dedup            src/ha_backend/indexing/deduplication.py and the columns of Snapshot and
--                    SnapshotDeduplication that it uses
--   Ops              what the watchdogs share: the rows, the lock of a deployment, the processes; Progress
--                    and Logs are src/ha_backend/crawl_stats.py and the choice of a log
--   Ops/Stale        src/ha_backend/cli.py, `cmd_recover_stale_jobs`
--   Ops/AutoStart    scripts/vps-worker-auto-start.py; `auto_start` is its main, and Ops/RunState the
--                    state that it keeps of its runs
--   Ops/Recover      scripts/vps-crawl-auto-recover.py: Annual and Options correct the config of a job,
--                    History is the state file with the circuit breaker, Runner the detection of
--                    the runner, Sync the repair of the table, Watch the stalls and the streaks, Act the
--                    recovery, Start the start of a queued job, and Main composes them (`auto_recover`)
--   Json             the values of Python's json module
--   Base             helpers: native numbers, Python's int, lists, Boolean tests
--
-- How it is modelled. A method of an object that changes it is a function from its state to its
-- state. What comes from outside is an argument: the answers of the file system (Env), of processes
-- and clocks (Shell, RunEnv, WorkerEnv), of regular expressions and json.loads (LogReader), of
-- pathlib (PathLib) and of Unicode's tables (Unicode), and of `int`, `str` and `strip` (Python, Numbers).
-- IsPython states what the theorems on the options rely on. IsSettled is the one assumption on the file
-- system: resolved paths are stable and name the same directory. An exception is a value of the
-- result, where the code can meet one. Times are natural numbers, nanoseconds in Crawl and
-- microseconds in Jobs and Worker. Python's int is the ℤ of Base/Int, with no bound. A table of
-- the database is a list of rows, a transaction is one change of it, and a query is a function on it
-- that treats NULL as SQL does.
--
-- The run of archive_tool meets the outside in records: StartEnv before the outer loop, a StageEnv for
-- each of its iterations with a Round for each round of the inner loop, FinalEnv after it. The monitor's
-- thread is what it does between two rounds (Observation). The event that stops the threads is a Boolean
-- of the loops.
--
-- The watchdogs meet the host in records too: Processes and LockFile for what `ps`, `systemctl` and the
-- locks show, LogFiles for the logs, Host for texts, paths and times. IsHost says that a time in whole
-- seconds is read back from its text. A run of the crawl watchdog ends with an exit code or an exception,
-- and leaves the table, its state in memory and in the file, and the list of commands that it ran; the
-- command recover-stale-jobs acts on the same table. The ages and thresholds of the watchdogs are natural
-- numbers of microseconds and seconds, and a rate is a fraction.
--
-- Fuel. The walk from a process to its parents has the 64 rounds of the code. The outer loop of main has one round for each of the hundred attempts and one for each
-- adaptation that the maxima of the arguments leave. The walk over an exception's causes has one round for each object of the heap and one for the
-- end: it never visits an object twice. The tokenizer has one round for each character and one for
-- the end. The parser has five rounds for each token and four more: at most four calls nest before a
-- token is taken. Each bound is proved to be enough.
--
-- Not modelled: log output; the lock of a CrawlState, whose methods are single steps here; statistics
-- whose counts are no integers, which are read as no statistics; the end of the
-- monitor's thread, which a Round reports; printing, the drains of the container's output, the
-- attributes `current_stage`, `status` and `exit_code` of the state and changes of permissions; starting,
-- finding and stopping a container; the walks over files of utils.py, which are parameters; the lock file of a job; argparse,
-- but for the options that the checks read; the statistics
-- that a run copies into its row; the indexing of a job beyond the status it leaves; the regular
-- expression for advanced queries and the summary of a query; the metrics that the watchdogs write, their
-- printing and the names of the units that they start; queries and commits of the watchdogs that raise, other
-- than those that an argument stands for; and the parts of the repository that
-- the table above does not name.
pub mod Base
pub mod Json
pub mod Docker
pub mod Crawl
pub mod Infra
pub mod Contract
pub mod Registry
pub mod Jobs
pub mod Worker
pub mod Query
pub mod Dedup
pub mod Ops
