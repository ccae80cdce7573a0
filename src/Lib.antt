-- ===== src/Lib.antt =====
-- A verification library for the A-share data centre: its resumable daily workflow, the trading
-- calendar that dates it, the Baostock update with its pool of threads, the store of Parquet
-- files, the metadata of the update pipelines, the swap of staged data sets, and the lock that
-- keeps two runs apart. Paths are from the repository's root.
--
-- The parts and how they interact. `run_daily_update` (src/tools/run_update_daily.py) resolves
-- the effective dates of a run from the trading calendar (src/pipeline/common.py), loads the
-- daily steps from config/daily_workflow.yaml, takes a process lock (src/utils/process_lock.py),
-- reads the state file of earlier runs, marks the rows that a dead run left behind, and then
-- passes over the steps in order: a step is skipped, blocked by its dependencies, rewritten to
-- run in degraded mode, or run as a command, and its row is recorded before and after. The
-- commands are update pipelines, which batch their metadata rows (src/pipeline/lifecycle.py) and
-- ask the checkpoints of earlier runs what they may skip (src/pipeline/common.py,
-- src/storage/parquet_store.py). A change of an adjustment factor puts the stock's code in a
-- queue (src/sources/akshare/pipeline/capital_structure_pending.py), which a later step drains.
-- The Baostock update (src/sources/baostock/update_daily.py) fetches, code by code, on its main
-- thread, and submits what it fetched to a pool whose threads run a worker
-- (update_daily_worker.py beside it): this stores factors, merges bars into the stored ones,
-- calculates adjusted bars (adjustments.py), adds its rows to the metadata batch, and may ask
-- the main thread for another fetch. Frames go to disk through `ParquetStore`, which keeps a
-- manifest of its partitions. Derived data sets are staged, and swapped in as a whole
-- (src/sources/derived/common.py).
--
-- Which file models what:
--   Prelude          lists, options, equality, results, Python's dict, and sorting, for all the others
--   Calendar         src/pipeline/common.py: `_baostock_cn_trading_calendar_with_keys`, `is_trading_day`,
--                    `baostock_cn_trading_calendar_covers_range` (calendar_covers_range),
--                    `latest_trading_day_on_or_before`, `first_trading_day_on_or_after`,
--                    `trading_day_lookback_start`, `trading_range_bounds`
--   Daily.Types      src/tools/run_update_daily.py: the records of steps and dates, the sets of values
--   Daily.Dates      `resolve_daily_effective_dates`, `_day_rule_matches`, `_schedule_policy_matches`,
--                    and `default_candidate_date` of src/pipeline/common.py
--   Daily.Config     `_steps_from_workflow_config` and the readers of the fields that it calls
--   Daily.State      `_read_state_for_run`, `_run_state_for_key`, `_step_row_for_policy`, `_record_step`
--   Daily.State.Abandoned  `_mark_abandoned_running_steps_in_state`, `_running_abandoned_reason`
--   Daily.Dependencies     `_resolved_dependency_status`, `_blocked_dependencies`,
--                    `_upstream_degraded_success_reason`, and the loop over the soft dependencies
--   Daily.Command    `_degraded_build_derived_step_for_akshare_daily_bar` and what it calls
--   Daily.Run        a pass of the loop of `run_daily_update`, one function for each part of it
--   Daily.Run.Program  the loop, `_final_exit_code`, and `run_daily_update` as a whole
--   Pipeline.Rows    src/pipeline/lifecycle.py: the rows of a success, a failure and a skip
--   Pipeline.Dedupe  `_dedupe_rows`
--   Pipeline.Batch   `PipelineMetadataBatch`: the atomic parts of `add` and `flush` as a step relation
--   Pipeline.Checkpoints   `PipelineCheckpointLookup`, `should_skip_checkpoint`, and the two scans of
--                    `ParquetStore` (src/storage/parquet_store.py)
--   Pipeline.Frames  src/pipeline/common.py: `merge_daily_frames`, `replace_daily_range`,
--                    `daily_frames_differ_on_overlap` and `_daily_window_by_key`
--   Baostock         src/sources/baostock/update_daily_targets.py: `_daily_target_plans`,
--                    `_code_checkpoints_complete`, `_prefilter_checkpointed_codes`
--   Baostock.Dispatch      src/sources/baostock/update_daily.py: the functions within `_update_daily_impl`, and its loop
--                    over the codes (code_turns, run_codes). Its log of tasks is a device of the proofs
--   Baostock.Adjusted      src/sources/baostock/adjustments.py: `calculate_adjusted_daily_bar`, `_factor_values`
--   Baostock.Worker  src/sources/baostock/update_daily_worker.py: `_DailyUpdateBackgroundWorker`, its daily half in
--                    Daily and the rest in Factors, with update_daily_metadata.py and `_has_data_in_range`
--   Storage          src/storage/parquet_store.py: paths and the preparation of frames, and in Writes `write_dataset`
--                    with what it calls; a Store holds the files, the manifest and the dirty data sets
--   Derived.Staging  src/sources/derived/common.py: the staging areas, their commits and their clean-up
--   Percentile       src/sources/baostock/valuation_percentile.py: `_FenwickTree`, and in Window `_RollingCounts`,
--                    `_compute_field_percentiles` for one window, and `_percentile_from_values`
--   Pending          src/sources/akshare/pipeline/capital_structure_pending.py, with
--                    `normalize_akshare_code` of src/sources/akshare/core/symbols.py
--   Lock             src/utils/process_lock.py: `_inspect_existing_lock`, `acquire_process_lock`
-- Children of these modules hold the proofs, and Tests holds the tests.
--
-- How state is modelled. The state file and the loop's variables are records (State, Machine)
-- that each operation takes and returns. The file is written where the code writes it. Statuses,
-- state keys and the reasons of a row are data types, with `other` for any other text that a
-- file may hold; rows and runs that are no mappings are kept as such. An exception that ends a
-- run is a value: `crash` is the AttributeError of `_record_step` on a row that is no mapping.
-- Python's dict is an association list in insertion order.
--
-- Bounds and fuel. Dates are ordinals and times are seconds or milliseconds, natural numbers; a
-- date before the first one is an error, as in Python. Exit codes, process ids and day counts
-- are signed. Functions recur on their data, but for two loops of the Baostock update, which
-- have rounds: the one of `submit_background`, whose drains submit in turn, and `while pending`.
-- More rounds than twice the tasks that may be in flight are enough: each round takes a task
-- that is done, and a task asks for at most one more. The loops over a Fenwick tree have as
-- many rounds as cells, and each moves to another cell. Percentiles are pairs of whole numbers,
-- whose quotient is not rounded. A lock's loop ends at its second pass.
--
-- What is a parameter: the exit codes of the commands, whether the DuckDB files are free, the
-- clock, which process ids are alive, what the store answers to a write, how pandas reads a cell
-- and sorts a frame, when two cells of a daily bar are equal, what the calendar's refresh
-- leaves, what the queue's updater returns, the answers of the data provider, when a thread
-- finishes, which calls of the store, its manifest or the file system fail, what an `rmtree` leaves, the
-- product of a price and a factor, the hash of a frame, which characters are decimal digits, and
-- Python's `str`, `int` and `str.format` on the texts of the configuration. The pass over
-- abandoned rows reads the clock once.
--
-- How exceptions are modelled in the parts that store data: a step gives a value and its state,
-- or it raises and leaves the state that it had reached. What a thread finds on its desk is not
-- tied to what the ones before left there, so that each interleaving of the threads' calls is
-- among the cases.
--
-- What is not modelled: log lines, the subprocess and the end of its process tree, the bytes of
-- the files and their atomic replacement, the reading of JSON and YAML, and other processes
-- between the file operations of one call of `acquire_process_lock`. The cleaning of cells by
-- schema, the retries of a file operation and the directories of former layouts are left out of
-- the store. Of the rest of the repository, the fetching of market data, the calculation of
-- derived data, the percentiles over the whole history and the qlib export, the quality checks and the command line are
-- outside this library: they are calls of pandas, pyarrow, DuckDB and the data sources for the
-- most part.
pub mod Prelude
pub mod Calendar
pub mod Daily
pub mod Pipeline
pub mod Baostock
pub mod Derived
pub mod Storage
pub mod Percentile
pub mod Pending
pub mod Lock
pub mod Tests
