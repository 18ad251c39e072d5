-- ===== src/Lib.antt =====
-- Verification of the Python tools around the YDB benchmarks: the TPC-C helpers, the YCSB results,
-- the installers' jobs, actions and cluster configurations, and the results of disk tests.
--
-- The program and its parts. tpcc/ydb/tpcc_helper.py is called by the shell scripts of a TPC-C run,
-- one action for each step: it creates the tables cut into shards, writes a configuration for each
-- node, computes the node's start arguments, validates the loaded database and aggregates the
-- results that the nodes leave. The helpers of tpcc/postgres and tpcc/oracle do the same for other
-- databases. ycsb/multinode_aggegate_result.py reads the log of a YCSB run on many nodes.
-- db_installers/ydb/generate_ydb_configs.py writes the configuration of a cluster, and
-- db_installers/pylib/common.py runs the commands of the installers on its hosts, each as a job with
-- two time limits; db_installers/ydb/generate_prometheus.py writes what is scraped from a cluster.
-- disk_performance/aggregate.py makes tables of the results of fio, aio_vs_uring/aggregate.py beside it
-- compares two ways of input and output by them, and stress_tool/table.py makes tables of those of the
-- stress tool. debug_latency/wrapper.py, tpcc/ydb/insert_tpcc_results.py and the YCSB script store their
-- results in a table, and tpcc/ydb/table_full_compact.py compacts a table before a run.
--
-- Files and code:
-- - Prelude and its children: Boolean tests, lists on native numbers, Python's text functions
--   (strip, str, split, join, find, padding, paths), results with exceptions, dictionaries, integers,
--   division, stable sorting by numbers (Sorting) and by tuples of texts and numbers (Order), and
--   dictionaries of lists (Groups).
-- - Tpcc/HostConfig: the class HostConfig of tpcc/ydb/tpcc_helper.py (`host_config` is `__init__`).
-- - Tpcc/SplitKeys: calc_min_parts, get_split_keys, get_split_keys_str, and the minimum of
--   enable_split_on_load, in the same file.
-- - Tpcc/Schema: DropTables and CreateTables; each statement is data, the database is an argument.
-- - Tpcc/Configs: GenerateConfig, GetLoadArgs and GetStartArgs; Tpcc/Configs/Others: those of
--   tpcc/postgres/tpcc_postgres_helper.py and tpcc/oracle/tpcc_oracle_helper.py.
-- - Tpcc/Validate: ValidateInitialData, and Tpcc/Validate/Postgres for the PostgreSQL helper. The
--   rows of each query are arguments.
-- - Tpcc/Schema/Split: EnableSplitByLoad, with each request as data.
-- - Tpcc/Operations: wait_ydb_operation_done, over the outcomes of the command it repeats.
-- - Tpcc/Indices: AsyncCreateIndices and WaitIndicesReady, over the outcomes of the listing command.
-- - Tpcc/Transfer: ImportInitialData, which drops the tables first (Tpcc/Schema/Run), and
--   ExportInitialData: they start an operation and poll it (Tpcc/Operations).
-- - Tpcc/Maintenance: PostLoad and VacuumAnalyze of the PostgreSQL helper.
-- - Tpcc/Histogram: the class Aggregator.Histogram. Tpcc/Aggregate: process_raw_json,
--   process_raw_csv (child Csv) and the report (child Report) of Aggregator. Tpcc/RunLog:
--   process_run_file and the totals of Aggregator.run. Tpcc/Aggregate/Run: Aggregator.run of
--   tpcc/ydb/aggregate_results.py over the directories of the hosts.
-- - Tpcc/Compaction: table_full_compact.py, its headers in the child Headers.
-- - Ycsb: WorkloadResult, calc_aggregated_result, Parser.add_workload and Parser.parse; its children
--   Go and Cockroach: parse_go and parse_cockroach; Upload: dump_workloads_ydb.
-- - Uploads: drop and create_table of wrapper.py and insert_tpcc_results.py over `Database`, an
--   interface with the laws of the statements, which hold for rows whose values the service reads back
--   from the text of the statement; its children Latency and Results have the rest of the
--   two scripts. Uploads/Memory is a database for which the laws hold.
-- - Installers/YdbConfigs: every section of db_installers/ydb/generate_ydb_configs.py.
-- - Installers/Jobs: the class Job of db_installers/pylib/common.py; its child Signals has the rounds
--   of a job as a step relation. Installers/Actions: SSHAction (child Ssh) and PSSHAction (child
--   Pssh) of the same file, which run jobs.
-- - Installers/Cockroach: the class Start of db_installers/cockroach/control.py, and its other actions
--   and Main (child Control). Installers/Yugabyte: the same of db_installers/yugabyte/control.py. Both
--   build the text of commands and give it to Installers/Actions.
-- - Installers/Prometheus: generate_prometheus.py.
-- - DiskPerformance: disk_performance/aggregate.py. The file itself has parse_result; its children
--   have collect_run_dirs (Runs), the medians (Stats), make_plot_slug (Slug), the tables (Tables),
--   and plot_latency_runs and main (Figures).
-- - DiskPerformance/Uring: disk_performance/aio_vs_uring/aggregate.py. The file itself has
--   parse_one_result; its children have RESULT_FILE_RE (Names), collect_rows (Collect),
--   group_rows_by_point and pick_median_run_rows (Points), build_max_iops_rows (Best),
--   build_metric_series (Series), the plots (Plots and Plots/Bars), and the rest (Main).
-- - StressTool: of stress_tool/table.py, _select_median_iops_run, _extract_runs_table_rows and
--   _render_table.
--
-- How the code is modelled. State is passed explicitly: a dictionary is an association list in
-- insertion order, an object is a record, an exception or `sys.exit` is a value of `Error`. The
-- children of a module that hold proofs are named for what they prove; `Tests` holds concrete runs.
-- Numbers are natural: the command line could give a negative count of warehouses, which is not
-- modelled. Sizes of tables per warehouse are in tenths of a megabyte, the latencies of YCSB in
-- microseconds: both are exact for the decimals that the code writes. In
-- DiskPerformance the operations per second of fio are in millionths, as fio prints them; in
-- DiskPerformance/Uring a float is a whole number of the least positive one, and each sum and quotient
-- is rounded by an argument. A median that is compared with values is doubled, so that it is whole.
-- The floating-point
-- comparison of Histogram.percentile is an argument of the model, required only to grow with the
-- count and to hold for the whole total, where a theorem says so. Whether so many tenths of a second,
-- summed in floating point, are over a job's limit is an argument too.
--
-- Bounds and fuel. The loop of get_split_keys has as much fuel as there are items or warehouses, and
-- each step adds at least one, so the fuel is enough. The loop over the orders of a district has the
-- fuel 4, one more than the three ranges below 3000. The polling of an operation or of the indices has
-- fuel of any size: it ends within one more than the number of the run or round that shows the end.
-- `show` has more fuel than its number has digits. A job has as much fuel as there are rounds of a
-- tenth of a second before both its limits are passed, and each round ends it or counts one more. The
-- loop that shortens the underscores of a plot's name has its length as fuel, and each round that
-- goes on shortens it.
-- The wait for a compaction has fuel of any size: it ends within one round more than there are
-- readings that show a state.
--
-- Not modelled: the YDB and psycopg2 drivers, the regular expressions of logs, JSON and YAML printing,
-- the file system and the argument parsers are arguments or are left out; so are
-- forget_ydb_operation of the TPC-C helper, dump_workloads_txt of YCSB, the drawing of plots, the
-- number of runs that the session pool makes of a statement, the conversions of units and the plots of the stress tool, the shell
-- scripts, the Java benchmark and the C++ tools. Of tpcc/ydb/aggregate_results.py only Aggregator.run is
-- modelled on its own: its other classes and readers are those of the TPC-C helper.
mod Prelude
pub mod Tpcc
pub mod Installers
pub mod Ycsb
pub mod DiskPerformance
pub mod StressTool
pub mod Uploads
