-- ===== src/Lib.antt =====
-- A verification library for windows_exporter, the Prometheus exporter for Windows machines.
--
-- The program's parts. `cmd/windows_exporter` reads flags and a configuration file
-- (`internal/config`), makes a collection of collectors (`pkg/collector`), and serves scrapes over
-- HTTP. A scrape runs every collector of the collection at once, each under a deadline, and passes
-- their metrics on to the registry. The collectors read performance counters by PDH
-- (`internal/pdh`) or from the registry (`internal/pdh/registry`), call Windows, or read files
-- (`internal/collector/textfile`).
--
-- The files.
--   Base: lists, strings of bytes and maps. A Go map is a list of entries in the order that an iteration
--     takes; theorems are over every list.
--   Errors: `internal/pdh/error.go`, `internal/types/errors.go`. An error is the chain of values that it
--     wraps, and `errors.Is` searches the chain.
--   Collection: `pkg/collector/collection.go` and `handler.go`. The maps of collectors stand in a store,
--     since a `Collection` holds a reference to its map; `enable`, `disable`, `with_collectors`,
--     `new_handler`, `build_collectors`, `init_mi` and `close_collection` are `Enable`, `Disable`,
--     `WithCollectors`, `NewHandler`, `Build`, `initMI` and `Close`.
--   Scrape: `pkg/collector/collect.go`. `collectCollector` is a transition system: `step` has one action for
--     each statement of a goroutine at which another may run, `run` takes a schedule. `collect_all`
--     is what `collectAll` sends.
--   Config: `internal/config/config.go` and `flatten.go`: `ParseConfigFile`, `flatten`,
--     `NewConfigFileResolver`, `setDefault`, `Bind`.
--   Textfile: `internal/collector/textfile/textfile.go`: the reader that drops carriage returns,
--     `duplicateMetricEntry`, `convertMetricFamily`, `scrapeFile`, `exportMTimes`, `Collect`.
--   Perflib: `internal/pdh/registry/perflib.go`, `raw_types.go` and `utf16.go`: the loop of `queryRawData`
--     over the size of its buffer, and the parser of the buffer in `QueryPerformanceData`. Perflib.Rows is
--     `Collect` of `internal/pdh/registry/collector.go`.
--   Pdh: `internal/pdh/collector.go`: `collectWorkerRaw` and `collectWorkerFormatted`, from the arrays that
--     PDH writes to the rows of the result, with the panics of the `switch` on the counter's type.
--   Counter: `internal/utils/counter.go`, with the arithmetic of float64 as an argument (`Floats`).
--   Perflib.Names: `internal/pdh/registry/nametable.go`: the table of counter names, read once.
--   Pdh.Collector: `NewCollectorWithReflection`, `Collect` and `Close` of `internal/pdh/collector.go`.
--   Mi: `internal/mi/session.go` and `operation.go`: `get_instance` is `GetInstance`; `unmarshal` is the loop of
--     `QueryUnmarshal` and of `Unmarshal`, from the instances that MI gives to rows.
--   Iis: `deduplicateIISNames` of `internal/collector/iis/iis.go`, on the array that the loop and the
--     variable share.
--   Http: `internal/httphandler/httphandler.go`: `serve_http` takes a request and the store of the collectors'
--     maps to a registry over one of them; `collect_handler` is what the registry gets from `Collect`.
--   Startup: `run`, `setPriorityWindows` and `expandEnabledCollectors` of `cmd/windows_exporter/main.go`.
--   Processes: `internal/collector/process/process_worker.go`: the requests of `collect`, and the workers as a
--     transition system with a schedule, as in Scrape.
--   SubCollectors: `mssql.go`, `exchange.go` and `hyperv.go` of `internal/collector`: `build`, `close` and `collect`,
--     with a policy for what the three do differently, and the fields that no `close` reads; Mssql: the instances of a SQL server and `collect`.
--   Update: `internal/collector/update/update.go`: the goroutine as a transition system, `fetch_updates` and
--     `collect`.
--   PerformanceCounter: `internal/collector/performancecounter`: `build` over the array that c.config.Objects and the
--     loop share, and the store of the slices of counters; `close`; Collect: `collectObject` and `Collect`.
--   RowCollectors: the collectors that send constant metrics for the rows of PDH. A collector of Tables is its list
--     of descriptions (`Build`) and its list of calls of MustNewConstMetric (`Collect`), in the order of the code.
--   Cpu: `internal/collector/cpu/cpu.go`: the 32-bit counters of the cores, from scrape to scrape.
--   Service: `cmd/windows_exporter/0_service.go`: `execute` is `Execute`, over the events that it receives.
--   Tests: runs at concrete inputs.
--
-- Bounds and fuel. Numbers are natural numbers, and the code's wrap-around of 32-bit values is written
-- out. `query_raw_data` takes a bound on the number of calls: the busy answers, the doublings and one more
-- are enough. `read_array` takes one for each array: sizes of 32 bits grow, so 2^32 are enough.
-- `fill_tables` takes one for each entry, of which there are no more than bytes.
--
-- Not modelled: log lines; what Windows, PDH, MI, the registry, the file system, the YAML decoder, kingpin,
-- the text parser of Prometheus, promhttp, the HTTP server and the collectors answer, which are arguments of the
-- definitions that use them; the checks by reflection of what callers pass; the time that tests put in place of
-- a file's (`mTime`); floating-point arithmetic, which stands as data, as numbers or as an argument; the
-- collectors that send metrics for queries of MI or for system calls, and those for rows of PDH that are not in
-- RowCollectors.Tables. A call of MustNewConstMetric panics, as it is documented, for a description that is not
-- there or that has another number of labels; in PerformanceCounter.Collect it is an argument whether it
-- takes a name and labels.
mod Base
pub mod Collection
pub mod Config
pub mod Counter
pub mod Cpu
pub mod Errors
pub mod Http
pub mod Iis
pub mod Mi
pub mod Pdh
pub mod Perflib
pub mod PerformanceCounter
pub mod Processes
pub mod RowCollectors
pub mod Scrape
pub mod Service
pub mod Startup
pub mod SubCollectors
pub mod Textfile
pub mod Update
mod Tests
