-- ===== src/Lib.antt =====
-- SyncFlux replicates the data of a master InfluxDB to a slave: on demand, or as a supervisor that watches
-- both databases and copies what the slave missed while it was down. This library models the program's Go
-- code: the agent (pkg/agent), the command line (pkg/main.go, pkg/util.go), the HTTP interface (pkg/webui) and the
-- script that builds and packs it (build.go).
--
-- The parts, from the bottom up, with the file that models each:
-- - pkg/agent/try/try.go (Do): Try. Try/Reference has the loop's reference, Try/Calls counts its calls.
-- - pkg/config/mainconfig.go (the records): Config.
-- - pkg/agent/influxmonitor.go (InfluxMonitor: InitPing, Ping, GetStat, GetState, UpdateCli): Agent/Monitor.
-- - pkg/agent/client.go: the commands and list queries (CreateDB, CreateRP, SetDefaultRP, GetDataBases,
--   GetRetentionPolicies, GetFields, GetMeasurements) are Agent/Commands, with their texts and rows in
--   Agent/Statements, ReadDB is Agent/Read, BpSplit and WriteDB are Agent/Write. ReadDB and WriteDB call Do.
-- - pkg/agent/sync.go (Sync, SyncDBRP, RWErrors): Agent/Sync, with the loop over the chunks of a time
--   span in Agent/Chunks; it calls ReadDB and WriteDB for each measurement of each chunk.
-- - pkg/agent/hacluster.go: GetSchema is Agent/Discovery, ReplicateSchema, ReplicateData and
--   ReplicateDataFull are Agent/Replicate, and the cluster with checkCluster is Agent/Cluster (its critical
--   sections) and Agent/Supervisor (the whole check, recovery included).
-- - pkg/agent/agent.go: initCluster is Agent/Startup, and the actions (ReplSch, SchCopy, Copy, HAMonitorStart)
--   are Agent/Actions. Agent/Connect has what no part calls: DBclient and GetFirstTime.
-- - pkg/util.go (parseInputTime): CommandLine/InputTime. pkg/main.go: the flags and init are
--   CommandLine/Settings, main is CommandLine/PidFile (writePIDFile first), CommandLine/Prepare up to the switch on
--   the action and CommandLine/Dispatch from there on, which calls the actions. CommandLine/Signals is the goroutine that waits for a signal.
-- - pkg/webui: websession.go is Webui/Session, webcontext.go is Webui/Context, api.go is Webui/Api and
--   webserver.go is Webui/Server. The API reads the cluster that the supervisor keeps. Webui/Laws says what is
--   relied on of macaron and its session package, and Webui/Histories has requests that interleave.
-- - build.go: BuildScript has its variables and how it runs other programs, BuildScript/Version the version of the
--   packages, BuildScript/Packages the packages, BuildScript/Compile the calls of go, BuildScript/Sums the checksum
--   files and BuildScript/Commands main. Other programs and the file system are the record System. It stands alone.
-- The files below these prove the results; Tests has runs on a small server.
--
-- How code becomes definitions: a struct is a record, a constant text of the cluster's state a constructor.
-- A function with effects takes the outside world as its last argument and gives it back, with a
-- panic as a value (Go: Action, Outcome); errors are values (Go: Result). Text is the library's, int64 and
-- time.Duration are integers with their wrap-around or saturation written out, and an instant is its
-- nanoseconds since 1970. A Go map is the list of its entries. Functions of the library github.com/influxdata
-- /influxdb1-client, regexp.Compile, time.ParseDuration, strconv.ParseFloat and time.Now are parameters;
-- Influx has the client as records of functions, and what its documentation says of a batch as PointsLaws.
-- Go has the rest that is used of Go's own library. What the databases store is a predicate on the world and a
-- point that is Placed: behind which connection, in which database and retention policy.
--
-- Loops run over a list, or on the number of rounds that the code itself computes: hLength chunks, len /
-- splitnum + 1 parts, MaxRetries attempts. Only initCluster loops without a bound, until both databases
-- answer: the model takes a number of rounds as its fuel, and gives none if they run out. A round is enough
-- as soon as the databases answer in it. Bounds on times are 2^61 nanoseconds (73 years) for spans, chunks and what a
-- policy keeps, and 2^62 for the longest retention and, in seconds, for instants: within them no int64 of the chunk arithmetic wraps.
--
-- Not modelled: the order in which a pool of workers runs the jobs of a chunk (the model takes them in the
-- order of the list; each adds to counters only), sleeps, log lines, elapsed times in reports,
-- the detour of Duration.Seconds over float64, and the nanoseconds that pass inside a call. The monitors run
-- beside the supervisor: a round takes what they say as given. Of the command line, the parsing of flags, the
-- search for the configuration and the log; of the HTTP interface, the form binding,
-- the templates, the collector of sessions and the listener. pkg/config/config.go holds the logger's globals. Of
-- the build script, the parsing of its flags and what it prints.
pub mod Prelude
pub mod Go
pub mod Try
pub mod Config
pub mod Influx
pub mod Agent
pub mod CommandLine
pub mod Webui
pub mod BuildScript
pub mod Tests
