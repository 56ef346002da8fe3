-- ===== src/Lib.antt =====
-- Verification of token-monitor, a program in Go that collects the token usage of coding
-- assistants, computes metrics of it, and reports, reconciles, signs and merges them.
--
-- The program's parts and how they interact. Adapters (infrastructure/adapters) read the logs of
-- the assistants, some of them protobuf messages (infrastructure/protowire), and make usage events,
-- whose activity internal/collection/classifier.go chooses from the names of their tools. The
-- events are stored (infrastructure/sqlite). A report takes the events of a window, from which
-- internal/analytics computes the metrics; internal/insights makes of these the recommendations,
-- the persona, the trends and the follow-through records; internal/deepanalysis makes statistics of
-- sessions and of tools. internal/reconciliation compares the events with what a provider's API
-- reports. internal/team puts the results into an export that internal/trust signs;
-- application/merge.go checks, dedupes and merges the exports of a team. The handlers of
-- application run these parts over the ports of deps.go, which cmd/token-monitor/wire.go fills:
-- with the stores, with the keys and settings of infrastructure/fs, the transports of
-- infrastructure/http, the schedulers of infrastructure/scheduler and the pages and tables of
-- infrastructure/render.
--
-- Files. Shared is internal/shared/event.go. Analytics.Price is model_price.go and
-- pricing_service.go of internal/analytics, Analytics.Metrics the record of metrics.go, and
-- Analytics.Engine the two passes of metrics_engine.go: `pass1_step` is the body of the first loop,
-- `add_turn` its part on a session, and `derive` (Analytics.Engine.Compute) the second pass and the
-- record that Compute returns. Reconciliation is internal/reconciliation. Insights.Finding,
-- Persona, Recommendation, Trend and FollowThrough are the files of internal/insights of these
-- names. Collection is internal/collection. DeepAnalysis.Sessions, Tools and Payload are
-- session_analyzer.go, tool_analyzer.go and llm_pipeline.go of internal/deepanalysis. Wire is
-- infrastructure/protowire/protowire.go. Trust is internal/trust, Team.Export, Builder, Merger and
-- Config are internal/team, and Application is the part of application/merge.go between the reading
-- of the exports and the printing, which Command.Merge completes. Adapters.ClaudeCode, Codex,
-- Copilot, GeminiCli, Antigravity and Cursor are the adapter.go of each folder of
-- infrastructure/adapters, with what they share in Adapters: the calls that filepath.Walk makes
-- (`Visit`) and the loop that skips what it has seen (`keep`). Store is event_store.go of
-- infrastructure/sqlite on the table events of db.go, over the interface `Engine` of the SQL
-- engine, whose laws are the record `IsEngine`; Application.Collect is application/collect.go,
-- which writes into it what the adapters report. Insights.FollowThrough.Store is
-- followthrough_store.go on the table recommendations, in the same way, and the repository of Sync.
-- Reconciliation.Providers is anthropic.go and openai.go of infrastructure/providers. Render is esc
-- of html.go of infrastructure/render, Render.Format is format.go, Render.Html the two pages of
-- html.go and Render.Terminal the reports of terminal.go; Render.Names spells the constants that
-- they print. Deploy.Keystore and Deploy.Settings are keystore.go and deploy_config.go of
-- infrastructure/fs, Deploy.Transport is export_transport.go of infrastructure/http, and Scheduler
-- with Cron and Launchd are the files of infrastructure/scheduler. Command.Deps is the record of
-- application/deps.go and the calls into the operating system, Command.Output the writers of
-- util.go, and Command.Report (with push.go and html.go), Analyze, Merge, Reconcile and Setup
-- (init.go, schedule.go, fingerprint.go) are the handlers. Command.Wire is buildDeps of wire.go and
-- the collect command of main.go, and Command.Main the other commands. The theorems on a file stand
-- in the modules below its own or beside it; Prelude has the helpers, and Tests runs the theorems
-- of the list on inputs.
--
-- How it is modelled. A Go map is the list of its entries in the order of their insertion; a loop
-- over the map meets them in that order, one of those that Go allows. sort.Slice is a sort that
-- keeps the order of equal elements. Token counts are natural numbers without an upper bound,
-- except where a theorem bounds them by 2 ^ 63; the days of a window and the exit codes are natural
-- numbers too, so that a negative --days is left out. A string is the list of its bytes, and the
-- range loop of esc reads them as UTF-8; case folding and trimming are those of ASCII. Strings that
-- name a constant of the program, such as a source or an activity, are data types. float64 is a
-- type with an interface of operations (Prelude.Float); the laws of IEEE 754 that a theorem needs
-- are hypotheses, and fixed-point numbers satisfy them. A function that fails returns a result or
-- an option; a panic is an outcome of its own, `none` where a call can only panic or end. A call
-- that changes the outside is an `Action` on a state, which it returns after an error too; a
-- handler is a `Run`, which ends by returning, failing, panicking, or with os.Exit. Literals are in
-- UTF-8.
--
-- Parameters. time.Parse and the current time, Duration.Minutes, the printing of a float, the JSON
-- encoder, the operations of Go's crypto and encoding packages (the record Trust.Crypto, with its
-- documented laws in Trust.IsCrypto), the files that a walk visits and what they hold, the JSON
-- decoder of each kind of log and of each usage API (in a row of OpenAI the cached tokens are among
-- the input tokens, as the API documents), strconv.Itoa, the SQL engine, the HTTP client, a
-- function from the URL to the answer, and the answers of the follow-through repository. The calls
-- into the file system (`Disk`), crontab and launchctl, the client of the transport (`Web`), the
-- process itself (`Process`), the verbs of fmt and go-runewidth (`Printing`) are records, and the
-- laws that a theorem needs of one of them are a record beside it. A time is a number of
-- nanoseconds since Go's zero time.
--
-- Fuel. The loop of DecodeMessage takes as fuel the length of its input, and each round that goes
-- on takes a byte of it; `stuck` is the outcome of a loop without fuel. The loop over the pages of
-- a usage API has no bound in the code, and takes as fuel the number of requests; as many as the
-- server has pages are enough, and the reconcile command without fuel ends as `unfinished`. All
-- other loops are structural.
--
-- Not modelled: the parsing of flags by the library cobra, whose results the commands take, and the
-- closing of the database. Of the adapters, the choice of the log directory and the copy of
-- Cursor's databases; of the store, a row that does not scan.
pub mod Prelude
pub mod Shared
pub mod Analytics
pub mod Reconciliation
pub mod Insights
pub mod Collection
pub mod Wire
pub mod DeepAnalysis
pub mod Trust
pub mod Team
pub mod Application
pub mod Command
pub mod Store
pub mod Disk
pub mod Deploy
pub mod Scheduler
pub mod Adapters
pub mod Render
pub mod Tests
