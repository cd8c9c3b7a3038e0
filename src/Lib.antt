-- ===== src/Lib.antt =====
-- buckle records what macOS sandboxes deny. `watch` reads two streams, eslogger's process events
-- and the Sandbox log; the correlator joins them into runs with their processes and denials and
-- writes these to the endpoint database. `ship` sends changed rows to a server, which mirrors
-- them.
--
-- Which file models which part (paths from the root of the repository):
--   Base, Exec    shared: lists, maps, texts and integers over the native numbers; methods that
--                 mutate an object and may fail (the state comes back beside the error), and the
--                 relations that a `do` block keeps when each of its steps does
--   Sbx/Args      internal/sbx/args.go: `parse_args` is ParseArgs, `apply` is apply; Args/Outcome
--                 and Args/Grammar hold its theorems
--   Sbx/Tag       internal/sbx/tag.go: `find_tag` is FindTag; Tag/Leftmost holds its theorems
--   Detect        internal/detect: `run`, `denial` and `by_kind` are Run, Denial and ByKind, the
--                 methods of Claude and Cursor are functions on `Detector`; Detect/Env is PickEnv
--   EsLog         internal/eslog/event.go: the events; `parse` in EsLog/Parse is Parse, and
--                 Parse/Fields holds its theorems
--   ULog          internal/ulog/denial.go: the denial; ULog/Line is its regular expression, `parse`
--                 in ULog/Parse is Parse; Line/Tails, Line/Spelling and RoundTrip hold theorems
--   Rows          the types of internal/store/write.go that the correlator writes
--   Correlate     internal/correlate/correlator.go and candidate.go: State is the Correlator with
--                 its images and runs in lists, pointers being indices; Sink is the interface of
--                 the database; Images, Events, Denials, Finalize and Ticks hold the methods under
--                 the names of the source (`handle_es` is HandleES). Newest, Keeps and Ledger hold
--                 theorems, Frames what these share; ProfileFile is profile.go
--   Wire          internal/wire/wire.go: columns, keys and batches
--   ServerDb      internal/serverdb/ingest.go: `apply` is Apply, `cursor` is Cursor; Mirror and
--                 Resend hold theorems
--   Store         internal/store/write.go: the tables and each statement, under the method's name;
--                 Store/Prune is internal/store/prune.go and Store/Changes is
--                 internal/store/changes.go; Counts, Tallied, Sessions and Prune/Referenced hold
--                 theorems.
--                 Store/Revisions and Store/Schema are internal/store/schema.go: the triggers with
--                 upgradeV2, and `migrate` with Open, Migrate and OpenReadOnly; their children
--                 Upgraded, Since and Migrated hold theorems
--   ServerUi      internal/server/ui.go: the helpers of the pages, under their names; ServerUi/Argv
--                 shows command lines and ServerUi/Timeline the entries of a run, with the rows of
--                 internal/serverdb/pages.go; Argv/Shell and Timeline/Sorted hold theorems
--   Api           internal/server/api.go and `Decode` of internal/wire/wire.go: `ingest` and `cursor`
--                 with their statuses; Answers holds theorems
--   Delivery      syncOnce of Ship with Api as its server; Pages, Mirrored and Complete hold theorems
--   Watch         internal/watch/watch.go and source.go: `loop` is loop, `once` the warner;
--                 Watch/Tail is the tail of standard error, Watch/Attached the correlator as the
--                 loop calls it, and Watch/Run is Run. Drained, Ends, Stable, Once and Run/Closed
--                 hold theorems
--   Ship          internal/ship/ship.go: `sync_once` is syncOnce, `check_reply` is do, and
--                 `after_attempt` is the switch of Run; Backoff and Enough hold theorems
--   Report        internal/report/format.go: `scan_records` is scanRecords and `write_records` is
--                 WriteRecords; Cells holds its theorem. Report/Query is internal/report/query.go:
--                 the statements with their arguments, over the texts in Report/Statements; its
--                 children Marks and Filled hold theorems
--   Command       cmd/buckle/main.go: `run` in Command/Dispatch is run, Commands and Queries hold
--                 the commands (`cmd_watch` is cmdWatch), Owners SudoOwner of
--                 internal/watch/watch.go and invokingHome; Untouched, Defaults and Formats
--                 hold theorems, Usage what they share
--   Tests         runs at fixed inputs
--
-- Interaction: Correlate calls Detect and Sbx and writes to a Sink, which is any record of
-- actions on a state of its own; `store_sink` is one, on the tables of Store. Ledger is what its
-- theorems rely on of a sink that counts, and Store/Tallied shows that the tables count so. Watch
-- parses lines by EsLog and ULog and calls the correlator through its Handlers, which
-- `correlator` fills. Ship sends the batches of Wire, Api decodes them and ServerDb stores them;
-- Delivery puts the three together.
--
-- Choices: texts are lists of bytes, times are nanoseconds as natural numbers, and counts, times
-- and waits do not wrap around. Keys of mirrored rows are equal when their values are. The order
-- in which Go ranges over a map is an argument (`tick`, `shutdown`). The loops along `parent` and
-- `prev` run on as much fuel as there are images, which is enough since a link leads to an older
-- image. The loop of syncOnce runs on fuel, and Ship.Enough shows how much is enough. The loop of
-- `watch` is structural in the inputs that `select` hands it, and ends only for processes that
-- end; printing a number runs on fuel above the number. The other loops are structural.
--
-- Parameters: the hash of a profile, the statement that reads a table's changes, the server as
-- `ship` sees it, the sink, file reading, the entitlement check, filepath.Join, base64 decoding,
-- the `>` of SQLite on stored values, json.Unmarshal into each type of the source, time.Parse,
-- the connection between client and server, what the system answers to a migration, the file
-- system that profiles are read from, the start and end of a watch's sources and database, and
-- the JSON, CSV and output of reports, Hours, Minutes and Seconds of a duration, and what the
-- command line calls: the package `flag`, the users of the system, the databases, `Run` of the
-- packages it starts, and the HTTP server.
--
-- Not modelled: SQL other than the statements named above, and its errors, but for those of a whole
-- transaction; HTTP but for the API's handlers, templates, processes and signals but for which are
-- sent, goroutines, JSON coding, the parsing of flags, and the scripts, since these are glue to the
-- outside; nor what SQLite makes of the statements of the reports.
pub mod Base
pub mod Exec
pub mod Sbx
pub mod Detect
pub mod EsLog
pub mod ULog
pub mod Rows
pub mod Correlate
pub mod Wire
pub mod ServerDb
pub mod Store
pub mod ServerUi
pub mod Report
pub mod Ship
pub mod Api
pub mod Delivery
pub mod Watch
pub mod Command
pub mod Tests
