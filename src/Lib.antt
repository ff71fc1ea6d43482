-- ===== src/Lib.antt =====
-- mfd: a laboratory for portfolio strategies. It replays a fixture, keeps broker snapshots, and
-- runs one deliberately narrow strategy on a Demo broker account: a single $100 order that an
-- operator previews, executes and reconciles. This library models the parts of the program that
-- decide anything, and proves what makes them correct.
--
-- Parts, by file:
-- - Prelude and its children: shared names; a result type for `(A, error)`; lists and signed
--   integers over the native numbers.
-- - Decimal: github.com/shopspring/decimal as a record of operations, with the laws the package
--   documents as a second record. Whole numbers satisfy those laws (Decimal/Whole), and the
--   examples are evaluated there.
-- - Demo: internal/platform/demo_strategy.go. Demo/Records has the structs and the rows of the
--   tables that migrate creates in internal/platform/platform.go; Demo/Tables the SQL statements
--   with the constraints on those tables, `update_run` and `insert_run` with the partial unique
--   index demo_strategy_one_active; Demo/Transactions one function per database transaction;
--   Demo/Session the handlers: state passing over the tables, in which the database may refuse each
--   call, or carry it out and lose the reply. Demo/Lookup is demoLookupState and
--   lookupDemoOrderWithFallback, Demo/Reads DemoRun, DemoRuns and DemoPreview, Demo/Reconcile
--   DemoReconcile, markDemoUnknown and ReconcilePendingDemo, Demo/Execute DemoExecute, holdDemo and
--   recordDemoSubmit. Demo/Evaluate and Demo/Checks are evaluateDemo over the answers of
--   internal/etoro's client (Demo/Provider); Demo/Verdict, Demo/Cleared and Demo/Plans say how it
--   ends. Demo/Lifecycle describes the same code as atomic actions on the decisions (Steps), with
--   the edges that a status may take (Edges); Traces, Handlers and Orders relate the two, and
--   Demo/Settled the transactions that store an outcome to the states that calls reach. Kept and Synced
--   say that what syncDemoAfterOrder keeps of the rest of the service, every method keeps. A
--   session also remembers which orders were posted, and which submit intents are committed and not
--   yet posted.
-- - Lab: internal/lab/lab.go. Lab/Experiment is NormalizeExperiment, Lab/Value is Value, Lab/Replay
--   is ReplayExperiment; the other files of Lab state and prove what they promise.
-- - Jobs: Enqueue, Run, dispatch, process and the workers of internal/platform/platform.go.
--   Jobs/Records has the rows of internal/platform/schema.sql, Jobs/Queue one function per method,
--   Jobs/Calls the calls in any order with the workers' acknowledgements, Jobs/Publishing,
--   Jobs/Retries and Jobs/Delivery what holds of repeated and interleaved calls. The state has the
--   stream's unacknowledged messages, and the message ids by which JetStream knows a duplicate
--   until its window has passed.
-- - Broker: internal/platform/broker.go. Broker/Records has the rows of the tables for snapshots,
--   bindings and broker events, Broker/Store their SQL statements, Broker/Sync persist,
--   recordSuccess, syncClient, Sync, syncConfigured and syncDemoAfterOrder, Broker/Status
--   NewBrokerService, Authorized, status, Status and Sync, Broker/History decrypt and History.
--   Broker/Sessions has the calls in any order; Turns, Calls, Methods and Bindings what they are
--   made of and keep, Sorted, Archive and Roundtrip what History finds again, Spacing how far apart
--   the rounds of reads are, Evidence and Permission what the events and the bindings say of the
--   stored rows.
-- - Etoro: internal/etoro. Etoro/Wire is request with its error categories, Etoro/Aggregate
--   FetchAggregate and ParseAggregate, Etoro/Market the instruments, rates and the Demo book,
--   Etoro/Terms eligibility and costs, Etoro/Orders SubmitDemoMarket and the lookups,
--   Etoro/Timestamps the times of the broker. Yields and Checked are rules for what a read that
--   succeeds has checked; Connected and Planning put this client in the place of Demo/Provider, the
--   interface that Demo takes, and Honest gives Broker what it asks of its reads.
-- - Http: internal/httpapi. Http/Patterns has the two regular expressions and newID, Http/Handlers
--   the routes, Http/Serve the router's table of them; Gate, Proper, Routes and Identifiers what
--   reaches the store.
-- - Service: the methods of both files of BrokerService on one state. Service/Calls puts
--   syncDemoAfterOrder into the Demo strategy's methods and demoClient's client before them;
--   Service/Safety says what any order of calls keeps. Service/Platform has the Platform's
--   forwarding methods, with and without a BrokerService, as the Store that Http asks;
--   Service/Answers, Service/Requests and Service/Unauthorized what requests do to the service.
--
-- Choices. Identifiers (uuids, order numbers) are natural numbers, instants and durations
-- nanoseconds as integers; texts that the code only stores are strings, and a text whose characters
-- it looks at is a list of code points. JSON columns are the values they encode. Events with equal
-- times keep the order of their insertion, where the code breaks ties by a random uuid; snapshots
-- and outbox rows with equal times are listed latest insertion first, where the SQL leaves the
-- order open. Every loop is a recursion on a list, so that no fuel is needed. A broker call that
-- holds the service's mutex is one step; its answers, clock and database faults are arguments. The
-- map lastAttempt is kept as the list of all attempts, newest first; the list `rounds`, the rounds
-- of reads that were started, is a log beside the source's fields, as the lists of posts and
-- intents of a Demo session are.
--
-- Parameters: the cipher of artifacts and snapshots, the digests, base64, the decoders of
-- encoding/json and time.Parse, the provider's responses, the clocks, the decimals, the Unicode
-- functions on strings, and, where Http is answered by the Platform, the methods about runs. Not
-- modelled: the HTTP transport on both sides, static files, security headers and timeouts, the
-- result cache, the metrics' text output, the environment variables and the start of the process,
-- the timers that call Run, the web interface and deployment.
pub mod Prelude
pub mod Decimal
pub mod Demo
pub mod Lab
pub mod Jobs
pub mod Broker
pub mod Http
pub mod Etoro
pub mod Service
