-- ===== src/Lib.antt =====
-- Sticky-overseer, a server that starts tasks on request, keeps their number within limits, queues
-- the rest, restarts what fails, and reports to its clients.
--
-- pool.go decides when a task may run. Pool/Types has its data, Pool/Queue the queue of an action
-- (TaskQueue), Pool/Manager the state of PoolManager and its look-ups, Pool/Acquire Acquire and
-- tryDisplace, Pool/Release Release and nextQueued, Pool/Control Dequeue, PurgeQueue, Info, DrainAll,
-- sweepExpired and the rounds of expiryLoop, Pool/Resize SetLimits. hub.go is the orchestrator:
-- Hub/Types has its state and the messages of messages.go, Hub/Clients connections, subscriptions
-- and broadcasts, Hub/Launch the closures given to the pool and the calls of Acquire and Release,
-- Hub/Start handleStart and Submit, Hub/Exit onWorkerExited, doRestart, handleReset and the output
-- callback, Hub/Requests handleStop, handleReplay, handleMetrics, handlePurge, handlePoolInfo and
-- handleSetPool, Hub/Queries handleList, handleDescribe and handleManifest, Hub/Dispatch
-- HandleClient, Hub/Shutdown NewHub and Shutdown, Hub/Processes the loops and reports of workers, and
-- Hub/Steps all of these in any order. A task of its own, Hub/Lifecycle, is what these make of one.
-- worker.go is Worker, with the start of a worker in Worker/Start, and metrics.go is Metrics.
-- exec/handler.go is Exec for its parameters and Exec/Handler for Create and Start, over what
-- Exec/Library puts together of actions.go and worker.go. Server is RunCLI of run.go, which puts the
-- parts together.
--
-- Around these, Config is config.go with what run.go makes of a configuration, Actions actions.go,
-- Messages the encodings of messages.go, Transport the choice of a transport and the trusted
-- networks of transport.go, hub.go and run.go, Transport/Listen the Listen of transport.go, Manifest
-- the document of manifest.go (its types in Manifest/PoolTypes and Manifest/TaskTypes, its messages
-- in Manifest/Requests, Manifest/Events and Manifest/Answers, its operations in
-- Manifest/Operations), and OpenApi openapi.go. The other files below these hold lemmas, Base what
-- all share, and Tests runs of the model.
--
-- A function of the source is a function of the same words in snake_case that takes the state and
-- returns the new one. What holds a mutex throughout is one step: Acquire and Release, which free
-- the mutex while a task starts, are two (admit and finish_start, release_slot and finish_release),
-- and Pool/Steps lets any steps come between them. The closures that the hub gives to the pool are
-- records of what they capture (Launch); the pool of Pool/* takes any type of closures and returns
-- the calls it makes of them, and Hub/Launch runs those on the hub. A method of the hub is one step
-- of Hub/Steps. What the hub writes, signals and starts is a list of effects. Messages to a log for
-- people are left out.
--
-- Action handlers, the writes to connections, new IDs, random numbers, the reading of times and the
-- printing of %q are parameters of the hub (ActionHandler, World). The codecs of JSON and YAML, the
-- texts of durations, CEL, the templates, the operating system, and the strings, strconv and net
-- packages are parameters of the definitions that use them (CelLibrary, TemplateLibrary, OsLibrary,
-- NetLibrary, sections).
-- time.Now is an argument, one for each step. Times and ages are nanoseconds in natural numbers,
-- and durations are signed; the source's 64-bit values are taken not to overflow, which they do not
-- within 292 years, but for the sum of a restart's delay and its jitter, which wraps. The order in which range visits a map is an argument where it matters (visit);
-- maps without it are lists, in the order of the list. sort.Slice is an insertion sort, which fixes
-- the order of equal elements that the source leaves open.
--
-- The only fuel is that of the loop of TaskQueue.Dequeue: each round takes an item out, and there is
-- one unit more than items. The loop of Shutdown goes over what its select receives, a list.
--
-- Not modelled: deadlocks between the mutexes, steps of others within a method of the hub, sockets,
-- TLS, HTTP servers and WebSocket frames, processes and pipes, the flags and signals of the command
-- line, the file of the event log, the store, which nothing uses, and the generated docs/docs.go.
pub mod Actions
pub mod Base
pub mod Config
pub mod Exec
pub mod Hub
pub mod Manifest
pub mod Messages
pub mod Metrics
pub mod OpenApi
pub mod Pool
pub mod Server
pub mod Tests
pub mod Transport
pub mod Worker
