-- ===== src/Lib.antt =====
-- A verification library of the antimony backend, a server on which users keep network topologies
-- and run labs that containerlab deploys from them. The paths below start at the repository's root.
--
-- The program's parts and the modules that model them:
--
-- * Ring (src/utils/ring.go): the buffers that keep the latest log entries. Ring.Value is `ValueRing`:
--   a slice of fixed length with a head and a size. Ring.Bytes is `ByteRing`: bytes, of which the
--   last lines are kept. `Add`, `AddMany`, `Items`, `Clear` and `Len` are functions of the same name.
-- * Schedule (src/utils/schedule.go): a slice of pointers ordered by time, and a map from keys to the
--   same pointers. A pointer is an address with the value behind it, because `remove` compares
--   addresses. `sort.Search` is written out as the binary search that Go documents; its fuel is the
--   length of the searched range, which every step shortens. `slices.IndexFunc` returning -1 makes
--   the source panic, and makes the model return `none`.
-- * EventBus (src/utils/event_bus.go): topics with their subscribers under a 64-bit counter. Go calls
--   the handlers of a topic in an order that it leaves open, so `Publish` is a relation.
-- * Scheduler (src/runtime/scheduler/scheduler.go): two schedules of labs, the five handlers that the
--   lab events call, and the rounds of `Run`. It subscribes to the event bus; `run` is a sequence of
--   events and rounds. The goroutines that `Run` starts are recorded as commands.
-- * Entities (src/domain/*/entity.go): users, collections, topologies and labs.
-- * Errors (src/utils/errors.go, src/utils/response.go): the sentinel errors, their wrapping by `%w`,
--   and the replies to HTTP and socket clients.
-- * Policy (src/policy/policy.go, src/policy/engine.go, src/policy/cache.go): the check of a topology
--   for unsafe features. Policy.Text and Policy.Paths write out what the source uses of Go's strings
--   and paths on Linux; Policy.Rules and Policy.Fields are the tables; Policy.Definitions is the
--   decoded YAML and containerlab's types as far as they are read; Policy.Checker and Policy.Engine
--   are the checks, and the cache of findings. Policy.Walk says without Go's path functions where a
--   path leads from the topology's directory. SHA-256, `%q`, the lower case of a text that is not
--   ASCII, and containerlab's constants are parameters. `trim_space` and `decimal` run on fuel: the
--   length of the text, and the number itself.
-- * Auth (src/auth/manager.go): the users that are known, native, desktop and OpenID logins, and the
--   tokens. The JWT package is a parameter, of which Auth.Login assumes that it parses the claims it
--   signed while they are valid; the OpenID provider is a function from a code to the user's claims.
-- * Collections (src/domain/collection/service.go, src/domain/collection/repository.go): who may
--   create, change and delete collections. A parameter says which queries the database refuses; the
--   services that remove the labs and the topologies of a collection are functions on the database.
--
-- * Deployment (src/deployment/deployment.go): the states of nodes and what an inspection returns.
-- * Instance (src/runtime/instance/instance.go, src/runtime/instance/service.go,
--   src/runtime/instance/monitor.go): the deployed labs. Instance holds the state of the service and
--   its small functions; Instance.Deploy and Instance.Destroy are `DeployLab` and `DestroyLab`, each in
--   two steps, because other operations run while one waits for `OperationMutex`; Instance.Commands
--   are the commands of users; Instance.Startup is the startup listener with `waitForNodeStarted`;
--   Instance.Lookup is `GetInstanceNode`; Instance.Revive is the revival of labs at the start and the
--   listener of provider events; Instance.Monitor is the monitor. An instance is an object
--   that operations share, so the instances live in a heap and the service's map holds addresses; a
--   context is a number, and the service lists the canceled ones. A record `World` holds what the
--   provider, the storage, the schema service and the lab repository answer to one operation,
--   whether its context is canceled when they answer, and in which order Go iterates over the
--   instances when it looks for the node of a provider event. Instance.System composes the operations: a
--   sequence of steps of any goroutines, in any order. Instance.System.Registry is the abstract view
--   that other parts have of it: which labs are running. `waitForNodeStarted` runs on fuel; 300 probes
--   are enough, because each waits two seconds and the context ends after ten minutes.
--
-- * Statistics (src/deployment/stats.go): the growth of counters, and the parsers of memory, processor
--   and network files, with `strconv.ParseUint` and `strings.Fields` written out.
--
-- The module Base holds what all parts share: tests on the native numbers, `do` for options, lists
-- with the numbers of Go's slices, and association lists for Go's maps.
--
-- Bounds: machine integers that only count memory are natural numbers; the counters of the event bus
-- and of the scheduler's rounds wrap at 64 bits. Times are seconds, as `Unix` returns them, counted
-- from Go's zero time. Mutexes make each operation one step, so that concurrent use is a sequence of
-- operations.
--
-- Not modelled: the database, the file system, the HTTP and socket transport, the drivers of
-- containerlab, Kubernetes and Docker, the SSH server, and logging. Of the instance service,
-- `Close`, the file of node kinds and the texts of the messages that are sent are left out, of the
-- statistics the rates, which are floating point numbers.
pub mod Base
pub mod Ring
pub mod Schedule
pub mod EventBus
pub mod Entities
pub mod Errors
pub mod Scheduler
pub mod Policy
pub mod Auth
pub mod Collections
pub mod Deployment
pub mod Instance
pub mod Statistics
