-- ===== src/Lib.antt =====
-- forward-stub: a forwarder between network, queue and file protocols. Receivers turn what arrives
-- into packets; a receiver's selector finds the tasks that a packet's match key selects; each task
-- runs the packet through its pipelines of stages and hands what comes out to its senders. A store
-- holds the running components, and changes them when a new business configuration is loaded.
--
-- The parts and their modules, with the Go code they follow:
--   Packet               src/packet: the packet, Release and Clone
--   Pipeline             src/pipeline: Process and mapStage; Offset, Route, Kafka and File have the
--                        stages of stages_offset.go, stages_route.go, stages_kafka.go and
--                        stages_file.go
--   Config               src/config/config.go, validate.go, business_defaults.go: Stage, Business,
--                        System, Endpoint and Snapshot have the records; Topology and Validate the
--                        checks on references and those on each part; Defaults the defaults
--   Compiler             src/runtime/compiler.go: compileStage and CompilePipelines
--   Selector, Dispatch   src/selector, and from src/runtime/update_cache.go rebuildReceiverSelectors,
--                        resolveTaskSetStates and dispatchToSelector
--   Delta                src/runtime/update_cache.go: splitDeltaWithReplace, planBusinessDelta and the
--                        expansion of the task delta
--   Store                src/runtime/store.go, types.go, update_cache.go: addTask, removeTask,
--                        gcUnusedSenders; Senders has applySenderDelta, Cache the cache of compiled
--                        stages
--   Task                 src/task/task.go: the processing of one packet; Lifecycle has Handle, the
--                        execution models and StopGraceful as a step relation
--   Runtime              src/runtime/update_cache.go, store.go: UpdateCache, replaceAll,
--                        applyBusinessDelta and StopAll, from the operations of Delta, Store and
--                        Dispatch
--   MatchKey             src/receiver/match_key.go: the escaping and the match keys of the modes
--   Tcp                  src/receiver/framing.go, the connection of src/receiver/gnet_tcp.go and the
--                        bytes that Send of src/sender/gnet_tcp.go writes
--   Schedule             src/schedule/interval_job.go: NewIntervalJob, and Start as a step relation
-- Prelude has shared types, tests and lemmas; Stdlib has the functions of Go's strings, path
-- and encoding/hex packages that the stages call; Samples and the modules named Examples hold
-- concrete inputs.
--
-- How state and effects are modelled: an operation takes the state and gives the state after it, with
-- a result where the Go code returns an error. What goes outside (sends, releases, closes, stops) is a
-- list of events in order. What a lock protects is one step. Go maps are association lists; a
-- theorem that needs one entry for each key says so. The frames that are cut from the buffer of a
-- TCP connection share its array, which is overwritten before they are copied. An int is of 64 bits: where the code adds
-- offsets, the sum wraps round as in Go. Nearly every loop is structural recursion over the list that
-- the Go loop ranges over. The loop of Feed has the length of its buffer as fuel, and the bitwise and
-- of two numbers runs over 63 bits, which an int that is not negative has.
--
-- What is a parameter: Go's regular expressions (a compiler from patterns to replacing functions), the
-- JSON signature of a stage, reflect.DeepEqual, time.ParseDuration, net.SplitHostPort, net.ParseIP,
-- the decoder of base64, strings.ToLower, strconv.Itoa, the number of CPUs, the constructors of
-- receivers and senders, and whether a task's goroutine pool can be created.
--
-- What is not modelled: the receivers, senders and their protocols but for what Tcp has, logging,
-- statistics, the groups and the manager of schedules, the control plane and the start of the
-- process, which are input and output through other libraries or stand around it; and the decoding
-- of the configuration from JSON.
pub mod Prelude
pub mod Stdlib
pub mod MatchKey
pub mod Tcp
pub mod Packet
pub mod Pipeline
pub mod Config
pub mod Compiler
pub mod Selector
pub mod Delta
pub mod Dispatch
pub mod Task
pub mod Store
pub mod Runtime
pub mod Schedule
pub mod Samples
