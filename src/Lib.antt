-- ===== src/Lib.antt =====
-- Model-guided fuzzing of the raft library: a model of the fuzzer, with its theorems.
--
-- The fuzzer (fuzzer.go) runs a raft cluster under a schedule: a list of choices (types.go,
-- SchedulingChoice) that say which link delivers how many messages, which node stops or starts at
-- which step, which request a client makes, and what the random choices are. Each iteration
-- records the schedule that it ran and the events that it saw. A guider (guider.go) sends the
-- events to a model checker (tlc_client.go) and scores the run by the model states that are new.
-- A run that scores is given to the mutators (mutator.go), and what they return is queued as the
-- schedules that later iterations mimic. The visit graph (visit_graph.go) counts states and their
-- successors; a strategy (strategy.go) picks nodes.
--
-- Files, with the code that they model:
--   Types/        types.go: Queue, List (here Sequence), SchedulingChoice, Event, State, sample,
--                 intRange; copyTrace of mutator.go (Types/Choice)
--   Mutator/      mutator.go: one file for each mutator or pair of alike mutators (Flip for
--                 ChoiceMutator, Skip for SkipNodeMutator, Swap for SwapNodeMutator and
--                 SwapIntegerChoiceMutator, Exchange for SwapCrashNodeMutator and
--                 SwapMaxMessagesMutator, Scale, Combined); Effect, Order and Crashes say what a
--                 mutator does to a trace, Ending when it returns; Indices, Draws, Hits and
--                 Rounds are about the loops that they share; Legal is about the nodes and limits
--                 that a schedule names
--   Fuzzer/Context  fuzzer.go, traceCtx, and the part of RunIteration that loads a schedule (Load)
--   Fuzzer/Messages fuzzer.go, the message queues: Schedule, the sends, the reset
--   Fuzzer/Setup  fuzzer.go, FuzzerConfig, and the random schedule of RunIteration
--   Fuzzer/Iteration  fuzzer.go, the steps of RunIteration, over the context, the queues and the
--                 cluster; Crashes, Choices and Legal are about whole runs, the latter two by way of
--                 Keeps, which leaves only the calls of the context to look at; Requests is about
--                 the requests of clients
--   Fuzzer/Run    fuzzer.go, NewFuzzer, RunIteration with its checker, seed and Run; Beginning is
--                 about a new fuzzer, Ending about when Run returns, Legal about the queue
--   Guider        guider.go, the interface of a guider, TLCStateGuider and TraceCoverageGuider;
--                 tlc_client.go, SendTrace. Guider/Instances has LineCoverageGuider and the three
--                 guiders as the interface has them; IsCounting is what the fuzzer relies on in a
--                 guider, which Guider/Counting is about; Guider/Answers says when checks return
--   Raft/         raft.go: the cluster (Raft), what it uses of the raft library (Library), and which
--                 nodes run (Presence, History, Beginning); Presence/Totality is about panics,
--                 Requests about client requests
--   Checker       checker.go, SingleLeader, and SerializabilityChecker (Checker/Serial)
--   Benchmark     benchmarking.go: Comparision, and what it records (Benchmark/Report); Outcomes and
--                 Ending are about its runs, Report/Gathering and Report/Ending about the report
--   CommandLine   main.go: what the commands fuzz and compare run
--   PubSub        pubsub/client.go: PubSubClient, and its calls on the cloud library (Connect)
--   VisitGraph    visit_graph.go
--   Strategy      strategy.go
--   Common/       tests on numbers, lists, Go maps as association lists (Maps, Sets), and the
--                 effects of the code (Effects)
--   Tests/        the theorems at concrete inputs
--
-- How Go is modelled. A pointer that is written through becomes the value before and the value
-- after; traces are copied where the code copies them, and a choice is never written in place. An
-- int that counts or indexes is a natural number; no operation here takes one below 0, but for the
-- difference of covered lines in LineCoverageGuider (Guider/Instances), and none gets near the width
-- of an int. The integer of a choice does, since ScaleUpIntChoiceMutator doubles it: Mutator/Scale
-- reads it as a word of 64 bits in two's complement, and wraps around. A map is an association list
-- or a function. Code that may panic or draws random numbers is a function from the state of the run
-- time to an Outcome: done with a result and the next state, panic, library_panic where the raft
-- library panics itself, or out_of_fuel. The run time
-- (Runtime) is a parameter: what rand.Intn returns, and in which order range visits a map.
-- IsRuntime states what the language documents of it: Intn(n) is below n, and range visits each
-- entry once. Theorems that need neither do not ask for it.
--
-- Fuel. A loop that draws until a map has a number of entries has no bound in the code, since the
-- draws may repeat. Its fuel is the number of its rounds, plus one for the test that ends it. The
-- theorems named `-done` say when given fuel suffices, those named `-out_of_fuel` that no fuel
-- does. RoundRobinStrategy has fuel for the nodes it passes, and as many rounds as there are nodes
-- are enough. The draws of a random schedule, which skip node 0 or fill a sample, have the fuel of
-- the run; IsFair (Fuzzer/Setup/Ending) says when it suffices, and a run that mimics a schedule uses
-- none. Ensures is what holds if code returns, Returns that it returns too, and Ends that it
-- returns unless the raft library panics.
--
-- Parameters of the guider: the hashes (sha256 of JSON texts, here numbers), what the TLC server
-- answers, and gocov, which counts covered lines. A float that is a quotient of counts is kept as
-- its two counts, or left out where nothing reads it. The strategy of the configuration is used
-- nowhere in the code, and is not a part of FuzzerConfig here.
--
-- The clients of a guider, a mutator or a checker take it as an argument: the record Guider, and
-- functions Mutator and Checker. A comparison has its guiders and mutators by the names of its
-- benchmarks, each guider once, as main.go makes them.
--
-- The pub/sub client runs a receiver in the background. Its steps and the calls on the client are
-- operations, in any order; which ready case a select takes, and when a context is done, are
-- arguments of them.
--
-- Not modelled: files and HTTP (the records of traces and graphs, the plots of benchmarking.go),
-- JSON, the parsing of flags, the raft library under raft/, which is another project's and a
-- parameter (RaftLibrary: a raw node and its memory storage, whose calls may panic and draw random
-- numbers; IsEnding in Raft/Presence/Totality is what the theorems named `-Ends` ask of it), the
-- example program of pubsub/, and the cloud library, a parameter (Service).
pub mod Common
pub mod Types
pub mod Mutator
pub mod Fuzzer
pub mod VisitGraph
pub mod Strategy
pub mod Guider
pub mod Raft
pub mod Checker
pub mod Benchmark
pub mod CommandLine
pub mod PubSub
mod Tests
