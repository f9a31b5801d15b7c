-- ===== src/Mutator.antt =====
-- mutator.go, and the Mutator interface of fuzzer.go. A mutator gets a trace and the events that it
-- led to, and returns a new trace, or fails (`nil, false`). Counts such as `NumFlips` are numbers
-- from 0. The loops that draw take fuel.
pub mod Indices
pub mod Draws
pub mod Hits
pub mod Rounds
pub mod Combined
pub mod Flip
pub mod Skip
pub mod Swap
pub mod Exchange
pub mod Scale
pub mod Legal
