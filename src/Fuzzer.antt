-- ===== src/Fuzzer.antt =====
-- fuzzer.go: what an iteration takes its choices from (Context), and the queues of the messages
-- between the nodes (Messages).
pub mod Context
pub mod Messages
pub mod Setup
pub mod Iteration
pub mod Run
