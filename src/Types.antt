-- ===== src/Types.antt =====
-- types.go: the containers and values that the other parts share.
pub mod Queue
pub mod Sequence
pub mod Choice
pub mod Event
pub mod Decimal
pub mod State
pub mod Sample
