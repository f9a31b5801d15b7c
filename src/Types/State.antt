-- ===== src/Types/State.antt =====
-- types.go, State: a state of the TLA+ model, by its text and the fingerprint that TLC gives it. A
-- fingerprint is an int64; it stands here as its 64-bit pattern, since it is only compared.
use model_guiding_fuzz.Common.{ℕ}
use Prim.Native.String.{String}

pub record State : Type 0 where
  pub repr : String
  pub key : ℕ
