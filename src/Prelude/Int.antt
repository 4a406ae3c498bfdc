-- ===== src/Prelude/Int.antt =====
-- Signed integers over the native numbers, for the values that Go keeps in an `int`.
use Prim.Native.Nat.{ℕ}
use mathlib.Core.List.{List}
use mathlib.Core.Option.{Option, none}
use grpc_gateway.Prelude.Lists.{get_elem?}

-- `negsuc n` is -(n + 1).
pub data ℤ : Type 0 where
  pos : ℕ → ℤ
  negsuc : ℕ → ℤ

-- `xs[i]`; none where Go panics.
abbrev pub at_index {ℓ} : {A : Type ℓ} → List A → ℤ → Option A
at_index xs (pos i) = get_elem? xs i
at_index xs (negsuc i) = none
