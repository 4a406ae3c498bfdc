-- ===== src/Utilities/OpCode.antt =====
-- utilities/pattern.go: the op codes of compiled path patterns, and their numbers.
use grpc_gateway.Prelude.{ℕ, zero, suc, ℤ, pos, negsuc}

-- `invalid` stands for every number from `OpEnd` on, and for the negative ones.
pub data OpCode : Type 0 where
  nop push lit_push push_m concat_n capture invalid : OpCode

-- `int(op.code)`; `OpEnd` for `invalid`.
abbrev pub number : OpCode → ℕ
number nop = 0
number push = 1
number lit_push = 2
number push_m = 3
number concat_n = 4
number capture = 5
number invalid = 6

-- `utilities.OpCode(n)`
abbrev pub decode : ℤ → OpCode
decode (pos zero) = nop
decode (pos (suc zero)) = push
decode (pos (suc (suc zero))) = lit_push
decode (pos (suc (suc (suc zero)))) = push_m
decode (pos (suc (suc (suc (suc zero))))) = concat_n
decode (pos (suc (suc (suc (suc (suc zero)))))) = capture
decode (pos (suc (suc (suc (suc (suc (suc n))))))) = invalid
decode (negsuc n) = invalid
