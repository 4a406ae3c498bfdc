-- ===== src/Runtime/Timeout.antt =====
-- runtime/context.go: the header `Grpc-Timeout`. A `time.Duration` is an int64 of nanoseconds.
pub mod Exact
use grpc_gateway.Prelude.{
  ℕ, zero, suc, ◌+◌, ◌-◌, ◌*◌, ◌%◌, ◌^◌, Bool, true, false, not, ◌&&◌, List, [], ◌∷◌, Option, none,
  some, Text, length, get_elem?, take, leb, ltb, ◌==◌, if◌then◌else◌, is_empty, Result, ok, fail, ℤ,
  pos, negsuc,
}

pub data TimeoutError : Type 0 where
  too_short unknown_unit bad_number : TimeoutError

-- `timeoutUnitToDuration`
unfoldable pub timeout_unit_to_duration : ℕ → Option ℕ
timeout_unit_to_duration u =
    if u == b'H'
    then some 3600000000000
    else if u == b'M'
    then some 60000000000
    else if u == b'S'
    then some 1000000000
    else if u == b'm'
    then some 1000000
    else if u == b'u'
    then some 1000
    else if u == b'n'
    then some 1
    else none

abbrev pub is_decimal : ℕ → Bool
is_decimal c = leb b'0' c && leb c b'9'

-- The digits behind the value `n` of those read before.
unfoldable pub digits : ℕ → Text → Option ℕ
digits n [] = some n
digits n (c ∷ s) = let rest = digits (n * 10 + (c - b'0')) s in if is_decimal c then rest else none

abbrev pub unsigned : Text → Option ℕ
unsigned [] = none
unsigned (c ∷ s) = digits 0 (c ∷ s)

abbrev pub two_63 : ℕ
two_63 = 9223372036854775808

abbrev pub two_64 : ℕ
two_64 = 18446744073709551616

abbrev pub positive : Option ℕ → Option ℤ
positive none = none
positive (some n) = if ltb n two_63 then some (pos n) else none

abbrev pub negated : ℕ → ℤ
negated zero = pos zero
negated (suc n) = negsuc n

abbrev pub negative : Option ℕ → Option ℤ
negative none = none
negative (some n) = if leb n two_63 then some (negated n) else none

-- `strconv.ParseInt(s, 10, 64)`
unfoldable pub parse_int : Text → Option ℤ
parse_int [] = none
parse_int (c ∷ s) =
    if c == b'-'
    then negative (unsigned s)
    else if c == b'+'
    then positive (unsigned s)
    else positive (unsigned (c ∷ s))

abbrev pub residue : ℕ → ℤ
residue r = if ltb r two_63 then pos r else negsuc (two_64 - 1 - r)

-- The product of two int64, which wraps around.
unfoldable pub scaled : ℕ → ℤ → ℤ
scaled d (pos n) = residue ((d * n) % two_64)
scaled d (negsuc n) = residue ((two_64 - (d * suc n) % two_64) % two_64)

abbrev pub in_unit : Option ℕ → Option ℤ → Result TimeoutError ℤ
in_unit none t = fail unknown_unit
in_unit (some d) none = fail bad_number
in_unit (some d) (some t) = ok (scaled d t)

abbrev pub with_unit : Option ℕ → Text → Result TimeoutError ℤ
with_unit none number = fail unknown_unit
with_unit (some u) number = in_unit (timeout_unit_to_duration u) (parse_int number)

-- `timeoutDecode`
unfoldable pub timeout_decode : Text → Result TimeoutError ℤ
timeout_decode s =
    if ltb (length s) 2
    then fail too_short
    else with_unit (get_elem? s (length s - 1)) (take (length s - 1) s)
