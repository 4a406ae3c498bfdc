-- ===== src/Runtime/Timeout/Exact.antt =====
-- runtime/context.go: when a timeout is decoded without a wrap-around.
use grpc_gateway.Prelude.{
  ℕ, ◌+◌, ◌-◌, ◌*◌, ◌%◌, ◌^◌, ◌≤◌, ◌<◌, ◌≡◌, ◌≢◌, refl, ◌∙◌, ap, true, false, [], ◌∷◌, ◌++◌, All,
  some, Text, length, get_elem?, ltb, ◌==◌, ok, pos, arith, length-append, take-append-length,
  lt→ltb, le→ltb,
}
use native.Mathlib.Nat.{
  pow-suc, mul-le-mul_left, mul_comm, mul_assoc, add-mul, mod-eq_of_lt, pow-le-pow_right,
}
use grpc_gateway.Runtime.Timeout.{
  timeout_unit_to_duration, is_decimal, digits, two_63, two_64, parse_int, scaled, timeout_decode,
}

-- The number that digits stand for, each with its power of ten.
abbrev pub decimal : Text → ℕ
decimal [] = 0
decimal (c ∷ s) = (c - b'0') * 10 ^ length s + decimal s

abbrev pub AllDecimal : Text → Type 0
AllDecimal = All (λ c. is_decimal c ≡ true)

distribute : (n k p d : ℕ) → (n * 10 + k) * p + d ≡ n * (p * 10) + (k * p + d)
distribute n k p d =
    ap (λ x. x + d)
      (add-mul (n * 10) k p
        ∙ ap (λ x. x + k * p) (mul_assoc n 10 p ∙ ap (λ x. n * x) (mul_comm 10 p)))
    ∙ omega arith

digits-decimal :
    (n : ℕ) (s : Text) → AllDecimal s → digits n s ≡ some (n * 10 ^ length s + decimal s)
unfolding digits
digits-decimal n [] a = ap some (omega arith)
digits-decimal n (c ∷ s) a =
    rw (a.0, digits-decimal (n * 10 + (c - b'0')) s a.1)
      (ap some (rw (pow-suc 10 (length s)) (distribute n (c - b'0') (10 ^ length s) (decimal s))))

digits_zero : (s : Text) → AllDecimal s → digits 0 s ≡ some (decimal s)
digits_zero s a = digits-decimal 0 s a ∙ ap some (omega arith)

digit_le : (c : ℕ) → is_decimal c ≡ true → c - b'0' ≤ 9
digit_le c h = ground arith

decimal-lt : (s : Text) → AllDecimal s → decimal s < 10 ^ length s
decimal-lt [] a = omega arith
decimal-lt (c ∷ s) a =
    let p = 10 ^ length s in
    let k = c - b'0' in
    let most : p * k ≤ p * 9 = mul-le-mul_left p (digit_le c a.0) in
    let small : decimal s < p = decimal-lt s a.1 in
    let swap : k * p ≡ p * k = mul_comm k p in rw (pow-suc 10 (length s), swap) (omega arith)

first_digit : (c : ℕ) → is_decimal c ≡ true → ((c == b'-') ≡ false) × ((c == b'+') ≡ false)
first_digit c h = (ground arith, ground arith)

pow_le_8 : (n : ℕ) → n ≤ 8 → 10 ^ n ≤ 100000000
pow_le_8 n h = pow-le-pow_right {n = 10} (omega arith) h

parse_int-decimal :
    (c : ℕ) (s : Text)
    → AllDecimal (c ∷ s)
    → decimal (c ∷ s) < two_63
    → parse_int (c ∷ s) ≡ some (pos (decimal (c ∷ s)))
unfolding parse_int
parse_int-decimal c s a lt =
    let (m, p) = first_digit c a.0 in
    rw (m, p, digits_zero (c ∷ s) a, lt→ltb (decimal (c ∷ s)) two_63 lt)

unit_le : (u d : ℕ) → timeout_unit_to_duration u ≡ some d → u ≢ b'H' → d ≤ 60000000000
unfolding timeout_unit_to_duration
unit_le u d e h = ground arith

get_elem?-last : (s : Text) (u : ℕ) → get_elem? (s ++ u ∷ []) (length s) ≡ some u
get_elem?-last [] u = refl
get_elem?-last (c ∷ s) u = get_elem?-last s u

scaled-pos : (d n : ℕ) → d * n < two_63 → scaled d (pos n) ≡ pos (d * n)
unfolding scaled
scaled-pos d n h =
    let e : (d * n) % two_64 ≡ d * n = mod-eq_of_lt (omega (arith, h)) in
    rw (e, lt→ltb (d * n) two_63 h)

product_lt : (d n : ℕ) → d ≤ 60000000000 → n < 100000000 → d * n < two_63
product_lt d n h k =
    let most : n * d ≤ n * 60000000000 = mul-le-mul_left n h in
    let swap : d * n ≡ n * d = mul_comm d n in rw swap (omega arith)

-- A timeout of one to eight digits in any unit but hours is decoded to exactly that many nanoseconds:
-- the product does not wrap around.
pub timeout_decode-decimal :
    (c : ℕ) (s : Text) (u d : ℕ)
    → AllDecimal (c ∷ s)
    → length s ≤ 7
    → timeout_unit_to_duration u ≡ some d
    → u ≢ b'H'
    → timeout_decode ((c ∷ s) ++ u ∷ []) ≡ ok (pos (d * decimal (c ∷ s)))
unfolding timeout_decode
timeout_decode-decimal c s u d a short e h =
    let t = c ∷ s in
    let n : length (t ++ u ∷ []) - 1 ≡ length t = omega (arith, length-append t (u ∷ [])) in
    let long : ltb (length (t ++ u ∷ [])) 2 ≡ false =
      le→ltb _ 2 (omega (arith, length-append t (u ∷ []))) in
    let small : decimal t < 100000000 =
      omega (arith, decimal-lt t a, pow_le_8 (length t) (omega arith)) in
    rw (
      long,
      n,
      get_elem?-last t u,
      take-append-length t (u ∷ []),
      e,
      parse_int-decimal c s a (omega arith),
      scaled-pos d (decimal t) (product_lt d (decimal t) (unit_le u d e h) small),
    )
