-- ===== src/Text/Decimal.antt =====
-- `parse::<u64>()`, `parse::<u16>()` and the decimal print of a number.
use ssh_mountmate.Base.{
  ℕ, zero, suc, ◌+◌, ◌-◌, ◌*◌, ◌/◌, ◌%◌, ◌≤◌, ◌<◌, ◌≡◌, refl, ◌∙◌, Bool, true, false, ◌&&◌, Option,
  none, some, [], ◌∷◌, arith, ltb, leb, ◌==◌, if◌then◌else◌, Bool-cases, inl, inr,
}
use ssh_mountmate.Text.{Text, is_digit}

-- The digits behind `n`; each step is checked against the largest value.
unfoldable pub scan_digits : ℕ → Text → ℕ → Option ℕ
unfolding is_digit
scan_digits largest [] n = some n
scan_digits largest (c ∷ s) n =
    let m = n * 10 + (c - b'0') in
    let rest = scan_digits largest s m in if is_digit c && leb m largest then rest else none

-- At least one digit, behind an optional plus sign.
unfoldable pub parse_digits : ℕ → Text → Option ℕ
unfolding scan_digits
parse_digits largest [] = none
parse_digits largest (c ∷ s) = scan_digits largest (c ∷ s) 0

unfoldable pub parse_uint : ℕ → Text → Option ℕ
unfolding parse_digits
parse_uint largest [] = none
parse_uint largest (c ∷ s) =
    if c == b'+' then parse_digits largest s else parse_digits largest (c ∷ s)

-- The fuel is above the number, which falls with each digit.
unfoldable pub emit_digits : ℕ → ℕ → Text → Text
emit_digits zero n out = out
emit_digits (suc k) n out =
    let rest = emit_digits k (n / 10) ((b'0' + n % 10) ∷ out) in
    if ltb n 10 then (b'0' + n) ∷ out else rest

-- `to_string`
unfoldable pub decimal : ℕ → Text
unfolding emit_digits
decimal n = emit_digits (suc n) n []

scan_digits_step :
    (largest n : ℕ) (out : Text)
    → n ≤ largest
    → scan_digits largest ((b'0' + n % 10) ∷ out) (n / 10) ≡ scan_digits largest out n
unfolding scan_digits
scan_digits_step largest n out h =
    let e : n / 10 * 10 + (b'0' + n % 10 - b'0') ≡ n = omega arith in rw e (ground arith)

scan_digits-emit :
    (largest k n : ℕ) (out : Text)
    → n < k
    → n ≤ largest
    → scan_digits largest (emit_digits k n out) 0 ≡ scan_digits largest out n
unfolding emit_digits
scan_digits-emit largest zero n out h le = absurd (omega arith)
scan_digits-emit largest (suc k) n out h le = elim (Bool-cases (ltb n 10)) [
  | inl small ↦ rw small (one largest n out small le)
  | inr large ↦ rw large (
      scan_digits-emit largest k (n / 10) ((b'0' + n % 10) ∷ out) (ground arith) (omega arith)
      ∙ scan_digits_step largest n out le)
]
  where
    one :
        (largest n : ℕ) (out : Text)
        → ltb n 10 ≡ true
        → n ≤ largest
        → scan_digits largest ((b'0' + n) ∷ out) 0 ≡ scan_digits largest out n
    one largest n out s le =
        unfold scan_digits in
        (let e : 0 * 10 + (b'0' + n - b'0') ≡ n = omega arith in rw e (ground arith))

abbrev pub starts_with_digit : Text → Bool
starts_with_digit [] = false
starts_with_digit (c ∷ s) = is_digit c

starts_with_digit-emit :
    (k n : ℕ) (out : Text) → n < k → starts_with_digit (emit_digits k n out) ≡ true
unfolding emit_digits is_digit
starts_with_digit-emit zero n out h = absurd (omega arith)
starts_with_digit-emit (suc k) n out h = elim (Bool-cases (ltb n 10)) [
  | inl small ↦ rw small (ground arith)
  | inr large ↦ rw large (starts_with_digit-emit k (n / 10) ((b'0' + n % 10) ∷ out) (ground arith))
]

parse_uint-scan :
    (largest : ℕ) (s : Text)
    → starts_with_digit s ≡ true
    → parse_uint largest s ≡ scan_digits largest s 0
unfolding parse_uint is_digit
parse_uint-scan largest [] h = cc
parse_uint-scan largest (c ∷ s) h = ground arith

pub starts_with_digit-decimal : (n : ℕ) → starts_with_digit (decimal n) ≡ true
unfolding decimal
starts_with_digit-decimal n = starts_with_digit-emit (suc n) n [] (omega arith)

-- A number that fits is read back from its print.
pub parse_uint-decimal : (largest n : ℕ) → n ≤ largest → parse_uint largest (decimal n) ≡ some n
unfolding decimal
parse_uint-decimal largest n h =
    rw (parse_uint-scan largest (decimal n) (starts_with_digit-decimal n))
      (rw (scan_digits-emit largest (suc n) n [] (omega arith) h) (unfold scan_digits in refl))

-- What is read is at most the largest value.
scan_digits-le :
    (largest : ℕ) (s : Text) (n r : ℕ)
    → n ≤ largest
    → scan_digits largest s n ≡ some r
    → r ≤ largest
unfolding scan_digits
scan_digits-le largest [] n r h e = ground arith
scan_digits-le largest (c ∷ s) n r h e =
    ground (arith, scan_digits-le largest s (n * 10 + (c - b'0')) r)

pub parse_uint-le : (largest : ℕ) (s : Text) (r : ℕ) → parse_uint largest s ≡ some r → r ≤ largest
unfolding parse_uint parse_digits
parse_uint-le largest [] r e = cc
parse_uint-le largest (c ∷ []) r e =
    ground (arith, scan_digits-le largest (c ∷ []) 0 r (omega arith))
parse_uint-le largest (c ∷ d ∷ s) r e = ground (
  arith,
  scan_digits-le largest (c ∷ d ∷ s) 0 r (omega arith),
  scan_digits-le largest (d ∷ s) 0 r (omega arith),
)
