-- ===== src/Model/Ports.antt =====
-- `normalize_port`: what it accepts and that it is stable.
use ssh_mountmate.Base.{
  ℕ, zero, suc, ◌+◌, ◌/◌, ◌%◌, ◌≤◌, ◌<◌, ◌≡◌, refl, true, false, Option, none, some, [], ◌∷◌, arith,
  ltb, all, Bool-cases, inl, inr, u16_max,
}
use ssh_mountmate.Text.{Text, trim, is_digit, is_whitespace}
use ssh_mountmate.Text.Trim.{first_not, last_not, trim_by-id}
use ssh_mountmate.Text.Decimal.{parse_uint, decimal, emit_digits, parse_uint-decimal, parse_uint-le}
use ssh_mountmate.Model.{normalize_port, port_text}

digit_not_space : (c : ℕ) → is_digit c ≡ true → is_whitespace c ≡ false
unfolding is_digit is_whitespace
digit_not_space c h = ground arith

first_not_space : (s : Text) → all is_digit s ≡ true → first_not is_whitespace s ≡ true
first_not_space [] h = refl
first_not_space (c ∷ s) h = ground (arith, digit_not_space c)

last_not_space : (s : Text) → all is_digit s ≡ true → last_not is_whitespace s ≡ true
last_not_space [] h = refl
last_not_space (c ∷ []) h = ground (arith, digit_not_space c)
last_not_space (c ∷ d ∷ s) h = last_not_space (d ∷ s) (ground arith)

pub trim-digits : (s : Text) → all is_digit s ≡ true → trim s ≡ s
unfolding trim
trim-digits s h = trim_by-id is_whitespace s (first_not_space s h) (last_not_space s h)

digits-emit :
    (k n : ℕ) (out : Text)
    → n < k
    → all is_digit out ≡ true
    → all is_digit (emit_digits k n out) ≡ true
unfolding emit_digits is_digit
digits-emit zero n out h o = absurd (omega arith)
digits-emit (suc k) n out h o = elim (Bool-cases (ltb n 10)) [
  | inl small ↦ rw small (ground arith)
  | inr large ↦
      rw large (digits-emit k (n / 10) ((b'0' + n % 10) ∷ out) (ground arith) (ground arith))
]

pub digits-decimal : (n : ℕ) → all is_digit (decimal n) ≡ true
unfolding decimal
digits-decimal n = digits-emit (suc n) n [] (omega arith) refl

-- A port from 1 to 65535, printed without leading zeros, is what `normalize_port` yields for its
-- print.
normalize_port-decimal :
    (n : ℕ) → 1 ≤ n → n ≤ u16_max → normalize_port (decimal n) ≡ some (decimal n)
unfolding normalize_port
normalize_port-decimal n h k =
    rw (trim-digits (decimal n) (digits-decimal n))
      (rw (parse_uint-decimal u16_max n k) (ground arith))

-- What `normalize_port` accepts.
abbrev pub IsPort : Text → Type 0
IsPort port = (n : ℕ) × (1 ≤ n) × (n ≤ 65535) × (port ≡ decimal n)

-- A text that `normalize_port` accepts becomes the decimal print of a number from 1 to 65535.
pub normalize_port-IsPort : (value port : Text) → normalize_port value ≡ some port → IsPort port
unfolding normalize_port
normalize_port-IsPort value port h =
    go (parse_uint u16_max (trim value)) (parse_uint-le u16_max (trim value)) h
  where
    go :
        (o : Option ℕ)
        → ((r : ℕ) → o ≡ some r → r ≤ u16_max)
        → port_text o ≡ some port
        → IsPort port
    go none le h = absurd (cc)
    go (some n) le h = (n, ground arith, le n refl, ground arith)

-- A port that it has accepted is accepted again and stays as it is.
pub normalize_port_idem :
    (value port : Text) → normalize_port value ≡ some port → normalize_port port ≡ some port
normalize_port_idem value port h =
    let p = normalize_port-IsPort value port h in rw p.3 (normalize_port-decimal p.0 p.1 p.2)
