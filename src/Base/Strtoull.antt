-- ===== src/Base/Strtoull.antt =====
-- strtoull of the C library in base 10: white space, a sign, and the digits, of which there must be
-- one; the value saturates, and a minus negates it within 64 bits. With the text behind the number.
use Prim.Native.Nat.{ℕ, ◌+◌, ◌-◌, ◌*◌, ◌%◌, ◌^◌, ◌<◌}
use Prim.Native.String.{String}
use Prim.Native.Char.{code}
use mathlib.Core.Path.{◌≡◌, refl, ◌∙◌, ap}
use mathlib.Core.Bool.{Bool, true, false}
use native.Mathlib.Omega.{arith}
use mod_janus.Base.Core.{leb, ◌==◌, if◌then◌else◌}
use mod_janus.Base.Text.{is_empty}
use mod_janus.Base.Decimal.{
  decimal, spelled, spelled-decimal, all_digits, decimal-all_digits, is_empty-decimal,
}
use mod_janus.Base.Atoi.{is_digit, skip_space}

unfoldable read_number : ℕ → String → ℕ × String
read_number acc String.[] = (acc, String.[])
read_number acc (String.◌∷◌ c s) =
    let rest = read_number (acc * 10 + (code c - 48)) s in
    if is_digit c then rest else (acc, String.◌∷◌ c s)

abbrev begins_digit : String → Bool
begins_digit String.[] = false
begins_digit (String.◌∷◌ c s) = is_digit c

-- whether there is a minus, and what is behind the sign
unfoldable split_sign : String → Bool × String
split_sign String.[] = (false, String.[])
split_sign (String.◌∷◌ c s) =
    if code c == b'-'
    then (true, s)
    else if code c == b'+'
    then (false, s)
    else (false, String.◌∷◌ c s)

unfoldable pub strtoull : String → ℕ × String
unfolding read_number split_sign skip_space
strtoull s =
    let (negative, digits) = split_sign (skip_space s) in
    let (n, rest) = read_number 0 digits in
    let value =
      if leb (2 ^ 64) n then 2 ^ 64 - 1 else if negative then (2 ^ 64 - n) % 2 ^ 64 else n in
    if begins_digit digits then (value, rest) else (0, s)

read_number-spelled :
    (acc : ℕ) (s : String) → all_digits s ≡ true → read_number acc s ≡ (spelled acc s, String.[])
unfolding read_number spelled all_digits
read_number-spelled acc String.[] h = refl
read_number-spelled acc (String.◌∷◌ c s) h =
    ground (arith, h, read_number-spelled (acc * 10 + (code c - 48)) s (ground (arith, h)))

strtoull-digits :
    (s : String)
    → all_digits s ≡ true
    → is_empty s ≡ false
    → spelled 0 s < 2 ^ 64
    → strtoull s ≡ (spelled 0 s, String.[])
unfolding strtoull split_sign skip_space all_digits
strtoull-digits String.[] h full small = absurd (ground (arith, full))
strtoull-digits (String.◌∷◌ c s) h full small =
    ground (arith, h, small, read_number-spelled 0 (String.◌∷◌ c s) h)

-- A number of 64 bits is read back from its decimal digits, with nothing behind it.
pub strtoull-decimal : (n : ℕ) → n < 2 ^ 64 → strtoull (decimal n) ≡ (n, String.[])
strtoull-decimal n small =
    strtoull-digits (decimal n) (decimal-all_digits n) (is_empty-decimal n)
      (omega (arith, spelled-decimal n, small))
    ∙ ap (λ (k : ℕ). (k, String.[])) (spelled-decimal n)

strtoull_wraps : strtoull " -1x" ≡ (18446744073709551615, "x")
unfolding strtoull
strtoull_wraps = refl
