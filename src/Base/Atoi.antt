-- ===== src/Base/Atoi.antt =====
-- atoi of the C library: white space, a sign, and the digits up to the first other character.
-- What the digits spell is kept whole; the library leaves a value beyond `int` undefined.
use Prim.Native.Nat.{ℕ, zero, suc, ◌+◌, ◌-◌, ◌*◌}
use Prim.Native.String.{String}
use Prim.Native.Char.{Char, code}
use mathlib.Core.Path.{◌≡◌, refl}
use mathlib.Core.Bool.{Bool, ◌&&◌, ◌||◌}
use mod_janus.Base.Core.{leb, ◌==◌, if◌then◌else◌}

-- `negsuc n` is -(n + 1).
pub data ℤ : Type 0 where
  pos : ℕ → ℤ
  negsuc : ℕ → ℤ

abbrev pub negate : ℕ → ℤ
negate zero = pos 0
negate (suc n) = negsuc n

abbrev pub is_digit : Char → Bool
is_digit c = leb b'0' (code c) && leb (code c) b'9'

abbrev is_space : Char → Bool
is_space c = code c == 32 || (leb 9 (code c) && leb (code c) 13)

read_digits : ℕ → String → ℕ
read_digits acc String.[] = acc
read_digits acc (String.◌∷◌ c s) =
    let rest = read_digits (acc * 10 + (code c - 48)) s in if is_digit c then rest else acc

unfoldable pub skip_space : String → String
skip_space String.[] = String.[]
skip_space (String.◌∷◌ c s) = let rest = skip_space s in if is_space c then rest else String.◌∷◌ c s

read_sign : String → ℤ
read_sign String.[] = pos 0
read_sign (String.◌∷◌ c s) =
    if code c == b'-'
    then negate (read_digits 0 s)
    else if code c == b'+'
    then pos (read_digits 0 s)
    else pos (read_digits 0 (String.◌∷◌ c s))

unfoldable pub atoi : String → ℤ
unfolding read_digits skip_space read_sign
atoi s = read_sign (skip_space s)

-- the number if it is positive, and 0 otherwise
abbrev pub at_least_zero : ℤ → ℕ
at_least_zero (pos n) = n
at_least_zero (negsuc n) = 0

atoi_reads : atoi " -12x" ≡ negsuc 11
unfolding atoi
atoi_reads = refl
