-- ===== src/Base/Text.antt =====
-- C strings: a `String` whose characters stand for the bytes before the terminating NUL.
use Prim.Native.Nat.{ℕ, zero, suc, ◌+◌, ◌≤◌, min}
use Prim.Native.String.{String, ◌++◌}
use Prim.Native.String.append
use Prim.Native.Char.{code}
use mathlib.Core.Path.{◌≡◌, refl, ap}
use mathlib.Core.Bool.{Bool, true, false, ◌&&◌, ◌||◌}
use mathlib.Core.Option.{Option, none, some}
use native.Mathlib.Omega.{arith}
use mod_janus.Base.Core.{◌==◌}

-- strlen
abbrev pub strlen : String → ℕ
strlen String.[] = 0
strlen (String.◌∷◌ c s) = suc (strlen s)

-- zstr(s) for a pointer that is not NULL
abbrev pub is_empty : String → Bool
is_empty String.[] = true
is_empty (String.◌∷◌ c s) = false

-- zstr(s) for a pointer that may be NULL
abbrev pub zstr : Option String → Bool
zstr none = true
zstr (some s) = is_empty s

pub strlen-append : (s t : String) → strlen (s ++ t) ≡ strlen s + strlen t
strlen-append String.[] t = rw append.nil (omega arith)
strlen-append (String.◌∷◌ c s) t = rw append.cons (omega (arith, strlen-append s t))

-- The first `n` characters.
abbrev pub take : ℕ → String → String
take zero s = String.[]
take (suc n) String.[] = String.[]
take (suc n) (String.◌∷◌ c s) = String.◌∷◌ c (take n s)

pub strlen-take : (n : ℕ) (s : String) → strlen (take n s) ≡ min n (strlen s)
strlen-take zero s = omega arith
strlen-take (suc n) String.[] = omega arith
strlen-take (suc n) (String.◌∷◌ c s) = omega (arith, strlen-take n s)

pub take_all : (n : ℕ) (s : String) → strlen s ≤ n → take n s ≡ s
take_all zero String.[] h = refl
take_all zero (String.◌∷◌ c s) h = absurd (omega arith)
take_all (suc n) String.[] h = refl
take_all (suc n) (String.◌∷◌ c s) h = ap (String.◌∷◌ c) (take_all n s (omega arith))

-- strncmp(s, p, strlen(p)) == 0
unfoldable pub has_prefix : String → String → Bool
has_prefix String.[] s = true
has_prefix (String.◌∷◌ c p) String.[] = false
has_prefix (String.◌∷◌ c p) (String.◌∷◌ d s) = code c == code d && has_prefix p s

-- strstr(s, p) != NULL
unfoldable pub has_substring : String → String → Bool
unfolding has_prefix
has_substring p String.[] = has_prefix p String.[]
has_substring p (String.◌∷◌ c s) = has_prefix p (String.◌∷◌ c s) || has_substring p s
