-- ===== src/Base/Decimal.antt =====
-- The decimal digits that `%" SWITCH_UINT64_T_FMT "` and `%lld` print, and the number that they spell.
use Prim.Native.Nat.{ℕ, zero, suc, ◌+◌, ◌-◌, ◌*◌, ◌/◌, ◌%◌, ◌^◌, ◌≤◌, ◌<◌}
use Prim.Native.String.{String}
use Prim.Native.Char.{Char, code}
use mathlib.Core.Path.{◌≡◌, refl, ap, sym, ◌∙◌}
use mathlib.Core.Logic.{inl, inr}
use mathlib.Core.Bool.{Bool, true, false, ◌&&◌}
use native.Mathlib.Nat.{pow-suc}
use native.Mathlib.Omega.{arith}
use mod_janus.Base.Core.{leb, ltb, ltb→lt, lt→ltb, if◌then◌else◌, Bool-cases}
use mod_janus.Base.Text.{strlen, is_empty}

digit_char : ℕ → Char
digit_char zero = "0"
digit_char (suc zero) = "1"
digit_char (suc (suc zero)) = "2"
digit_char (suc (suc (suc zero))) = "3"
digit_char (suc (suc (suc (suc zero)))) = "4"
digit_char (suc (suc (suc (suc (suc zero))))) = "5"
digit_char (suc (suc (suc (suc (suc (suc zero)))))) = "6"
digit_char (suc (suc (suc (suc (suc (suc (suc zero))))))) = "7"
digit_char (suc (suc (suc (suc (suc (suc (suc (suc zero)))))))) = "8"
digit_char _ = "9"

-- The digits of `n`, most significant first, before `rest`.
digits : ℕ → ℕ → String → String
digits zero n rest = rest
digits (suc fuel) n rest =
    let out = String.◌∷◌ (digit_char (n % 10)) rest in
    let more = digits fuel (n / 10) out in if ltb n 10 then out else more

-- printf of an unsigned number: at most `n + 1` digits.
unfoldable pub decimal : ℕ → String
unfolding digits digit_char
decimal n = digits (suc n) n String.[]

-- The number that a string of digits spells, read after a prefix worth `acc`.
unfoldable pub spelled : ℕ → String → ℕ
spelled acc String.[] = acc
spelled acc (String.◌∷◌ c s) = spelled (acc * 10 + (code c - 48)) s

code-digit_char : (d : ℕ) → d < 10 → code (digit_char d) ≡ d + 48
unfolding digit_char
code-digit_char zero h = refl
code-digit_char (suc zero) h = refl
code-digit_char (suc (suc zero)) h = refl
code-digit_char (suc (suc (suc zero))) h = refl
code-digit_char (suc (suc (suc (suc zero)))) h = refl
code-digit_char (suc (suc (suc (suc (suc zero))))) h = refl
code-digit_char (suc (suc (suc (suc (suc (suc zero)))))) h = refl
code-digit_char (suc (suc (suc (suc (suc (suc (suc zero))))))) h = refl
code-digit_char (suc (suc (suc (suc (suc (suc (suc (suc zero)))))))) h = refl
code-digit_char (suc (suc (suc (suc (suc (suc (suc (suc (suc d))))))))) h = omega arith

spelled-digits :
    (fuel n : ℕ) (rest : String) → n < fuel → spelled 0 (digits fuel n rest) ≡ spelled n rest
unfolding digits spelled
spelled-digits zero n rest h = absurd (omega arith)
spelled-digits (suc fuel) n rest h = elim (Bool-cases (ltb n 10)) [
  | inl small ↦ rw small (
      ap (λ (t : ℕ). spelled t rest)
        (omega (arith, code-digit_char (n % 10) (omega arith), ltb→lt n 10 small)))
  | inr large ↦ rw large (
      spelled-digits fuel (n / 10) _ (ground arith)
      ∙ ap (λ (t : ℕ). spelled t rest) (omega (arith, code-digit_char (n % 10) (omega arith))))
]

pub spelled-decimal : (n : ℕ) → spelled 0 (decimal n) ≡ n
unfolding decimal spelled
spelled-decimal n = spelled-digits (suc n) n String.[] (omega arith)

pub decimal_injective : (m n : ℕ) → decimal m ≡ decimal n → m ≡ n
decimal_injective m n e = sym (spelled-decimal m) ∙ ap (spelled 0) e ∙ spelled-decimal n

-- A number below 10 ^ k prints in at most k digits.
strlen-digits :
    (k fuel n : ℕ) (rest : String)
    → n < 10 ^ suc k
    → strlen (digits fuel n rest) ≤ suc k + strlen rest
unfolding digits
strlen-digits k zero n rest h = omega arith
strlen-digits zero (suc fuel) n rest h = rw (lt→ltb n 10 (rw pow-suc at h)) (omega arith)
strlen-digits (suc k) (suc fuel) n rest h = ground (
  arith,
  strlen-digits k fuel (n / 10) (String.◌∷◌ (digit_char (n % 10)) rest)
      (omega (arith, pow-suc 10 (suc k))),
)

pub strlen-decimal : (k n : ℕ) → n < 10 ^ suc k → strlen (decimal n) ≤ suc k
unfolding decimal
strlen-decimal k n h = omega (arith, strlen-digits k (suc n) n String.[] h)

decimal_max : decimal 18446744073709551615 ≡ "18446744073709551615"
unfolding decimal
decimal_max = refl

-- every character is a digit
unfoldable pub all_digits : String → Bool
all_digits String.[] = true
all_digits (String.◌∷◌ c s) = leb b'0' (code c) && leb (code c) b'9' && all_digits s

digits-all_digits :
    (fuel n : ℕ) (rest : String) → all_digits rest ≡ true → all_digits (digits fuel n rest) ≡ true
unfolding digits all_digits
digits-all_digits zero n rest h = h
digits-all_digits (suc fuel) n rest h =
    let own = code-digit_char (n % 10) (omega arith) in
    let out = String.◌∷◌ (digit_char (n % 10)) rest in
    let all : all_digits out ≡ true = ground (arith, h, own) in
    ground (arith, all, digits-all_digits fuel (n / 10) out all)

pub decimal-all_digits : (n : ℕ) → all_digits (decimal n) ≡ true
unfolding decimal all_digits
decimal-all_digits n = digits-all_digits (suc n) n String.[] refl

digits-full :
    (fuel n : ℕ) (rest : String) → is_empty rest ≡ false → is_empty (digits fuel n rest) ≡ false
unfolding digits
digits-full zero n rest h = h
digits-full (suc fuel) n rest h =
    let out = String.◌∷◌ (digit_char (n % 10)) rest in
    ground (arith, digits-full fuel (n / 10) out refl)

pub is_empty-decimal : (n : ℕ) → is_empty (decimal n) ≡ false
unfolding decimal digits
is_empty-decimal n =
    ground (arith, digits-full n (n / 10) (String.◌∷◌ (digit_char (n % 10)) String.[]) refl)
