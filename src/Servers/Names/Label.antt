-- ===== src/Servers/Names/Label.antt =====
-- serversPodNameValid accepts the DNS labels of pods, and nothing else.
use Prim.Native.String.{◌++◌}
use Prim.Native.String.append
use text.Mathlib.TextEquality.{Char-path}
use mod_janus.Base.{
  ◌≤◌, ◌<◌, Char, code, String, ◌≡◌, ◌≢◌, ◌↔◌, ◌⊎◌, inl, inr, refl, ap, true, false, arith, strlen,
  Bool-cases,
}
use mod_janus.Servers.Names.{pod_name_valid, pod_char, all_pod_chars, starts_dash, ends_dash}

-- a-z, 0-9 or '-'
abbrev pub IsPodChar : Char → Type 0
IsPodChar c =
    ((b'a' ≤ code c) × (code c ≤ b'z')) ⊎ (((b'0' ≤ code c) × (code c ≤ b'9')) ⊎ (code c ≡ b'-'))

abbrev pub AllPodChars : String → Type 0
AllPodChars String.[] = Unit {0}
AllPodChars (String.◌∷◌ c s) = IsPodChar c × AllPodChars s

-- A DNS label: 1 to 63 characters of the set, and no dash at either end.
pub record IsLabel (s : String) : Type 0 where
  pub not_empty : 0 < strlen s
  pub short : strlen s ≤ 63
  pub chars : AllPodChars s
  pub no_dash_first : (t : String) → s ≢ "-" ++ t
  pub no_dash_last : (t : String) → s ≢ t ++ "-"

pod_char_iff : (c : Char) → (pod_char c ≡ true) ↔ IsPodChar c
unfolding pod_char
pod_char_iff c = (λ h. ground arith, λ h. ground arith)

all_pod_chars_iff : (s : String) → (all_pod_chars s ≡ true) ↔ AllPodChars s
unfolding all_pod_chars
all_pod_chars_iff String.[] = (λ h. tt, λ h. refl)
all_pod_chars_iff (String.◌∷◌ c s) = (
  λ h. ground (arith, pod_char_iff c, all_pod_chars_iff s),
  λ h. ground (arith, pod_char_iff c, all_pod_chars_iff s),
)

dash_code : (c : Char) → code c ≡ b'-' → c ≡ "-"
dash_code c e = Char-path c "-" e

starts_dash-true : (s : String) → starts_dash s ≡ true → (t : String) × (s ≡ "-" ++ t)
unfolding starts_dash
starts_dash-true String.[] h = cc
starts_dash-true (String.◌∷◌ c s) h = (
  s,
  rw (append.cons "-" "" s, append.nil s)
      (ap (λ (x : Char). String.◌∷◌ x s) (dash_code c (ground arith))),
)

starts_dash-dash : (t : String) → starts_dash ("-" ++ t) ≡ true
unfolding starts_dash
starts_dash-dash t = rw (append.cons "-" "" t)

ends_dash-true : (s : String) → ends_dash s ≡ true → (t : String) × (s ≡ t ++ "-")
unfolding ends_dash
ends_dash-true String.[] h = cc
ends_dash-true (String.◌∷◌ c String.[]) h =
    (String.[], ap (λ (x : Char). String.◌∷◌ x "") (dash_code c (ground arith)))
ends_dash-true (String.◌∷◌ c (String.◌∷◌ d s)) h =
    let (t, e) = ends_dash-true (String.◌∷◌ d s) h in
    (String.◌∷◌ c t, rw append.cons (ap (λ (x : String). String.◌∷◌ c x) e))

ends_dash-dash : (t : String) → ends_dash (t ++ "-") ≡ true
unfolding ends_dash
ends_dash-dash String.[] = refl
ends_dash-dash (String.◌∷◌ c String.[]) = rw (append.cons c "" "-")
ends_dash-dash (String.◌∷◌ c (String.◌∷◌ d t)) =
    rw (append.cons c (String.◌∷◌ d t) "-", append.cons d t "-")
      (rw append.cons at (ends_dash-dash (String.◌∷◌ d t)))

starts_dash-false : (s : String) → ((t : String) → s ≢ "-" ++ t) → starts_dash s ≡ false
starts_dash-false s no_dash = elim (Bool-cases (starts_dash s)) [
  | inl h ↦ let (t, e) = starts_dash-true s h in absurd (no_dash t e)
  | inr h ↦ h
]

ends_dash-false : (s : String) → ((t : String) → s ≢ t ++ "-") → ends_dash s ≡ false
ends_dash-false s no_dash = elim (Bool-cases (ends_dash s)) [
  | inl h ↦ let (t, e) = ends_dash-true s h in absurd (no_dash t e)
  | inr h ↦ h
]

-- serversPodNameValid accepts exactly the texts of 1 to 63 characters from a-z, 0-9 and the dash
-- that neither begin nor end with a dash.
pub pod_name_valid_iff : (s : String) → (pod_name_valid s ≡ true) ↔ IsLabel s
unfolding pod_name_valid
pod_name_valid_iff String.[] = (λ h. cc, λ l. absurd (omega (arith, l.not_empty)))
pod_name_valid_iff (String.◌∷◌ c r) = (sound, complete)
  where
    s : String
    s = String.◌∷◌ c r

    sound : pod_name_valid s ≡ true → IsLabel s
    sound h = record {
      not_empty = omega arith;
      short = ground arith;
      chars = (all_pod_chars_iff s).0 (ground arith);
      no_dash_first = λ t e. ground (arith, ap starts_dash e, starts_dash-dash t);
      no_dash_last = λ t e. ground (arith, ap ends_dash e, ends_dash-dash t);
    }

    complete : IsLabel s → pod_name_valid s ≡ true
    complete l = ground (
      arith,
      (all_pod_chars_iff s).1 l.chars,
      starts_dash-false s l.no_dash_first,
      ends_dash-false s l.no_dash_last,
    )
