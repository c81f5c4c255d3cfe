-- ===== src/Servers/Names.antt =====
-- servers.c: serversPodNameValid, the test of a pod name.
pub mod Label
mod Tests
use mod_janus.Base.{
  ℕ, zero, suc, ◌≤◌, ◌<◌, Char, code, String, ◌≡◌, ◌≢◌, ◌↔◌, refl, Bool, true, false, not, ◌&&◌,
  ◌||◌, arith, ltb, leb, ◌==◌, if◌then◌else◌, strlen, is_empty, Bool-cases,
}

-- a-z, 0-9 or '-'
pod_char : Char → Bool
pod_char c =
    (leb b'a' (code c) && leb (code c) b'z')
    || (leb b'0' (code c) && leb (code c) b'9')
    || code c == b'-'

-- the loop over the characters
all_pod_chars : String → Bool
all_pod_chars String.[] = true
all_pod_chars (String.◌∷◌ c s) = pod_char c && all_pod_chars s

-- pod_name[0] == '-'
starts_dash : String → Bool
starts_dash String.[] = false
starts_dash (String.◌∷◌ c s) = code c == b'-'

-- pod_name[len - 1] == '-'
ends_dash : String → Bool
ends_dash String.[] = false
ends_dash (String.◌∷◌ c String.[]) = code c == b'-'
ends_dash (String.◌∷◌ c (String.◌∷◌ d s)) = ends_dash (String.◌∷◌ d s)

-- serversPodNameValid
unfoldable pub pod_name_valid : String → Bool
unfolding all_pod_chars starts_dash ends_dash pod_char
pod_name_valid s =
    if is_empty s
    then false
    else if ltb 63 (strlen s)
    then false
    else if not (all_pod_chars s)
    then false
    else if starts_dash s || ends_dash s
    then false
    else true
