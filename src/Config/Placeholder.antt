-- ===== src/Config/Placeholder.antt =====
-- mod_janus.c: the URL of the registry, with the placeholder of an older configuration.
use Prim.Native.String.{◌++◌}
use Prim.Native.String.append
use mod_janus.Base.{
  String, Char, code, ◌≡◌, refl, Bool, true, false, ◌==◌, none, some, arith, if◌then◌else◌,
  is_empty,
}
use mod_janus.Servers.Url.{strip_prefix}
use mod_janus.Servers.Url.Roundtrip.{free_of, strip_prefix-append}
use mod_janus.Config.{around, normalize_headless_service_url}

abbrev pub opens_brace : Char → Bool
opens_brace c = code c == b'{'

around-here :
    (text s rest : String) → strip_prefix text s ≡ some rest → around text s ≡ some ("", rest)
unfolding around
around-here text String.[] rest h = ground (arith, h)
around-here text (String.◌∷◌ c s) rest h = ground (arith, h)

no_brace :
    (c : Char) (s : String) → opens_brace c ≡ false → strip_prefix "{pod}." (String.◌∷◌ c s) ≡ none
unfolding strip_prefix
no_brace c s h = ground (arith, h)

around-before :
    (a b : String)
    → free_of opens_brace a ≡ true
    → around "{pod}." (a ++ ("{pod}." ++ b)) ≡ some (a, b)
unfolding around free_of
around-before String.[] b h =
    rw (append.nil ("{pod}." ++ b))
      (around-here "{pod}." ("{pod}." ++ b) b (strip_prefix-append "{pod}." b))
around-before (String.◌∷◌ c a) b h = rw (append.cons c a ("{pod}." ++ b)) (
    ground (
      arith,
      no_brace c (a ++ ("{pod}." ++ b)) (ground (arith, h)),
      around-before a b (ground (arith, h)),
    ))

around-none : (s : String) → free_of opens_brace s ≡ true → around "{pod}." s ≡ none
unfolding around free_of strip_prefix
around-none String.[] h = refl
around-none (String.◌∷◌ c s) h =
    ground (arith, no_brace c s (ground (arith, h)), around-none s (ground (arith, h)))

is_empty-placeholder : (a b : String) → is_empty (a ++ ("{pod}." ++ b)) ≡ false
is_empty-placeholder String.[] b = rw (append.nil ("{pod}." ++ b), append.cons "{" "pod}." b) refl
is_empty-placeholder (String.◌∷◌ c a) b = rw (append.cons c a ("{pod}." ++ b)) refl

-- Before the first brace of a configured URL nothing is changed: the placeholder `{pod}.` behind it
-- is taken out, the text behind the placeholder is kept, and a text without a brace that is not empty
-- is kept whole.
pub normalize_headless_service_url-around :
    (a b : String)
    → free_of opens_brace a ≡ true
    → (normalize_headless_service_url (a ++ ("{pod}." ++ b)) ≡ some (a ++ b))
      × (normalize_headless_service_url a ≡ (if is_empty a then none else some a))
unfolding normalize_headless_service_url
normalize_headless_service_url-around a b h =
    (ground (arith, is_empty-placeholder a b, around-before a b h), ground (arith, around-none a h))
