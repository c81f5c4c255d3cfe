-- ===== src/Auth/Capacity.antt =====
-- auth.c: the buffer that authSignToken takes is large enough, so that no text is cut.
use Prim.Native.String.{◌++◌}
use text.Mathlib.TextLemmas.{append-nil, nil-append, append_assoc}
use mod_janus.Base.{
  ℕ, ◌+◌, ◌^◌, ◌≤◌, ◌<◌, String, ◌≡◌, sym, ap, ◌∙◌, true, false, Option, none, some, List, [], ◌∷◌,
  if◌then◌else◌, strlen, strlen-append, strlen-decimal, is_empty, decimal, pos, arith, Bool-cases,
  inl, inr,
}
use mod_janus.Auth.{
  AuthLib, auth_realm, descriptors_cap, data_cap, append_within, append_descriptors, token_data,
  signed_text, sign_token,
}

-- The descriptors as the token lists them: those that are there and not empty.
unfoldable pub listed : List (Option String) → String
listed [] = ""
listed (none ∷ ds) = listed ds
listed (some d ∷ ds) = if is_empty d then listed ds else "," ++ (d ++ listed ds)

append_within-fits :
    (size : ℕ) (text more : String)
    → strlen text + strlen more < size
    → append_within size text more ≡ some (text ++ more)
unfolding append_within
append_within-fits size text more h = ground arith

append_descriptors-fits :
    (size : ℕ) (text : String) (ds : List (Option String))
    → strlen text + descriptors_cap ds < size
    → append_descriptors size text ds ≡ some (text ++ listed ds)
unfolding append_descriptors listed descriptors_cap
append_descriptors-fits size text [] h = ap some (sym (append-nil text))
append_descriptors-fits size text (none ∷ ds) h = append_descriptors-fits size text ds h
append_descriptors-fits size text (some d ∷ ds) h = elim (Bool-cases (is_empty d)) [
  | inl e ↦ rw e (append_descriptors-fits size text ds (omega arith))
  | inr e ↦
      rw (e, append_within-fits size text ("," ++ d) (omega (arith, strlen-append "," d)))
        (append_descriptors-fits size (text ++ ("," ++ d)) ds
            (omega (arith, strlen-append text ("," ++ d), strlen-append "," d))
          ∙ ap some (
              append_assoc text ("," ++ d) (listed ds)
              ∙ ap (λ (t : String). text ++ t) (append_assoc "," d (listed ds))))
]

token_data-within :
    (size expiry : ℕ) (ds : List (Option String))
    → expiry < 10 ^ 20
    → 26 + descriptors_cap ds < size
    → token_data size expiry ds ≡ some ((decimal expiry ++ ("," ++ auth_realm)) ++ listed ds)
unfolding token_data
token_data-within size expiry ds h room =
    let head = decimal expiry ++ ("," ++ auth_realm) in
    let short : strlen head ≤ 26 =
      omega
        (arith, strlen-append (decimal expiry) ("," ++ auth_realm), strlen-decimal 19 expiry h) in
    rw (append_within-fits size "" head (omega arith), token_data, nil-append head)
      (append_descriptors-fits size head ds (omega arith))

-- In a buffer of the size that is computed for them, a time of expiry below 10 ^ 20, the realm and
-- the descriptors that are there and not empty are printed whole.
pub token_data-fits :
    (expiry : ℕ) (ds : List (Option String))
    → expiry < 10 ^ 20
    → token_data (data_cap ds) expiry ds
      ≡ some ((decimal expiry ++ ("," ++ auth_realm)) ++ listed ds)
unfolding data_cap
token_data-fits expiry ds h = token_data-within (data_cap ds) expiry ds h (omega arith)

-- With a secret that is not empty, a positive lifetime, a time of expiry below 10 ^ 20 and
-- libraries that do not fail, authSignToken returns the signed text, a colon and the signature:
-- none of its tests for a cut text fails.
pub sign_token-total :
    (lib : AuthLib) (now ttl : ℕ) (secret sig b64 : String) (ds : List (Option String))
    → is_empty secret ≡ false
    → 0 < ttl
    → now + ttl < 10 ^ 20
    → ((n : ℕ) → lib.malloc n ≡ true)
    → lib.hmac_sha1 secret ((decimal (now + ttl) ++ ("," ++ auth_realm)) ++ listed ds) ≡ some sig
    → lib.encode_block sig ≡ some b64
    → is_empty b64 ≡ false
    → sign_token lib now (some secret) (pos ttl) ds
      ≡ some (((decimal (now + ttl) ++ ("," ++ auth_realm)) ++ listed ds) ++ (":" ++ b64))
unfolding sign_token signed_text
sign_token-total lib now ttl secret sig b64 ds hs ht hn room signs encodes some_b64 =
    let text = (decimal (now + ttl) ++ ("," ++ auth_realm)) ++ listed ds in
    ground (
      arith,
      room (data_cap ds),
      room (strlen text + 1 + strlen b64 + 1),
      token_data-fits (now + ttl) ds hn,
    )
