-- ===== src/Auth.antt =====
-- auth.c: authSignToken, the tokens that Janus accepts in its signed mode. The signature, base64
-- and malloc come from other libraries and are the record `AuthLib`.
pub mod Capacity
mod Tests
use Prim.Native.String.{◌++◌}
use mod_janus.Base.{
  ℕ, ◌+◌, ◌-◌, String, Bool, true, false, Option, none, some, List, [], ◌∷◌, ltb, if◌then◌else◌,
  strlen, is_empty, decimal, ℤ, pos, negsuc,
}

-- HMAC with EVP_sha1 of a key and a text, EVP_EncodeBlock of a signature, and whether malloc gives
-- a number of bytes. A C string stands for its bytes, and `none` is a failure.
pub record AuthLib : Type 0 where
  pub hmac_sha1 : String → String → Option String
  pub encode_block : String → Option String
  pub malloc : ℕ → Bool

abbrev pub auth_realm : String
auth_realm = "janus"

-- the loop that sums the room for the descriptors
unfoldable pub descriptors_cap : List (Option String) → ℕ
descriptors_cap [] = 0
descriptors_cap (none ∷ ds) = descriptors_cap ds
descriptors_cap (some d ∷ ds) = 1 + strlen d + descriptors_cap ds

-- dataCap: a 20-digit time with its sign, a comma, the realm, the descriptors and a NUL
unfoldable pub data_cap : List (Option String) → ℕ
unfolding descriptors_cap
data_cap ds = 21 + 1 + strlen auth_realm + descriptors_cap ds + 1

-- snprintf behind `text` in a buffer of `cap` bytes: `none` where it does not fit with its NUL
unfoldable pub append_within : ℕ → String → String → Option String
append_within cap text more =
    if ltb (strlen more) (cap - strlen text) then some (text ++ more) else none

-- the loop that appends the descriptors; NULL and empty ones are skipped
unfoldable pub append_descriptors : ℕ → String → List (Option String) → Option String
append_descriptors cap text [] = some text
append_descriptors cap text (none ∷ ds) = append_descriptors cap text ds
append_descriptors cap text (some d ∷ ds) =
    let next = append_within cap text ("," ++ d) in
    let rest : Option String = elim next [
      | none ↦ none
      | some longer ↦ append_descriptors cap longer ds
    ] in
    if is_empty d then append_descriptors cap text ds else rest

-- "<expiry>,janus[,desc1,desc2...]"
unfoldable pub token_data : ℕ → ℕ → List (Option String) → Option String
token_data cap expiry ds = elim (append_within cap "" (decimal expiry ++ ("," ++ auth_realm))) [
  | none ↦ none
  | some text ↦ append_descriptors cap text ds
]

-- "<data>:<signature>"
unfoldable pub signed_text : AuthLib → String → String → Option String
signed_text lib secret text = elim (lib.hmac_sha1 secret text) [
  | none ↦ none
  | some sig ↦ elim (lib.encode_block sig) [
    | none ↦ none
    | some b64 ↦
        if is_empty b64
        then none
        else if lib.malloc (strlen text + 1 + strlen b64 + 1)
        then some (text ++ (":" ++ b64))
        else none
  ]
]

-- authSignToken at the time `now`
unfoldable pub sign_token : AuthLib → ℕ → Option String → ℤ → List (Option String) → Option String
sign_token lib now none ttl ds = none
sign_token lib now (some secret) (negsuc n) ds = none
sign_token lib now (some secret) (pos ttl) ds =
    if is_empty secret
    then none
    else if ltb 0 ttl
    then (if lib.malloc (data_cap ds)
        then elim (token_data (data_cap ds) (now + ttl) ds) [
          | none ↦ none
          | some text ↦ signed_text lib secret text
        ]
        else none)
    else none
