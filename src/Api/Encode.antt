-- ===== src/Api/Encode.antt =====
-- api.c: encode.
pub mod Fields
use mod_janus.Base.{
  ℕ, zero, suc, ◌+◌, String, Bool, true, false, Option, none, some, List, [], ◌∷◌, ltb,
  if◌then◌else◌, or_else, is_empty, pos, ◌>>=◌, map,
}
use mod_janus.Json.{JsonLib}
use mod_janus.Auth.{AuthLib, sign_token}
use mod_janus.Api.{Message, janus_plugin}

-- API_HMAC_DEFAULT_LIFECYCLE_TTL
abbrev pub lifecycle_ttl : ℕ
lifecycle_ttl = 300

-- The extra descriptors that go into pDescriptors, which has `slots` places left.
unfoldable pub pick_descriptors : ℕ → List (Option String) → List (Option String)
pick_descriptors zero ds = []
pick_descriptors (suc slots) [] = []
pick_descriptors (suc slots) (none ∷ ds) = pick_descriptors (suc slots) ds
pick_descriptors (suc slots) (some d ∷ ds) =
    let taken = some d ∷ pick_descriptors slots ds in
    let skipped = pick_descriptors (suc slots) ds in if is_empty d then skipped else taken

-- The plugin's name first, then at most MAX_TOKEN_DESCRIPTORS (4) others.
unfoldable pub token_descriptors : List (Option String) → List (Option String)
unfolding pick_descriptors
token_descriptors ds = some janus_plugin ∷ pick_descriptors 4 ds

module _ (c : JsonLib) where
  -- cJSON_AddStringToObject
  abbrev pub add_string : c.Node → String → String → Option c.Node
  add_string n k s = c.add_item n k (c.string_node s)

  -- a string that is added if its pointer is not NULL
  unfoldable pub add_optional : c.Node → String → Option String → Option c.Node
  add_optional n k none = some n
  add_optional n k (some s) = add_string n k s

  -- an item that is added if there is one, with the outcome ignored
  unfoldable pub add_part : c.Node → String → Option c.Node → c.Node
  add_part n k none = n
  add_part n k (some v) = or_else (c.add_item n k v) n

module _ (c : JsonLib) (auth : AuthLib) where
  -- the token that encode makes, when the server signs
  unfoldable pub make_token : ℕ → Message c → String → Option String
  unfolding token_descriptors
  make_token now m secret =
      let ttl = if ltb 0 m.hmac_token_ttl then m.hmac_token_ttl else lifecycle_ttl in
      sign_token auth now (some secret) (pos ttl) (token_descriptors m.extra)

  -- the `token` field, with the token for the caller
  unfoldable pub add_token : ℕ → Message c → c.Node → Option (c.Node × Option String)
  unfolding make_token
  add_token now m n = elim m.hmac_secret [
    | none ↦ some (n, none)
    | some secret ↦ elim (make_token now m secret) [
      | none ↦ none
      | some token ↦ elim (add_string c n "token" token) [
        | none ↦ none
        | some n' ↦ some (n', some token)
      ]
    ]
  ]

  -- the fields before the body and the jsep
  unfoldable pub encode_head : ℕ → Message c → Option (c.Node × Option String)
  unfolding add_optional add_token
  encode_head now m = do
    root ← c.create_object
    typed ← add_string c root "janus" (or_else m.type "")
    marked ← add_optional c typed "transaction" m.transaction
    keyed ← add_optional c marked "apisecret" m.secret
    signed ← add_token now m keyed
    named ← add_optional c signed.0 "opaque_id" m.opaque_id
    full ← (if m.is_plugin then add_string c named "plugin" janus_plugin else some named)
    some (full, signed.1)

  -- encode: the request, and the signed token if one was made
  unfoldable pub encode : ℕ → Message c → Option (c.Node × Option String)
  unfolding encode_head add_part
  encode now m = do
    head ← encode_head now m
    some (add_part c (add_part c head.0 "body" m.body) "jsep" m.jsep, head.1)
