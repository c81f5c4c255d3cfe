-- ===== src/Auth/Tests.antt =====
-- authSignToken with libraries that do not fail.
use Prim.Native.String.{◌++◌}
use mod_janus.Base.{String, ◌≡◌, refl, true, Option, none, some, List, [], ◌∷◌, pos, arith, decimal}
use mod_janus.Auth.{AuthLib, sign_token}
use mod_janus.Auth.Capacity.{listed, sign_token-total}

abbrev plain_lib : AuthLib
plain_lib = record {
  hmac_sha1 = λ key text. some (key ++ text);
  encode_block = λ sig. some sig;
  malloc = λ n. true;
}

abbrev descriptors : List (Option String)
descriptors = some "janus.plugin.audiobridge" ∷ none ∷ some "" ∷ some "room=7" ∷ []

sign_token-total_example :
    sign_token plain_lib 1700000000 (some "key") (pos 300) descriptors
    ≡ some
        "1700000300,janus,janus.plugin.audiobridge,room=7:key1700000300,janus,janus.plugin.audiobridge,room=7"
unfolding listed decimal
sign_token-total_example =
    sign_token-total plain_lib 1700000000 300 "key"
      "key1700000300,janus,janus.plugin.audiobridge,room=7"
      "key1700000300,janus,janus.plugin.audiobridge,room=7" descriptors refl (omega arith)
      (omega arith) (λ n. refl) refl refl refl
