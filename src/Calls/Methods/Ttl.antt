-- ===== src/Calls/Methods/Ttl.antt =====
-- mod_janus.c: the lifetime of the token of a call.
use mod_janus.Base.{◌≤◌, String, Option, some, arith, none}
use mod_janus.Calls.Methods.{hmac_token_ttl}

-- Whatever the variable holds, a token lives for at least a second and at most a day.
pub hmac_token_ttl_bounds :
    (v : Option String) → (1 ≤ hmac_token_ttl v) × (hmac_token_ttl v ≤ 86400)
unfolding hmac_token_ttl
hmac_token_ttl_bounds none = omega arith
hmac_token_ttl_bounds (some t) = ground arith
