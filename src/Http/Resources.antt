-- ===== src/Http/Resources.antt =====
-- http.c: what httpPost and httpGet acquire, and what they give back.
use mod_janus.Base.{ℕ, ◌+◌, String, ◌≡◌, refl, Bool, true, false, is_some, if◌then◌else◌, arith}
use mod_janus.Json.{JsonLib}
use mod_janus.Http.{HttpLib, Held, http_post, http_get, acquire, release}

release-acquire :
    (given : Bool) (h : Held)
    → release given (acquire given (record h { buffers = h.buffers + 1 })) ≡ h
unfolding release acquire
release-acquire given h = ground arith

module _ (c : JsonLib) (lib : HttpLib c) where
  -- A POST and a GET give back all that they acquire (the buffer, the handle, the header list and
  -- the printed text), whatever comes of the transfer; only where curl gives no handle, each of
  -- them leaves its buffer behind.
  pub request-held :
      (got_handle : Bool) (url : String) (timeout : ℕ) (request : c.Node) (h : Held)
      → let left = if got_handle then h else record h { buffers = h.buffers + 1 } in
        ((http_post c lib got_handle url timeout request h).1 ≡ left)
        × ((http_get c lib got_handle url timeout h).1 ≡ left)
  unfolding http_post http_get
  request-held false url timeout request h = (refl, refl)
  request-held true url timeout request h =
      (release-acquire (is_some (lib.print request)) h, release-acquire false h)
