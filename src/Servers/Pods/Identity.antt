-- ===== src/Servers/Pods/Identity.antt =====
-- servers.c: what serversVerifyDynamicIdentity confirms.
use Prim.Native.String.{◌++◌}
use mathlib.Core.Path.{subst}
use mod_janus.Base.{
  ℕ, ◌-◌, ◌<◌, String, ◌≡◌, sym, ap, ◌∙◌, true, false, ◌&&◌, Option, some, ltb, arith, or_else,
  take, take_all, strlen, strlen-append, eq_iff, Option-cases, inl, inr,
}
use mod_janus.Json.{JsonLib}
use mod_janus.Servers.{Server}
use mod_janus.Servers.Names.Label.{IsLabel}
use mod_janus.Servers.Url.{UrlParts, is_slash, ends_host, parse_http_url_parts, janus_path}
use mod_janus.Servers.Url.Roundtrip.{free_of, begins, begins-janus_path, build-whole, parse-build}
use mod_janus.Servers.Pods.{probe_pod, verify_identity}
use mod_janus.Servers.Pods.Reports.{info_text, Reports, probe_pod-Reports}

-- The URL of a server.
abbrev pub url_of : String → String → String → String
url_of host port path = "http://" ++ (host ++ (":" ++ (port ++ path)))

-- a URL whose parts fit is read from its buffer as these parts
read_url :
    (host port path : String)
    → free_of ends_host host ≡ true
    → free_of is_slash port ≡ true
    → begins is_slash path ≡ true
    → strlen host < 256
    → strlen port < 16
    → strlen path < 128
    → parse_http_url_parts (take 511 (url_of host port path))
      ≡ some (record { host = host; port = port; path = path })
read_url host port path hi hp hq a b d =
    let whole = take_all 511 (url_of host port path) (
      omega (
        arith,
        strlen-append "http://" (host ++ (":" ++ (port ++ path))),
        strlen-append host (":" ++ (port ++ path)),
        strlen-append ":" (port ++ path),
        strlen-append port path,
      )) in
    ap parse_http_url_parts (whole ∙ sym (build-whole host port path hq a b d))
    ∙ parse-build host port path hi hp hq a b d

-- the address of a pod's information fits its buffer
info-whole :
    (ip port path : String)
    → strlen ip < 16
    → strlen port < 16
    → strlen path < 128
    → take 511 (info_text ip port path) ≡ info_text ip port path
info-whole ip port path a b d = take_all 511 (info_text ip port path) (
    omega (
      arith,
      strlen-append "http://" (ip ++ (":" ++ (port ++ (path ++ "/info")))),
      strlen-append ip (":" ++ (port ++ (path ++ "/info"))),
      strlen-append ":" (port ++ (path ++ "/info")),
      strlen-append port (path ++ "/info"),
      strlen-append path "/info",
    ))

module _ (c : JsonLib) (fetch : String → Option c.Node) where
  -- what the check has asked and heard, where it did ask
  asked :
      (now : ℕ) (s : Server) (parts : UrlParts)
      → s.dynamic ≡ true
      → (ltb 0 s.last_verified && ltb (now - s.last_verified) 5000000) ≡ false
      → parse_http_url_parts (take 511 (or_else s.url "")) ≡ some parts
      → (verify_identity c fetch now s).0 ≡ true
      → probe_pod c fetch (take 15 (or_else s.pod_ip "")) parts.port (janus_path parts.path)
        ≡ some s.name
  unfolding verify_identity
  asked now s parts dyn old e ok =
      elim (Option-cases
        (probe_pod c fetch (take 15 (or_else s.pod_ip "")) parts.port (janus_path parts.path))) [
          | inl f ↦ absurd (ground (arith, dyn, old, ok, e, f))
          | inr (name, f) ↦ f ∙ ap some (ground (arith, dyn, old, ok, e, f, eq_iff name s.name))
        ]

  -- A dynamic server whose last check is not recent, with an address of at most 15 characters and a
  -- URL `http://host:port/path` whose parts fit their buffers and hold no separators, passes the
  -- identity check only if the document at `http://address:port/path/info` has the server's own name
  -- as its `server-name`, and this name is a DNS label.
  pub verify_identity-Reports :
      (now : ℕ) (s : Server) (ip host port path : String)
      → s.dynamic ≡ true
      → (ltb 0 s.last_verified && ltb (now - s.last_verified) 5000000) ≡ false
      → s.pod_ip ≡ some ip
      → s.url ≡ some (url_of host port path)
      → free_of ends_host host ≡ true
      → free_of is_slash port ≡ true
      → begins is_slash path ≡ true
      → strlen ip < 16
      → strlen host < 256
      → strlen port < 16
      → strlen path < 128
      → (verify_identity c fetch now s).0 ≡ true
      → IsLabel s.name × Reports c fetch (info_text ip port path) s.name
  verify_identity-Reports now s ip host port path dyn old at url hi hp hq short a b d ok =
      let parts : UrlParts = record { host = host; port = port; path = path } in
      let text : or_else s.url "" ≡ url_of host port path = ap (λ u. or_else u "") url in
      let read =
        ap (λ u. parse_http_url_parts (take 511 u)) text ∙ read_url host port path hi hp hq a b d in
      let address : take 15 (or_else s.pod_ip "") ≡ ip =
        ap (λ u. take 15 (or_else u "")) at ∙ take_all 15 ip (omega (arith, short)) in
      let (label, said) =
        probe_pod-Reports c fetch (take 15 (or_else s.pod_ip "")) port (janus_path path) s.name
          (asked now s parts dyn old read ok) in
      let slash = begins-janus_path path hq in
      let url_is =
        ap (λ x. take 511 (info_text x port (janus_path (janus_path path)))) address
        ∙ ap (λ x. take 511 (info_text ip port (janus_path x))) slash
        ∙ ap (λ x. take 511 (info_text ip port x)) slash
        ∙ info-whole ip port path short b d in
      (label, subst (λ u. Reports c fetch u s.name) url_is said)
