-- ===== src/Servers/Url/Roundtrip.antt =====
-- servers.c: the URL that is built for a pod is read back.
use Prim.Native.String.{◌++◌}
use Prim.Native.String.append
use mod_janus.Base.{
  ◌<◌, Char, code, String, ◌≡◌, refl, Bool, true, false, not, ◌&&◌, some, ==_iff, strlen,
  strlen-append, take_all, arith,
}
use mod_janus.Servers.Url.{
  strip_prefix, span, is_slash, ends_host, url_scheme, port_and_path, parse_http_url_parts,
  janus_path, build_janus_url,
}

-- no character of the text is of the kind
unfoldable pub free_of : (Char → Bool) → String → Bool
free_of stops String.[] = true
free_of stops (String.◌∷◌ c s) = not (stops c) && free_of stops s

-- the text begins with a character of the kind
unfoldable pub begins : (Char → Bool) → String → Bool
begins stops String.[] = false
begins stops (String.◌∷◌ c s) = stops c

span-begins : (stops : Char → Bool) (t : String) → begins stops t ≡ true → span stops t ≡ ("", t)
unfolding span begins
span-begins stops String.[] h = absurd (ground arith)
span-begins stops (String.◌∷◌ c t) h = ground (arith, h)

span-append :
    (stops : Char → Bool) (s t : String)
    → free_of stops s ≡ true
    → begins stops t ≡ true
    → span stops (s ++ t) ≡ (s, t)
unfolding span free_of
span-append stops String.[] t h b = rw (append.nil t) (span-begins stops t b)
span-append stops (String.◌∷◌ c s) t h b =
    rw (append.cons c s t) (ground (arith, h, span-append stops s t (ground (arith, h)) b))

pub strip_prefix-append : (p s : String) → strip_prefix p (p ++ s) ≡ some s
unfolding strip_prefix
strip_prefix-append String.[] s = rw (append.nil s) refl
strip_prefix-append (String.◌∷◌ c p) s =
    rw (append.cons c p s) (ground (arith, strip_prefix-append p s, ==_iff (code c) (code c)))

port_and_path-colon :
    (host default_port port path : String)
    → free_of is_slash port ≡ true
    → begins is_slash path ≡ true
    → strlen port < 16
    → strlen path < 128
    → port_and_path host default_port (":" ++ (port ++ path))
      ≡ some (record { host = host; port = port; path = path })
unfolding port_and_path
port_and_path-colon host default_port port path hp hq short_port short_path =
    rw
      (
        append.cons ":" "" (port ++ path),
        append.nil (port ++ path),
        span-append is_slash port path hp hq,
        take_all 127 path (omega arith),
      )
      (ground arith)

pub begins-janus_path : (path : String) → begins is_slash path ≡ true → janus_path path ≡ path
unfolding begins
begins-janus_path String.[] h = absurd (ground arith)
begins-janus_path (String.◌∷◌ c s) h = refl

url_scheme-http : (rest : String) → url_scheme ("http://" ++ rest) ≡ some ("80", rest)
unfolding url_scheme
url_scheme-http rest = rw (url_scheme, strip_prefix-append "http://" rest) refl

parse-whole :
    (ip tail : String)
    → free_of ends_host ip ≡ true
    → begins ends_host tail ≡ true
    → strlen ip < 256
    → parse_http_url_parts ("http://" ++ (ip ++ tail)) ≡ port_and_path ip "80" tail
unfolding parse_http_url_parts
parse-whole ip tail hi ht short_ip =
    rw (parse_http_url_parts, url_scheme-http (ip ++ tail), span-append ends_host ip tail hi ht)
      (ground arith)

pub build-whole :
    (ip port path : String)
    → begins is_slash path ≡ true
    → strlen ip < 256
    → strlen port < 16
    → strlen path < 128
    → build_janus_url ip port path ≡ "http://" ++ (ip ++ (":" ++ (port ++ path)))
unfolding build_janus_url
build-whole ip port path hq short_ip short_port short_path =
    let tail = ":" ++ (port ++ path) in
    rw
      (
        begins-janus_path path hq,
        take_all 511 ("http://" ++ (ip ++ tail)) (
            omega (
              arith,
              strlen-append "http://" (ip ++ tail),
              strlen-append ip tail,
              strlen-append ":" (port ++ path),
              strlen-append port path,
            )),
      )
      refl

begins-colon : (s : String) → begins ends_host (":" ++ s) ≡ true
unfolding begins
begins-colon s = rw (append.cons ":" "" s) refl

-- A URL that is built from an address, a port and a path is read back as these three, if they fit
-- their buffers and the separators stand only where they belong: no `:` or `/` in the address, no
-- `/` in the port, and a `/` at the start of the path.
pub parse-build :
    (ip port path : String)
    → free_of ends_host ip ≡ true
    → free_of is_slash port ≡ true
    → begins is_slash path ≡ true
    → strlen ip < 256
    → strlen port < 16
    → strlen path < 128
    → parse_http_url_parts (build_janus_url ip port path)
      ≡ some (record { host = ip; port = port; path = path })
parse-build ip port path hi hp hq short_ip short_port short_path =
    rw
      (
        build-whole ip port path hq short_ip short_port short_path,
        parse-whole ip (":" ++ (port ++ path)) hi (begins-colon (port ++ path)) short_ip,
      )
      (port_and_path-colon ip "80" port path hp hq short_port short_path)
