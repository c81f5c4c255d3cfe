-- ===== src/Servers/Url.antt =====
-- servers.c: serversParseHttpUrlParts and serversBuildJanusUrl. The sizes of the buffers are those
-- of all callers: host[256], port[16], path[128].
pub mod Roundtrip
use Prim.Native.String.{◌++◌}
use mod_janus.Base.{
  ℕ, Char, code, String, Bool, true, false, ◌||◌, Option, none, some, ltb, ◌==◌, if◌then◌else◌,
  strlen, is_empty, take,
}

pub record UrlParts : Type 0 where
  pub host : String
  pub port : String
  pub path : String

-- strncmp with a literal, and the text behind it
unfoldable pub strip_prefix : String → String → Option String
strip_prefix String.[] s = some s
strip_prefix (String.◌∷◌ c p) String.[] = none
strip_prefix (String.◌∷◌ c p) (String.◌∷◌ d s) =
    let rest = strip_prefix p s in if code c == code d then rest else none

-- strpbrk and strchr: the text before the first character of a kind, and from it on
unfoldable pub span : (Char → Bool) → String → String × String
span stops String.[] = ("", "")
span stops (String.◌∷◌ c s) =
    let rest = span stops s in
    if stops c then ("", String.◌∷◌ c s) else (String.◌∷◌ c rest.0, rest.1)

abbrev pub is_slash : Char → Bool
is_slash c = code c == b'/'

abbrev pub ends_host : Char → Bool
ends_host c = code c == b':' || is_slash c

-- the scheme with its port, and what is behind it
unfoldable pub url_scheme : String → Option (String × String)
unfolding strip_prefix
url_scheme url = elim (strip_prefix "http://" url) [
  | some rest ↦ some ("80", rest)
  | none ↦ elim (strip_prefix "https://" url) [ some rest ↦ some ("443", rest) | none ↦ none ]
]

-- from the end of the host on; switch_copy_string cuts a path that is too long
unfoldable pub port_and_path : String → String → String → Option UrlParts
unfolding span
port_and_path host default_port String.[] =
    some (record { host = host; port = default_port; path = "" })
port_and_path host default_port (String.◌∷◌ c s) =
    let (port, rest) = span is_slash s in
    let explicit : Option UrlParts =
      if ltb (strlen port) 16
      then some (record { host = host; port = port; path = take 127 rest })
      else none in
    if code c == b':'
    then explicit
    else some (record { host = host; port = default_port; path = take 127 (String.◌∷◌ c s) })

-- serversParseHttpUrlParts
unfoldable pub parse_http_url_parts : String → Option UrlParts
unfolding url_scheme port_and_path span
parse_http_url_parts url = elim (url_scheme url) [
  | none ↦ none
  | some (default_port, rest) ↦
      let (host, tail) = span ends_host rest in
      if ltb (strlen host) 256 then port_and_path host default_port tail else none
]

-- a path, or the default one
abbrev pub janus_path : String → String
janus_path path = if is_empty path then "/janus" else path

-- serversBuildJanusUrl: snprintf into url[512]
unfoldable pub build_janus_url : String → String → String → String
build_janus_url ip port path = take 511 ("http://" ++ (ip ++ (":" ++ (port ++ janus_path path))))
