-- ===== src/Servers/Add.antt =====
-- servers.c: serversAdd, a `<server>` of the configuration, and the thread of the refresh timer.
-- An attribute that is missing is the empty text. What FreeSWITCH and the build decide is `Site`.
pub mod Configured
use mod_janus.Base.{
  ℕ, ◌+◌, ◌*◌, ◌%◌, ◌^◌, String, Char, code, Bool, true, false, not, ◌&&◌, ◌||◌, Option, none, some,
  List, [], ◌∷◌, ◌++◌ as join_lists, ◌==◌, leb, ltb, if◌then◌else◌, is_empty, zstr, str_eq, is_some,
  or_else, length, Status, success, failed,
}
use mod_janus.Base.Dict.{id_eq, name_eq, find, insert}
use mod_janus.Servers.{Server, Globals, Transport, zeroed, store, alloc}
use mod_janus.Servers.Pods.{capture_defaults}

-- a `<param>` and a `<server>`
pub record Param : Type 0 where
  pub name : String
  pub value : String

pub record ServerXml : Type 0 where
  pub name : String
  pub params : List Param

pub data Family : Type 0 where
  unspec inet inet6 : Family

-- switch_true, switch_find_interface_ip, SWITCH_MAX_CAND_ACL, and whether HAVE_MOD_JANUS_WS is set
pub record Site : Type 0 where
  pub switch_true : String → Bool
  pub interface_ip : String → Family → Option String
  pub max_cand_acl : ℕ
  pub has_ws : Bool

-- tolower on a byte
abbrev lower : Char → ℕ
lower c = if leb 65 (code c) && leb (code c) 90 then code c + 32 else code c

-- strcasecmp(s, t) == 0
unfoldable pub same_text : String → String → Bool
same_text String.[] String.[] = true
same_text String.[] (String.◌∷◌ d t) = false
same_text (String.◌∷◌ c s) String.[] = false
same_text (String.◌∷◌ c s) (String.◌∷◌ d t) = lower c == lower d && same_text s t

-- strncasecmp with a literal, and the text behind it
unfoldable pub behind : String → String → Option String
behind String.[] s = some s
behind (String.◌∷◌ c p) String.[] = none
behind (String.◌∷◌ c p) (String.◌∷◌ d s) =
    let rest = behind p s in if lower c == lower d then rest else none

-- strchr(s, ':') != NULL
unfoldable pub has_colon : String → Bool
has_colon String.[] = false
has_colon (String.◌∷◌ c s) = code c == b':' || has_colon s

-- `ext-rtp-ip`, once it is an address
unfoldable pub set_ext_address : String → Server → Server
unfolding behind
set_ext_address ip s = elim (behind "autonat:" ip) [
  | some rest ↦ record s { extrtpip = some rest; auto_nat = true }
  | none ↦ record s { extrtpip = some ip }
]

-- `ext-rtp-ip`
unfoldable pub set_ext_rtp_ip : String → String → Server → Server
unfolding same_text set_ext_address
set_ext_rtp_ip guess value s =
    let plain = if same_text value "auto" then guess else value in
    if str_eq value "0.0.0.0"
    then set_ext_address guess s
    else if same_text value "auto-nat"
    then s
    else set_ext_address plain (record s { auto_nat = false })

-- `interface:` of `rtp-ip`: the name, with the family that stands before it
abbrev with_family : String → Family → String × Family → String × Family
with_family prefix family x = elim (behind prefix x.0) [ none ↦ x | some rest ↦ (rest, family) ]

unfoldable pub interface_of : String → String × Family
unfolding behind
interface_of name =
    with_family "ipv6/" inet6 (with_family "ipv4/" inet (with_family "auto/" unspec (name, unspec)))

-- the address that `rtp-ip` gives
unfoldable pub rtp_address : Site → String → String → String
unfolding same_text behind interface_of
rtp_address site guess value =
    let plain = if same_text value "auto" then guess else value in
    if is_empty value
    then guess
    else if str_eq value "0.0.0.0"
    then guess
    else elim (behind "interface:" value) [
      | none ↦ plain
      | some name ↦
          let (interface, family) = interface_of name in
          or_else (site.interface_ip interface family) guess
    ]

unfoldable pub set_rtp_ip : Site → String → String → Server → Server
unfolding rtp_address has_colon
set_rtp_ip site guess value s =
    let ip = rtp_address site guess value in
    if has_colon ip then record s { rtpip6 = some ip } else record s { rtpip = some ip }

-- `apply-candidate-acl`
unfoldable pub add_acl : ℕ → String → Server → Server
unfolding same_text
add_acl max value s =
    if same_text value "none"
    then record s { cand_acl = [] }
    else if ltb (length s.cand_acl) max
    then record s { cand_acl = join_lists s.cand_acl (value ∷ []) }
    else s

-- the parameters from `apply-candidate-acl` on
unfoldable pub set_call_param : Site → Param → Server → Server
unfolding same_text add_acl
set_call_param site p s =
    let full = not (is_empty p.value) in
    if same_text p.name "apply-candidate-acl" && full
    then add_acl site.max_cand_acl p.value s
    else if same_text p.name "codec-string" && full
    then record s { codec_string = some p.value }
    else if str_eq p.name "enabled" && full && site.switch_true p.value
    then record s { enabled = true }
    else s

-- the parameters from `local-network-acl` on
unfoldable pub set_network_param : Site → String → Param → Server → Server
unfolding same_text set_ext_rtp_ip set_rtp_ip set_call_param
set_network_param site guess p s =
    let full = not (is_empty p.value) in
    if str_eq p.name "local-network-acl" && full
    then (if same_text p.value "none" then s else record s { local_network = some p.value })
    else if str_eq p.name "ext-rtp-ip" && full
    then set_ext_rtp_ip guess p.value s
    else if str_eq p.name "rtp-ip"
    then set_rtp_ip site guess p.value s
    else set_call_param site p s

-- one parameter
unfoldable pub set_param : Site → String → Param → Server → Server
unfolding set_network_param
set_param site guess p s =
    let full = not (is_empty p.value) in
    if str_eq p.name "url"
    then record s { url = some p.value }
    else if str_eq p.name "secret" && full
    then record s { secret = some p.value }
    else if str_eq p.name "auth-token" && full
    then record s { auth_token = some p.value }
    else if str_eq p.name "hmac-secret" && full
    then record s { hmac_secret = some p.value }
    else set_network_param site guess p s

-- the loop over the parameters
unfoldable pub set_params : Site → String → List Param → Server → Server
unfolding set_param
set_params site guess [] s = s
set_params site guess (p ∷ ps) s = set_params site guess ps (set_param site guess p s)

-- the server before its parameters
abbrev pub fresh_server : String → Server
fresh_server name = record zeroed {
  name = name;
  codec_string = some "opus";
  local_network = some "localnet.auto";
}

-- the transport for a URL, `none` where the build has none for it
unfoldable pub transport_of : Bool → String → Option Transport
unfolding behind
transport_of has_ws url =
    if is_some (behind "ws://" url) || is_some (behind "wss://" url)
    then (if has_ws then some Transport.ws else none)
    else some Transport.http

-- the server goes into pServerNameLookup, and the first one gives the defaults of the pods
unfoldable pub install : Globals → Server → Globals
unfolding capture_defaults alloc
install g s =
    let g' = alloc g s in
    let named = record g' { by_name = insert g'.by_name s.name g.next } in
    if is_some g.pod_defaults then named else capture_defaults named g.next

-- serversAdd
unfoldable pub servers_add : Site → ServerXml → Globals → Status × Globals
unfolding set_params transport_of install
servers_add site xml g =
    let s = set_params site g.guess_ip xml.params (fresh_server xml.name) in
    if is_some (find g.by_name xml.name) then (failed, g) else elim s.url [
      | none ↦ (failed, g)
      | some url ↦ elim (transport_of site.has_ws url) [
        | none ↦ (failed, g)
        | some transport ↦ (success, install g (record s { transport = transport }))
      ]
    ]

-- servers_registry_run: the pause in microseconds, an unsigned int
unfoldable pub refresh_usec : ℕ → ℕ
refresh_usec sec = ((if sec == 0 then 30 else sec) * 1000000) % 2 ^ 32

-- its loop; each pause is given by whether registry_terminating is set after it
unfoldable pub refresh_turns : (Globals → Globals) → List Bool → Globals → Globals
refresh_turns refresh [] g = g
refresh_turns refresh (terminating ∷ pauses) g =
    let later = refresh_turns refresh pauses (refresh g) in
    if terminating || zstr g.headless_service_url then g else later

unfoldable pub registry_run : (Globals → Globals) → List Bool → Globals → Globals
unfolding refresh_turns
registry_run refresh pauses g = refresh_turns refresh pauses (refresh g)

-- serversStartRegistry
unfoldable pub start_registry : Globals → Globals
start_registry g =
    if g.registry_thread || zstr g.headless_service_url
    then g
    else record g { registry_thread = true; registry_terminating = false }

-- serversStopRegistry: the thread is joined
unfoldable pub stop_registry : Globals → Globals
stop_registry g =
    if not g.registry_thread
    then g
    else record g { registry_thread = false; registry_terminating = true }
