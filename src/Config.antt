-- ===== src/Config.antt =====
-- mod_janus.c: load_config and normalize_headless_service_url.
pub mod Table
pub mod Placeholder
mod Tests
use Prim.Native.String.{◌++◌}
use mod_janus.Base.{
  ℕ, ◌+◌, ◌-◌, ◌%◌, ◌^◌, String, Bool, true, false, not, ◌&&◌, ◌||◌, Option, none, some, List, [],
  ◌∷◌, ◌==◌, if◌then◌else◌, is_empty, is_some, str_eq, atoi, ℤ, pos, negsuc,
}
use mod_janus.Servers.{Globals}
use mod_janus.Servers.Url.{strip_prefix}
use mod_janus.Servers.Add.{Param, ServerXml, Site, servers_add}

-- strstr: the texts before and behind the first occurrence
unfoldable pub around : String → String → Option (String × String)
unfolding strip_prefix
around text String.[] = elim (strip_prefix text "") [ none ↦ none | some rest ↦ some ("", rest) ]
around text (String.◌∷◌ c s) =
    let later = around text s in
    elim (strip_prefix text (String.◌∷◌ c s)) [
      | some rest ↦ some ("", rest)
      | none ↦ elim later [ none ↦ none | some (before, rest) ↦ some (String.◌∷◌ c before, rest) ]
    ]

-- normalize_headless_service_url: `{pod}.` is taken out
unfoldable pub normalize_headless_service_url : String → Option String
unfolding around
normalize_headless_service_url configured =
    if is_empty configured then none else elim (around "{pod}." configured) [
      | none ↦ some configured
      | some (before, rest) ↦ some (before ++ rest)
    ]

-- (unsigned int) of an int
abbrev pub unsigned : ℤ → ℕ
unsigned (pos n) = n % 2 ^ 32
unsigned (negsuc n) = 2 ^ 32 - 1 - n % 2 ^ 32

-- one parameter of the settings
unfoldable pub set_setting : Site → Param → Globals → Globals
unfolding normalize_headless_service_url
set_setting site p g =
    let full = not (is_empty p.value) in
    if str_eq p.name "debug"
    then record g { debug = site.switch_true p.value }
    else if (str_eq p.name "headless-service-url" || str_eq p.name "pod-url-template") && full
    then record g { headless_service_url = normalize_headless_service_url p.value }
    else if str_eq p.name "registry-refresh-sec" && full
    then record g { registry_refresh_sec = unsigned (atoi p.value) }
    else if str_eq p.name "pod-server-fail-max" && full
    then record g { pod_server_fail_max = unsigned (atoi p.value) }
    else g

unfoldable pub set_settings : Site → List Param → Globals → Globals
unfolding set_setting
set_settings site [] g = g
set_settings site (p ∷ ps) g = set_settings site ps (set_setting site p g)

-- the defaults of the registry, where there is one
unfoldable pub registry_defaults : Globals → Globals
registry_defaults g =
    if is_some g.headless_service_url
    then record g {
      registry_refresh_sec = if g.registry_refresh_sec == 0 then 30 else g.registry_refresh_sec;
      pod_server_fail_max = if g.pod_server_fail_max == 0 then 12 else g.pod_server_fail_max;
    }
    else g

-- the loop over the servers: what serversAdd returns is not used
unfoldable pub add_servers : Site → List ServerXml → Globals → Globals
unfolding servers_add
add_servers site [] g = g
add_servers site (x ∷ xs) g = add_servers site xs (servers_add site x g).1

-- The configuration: the settings, which may be missing (an empty list), and the servers.
pub record ConfigXml : Type 0 where
  pub settings : List Param
  pub servers : List ServerXml

-- load_config: whether it succeeds (otherwise SWITCH_STATUS_TERM); `none` where the file does not
-- open
unfoldable pub load_config : Site → Option ConfigXml → Globals → Bool × Globals
unfolding set_settings registry_defaults add_servers
load_config site none g = (false, g)
load_config site (some xml) g =
    let g' = registry_defaults (set_settings site xml.settings g) in
    elim xml.servers [ [] ↦ (false, g') | x ∷ xs ↦ (true, add_servers site (x ∷ xs) g') ]
