-- ===== src/Config/Tests.antt =====
-- A configuration with a placeholder and one server.
use mod_janus.Base.{◌≡◌, refl, true, none, some, [], ◌∷◌}
use mod_janus.Servers.Url.Roundtrip.{free_of}
use mod_janus.Servers.Add.{Param, ServerXml, Site}
use mod_janus.Calls.Samples.{no_servers}
use mod_janus.Config.{ConfigXml, normalize_headless_service_url, load_config}
use mod_janus.Config.Table.{IsReady, load_config-IsReady}
use mod_janus.Config.Placeholder.{normalize_headless_service_url-around}

abbrev site : Site
site = record {
  switch_true = λ v. true;
  interface_ip = λ name family. none;
  max_cand_acl = 25;
  has_ws = true;
}

abbrev url_param : Param
url_param = record { name = "url"; value = "ws://10.0.0.7:8188/" }

abbrev acl_param : Param
acl_param = record { name = "apply-candidate-acl"; value = "wan.auto" }

abbrev server_xml : ServerXml
server_xml = record { name = "janus-0"; params = url_param ∷ acl_param ∷ [] }

abbrev config_xml : ConfigXml
config_xml = record { settings = []; servers = server_xml ∷ server_xml ∷ [] }

load_config-IsReady_example : IsReady site (load_config site (some config_xml) no_servers).1
load_config-IsReady_example = load_config-IsReady site (some config_xml) no_servers refl

scheme_without_host :
    (normalize_headless_service_url "http://{pod}.janus.svc:8088" ≡ some "http://janus.svc:8088")
    × (normalize_headless_service_url "http://" ≡ some "http://")
unfolding free_of
scheme_without_host = normalize_headless_service_url-around "http://" "janus.svc:8088" refl
