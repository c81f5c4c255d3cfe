-- ===== src/Servers/Pods/Reports.antt =====
-- servers.c: what a pod has answered when serversProbeJanusPodAtIp gives a name.
use Prim.Native.String.{◌++◌}
use mathlib.Core.Path.{subst}
use mod_janus.Base.{
  String, ◌≡◌, refl, ◌∙◌, ap, true, Option, none, some, if◌then◌else◌, arith, take, take_all,
}
use mod_janus.Json.{JsonLib}
use mod_janus.Servers.Url.{janus_path}
use mod_janus.Servers.Names.{pod_name_valid}
use mod_janus.Servers.Names.Label.{IsLabel, pod_name_valid_iff}
use mod_janus.Servers.Pods.{probe_pod}

-- where a pod says its name
abbrev pub info_text : String → String → String → String
info_text ip port path = "http://" ++ (ip ++ (":" ++ (port ++ (path ++ "/info"))))

-- a result that needs a value has it
pub past :
    {A B P : Type 0} (o : Option A) (f : A → Option B) (b : B)
    → elim o [ none ↦ none | some a ↦ f a ] ≡ some b
    → ((a : A) → o ≡ some a → f a ≡ some b → P)
    → P
past none f b h k = absurd (ground (arith, h))
past (some a) f b h k = k a refl h

-- a name is not cut by pod_name[64]
copied-whole :
    (name copy : String)
    → (if pod_name_valid name then some (take 63 name) else none) ≡ some copy
    → IsLabel copy × (name ≡ copy)
copied-whole name copy h =
    let valid : pod_name_valid name ≡ true = ground (arith, h) in
    let label = (pod_name_valid_iff name).0 valid in
    let whole : name ≡ copy = ground (arith, h, take_all 63 name label.short) in
    (subst IsLabel whole label, whole)

module _ (c : JsonLib) (fetch : String → Option c.Node) where
  -- The document at a URL has a text as its `server-name`, which is this name.
  pub record Reports (url name : String) : Type 0 where
    pub json : c.Node
    pub item : c.Node
    pub fetched : fetch url ≡ some json
    pub member : c.get_item json "server-name" ≡ some item
    pub said : c.string_value item ≡ some name

  pub probe_pod-Reports :
      (ip port path name : String)
      → probe_pod c fetch ip port path ≡ some name
      → IsLabel name × Reports (take 511 (info_text ip port (janus_path path))) name
  unfolding probe_pod
  probe_pod-Reports ip port path name h =
      past (fetch (take 511 (info_text ip port (janus_path path)))) _ name h λ json h1 g1.
        past (c.get_item json "server-name") _ name g1 λ item h2 g2.
          past (c.string_value item) _ name g2 λ text h3 g3.
            let (label, whole) = copied-whole text name g3 in
            (
              label,
              record {
                json = json;
                item = item;
                fetched = h1;
                member = h2;
                said = h3 ∙ ap some whole;
              },
            )
