-- ===== src/Servers/Names/Tests.antt =====
-- serversPodNameValid at concrete names.
use mod_janus.Base.{◌≡◌, refl, false}
use mod_janus.Servers.Names.{pod_name_valid}
use mod_janus.Servers.Names.Label.{IsLabel, pod_name_valid_iff}

pod_name_valid_iff_example : IsLabel "janus-0"
unfolding pod_name_valid
pod_name_valid_iff_example = (pod_name_valid_iff "janus-0").0 refl

dash_last : pod_name_valid "janus-" ≡ false
unfolding pod_name_valid
dash_last = refl
