-- ===== src/Servers/Add/Configured.antt =====
-- servers.c: what holds of every server that the configuration adds.
use mod_janus.Base.{
  ℕ, ◌+◌, ◌≤◌, String, ◌≡◌, refl, true, false, some, List, [], ◌∷◌, ◌++◌, arith, length, is_some,
}
use mod_janus.Servers.{Server}
use mod_janus.Servers.Add.{
  Param, Site, set_ext_address, set_ext_rtp_ip, set_rtp_ip, add_acl, set_call_param,
  set_network_param, set_param, set_params, fresh_server, transport_of,
}

-- What the parameters leave alone, and the bound of the access lists.
pub record IsPlain (max : ℕ) (name : String) (s : Server) : Type 0 where
  pub named : s.name ≡ name
  pub static : s.dynamic ≡ false
  pub no_session : s.server_id ≡ 0
  pub no_calls : s.calls_in_progress ≡ 0
  pub no_thread : s.thread ≡ false
  pub not_stopping : s.terminating ≡ false
  pub acls : length s.cand_acl ≤ max

length-snoc : (xs : List String) (x : String) → length (xs ++ (x ∷ [])) ≡ length xs + 1
length-snoc [] x = omega arith
length-snoc (y ∷ ys) x = omega (arith, length-snoc ys x)

set_ext_rtp_ip-IsPlain :
    (max : ℕ) (name guess value : String) (s : Server)
    → IsPlain max name s
    → IsPlain max name (set_ext_rtp_ip guess value s)
unfolding set_ext_rtp_ip set_ext_address
set_ext_rtp_ip-IsPlain max name guess value s h = record {
  named = ground (arith, h.named);
  static = ground (arith, h.static);
  no_session = ground (arith, h.no_session);
  no_calls = ground (arith, h.no_calls);
  no_thread = ground (arith, h.no_thread);
  not_stopping = ground (arith, h.not_stopping);
  acls = ground (arith, h.acls);
}

set_rtp_ip-IsPlain :
    (max : ℕ) (name : String) (site : Site) (guess value : String) (s : Server)
    → IsPlain max name s
    → IsPlain max name (set_rtp_ip site guess value s)
unfolding set_rtp_ip
set_rtp_ip-IsPlain max name site guess value s h = record {
  named = ground (arith, h.named);
  static = ground (arith, h.static);
  no_session = ground (arith, h.no_session);
  no_calls = ground (arith, h.no_calls);
  no_thread = ground (arith, h.no_thread);
  not_stopping = ground (arith, h.not_stopping);
  acls = ground (arith, h.acls);
}

add_acl-IsPlain :
    (max : ℕ) (name value : String) (s : Server)
    → IsPlain max name s
    → IsPlain max name (add_acl max value s)
unfolding add_acl
add_acl-IsPlain max name value s h = record {
  named = ground (arith, h.named);
  static = ground (arith, h.static);
  no_session = ground (arith, h.no_session);
  no_calls = ground (arith, h.no_calls);
  no_thread = ground (arith, h.no_thread);
  not_stopping = ground (arith, h.not_stopping);
  acls = ground (arith, h.acls, length-snoc s.cand_acl value);
}

set_call_param-IsPlain :
    (name : String) (site : Site) (p : Param) (s : Server)
    → IsPlain site.max_cand_acl name s
    → IsPlain site.max_cand_acl name (set_call_param site p s)
unfolding set_call_param
set_call_param-IsPlain name site p s h =
    let acl = add_acl-IsPlain site.max_cand_acl name p.value s h in
    record {
      named = ground (arith, h.named, acl.named);
      static = ground (arith, h.static, acl.static);
      no_session = ground (arith, h.no_session, acl.no_session);
      no_calls = ground (arith, h.no_calls, acl.no_calls);
      no_thread = ground (arith, h.no_thread, acl.no_thread);
      not_stopping = ground (arith, h.not_stopping, acl.not_stopping);
      acls = ground (arith, h.acls, acl.acls);
    }

set_network_param-IsPlain :
    (name : String) (site : Site) (guess : String) (p : Param) (s : Server)
    → IsPlain site.max_cand_acl name s
    → IsPlain site.max_cand_acl name (set_network_param site guess p s)
unfolding set_network_param
set_network_param-IsPlain name site guess p s h =
    let ext = set_ext_rtp_ip-IsPlain site.max_cand_acl name guess p.value s h in
    let rtp = set_rtp_ip-IsPlain site.max_cand_acl name site guess p.value s h in
    let call = set_call_param-IsPlain name site p s h in
    record {
      named = ground (arith, h.named, ext.named, rtp.named, call.named);
      static = ground (arith, h.static, ext.static, rtp.static, call.static);
      no_session = ground (arith, h.no_session, ext.no_session, rtp.no_session, call.no_session);
      no_calls = ground (arith, h.no_calls, ext.no_calls, rtp.no_calls, call.no_calls);
      no_thread = ground (arith, h.no_thread, ext.no_thread, rtp.no_thread, call.no_thread);
      not_stopping =
          ground (arith, h.not_stopping, ext.not_stopping, rtp.not_stopping, call.not_stopping);
      acls = ground (arith, h.acls, ext.acls, rtp.acls, call.acls);
    }

set_param-IsPlain :
    (name : String) (site : Site) (guess : String) (p : Param) (s : Server)
    → IsPlain site.max_cand_acl name s
    → IsPlain site.max_cand_acl name (set_param site guess p s)
unfolding set_param
set_param-IsPlain name site guess p s h =
    let network = set_network_param-IsPlain name site guess p s h in
    record {
      named = ground (arith, h.named, network.named);
      static = ground (arith, h.static, network.static);
      no_session = ground (arith, h.no_session, network.no_session);
      no_calls = ground (arith, h.no_calls, network.no_calls);
      no_thread = ground (arith, h.no_thread, network.no_thread);
      not_stopping = ground (arith, h.not_stopping, network.not_stopping);
      acls = ground (arith, h.acls, network.acls);
    }

pub set_params-IsPlain :
    (name : String) (site : Site) (guess : String) (ps : List Param) (s : Server)
    → IsPlain site.max_cand_acl name s
    → IsPlain site.max_cand_acl name (set_params site guess ps s)
unfolding set_params
set_params-IsPlain name site guess [] s h = h
set_params-IsPlain name site guess (p ∷ ps) s h =
    set_params-IsPlain name site guess ps _ (set_param-IsPlain name site guess p s h)

pub fresh_server-IsPlain : (max : ℕ) (name : String) → IsPlain max name (fresh_server name)
fresh_server-IsPlain max name = record {
  named = refl;
  static = refl;
  no_session = refl;
  no_calls = refl;
  no_thread = refl;
  not_stopping = refl;
  acls = omega arith;
}

-- A server as the configuration adds it: it has a URL and the transport for it, it is no pod's, it
-- has neither a session nor calls nor a thread, and its access lists fit their array.
pub record IsConfigured (site : Site) (s : Server) : Type 0 where
  pub url : is_some s.url ≡ true
  pub transport :
      (url : String) → s.url ≡ some url → transport_of site.has_ws url ≡ some s.transport
  pub plain : IsPlain site.max_cand_acl s.name s
