-- ===== src/Api.antt =====
-- api.c: the messages to and from Janus. The parts are the children: Encode and Decode for the
-- message format, Send for the transport, Session, Room, Join and Handle for the requests, and
-- Dispatch for the events.
pub mod Encode
pub mod Decode
pub mod Send
pub mod Session
pub mod Room
pub mod Join
pub mod Handle
pub mod Dispatch
mod Tests
use mod_janus.Base.{ℕ, String, Bool, true, false, Option, none, some, List, [], str_eq}
use mod_janus.Hash.{JanusId}
use mod_janus.Json.{JsonLib}

abbrev pub janus_plugin : String
janus_plugin = "janus.plugin.audiobridge"

-- message_t: a request before it is encoded, or a response after it is decoded. `extra` has the
-- nExtraDescriptors descriptors of pExtraDescriptors.
pub record Message (c : JsonLib) : Type 0 where
  pub type : Option String
  pub server_id : JanusId
  pub transaction : Option String
  pub opaque_id : Option String
  pub sender_id : JanusId
  pub is_plugin : Bool
  pub secret : Option String
  pub hmac_secret : Option String
  pub hmac_token_ttl : ℕ
  pub extra : List (Option String)
  pub body : Option c.Node
  pub jsep : Option c.Node
  pub candidate : Option String

-- memset of a message_t to zero
abbrev pub blank : (c : JsonLib) → Message c
blank c = record {
  type = none;
  server_id = 0;
  transaction = none;
  opaque_id = none;
  sender_id = 0;
  is_plugin = false;
  secret = none;
  hmac_secret = none;
  hmac_token_ttl = 0;
  extra = [];
  body = none;
  jsep = none;
  candidate = none;
}

-- strcmp(a, b) == 0 where `a` may be NULL and is tested for that
abbrev pub is_text : Option String → String → Bool
is_text none t = false
is_text (some s) t = str_eq s t

-- cJSON_GetObjectItemCaseSensitive of an object that may be NULL
abbrev pub item : (c : JsonLib) → Option c.Node → String → Option c.Node
item c none k = none
item c (some n) k = c.get_item n k

-- cJSON_IsString of an item that may be NULL, with its value
abbrev pub text_of : (c : JsonLib) → Option c.Node → Option String
text_of c none = none
text_of c (some n) = c.string_value n
