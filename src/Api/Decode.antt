-- ===== src/Api/Decode.antt =====
-- api.c: decode. A response that has the wrong shape gives `none`, as NULL does.
use mod_janus.Base.{String, not, ◌||◌, Option, none, some, ◌>>=◌, if◌then◌else◌}
use mod_janus.Hash.{JanusId}
use mod_janus.Json.{JsonLib}
use mod_janus.Api.{Message, blank, janus_plugin, text_of, is_text}

module _ (c : JsonLib) where
  -- `plugindata`: the data of the audiobridge plugin
  unfoldable pub decode_plugin : c.Node → Option c.Node
  decode_plugin p =
      if not (c.is_object p)
      then none
      else if not (is_text (text_of c (c.get_item p "plugin")) janus_plugin)
      then none
      else elim (c.get_item p "data") [
        | none ↦ none
        | some d ↦ if c.is_object d then some d else none
      ]

  -- `candidate`: the empty text ends the candidates, and NULL stands for neither field
  unfoldable pub decode_candidate : c.Node → Option (Option String)
  decode_candidate n = if not (c.is_object n) then none else elim (c.get_item n "completed") [
    | some done ↦ if not (c.is_bool done) || c.is_false done then none else some (some "")
    | none ↦ elim (c.get_item n "candidate") [
      | none ↦ some none
      | some text ↦ elim (c.string_value text) [ none ↦ none | some s ↦ some (some s) ]
    ]
  ]

  -- the body and the candidate: `data`, or else `plugindata`, or else `candidate`
  unfoldable pub decode_body : c.Node → Option (Option c.Node × Option String)
  unfolding decode_plugin decode_candidate
  decode_body r = elim (c.get_item r "data") [
    | some d ↦ if c.is_object d then some (some d, none) else none
    | none ↦ elim (c.get_item r "plugindata") [
      | some p ↦ elim (decode_plugin p) [ none ↦ none | some d ↦ some (some d, none) ]
      | none ↦ elim (c.get_item r "candidate") [
        | none ↦ some (none, none)
        | some n ↦ elim (decode_candidate n) [ none ↦ none | some t ↦ some (none, t) ]
      ]
    ]
  ]

  -- `jsep`
  unfoldable pub decode_jsep : c.Node → Option (Option c.Node)
  decode_jsep r = elim (c.get_item r "jsep") [
    | none ↦ some none
    | some j ↦ if c.is_object j then some (some j) else none
  ]

  -- `janus` and `transaction`
  unfoldable pub decode_text : c.Node → String → Option (Option String)
  decode_text r k = elim (c.get_item r k) [
    | none ↦ some none
    | some n ↦ elim (c.string_value n) [ none ↦ none | some s ↦ some (some s) ]
  ]

  -- `session_id` and `sender`
  unfoldable pub decode_id : c.Node → String → Option JanusId
  decode_id r k = elim (c.get_item r k) [
    | none ↦ some 0
    | some n ↦ elim (c.number_value n) [ none ↦ none | some v ↦ some v.as_id ]
  ]

  -- decode
  unfoldable pub decode : Option c.Node → Option (Message c)
  unfolding decode_body decode_jsep decode_text decode_id
  decode none = none
  decode (some r) = do
    parts ← decode_body r
    jsep ← decode_jsep r
    type ← decode_text r "janus"
    transaction ← decode_text r "transaction"
    server_id ← decode_id r "session_id"
    sender_id ← decode_id r "sender"
    some (record (blank c) {
      type = type;
      transaction = transaction;
      server_id = server_id;
      sender_id = sender_id;
      body = parts.0;
      jsep = jsep;
      candidate = parts.1;
    })
