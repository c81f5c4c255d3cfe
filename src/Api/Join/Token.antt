-- ===== src/Api/Join/Token.antt =====
-- api.c: the tokens of a join request.
use mathlib.Core.Path.{subst}
use mod_janus.Base.{
  ℕ, String, ◌≡◌, refl, ◌∙◌, Option, none, some, arith, is_empty, inl, inr, Bool-cases,
  Option-cases,
}
use mod_janus.Json.{JsonLib}
use mod_janus.Auth.{AuthLib}
use mod_janus.Servers.{Server}
use mod_janus.Api.Encode.{add_string, add_optional, encode}
use mod_janus.Api.Encode.Fields.{
  field, add-layer, text_node, add_optional-layer, chain, encode-HasFields,
}
use mod_janus.Api.Room.{add_room}
use mod_janus.Api.Join.{join_body, join_message, mirror_token, join_request}
use mod_janus.Calls.Methods.{JoinArgs}

module _ (c : JsonLib) where
  add_room-token :
      (n m : c.Node) (text : Option String) (room_id : ℕ)
      → add_room c n text room_id ≡ some m
      → c.get_item m "token" ≡ c.get_item n "token"
  unfolding add_room
  add_room-token n m none room_id h = add-layer c n m _ "room" "token" h
  add_room-token n m (some text) room_id h = elim (Bool-cases (is_empty text)) [
    | inl e ↦ add-layer c n m (c.id_node room_id) "room" "token" (ground (arith, h, e))
    | inr e ↦ add-layer c n m (c.string_node text) "room" "token" (ground (arith, h, e))
  ]

  -- the token of a join body is the caller's, and none for a server that signs
  join_body-token :
      (server : Server) (a : JoinArgs) (n : c.Node)
      → join_body c server a ≡ some n
      → c.get_item n "token"
        ≡ text_node c (elim server.hmac_secret [ none ↦ a.token | some _ ↦ none ])
  unfolding join_body
  join_body-token server a n h = chain c.create_object _ _ h λ empty h0 g0.
      chain (add_string c empty "request" "join") _ _ g0 λ asked h1 g1.
        chain (add_room c asked a.room_id_str a.room_id) _ _ g1 λ roomed h2 g2.
          chain (add_optional c roomed "pin" a.pin) _ _ g2 λ pinned h3 g3.
            chain (add_optional c pinned "display" a.display) _ _ g3 λ shown h4 g4.
              chain
                (add_optional c shown "token"
                  (elim server.hmac_secret [ none ↦ a.token | some _ ↦ none ]))
                _ _ g4
                λ tokened h5 g5.
                  rw
                    (
                      add_optional-layer c tokened n "opaque_id" a.call_id "token" g5,
                      add_optional-layer c shown tokened "token" _ "token" h5,
                      add_optional-layer c pinned shown "display" a.display "token" h4,
                      add_optional-layer c roomed pinned "pin" a.pin "token" h3,
                      add_room-token asked roomed a.room_id_str a.room_id h2,
                      add-layer c empty asked (c.string_node "join") "request" "token" h1,
                      c.get_item-create_object empty "token" h0,
                    )
                    refl

  mirror_token-some :
      (request body n : c.Node) (token : String)
      → mirror_token c request body (some token) ≡ some n
      → (marked : c.Node) × (add_string c body "token" token ≡ some marked)
        × (n ≡ c.change_item request "body" marked)
  unfolding mirror_token
  mirror_token-some request body n token h =
      chain (add_string c body "token" token) _ _ h λ marked h2 g2. (marked, h2, ground (arith, g2))

  -- the request and its body after the token was put into the body
  mirrored-fields :
      (request body n : c.Node) (token : String)
      → c.get_item body "token" ≡ none
      → field c request "token" ≡ some token
      → mirror_token c request body (some token) ≡ some n
      → (field c n "token" ≡ some token)
        × ((b : c.Node) → c.get_item n "body" ≡ some b → field c b "token" ≡ some token)
  mirrored-fields request body n token bare top h =
      let (marked, put, e) = mirror_token-some request body n token h in
      let inner : c.get_item marked "token" ≡ some (c.string_node token) =
        add-layer c body marked (c.string_node token) "token" "token" put ∙ ground (arith, bare) in
      (
        rw (e, c.get_item-change_item request marked "body" "token") top,
        λ b at_body.
            let same : b ≡ marked =
              ground (arith, at_body, e, c.get_item-change_item request marked "body" "body") in
            rw (same, inner) (c.string_value-string_node token),
      )

  module _ (auth : AuthLib) where
    -- If a join request to a server that signs is made, it has a token at its top level and, if it
    -- has a body, the same token in the body, whatever token the caller has given.
    pub join_request-tokens :
        (now : ℕ) (server : Server) (secret txn : String) (a : JoinArgs) (n : c.Node)
        → server.hmac_secret ≡ some secret
        → join_request c auth now server txn a ≡ some n
        → (token : String) × (field c n "token" ≡ some token)
          × ((b : c.Node) → c.get_item n "body" ≡ some b → field c b "token" ≡ some token)
    unfolding join_request
    join_request-tokens now server secret txn a n signs h =
        chain (join_body c server a) _ _ h λ body h0 g0.
          chain (encode c auth now (join_message c server txn a body)) _ _ g0 λ sent h1 g1.
            let bare : c.get_item body "token" ≡ none =
              join_body-token server a body h0 ∙ ground (arith, signs) in
            let fields =
              encode-HasFields c auth now (join_message c server txn a body) sent.0 sent.1 h1 in
            elim (Option-cases sent.1) [
              | inl e ↦ absurd (ground (arith, e, fields.made.1, signs))
              | inr (token, e) ↦
                  let (top, inner) =
                    mirrored-fields sent.0 body n token bare (fields.signed ∙ e)
                      (subst (λ t. mirror_token c sent.0 body t ≡ some n) e g1) in
                  (token, top, inner)
            ]
