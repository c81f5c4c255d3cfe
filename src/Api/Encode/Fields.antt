-- ===== src/Api/Encode/Fields.antt =====
-- api.c: the fields of a request that encode makes, read back from the document.
use mod_janus.Base.{
  ℕ, String, ◌≡◌, refl, ◌∙◌, false, Option, none, some, is_some, if◌then◌else◌, arith, or_else,
  ◌>>=◌, str_eq, Option-cases, inl, inr,
}
use mod_janus.Json.{JsonLib}
use mod_janus.Auth.{AuthLib}
use mod_janus.Api.{Message, text_of, janus_plugin}
use mod_janus.Api.Encode.{
  add_string, add_optional, add_part, make_token, add_token, encode_head, encode,
}

-- a result of a chain has passed its first step
pub chain :
    {A B : Type 0} {P : Type 0} (o : Option A) (f : A → Option B) (b : B)
    → (o >>= f) ≡ some b
    → ((a : A) → o ≡ some a → f a ≡ some b → P)
    → P
chain none f b h k = absurd (ground arith)
chain (some a) f b h k = k a refl h

module _ (c : JsonLib) where
  -- the text under a name
  abbrev pub field : c.Node → String → Option String
  field n k = text_of c (c.get_item n k)

  -- what is found under `j` once an item was added under `k`
  abbrev pub layer : Option c.Node → String → Option c.Node → String → Option c.Node
  layer old k v j = if str_eq k j then (if is_some old then old else v) else old

  pub add-layer :
      (n m v : c.Node) (k j : String)
      → c.add_item n k v ≡ some m
      → c.get_item m j ≡ layer (c.get_item n j) k (some v) j
  add-layer n m v k j h = c.get_item-add_item n m v k j h ∙ ground arith

  abbrev pub text_node : Option String → Option c.Node
  text_node none = none
  text_node (some t) = some (c.string_node t)

  pub add_optional-layer :
      (n m : c.Node) (k : String) (t : Option String) (j : String)
      → add_optional c n k t ≡ some m
      → c.get_item m j ≡ layer (c.get_item n j) k (text_node t) j
  unfolding add_optional
  add_optional-layer n m k none j h = ground arith
  add_optional-layer n m k (some t) j h = add-layer n m (c.string_node t) k j h

  add_part-other :
      (n : c.Node) (k j : String) (v : Option c.Node)
      → str_eq k j ≡ false
      → c.get_item (add_part c n k v) j ≡ c.get_item n j
  unfolding add_part
  add_part-other n k j none far = refl
  add_part-other n k j (some v) far = elim (Option-cases (c.add_item n k v)) [
    | inl e ↦ rw e refl
    | inr (m, e) ↦ rw e (add-layer n m v k j e ∙ ground (arith, far))
  ]

module _ (c : JsonLib) (auth : AuthLib) where
  -- the token that goes into the request
  abbrev pub expected_token : ℕ → Message c → Option String
  expected_token now m = elim m.hmac_secret [
    | none ↦ none
    | some secret ↦ make_token c auth now m secret
  ]

  -- the token of a request: the signed one exactly for a server that signs
  abbrev pub IsToken : ℕ → Message c → Option String → Type 0
  IsToken now m t = (t ≡ expected_token now m) × (is_some t ≡ is_some m.hmac_secret)

  add_token-adds :
      (now : ℕ) (m : Message c) (n n' : c.Node) (t : Option String)
      → add_token c auth now m n ≡ some (n', t)
      → (add_optional c n "token" t ≡ some n') × IsToken now m t
  unfolding add_token add_optional
  add_token-adds now m n n' t h = ground arith

  -- what encode_head puts under `j`
  abbrev pub head_item : Message c → Option String → String → Option c.Node
  head_item m token j =
      let typed = layer c none "janus" (text_node c (some (or_else m.type ""))) j in
      let marked = layer c typed "transaction" (text_node c m.transaction) j in
      let keyed = layer c marked "apisecret" (text_node c m.secret) j in
      let signed = layer c keyed "token" (text_node c token) j in
      let named = layer c signed "opaque_id" (text_node c m.opaque_id) j in
      layer c named "plugin" (text_node c (if m.is_plugin then some janus_plugin else none)) j

  plugin-adds :
      (m : Message c) (n n' : c.Node)
      → (if m.is_plugin then add_string c n "plugin" janus_plugin else some n) ≡ some n'
      → add_optional c n "plugin" (if m.is_plugin then some janus_plugin else none) ≡ some n'
  unfolding add_optional
  plugin-adds m n n' h = ground arith

  encode_head-item :
      (now : ℕ) (m : Message c) (n : c.Node) (t : Option String) (j : String)
      → encode_head c auth now m ≡ some (n, t)
      → (c.get_item n j ≡ head_item m t j) × IsToken now m t
  unfolding encode_head
  encode_head-item now m n t j h = chain c.create_object _ _ h λ root h0 g0.
      chain (add_string c root "janus" (or_else m.type "")) _ _ g0 λ typed h1 g1.
        chain (add_optional c typed "transaction" m.transaction) _ _ g1 λ marked h2 g2.
          chain (add_optional c marked "apisecret" m.secret) _ _ g2 λ keyed h3 g3.
            chain (add_token c auth now m keyed) _ _ g3 λ signed h4 g4.
              chain (add_optional c signed.0 "opaque_id" m.opaque_id) _ _ g4 λ named h5 g5.
                chain (if m.is_plugin then add_string c named "plugin" janus_plugin else some named)
                  _ _ g5
                  λ full h6 g6.
                    let (put, made) = add_token-adds now m keyed signed.0 signed.1 h4 in
                    let full-n : full ≡ n = ground (arith, g6) in
                    let token-t : signed.1 ≡ t = ground (arith, g6) in
                    (
                      rw
                          (
                            ← full-n,
                            ← token-t,
                            add_optional-layer c named full "plugin" _ j
                                (plugin-adds m named full h6),
                            add_optional-layer c signed.0 named "opaque_id" m.opaque_id j h5,
                            add_optional-layer c keyed signed.0 "token" signed.1 j put,
                            add_optional-layer c marked keyed "apisecret" m.secret j h3,
                            add_optional-layer c typed marked "transaction" m.transaction j h2,
                            add-layer c root typed (c.string_node (or_else m.type "")) "janus" j h1,
                            c.get_item-create_object root j h0,
                          )
                          refl,
                      rw (← token-t) made,
                    )

  pub encode-item :
      (now : ℕ) (m : Message c) (n : c.Node) (t : Option String) (j : String)
      → str_eq "body" j ≡ false
      → str_eq "jsep" j ≡ false
      → encode c auth now m ≡ some (n, t)
      → (c.get_item n j ≡ head_item m t j) × IsToken now m t
  unfolding encode
  encode-item now m n t j not_body not_jsep h = chain (encode_head c auth now m) _ _ h λ head h0 g0.
      let with_body = add_part c head.0 "body" m.body in
      let all-n : add_part c with_body "jsep" m.jsep ≡ n = ground (arith, g0) in
      let token-t : head.1 ≡ t = ground (arith, g0) in
      let (put, made) = encode_head-item now m head.0 head.1 j h0 in
      (
        rw
            (
              ← all-n,
              ← token-t,
              add_part-other c with_body "jsep" j m.jsep not_jsep,
              add_part-other c head.0 "body" j m.body not_body,
            )
            put,
        rw (← token-t) made,
      )

  -- The texts of a request.
  pub record HasFields (now : ℕ) (m : Message c) (n : c.Node) (t : Option String) : Type 0 where
    pub typed : field c n "janus" ≡ some (or_else m.type "")
    pub marked : field c n "transaction" ≡ m.transaction
    pub keyed : field c n "apisecret" ≡ m.secret
    pub signed : field c n "token" ≡ t
    pub named : field c n "opaque_id" ≡ m.opaque_id
    pub plugged : field c n "plugin" ≡ (if m.is_plugin then some janus_plugin else none)
    pub made : IsToken now m t

  text_of-text_node : (t : Option String) → text_of c (text_node c t) ≡ t
  text_of-text_node none = refl
  text_of-text_node (some t) = c.string_value-string_node t

  pub encode-HasFields :
      (now : ℕ) (m : Message c) (n : c.Node) (t : Option String)
      → encode c auth now m ≡ some (n, t)
      → HasFields now m n t
  encode-HasFields now m n t h = record {
    typed =
        rw ((encode-item now m n t "janus" refl refl h).0)
          (c.string_value-string_node (or_else m.type ""));
    marked =
        rw ((encode-item now m n t "transaction" refl refl h).0) (text_of-text_node m.transaction);
    keyed = rw ((encode-item now m n t "apisecret" refl refl h).0) (text_of-text_node m.secret);
    signed = rw ((encode-item now m n t "token" refl refl h).0) (text_of-text_node t);
    named = rw ((encode-item now m n t "opaque_id" refl refl h).0) (text_of-text_node m.opaque_id);
    plugged = rw ((encode-item now m n t "plugin" refl refl h).0) (text_of-text_node _);
    made = (encode-item now m n t "janus" refl refl h).1;
  }
