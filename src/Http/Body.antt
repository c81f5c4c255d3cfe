-- ===== src/Http/Body.antt =====
-- http.c: what httpPost and httpGet read of a response that curl delivers in pieces.
use Prim.Native.String.{◌++◌}
use Prim.Native.String.append
use text.Mathlib.TextLemmas.{append_assoc, append-nil, nil-append}
use mod_janus.Base.{
  ◌*◌, String, ◌≡◌, refl, sym, ◌∙◌, if◌then◌else◌, List, [], ◌∷◌, Option, none, arith, take,
  take_all,
}
use mod_janus.Json.{JsonLib}
use mod_janus.Http.{
  Chunk, AreWhole, Takes, feed, HttpLib, until_nul, write_callback, response, CurlOption,
}

-- the body of a response
abbrev pub joined_bytes : List Chunk → String
joined_bytes [] = ""
joined_bytes (x ∷ xs) = x.bytes ++ joined_bytes xs

-- the terminating NUL adds nothing
until_nul-append : (s : String) → until_nul (s ++ "\0") ≡ until_nul s
unfolding until_nul
until_nul-append String.[] = refl
until_nul-append (String.◌∷◌ x s) = rw (append.cons, until_nul-append s)

module _ (c : JsonLib) (lib : HttpLib c) where
  write_callback-Takes :
      (b : lib.Buffer) (xs : List Chunk) → AreWhole xs → Takes (write_callback c lib) b xs
  unfolding write_callback
  write_callback-Takes b [] h = tt
  write_callback-Takes b (x ∷ xs) h =
      (ground (arith, h.0), write_callback-Takes ((write_callback c lib x b).1) xs h.2)

  peek-feed :
      (b : lib.Buffer) (xs : List Chunk)
      → AreWhole xs
      → lib.peek (feed (write_callback c lib) b xs) ≡ lib.peek b ++ joined_bytes xs
  unfolding write_callback
  peek-feed b [] h = sym (append-nil (lib.peek b))
  peek-feed b (x ∷ xs) h =
      peek-feed ((write_callback c lib x b).1) xs h.2
      ∙ rw (lib.peek-write b (take (x.size * x.nmemb) x.bytes)) (
          rw (take_all (x.size * x.nmemb) x.bytes (ground (arith, h.0, h.1)))
            (append_assoc (lib.peek b) x.bytes (joined_bytes xs)))

  -- the response, from its pieces
  abbrev pub document_of : List CurlOption → Option c.Node
  document_of opts =
      if lib.reached opts then lib.parse (until_nul (joined_bytes (lib.pieces opts))) else none

  pub response-document_of : (opts : List CurlOption) → response c lib opts ≡ document_of opts
  unfolding response
  response-document_of opts =
      let xs = lib.pieces opts in
      let whole = lib.pieces-AreWhole opts in
      let f = write_callback c lib in
      let b = feed f lib.create xs in
      let body : lib.peek b ≡ joined_bytes xs =
        peek-feed lib.create xs whole ∙ rw (lib.peek-create, nil-append (joined_bytes xs)) in
      let text : until_nul (lib.peek (lib.write b "\0")) ≡ until_nul (joined_bytes xs) =
        rw (lib.peek-write b "\0", until_nul-append (lib.peek b), body) in
      rw (lib.perform-feed opts f lib.create (write_callback-Takes lib.create xs whole)) (rw text)
