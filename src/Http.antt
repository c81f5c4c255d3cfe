-- ===== src/Http.antt =====
-- http.c: httpPost and httpGet. curl, the buffers of FreeSWITCH, and the printing and parsing of
-- cJSON are the parameter `HttpLib`; `got_handle` says whether curl gives a handle.
pub mod Body
pub mod Resources
pub mod Requests
mod Tests
use Prim.Native.String.{◌++◌}
use mod_janus.Base.{
  ℕ, zero, suc, ◌+◌, ◌-◌, ◌*◌, String, code, ◌≡◌, Bool, true, false, not, Option, none, some, List,
  [], ◌∷◌, ◌++◌ as join_lists, ◌==◌, if◌then◌else◌, strlen, take, is_some,
}
use mod_janus.Json.{JsonLib}
use mod_janus.Api.Send.{Link}

-- The options that are set on a handle, in order; CURLOPT_WRITEFUNCTION and CURLOPT_WRITEDATA are
-- arguments of `perform`.
pub data CurlOption : Type 0 where
  http_header : List String → CurlOption
  url_option user_agent : String → CurlOption
  post_fields : Option String → CurlOption
  timeout_ms : ℕ → CurlOption
  no_signal : CurlOption

-- A piece of a response, as curl hands it to the callback.
pub record Chunk : Type 0 where
  pub bytes : String
  pub size : ℕ
  pub nmemb : ℕ

-- the callback takes each piece as a whole
abbrev pub Takes {ℓ} : {B : Type ℓ} → (Chunk → B → ℕ × B) → B → List Chunk → Type 0
Takes f b [] = Unit {0}
Takes f b (x ∷ xs) = ((f x b).0 ≡ x.size * x.nmemb) × Takes f (f x b).1 xs

-- what the callback makes of the pieces
abbrev pub feed {ℓ} : {B : Type ℓ} → (Chunk → B → ℕ × B) → B → List Chunk → B
feed f b [] = b
feed f b (x ∷ xs) = feed f (f x b).1 xs

-- curl documents that a size is always 1.
abbrev pub AreWhole : List Chunk → Type 0
AreWhole [] = Unit {0}
AreWhole (x ∷ xs) = (x.size ≡ 1) × (x.nmemb ≡ strlen x.bytes) × AreWhole xs

-- switch_buffer_t, curl, cJSON_PrintUnformatted and cJSON_Parse, with what is documented of them:
-- a write appends, and a transfer hands the pieces of the response to a callback that takes each
-- of them as a whole. `reached` is a transfer that curl does not break off.
pub record HttpLib (c : JsonLib) : Type 1 where
  pub Buffer : Type 0
  pub create : Buffer
  pub write : Buffer → String → Buffer
  pub peek : Buffer → String
  pub peek-create : peek create ≡ ""
  pub peek-write : (b : Buffer) (s : String) → peek (write b s) ≡ peek b ++ s
  pub print : c.Node → Option String
  pub parse : String → Option c.Node
  pub pieces : List CurlOption → List Chunk
  pub reached : List CurlOption → Bool
  pub perform : List CurlOption → (Chunk → Buffer → ℕ × Buffer) → Buffer → Bool × Buffer
  pub pieces-AreWhole : (opts : List CurlOption) → AreWhole (pieces opts)
  pub perform-feed :
      (opts : List CurlOption) (f : Chunk → Buffer → ℕ × Buffer) (b : Buffer)
      → Takes f b (pieces opts)
      → perform opts f b ≡ (reached opts, feed f b (pieces opts))

-- A C string ends before its first NUL.
unfoldable pub until_nul : String → String
until_nul String.[] = String.[]
until_nul (String.◌∷◌ x s) = if code x == 0 then String.[] else String.◌∷◌ x (until_nul s)

-- What the module has to give back: buffers, handles, header lists and printed texts.
pub record Held : Type 0 where
  pub buffers : ℕ
  pub handles : ℕ
  pub lists : ℕ
  pub texts : ℕ

abbrev with_buffer : Held → Held
with_buffer h = record h { buffers = h.buffers + 1 }

-- `given` says whether cJSON_PrintUnformatted has given a text
abbrev count_text : Bool → ℕ
count_text given = if given then 1 else 0

unfoldable pub acquire : Bool → Held → Held
acquire given h = record h {
  handles = h.handles + 1;
  lists = h.lists + 1;
  texts = h.texts + count_text given;
}

unfoldable pub release : Bool → Held → Held
release given h = record h {
  handles = h.handles - 1;
  texts = h.texts - count_text given;
  buffers = h.buffers - 1;
  lists = h.lists - 1;
}

abbrev time_options : ℕ → List CurlOption
time_options timeout = if timeout == 0 then [] else timeout_ms timeout ∷ no_signal ∷ []

unfoldable pub post_options : String → ℕ → Option String → List CurlOption
post_options url timeout text =
    http_header ("Content-Type: application/json" ∷ "Accept: application/json" ∷ [])
    ∷ url_option url
    ∷ post_fields text
    ∷ user_agent "freeswitch-janus/1.0"
    ∷ time_options timeout

unfoldable pub get_options : String → ℕ → List CurlOption
get_options url timeout =
    http_header ("Accept: application/json" ∷ [])
    ∷ url_option url
    ∷ user_agent "freeswitch-janus/1.0"
    ∷ time_options timeout

module _ (c : JsonLib) (lib : HttpLib c) where
  -- write_callback
  unfoldable pub write_callback : Chunk → lib.Buffer → ℕ × lib.Buffer
  write_callback x b = (x.nmemb, lib.write b (take (x.size * x.nmemb) x.bytes))

  -- the transfer, and the document that is read from the body
  unfoldable pub response : List CurlOption → Option c.Node
  unfolding write_callback until_nul
  response opts =
      let (done, body) = lib.perform opts write_callback lib.create in
      if done then lib.parse (until_nul (lib.peek (lib.write body "\0"))) else none

  -- httpPost
  unfoldable pub http_post : Bool → String → ℕ → c.Node → Held → Option c.Node × Held
  unfolding response acquire release post_options
  http_post got_handle url timeout request h =
      let text = lib.print request in
      if not got_handle then (none, with_buffer h) else (
        response (post_options url timeout text),
        release (is_some text) (acquire (is_some text) (with_buffer h)),
      )

  -- httpGet
  unfoldable pub http_get : Bool → String → ℕ → Held → Option c.Node × Held
  unfolding response acquire release get_options
  http_get got_handle url timeout h =
      if not got_handle
      then (none, with_buffer h)
      else (response (get_options url timeout), release false (acquire false (with_buffer h)))
