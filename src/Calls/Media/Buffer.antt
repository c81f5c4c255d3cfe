-- ===== src/Calls/Media/Buffer.antt =====
-- mod_janus.c: `proceed` and the room in `sdp[4096]`.
use Prim.Native.String.{◌++◌}
use Prim.Native.String.append
use Prim.Native.Nat.{min}
use mod_janus.Base.{
  ◌+◌, ◌≤◌, ◌<◌, String, ◌≡◌, ◌↔◌, refl, none, some, arith, strlen, take, strlen-append,
  strlen-take, take_all, ltb, if◌then◌else◌,
}
use mod_janus.Calls.Media.{build_sdp, strncat}

first_copy : (body : String) → strncat "" body 4095 ≡ some (take 4095 body)
unfolding strncat
first_copy body = rw (append.nil (take 4095 body)) (ground (arith, strlen-take 4095 body))

second_copy :
    (buf src : String)
    → strncat buf src 4095 ≡ (
        if ltb (strlen buf + min 4095 (strlen src)) 4096 then some (buf ++ take 4095 src) else none)
unfolding strncat
second_copy buf src = rw (strlen-append buf (take 4095 src), strlen-take 4095 src) refl

both_copies :
    (body candidates : String)
    → build_sdp body (some candidates) ≡ (
        if ltb (min 4095 (strlen body) + min 4095 (strlen candidates)) 4096
        then some (take 4095 body ++ take 4095 candidates)
        else none)
unfolding build_sdp
both_copies body candidates =
    rw (build_sdp, first_copy body)
      (rw (second_copy (take 4095 body) candidates, strlen-take 4095 body) refl)

-- The second copy writes behind the buffer exactly if the body and the candidates, each counted up
-- to 4095 characters, have more than 4095 characters together.
pub overrun_iff :
    (body candidates : String)
    → (build_sdp body (some candidates) ≡ none)
      ↔ (4095 < min 4095 (strlen body) + min 4095 (strlen candidates))
overrun_iff body candidates = rw both_copies (λ h. ground arith, λ h. ground arith)

-- Where the body and the candidates have at most 4095 characters together, the text that `proceed`
-- builds is the body followed by the candidates.
pub build_sdp-fits :
    (body candidates : String)
    → strlen body + strlen candidates ≤ 4095
    → build_sdp body (some candidates) ≡ some (body ++ candidates)
build_sdp-fits body candidates h =
    rw
      (
        both_copies body candidates,
        take_all 4095 body (omega arith),
        take_all 4095 candidates (omega arith),
      )
      (ground arith)
