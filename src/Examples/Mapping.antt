-- ===== src/Examples/Mapping.antt =====
-- A public request with a spoofed address, and its cookies.
use looplink.Base.{◌≡◌, refl, none, some, [], ◌∷◌, Option}
use looplink.JsMap.{get, set}
use looplink.Text.{
  Text, codes, text_dec, to_lower, lower, split, trim, trim_start, trim_end, is_space,
}
use looplink.Forwarding.{one, post, HttpHeaders}
use looplink.RequestMapper.{
  RawHeaders, map_headers, map_body, header_value_of, done, no_body, thrown, malformed_cookie,
  map_fastify_request, content, parse_cookie_header, unsupported_method,
}
use looplink.RequestMapper.Laws.{Outcome, map_headers-Outcome}

abbrev spoofed : RawHeaders
spoofed =
    (codes "accept", some (one (codes "*/*")))
    ∷ (codes "X-Real-IP", some (one (codes "10.0.0.1")))
    ∷ (codes "via", none)
    ∷ []

abbrev forwarded_headers : HttpHeaders
forwarded_headers = (codes "accept", one (codes "*/*")) ∷ []

mapping_run : Unit {0}
unfolding map_headers map_body header_value_of text_dec get set to_lower lower split trim trim_start
    trim_end is_space
mapping_run = tt

map_headers-Outcome_example : Outcome spoofed (done forwarded_headers)
unfolding mapping_run
map_headers-Outcome_example = map_headers-Outcome spoofed (refl, (refl, (refl, tt)))

abbrev plain : Text → Option Text
plain part = some part

cookies_of_header :
    parse_cookie_header plain (some (codes "a=1; =x; b ; c = d=e"))
    ≡ done ((codes "a", codes "1") ∷ (codes "c", codes "d=e") ∷ [])
unfolding mapping_run parse_cookie_header
cookies_of_header = refl

undecodable_cookie :
    parse_cookie_header (λ part. none) (some (codes "a=1")) ≡ thrown malformed_cookie
unfolding mapping_run parse_cookie_header
undecodable_cookie = refl

posted_form :
    map_fastify_request plain
      (λ body. body)
      (record {
        method = codes "post";
        url = codes "/a?x";
        query = none;
        headers = spoofed;
        body = content (codes "hi");
      })
    ≡ done (record {
      method = post;
      path = codes "/a";
      query = [];
      headers = forwarded_headers;
      cookies = [];
      body = some (codes "hi");
    })
unfolding mapping_run map_fastify_request
posted_form = refl

unknown_method :
    map_fastify_request plain
      (λ body. body)
      (record { method = codes "TRACE"; url = []; query = none; headers = []; body = no_body })
    ≡ thrown (unsupported_method (codes "TRACE"))
unfolding mapping_run map_fastify_request
unknown_method = refl
