-- ===== src/Tunnels/PublicUrl.antt =====
-- public-url.ts: tunnel ids, slugs, public URLs and the way back from a path or a host. What the
-- environment says (mode, origin, domain) is an argument.
pub mod Paths
pub mod Hosts
pub mod Urls
use looplink.Base.{
  ℕ, zero, suc, ◌+◌, ◌-◌, ◌*◌, Bool, true, false, not, ◌&&◌, ◌||◌, Option, none, some, List, [],
  ◌∷◌, ◌++◌, keep, take, drop, length, leb, ◌==◌, if◌then◌else◌,
}
use looplink.Text.{
  Text, codes, to_lower, trim_end, is_empty, starts_with, ends_with, includes, split, first_part,
  ◌===◌,
}

pub data PublicUrlMode : Type 0 where
  path subdomain : PublicUrlMode

-- TUNNEL_SLUG_LENGTH and TUNNEL_ID_BYTES
abbrev pub tunnel_slug_length : ℕ
tunnel_slug_length = 16

abbrev pub tunnel_id_bytes : ℕ
tunnel_id_bytes = 16

abbrev pub tunnel_path_prefix : Text
tunnel_path_prefix = codes "/tunnel"

unfoldable pub tunnel_slug : Text → Text
tunnel_slug tunnel_id = to_lower (take tunnel_slug_length (keep (λ c. not (c == b'-')) tunnel_id))

abbrev pub is_hex_digit : ℕ → Bool
is_hex_digit c =
    (leb b'0' c && leb c b'9') || (leb b'a' c && leb c b'f') || (leb b'A' c && leb c b'F')

abbrev pub all_hex : Text → Bool
all_hex [] = true
all_hex (c ∷ s) = is_hex_digit c && all_hex s

-- The pattern asks for one digit at least.
unfoldable pub is_tunnel_id : Text → Bool
is_tunnel_id value = length value == tunnel_id_bytes * 2 && (not (is_empty value) && all_hex value)

unfoldable pub scheme_for_host : Text → Text
scheme_for_host host =
    let normalized = to_lower host in
    if normalized === codes "localhost"
      || normalized === codes "127.0.0.1"
      || normalized === codes "[::1]"
    then codes "http"
    else codes "https"

-- The host before the first colon, if there is one.
unfoldable pub host_part : Text → Text
host_part base_domain =
    if includes base_domain (codes ":") then first_part (split b':' base_domain) else base_domain

unfoldable pub origin_for_base_domain : Text → Text
unfolding scheme_for_host host_part
origin_for_base_domain base_domain =
    scheme_for_host (host_part base_domain) ++ (codes "://" ++ base_domain)

unfoldable pub trim_slash_back : ℕ → Text → Text
trim_slash_back c [] = if c == b'/' then [] else c ∷ []
trim_slash_back c (d ∷ s) = c ∷ d ∷ s

unfoldable pub trim_trailing_slash : Text → Text
unfolding trim_slash_back
trim_trailing_slash [] = []
trim_trailing_slash (c ∷ s) = trim_slash_back c (trim_trailing_slash s)

abbrev pub path_origin : Option Text → Text → Text
path_origin none base_domain = origin_for_base_domain base_domain
path_origin (some base_url) base_domain = trim_trailing_slash base_url

unfoldable pub build_public_url : PublicUrlMode → Option Text → Text → Text → Text
unfolding scheme_for_host host_part origin_for_base_domain trim_trailing_slash
build_public_url path base_url base_domain tunnel_id =
    path_origin base_url base_domain ++ (tunnel_path_prefix ++ b'/' ∷ tunnel_id)
build_public_url subdomain base_url base_domain tunnel_id =
    scheme_for_host (host_part base_domain)
    ++ (codes "://" ++ (tunnel_slug tunnel_id ++ b'.' ∷ base_domain))

pub record ParsedTunnelPath : Type 0 where
  pub tunnel_id : Text
  pub local_path : Text

-- What stands before and behind the first slash: `indexOf` and the two slices.
unfoldable pub before_slash : Text → Text
before_slash [] = []
before_slash (c ∷ s) = let rest = before_slash s in if c == b'/' then [] else c ∷ rest

unfoldable pub after_slash : Text → Text
after_slash [] = []
after_slash (c ∷ s) = let rest = after_slash s in if c == b'/' then s else rest

unfoldable pub parse_tunnel_path : Text → Option ParsedTunnelPath
unfolding before_slash after_slash is_tunnel_id
parse_tunnel_path pathname =
    let prefix = tunnel_path_prefix ++ b'/' ∷ [] in
    let remainder = drop (length prefix) pathname in
    if not (starts_with pathname prefix)
    then none
    else if is_empty remainder
    then none
    else if not (is_tunnel_id (before_slash remainder))
    then none
    else some (record {
      tunnel_id = to_lower (before_slash remainder);
      local_path = b'/' ∷ after_slash remainder;
    })

-- The checks on the host name without its port.
unfoldable pub slug_under : Text → Text → Option Text
slug_under hostname suffix =
    let slug = take (length hostname - length suffix) hostname in
    if is_empty hostname
    then none
    else if not (ends_with hostname suffix)
    then none
    else if is_empty slug || includes slug (codes ".")
    then none
    else some slug

unfoldable pub extract_tunnel_slug_from_host : Text → Text → Option Text
unfolding slug_under
extract_tunnel_slug_from_host host_header base_domain =
    slug_under (to_lower (first_part (split b':' host_header))) (b'.' ∷ to_lower base_domain)
