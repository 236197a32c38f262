-- ===== src/Security/Origins.antt =====
-- origin-validator.ts. The URL parser of the platform is a parameter.
pub mod Laws
use looplink.Base.{
  ℕ, Bool, true, false, not, ◌&&◌, ◌||◌, Option, none, some, List, [], ◌∷◌, ◌++◌, map, keep, length,
  ◌==◌, if◌then◌else◌,
}
use looplink.Text.{
  Text, codes, trim, to_lower, is_empty, includes, ends_with, split, first_part, ◌===◌,
}

-- The parts of a parsed URL that the validator reads.
pub record Url : Type 0 where
  pub origin : Text
  pub host : Text
  pub hostname : Text

-- `Set.has`
unfoldable pub member : Text → List Text → Bool
member x [] = false
member x (y ∷ ys) = x === y || member x ys

-- The allow-list.
pub record OriginValidator : Type 0 where
  pub allowed : List Text

unfoldable pub validator : List Text → OriginValidator
validator allowed_origins = record {
  allowed =
      keep (λ value. not (is_empty value)) (map (λ value. to_lower (trim value)) allowed_origins);
}

-- `this.allowed.size === 0`
unfoldable pub is_permissive : OriginValidator → Bool
is_permissive v = length v.allowed == 0

-- `originHeader === undefined || originHeader.trim().length === 0`
unfoldable pub is_blank : Option Text → Bool
is_blank none = true
is_blank (some s) = is_empty (trim s)

abbrev pub text_of : Option Text → Text
text_of none = []
text_of (some s) = s

-- `new URL` fails on `none`.
abbrev pub url_matches : OriginValidator → Option Url → Bool
url_matches v none = false
url_matches v (some u) =
    member u.origin v.allowed || member u.host v.allowed || member u.hostname v.allowed

module _ (parse_url : Text → Option Url) where
  unfoldable pub matches : OriginValidator → Text → Bool
  matches v candidate =
      let normalized = to_lower (trim candidate) in
      if member normalized v.allowed
      then true
      else url_matches v (
          parse_url (
            if includes normalized (codes "://")
            then normalized
            else codes "https://" ++ normalized))

  unfoldable pub is_origin_allowed : OriginValidator → Option Text → Bool
  unfolding is_permissive is_blank
  is_origin_allowed v origin_header =
      if is_permissive v
      then true
      else if is_blank origin_header
      then true
      else matches v (text_of origin_header)

  unfoldable pub is_host_allowed : OriginValidator → Option Text → Text → Bool
  unfolding is_permissive is_blank
  is_host_allowed v host_header base_domain =
      let hostname = to_lower (first_part (split b':' (text_of host_header))) in
      let domain = to_lower base_domain in
      if is_blank host_header
      then false
      else if is_empty hostname
      then false
      else if hostname === domain || ends_with hostname (b'.' ∷ domain)
      then true
      else if is_permissive v
      then true
      else member hostname v.allowed || matches v (codes "https://" ++ hostname)

unfoldable pub parse_allowed_origins : Option Text → List Text
unfolding is_blank
parse_allowed_origins raw =
    if is_blank raw
    then []
    else keep (λ part. not (is_empty part)) (map trim (split b',' (text_of raw)))
