-- ===== src/Security/Origins/Laws.antt =====
-- Which origins and hosts the validator lets through.
use looplink.Base.{◌≡◌, true, false, Option, some, List, [], ◌∷◌, ◌++◌, arith}
use looplink.Text.{Text, codes, trim, to_lower, to_lower_idem, is_empty}
use looplink.Text.Laws.{trim-to_lower, is_empty-to_lower}
use looplink.Security.Origins.{
  Url, OriginValidator, member, validator, is_permissive, url_matches, matches, is_origin_allowed,
}

module _ (parse_url : Text → Option Url) where
  matches-to_lower :
      (v : OriginValidator) (s : Text) → matches parse_url v (to_lower s) ≡ matches parse_url v s
  unfolding matches
  matches-to_lower v s = rw (trim-to_lower s) (rw (to_lower_idem (trim s)))

  -- The case of an origin does not matter.
  pub is_origin_allowed-to_lower :
      (v : OriginValidator) (s : Text)
      → is_origin_allowed parse_url v (some (to_lower s)) ≡ is_origin_allowed parse_url v (some s)
  unfolding is_origin_allowed
  is_origin_allowed-to_lower v s =
      ground (arith, matches-to_lower v s, trim-to_lower s, is_empty-to_lower (trim s))

  matches-member :
      (v : OriginValidator) (s : Text)
      → member (to_lower (trim s)) v.allowed ≡ true
      → matches parse_url v s ≡ true
  unfolding matches
  matches-member v s h = rw h

  member-normalized :
      (s : Text) (raw : List Text)
      → member s raw ≡ true
      → is_empty (to_lower (trim s)) ≡ false
      → member (to_lower (trim s)) (validator raw).allowed ≡ true
  unfolding member validator
  member-normalized s [] h ne = cc
  member-normalized s (x ∷ raw) h ne = ground (arith, member-normalized s raw)

  -- A text that stands in the configured list is let through as an origin.
  pub configured_origin_allowed :
      (raw : List Text) (s : Text)
      → member s raw ≡ true
      → is_origin_allowed parse_url (validator raw) (some s) ≡ true
  unfolding is_origin_allowed
  configured_origin_allowed raw s h =
      ground (
        arith,
        matches-member (validator raw) s,
        member-normalized s raw,
        is_empty-to_lower (trim s),
      )

  -- Under a list that is not empty, an origin that is not blank, is not listed, and whose parts are
  -- not listed either, is refused; so is one that does not parse.
  pub unlisted_origin_refused :
      (v : OriginValidator) (s : Text)
      → is_permissive v ≡ false
      → is_empty (trim s) ≡ false
      → member (to_lower (trim s)) v.allowed ≡ false
      → ((t : Text) → url_matches v (parse_url t) ≡ false)
      → is_origin_allowed parse_url v (some s) ≡ false
  unfolding is_origin_allowed matches
  unlisted_origin_refused v s strict visible unlisted parts =
      ground (arith, parts (to_lower (trim s)), parts (codes "https://" ++ to_lower (trim s)))
