-- ===== src/Tunnels/PublicUrl/Hosts.antt =====
-- From a tunnel id to a host name and back.
use looplink.Base.{
  ℕ, zero, suc, ◌-◌, ◌≡◌, refl, ◌∙◌, true, false, not, some, [], ◌∷◌, ◌++◌, keep, take, length,
  length-append, ◌==◌, arith, min,
}
use looplink.Text.{Text, codes, to_lower, to_lower_idem, is_empty, includes}
use looplink.Text.Laws.{
  length-to_lower, take-append, to_lower-append, lacks, lacks-append, first_part-split, split-lacks,
  ends_with-append,
}
use looplink.Tunnels.PublicUrl.{
  is_tunnel_id, all_hex, is_hex_digit, tunnel_slug, tunnel_slug_length, slug_under,
  extract_tunnel_slug_from_host,
}
use looplink.Tunnels.PublicUrl.Paths.{is_tunnel_id-all_hex, all_hex-to_lower}

-- A digit is neither a colon, a dot nor a dash.
hex_plain :
    (c : ℕ)
    → is_hex_digit c ≡ true
    → (c == b':' ≡ false) × (c == b'.' ≡ false) × (c == b'-' ≡ false)
hex_plain c h = ground arith

includes-dot_hex : (s : Text) → all_hex s ≡ true → includes s (codes ".") ≡ false
unfolding includes
includes-dot_hex [] h = refl
includes-dot_hex (c ∷ s) h = ground (arith, includes-dot_hex s)

lacks-colon_hex : (s : Text) → all_hex s ≡ true → lacks b':' s ≡ true
lacks-colon_hex [] h = refl
lacks-colon_hex (c ∷ s) h = ground (arith, lacks-colon_hex s)

keep-hex : (s : Text) → all_hex s ≡ true → keep (λ c. not (c == b'-')) s ≡ s
keep-hex [] h = refl
keep-hex (c ∷ s) h = ground (arith, keep-hex s)

all_hex-take : (n : ℕ) (s : Text) → all_hex s ≡ true → all_hex (take n s) ≡ true
all_hex-take zero s h = refl
all_hex-take (suc n) [] h = refl
all_hex-take (suc n) (c ∷ s) h = ground (arith, all_hex-take n s)

length-take : (n : ℕ) (s : Text) → length (take n s) ≡ min n (length s)
length-take zero s = omega arith
length-take (suc n) [] = omega arith
length-take (suc n) (c ∷ s) = omega (arith, length-take n s)

-- The slug of a tunnel id: sixteen hexadecimal digits in lower case.
pub tunnel_slug_shape :
    (id : Text)
    → is_tunnel_id id ≡ true
    → (all_hex (tunnel_slug id) ≡ true)
      × (length (tunnel_slug id) ≡ tunnel_slug_length)
      × (to_lower (tunnel_slug id) ≡ tunnel_slug id)
unfolding tunnel_slug
tunnel_slug_shape id h =
    let (hex, n) = is_tunnel_id-all_hex id h in
    rw (keep-hex id hex) (
      all_hex-to_lower (take 16 id) (all_hex-take 16 id hex),
      omega (arith, length-to_lower (take 16 id), length-take 16 id),
      to_lower_idem (take 16 id),
    )

nonempty : (s : Text) → length s ≡ 16 → is_empty s ≡ false
nonempty [] h = absurd (omega arith)
nonempty (c ∷ s) h = refl

is_empty-append : (s t : Text) → is_empty s ≡ false → is_empty (s ++ t) ≡ false
is_empty-append [] t h = cc
is_empty-append (c ∷ s) t h = refl

slug_under-append :
    (s suffix : Text)
    → is_empty s ≡ false
    → includes s (codes ".") ≡ false
    → slug_under (s ++ suffix) suffix ≡ some s
unfolding slug_under
slug_under-append s suffix ne plain =
    let n : length (s ++ suffix) - length suffix ≡ length s =
      omega (arith, length-append s suffix) in
    rw (is_empty-append s suffix ne)
      (rw (ends_with-append s suffix) (rw n (rw (take-append s suffix) (rw ne (rw plain)))))

to_lower-dotted : (s d : Text) → to_lower s ≡ s → to_lower (s ++ b'.' ∷ d) ≡ s ++ b'.' ∷ to_lower d
to_lower-dotted s d low = to_lower-append s (b'.' ∷ d) ∙ (rw low (unfold to_lower in refl))

-- The slug of a tunnel id under the base domain is read back from the host header, also behind a
-- port, in any case of the domain.
pub extract-tunnel_slug :
    (id base_domain port : Text)
    → is_tunnel_id id ≡ true
    → lacks b':' base_domain ≡ true
    → (extract_tunnel_slug_from_host (tunnel_slug id ++ b'.' ∷ base_domain) base_domain
        ≡ some (tunnel_slug id))
      × (extract_tunnel_slug_from_host
            ((tunnel_slug id ++ b'.' ∷ base_domain) ++ b':' ∷ port)
            base_domain
          ≡ some (tunnel_slug id))
unfolding extract_tunnel_slug_from_host
extract-tunnel_slug id base_domain port h plain =
    let (hex, n, low) = tunnel_slug_shape id h in
    let slug = tunnel_slug id in
    let whole = lacks-append b':' slug (b'.' ∷ base_domain) (lacks-colon_hex slug hex) plain in
    let done =
      slug_under-append slug (b'.' ∷ to_lower base_domain) (nonempty slug n)
        (includes-dot_hex slug hex) in
    (
      rw (split-lacks b':' _ whole) (rw (to_lower-dotted slug base_domain low) done),
      rw (first_part-split b':' (slug ++ b'.' ∷ base_domain) port whole)
          (rw (to_lower-dotted slug base_domain low) done),
    )
