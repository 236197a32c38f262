-- ===== src/Tunnels/PublicUrl/Urls.antt =====
-- The public URL that a tunnel is given leads back to the tunnel.
use looplink.Base.{◌≡◌, true, Option, some, ◌∷◌, ◌++◌, [], drop, length}
use mathlib.Core.List.{append_assoc}
use looplink.Text.{Text, codes, to_lower}
use looplink.Text.Laws.{lacks, drop-append}
use looplink.Tunnels.PublicUrl.{
  is_tunnel_id, tunnel_slug, build_public_url, PublicUrlMode, path_origin, parse_tunnel_path,
  extract_tunnel_slug_from_host, scheme_for_host, host_part,
}
use looplink.Tunnels.PublicUrl.Paths.{parse_tunnel_path_bare}
use looplink.Tunnels.PublicUrl.Hosts.{extract-tunnel_slug}

-- Behind the origin, the URL of a tunnel id in path mode is the path of the tunnel's root.
pub path_url_routes :
    (base_url : Option Text) (base_domain id : Text)
    → is_tunnel_id id ≡ true
    → parse_tunnel_path (
        drop
          (length (path_origin base_url base_domain))
          (build_public_url PublicUrlMode.path base_url base_domain id))
      ≡ some (record { tunnel_id = to_lower id; local_path = codes "/" })
unfolding build_public_url
path_url_routes base_url base_domain id h =
    rw (drop-append (path_origin base_url base_domain)) (parse_tunnel_path_bare id h)

abbrev pub scheme_of : Text → Text
scheme_of base_domain = scheme_for_host (host_part base_domain) ++ codes "://"

-- Behind the scheme, the URL of a tunnel id in subdomain mode is a host that leads to the tunnel's
-- slug, if the base domain has no port.
pub subdomain_url_routes :
    (base_url : Option Text) (base_domain id : Text)
    → is_tunnel_id id ≡ true
    → lacks b':' base_domain ≡ true
    → extract_tunnel_slug_from_host
        (drop
          (length (scheme_of base_domain))
          (build_public_url PublicUrlMode.subdomain base_url base_domain id))
        base_domain
      ≡ some (tunnel_slug id)
unfolding build_public_url
subdomain_url_routes base_url base_domain id h plain =
    rw
      (← append_assoc (scheme_for_host (host_part base_domain)) (codes "://")
        (tunnel_slug id ++ b'.' ∷ base_domain))
      (rw (drop-append (scheme_of base_domain)) (extract-tunnel_slug id base_domain [] h plain).0)
