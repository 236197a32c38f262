-- ===== src/Examples/Tunnels.antt =====
-- Tunnels: two clients, a lost connection and its return.
use looplink.Base.{◌≡◌, ◌↔◌, refl, true, none, some, [], arith, ℕ_discrete, drop, length, keep}
use looplink.JsMap
use looplink.JsMap.{values}
use looplink.Text.{Text, codes, text_dec, text_key, to_lower, split, includes}
use looplink.Tunnels.Context.{
  TunnelRecord, TunnelOwnership, CreatedTunnel, workspace, context_workspace_id,
  context_anonymous_session_id,
}
use looplink.Tunnels.PublicUrl.{
  tunnel_slug, PublicUrlMode, build_public_url, parse_tunnel_path, extract_tunnel_slug_from_host,
  is_tunnel_id, path_origin,
}
use looplink.Tunnels.PublicUrl.Urls
use looplink.Tunnels.Repository
use looplink.Tunnels.Repository.{
  empty, save, find_by_id, find_by_client, find_by_slug, purge_expired_orphans, has_expired,
}
use looplink.Tunnels.Repository.Views.{IsValid, empty-IsValid}
use looplink.Tunnels.Repository.Lookups
use looplink.Tunnels.Repository.Purge
use looplink.Tunnels.Manager.{
  Manager, CreateOptions, done, create, detach_client, lookup, is_valid_port,
}
use looplink.Tunnels.Manager.Laws
use looplink.Tunnels.Manager.Reconnect

abbrev first_id : Text
first_id = codes "0123456789abcdef0123456789abcdef"

abbrev second_id : Text
second_id = codes "fedcba9876543210fedcba9876543210"

abbrev acme : TunnelOwnership
acme = record { kind = workspace; id = codes "acme" }

abbrev options : CreateOptions
options = record {
  context = acme;
  preferred_tunnel_id = none;
  now = 1000;
  reclaim_window_ms = 600000;
  owner_user_id = none;
}

abbrev mint : Text → Text
mint id = build_public_url PublicUrlMode.path none (codes "badger.dev") id

abbrev start : Manager
start = record { repository = empty; has_ownership = true; events = []; writes = [] }

running : Unit {0}
unfolding create lookup context_workspace_id context_anonymous_session_id tunnel_slug to_lower
    text_dec ℕ_discrete Repository.save Repository.reclaim Repository.purge_expired_orphans
    Repository.find_by_id Repository.orphan_by_client JsMap.get JsMap.set JsMap.delete is_valid_port
    detach_client is_tunnel_id build_public_url
running = tt

abbrev served : Manager
served = (create mint start first_id 7 3000 options).0

abbrev tunnel : TunnelRecord
tunnel = record {
  id = first_id;
  client = 7;
  port = 3000;
  context = acme;
  workspace_id = some (codes "acme");
  anonymous_session_id = none;
  owner_user_id = none;
}

served-IsValid : IsValid served.repository
served-IsValid =
    Laws.create-IsValid mint first_id 7 3000 options start empty-IsValid (unfold running in refl)

served-lookup : lookup served first_id ≡ some tunnel
unfolding running
served-lookup = refl

create-serves_example :
    (c : CreatedTunnel) × ((create mint start first_id 7 3000 options).1 ≡ done c)
    × Laws.IsServed mint first_id 7 3000 options served c
create-serves_example =
    Laws.create-serves mint first_id 7 3000 options start empty-IsValid (unfold running in refl)

create-IsValid_example :
    IsValid
      (create mint served second_id 8 8080
        (record options { preferred_tunnel_id = some first_id })).0.repository
create-IsValid_example =
    Laws.create-IsValid mint second_id 8 8080
      (record options { preferred_tunnel_id = some first_id }) served served-IsValid
      (unfold running in refl)

abbrev returning : CreateOptions
returning = record options { preferred_tunnel_id = some first_id; now = 50000 }

abbrev away : Manager
away = (detach_client served 2000 7).0

reconnect_restores_example :
    ((detach_client served 2000 7).1 ≡ true)
    × ((create mint away second_id 9 3000 returning).1
        ≡ done (record {
          tunnel = record tunnel { client = 9 };
          public_url = mint first_id;
          restored = true;
        }))
reconnect_restores_example =
    Reconnect.reconnect_restores served tunnel 9 2000 returning served-IsValid served-lookup
      (omega arith) refl refl mint second_id (unfold running in refl)

find_by_slug_iff_example :
    (find_by_slug served.repository (codes "0123456789ABCDEF") ≡ some tunnel) ↔ (
      (find_by_id served.repository first_id ≡ some tunnel)
      × (tunnel_slug first_id ≡ to_lower (codes "0123456789ABCDEF")))
find_by_slug_iff_example =
    Lookups.find_by_slug_iff served.repository (codes "0123456789ABCDEF") tunnel served-IsValid

purge_expired_orphans_lem_example :
    let r = away.repository in
    let r' = purge_expired_orphans r 700000 600000 in
    ((k : Text) → JsMap.get k r'.0.orphans ≡ Purge.unexpired 700000 600000 (JsMap.get k r.orphans))
    × (r'.1 ≡ keep (λ o. has_expired o 700000 600000) (values r.orphans))
    × (r'.0.by_id ≡ r.by_id)
    × (r'.0.by_client ≡ r.by_client)
    × ((s : Text) → find_by_slug r'.0 s ≡ find_by_slug r s)
purge_expired_orphans_lem_example =
    Purge.purge_expired_orphans_lem 700000 600000 away.repository
      (Laws.detach_client-IsValid served 2000 7 served-IsValid)

path_url_routes_example :
    parse_tunnel_path (
      drop
        (length (path_origin none (codes "badger.dev")))
        (build_public_url PublicUrlMode.path none (codes "badger.dev") first_id))
    ≡ some (record { tunnel_id = to_lower first_id; local_path = codes "/" })
path_url_routes_example =
    Urls.path_url_routes none (codes "badger.dev") first_id (unfold running in refl)

subdomain_url_routes_example :
    extract_tunnel_slug_from_host
      (drop
        (length (Urls.scheme_of (codes "badger.dev")))
        (build_public_url PublicUrlMode.subdomain none (codes "badger.dev") first_id))
      (codes "badger.dev")
    ≡ some (tunnel_slug first_id)
subdomain_url_routes_example =
    Urls.subdomain_url_routes none (codes "badger.dev") first_id (unfold running in refl) refl

-- The source's example of a port behind the host.
host_with_port :
    extract_tunnel_slug_from_host (codes "0123456789abcdef.Badger.dev:8080") (codes "badger.dev")
    ≡ some (codes "0123456789abcdef")
unfolding extract_tunnel_slug_from_host split to_lower text_dec ℕ_discrete includes
host_with_port = refl
