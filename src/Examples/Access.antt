-- ===== src/Examples/Access.antt =====
-- An account with two memberships, and the contexts of its sockets.
use looplink.Base.{◌≡◌, refl, ◌⊎◌, Option, none, some, List, [], ◌∷◌, true, false}
use looplink.Text.{Text, codes, to_lower}
use looplink.Workspaces.{developer, viewer}
use looplink.Security.Policy.{absent, one}
use looplink.Sessions
use looplink.Access.{
  AuthUser, Membership, RequestContext, Workspace, answer, failure, active, suspended, jwt,
  resolve_workspace, build_request_context, resolve_by, resolve_member, member_context, select,
}
use looplink.Access.Laws
use looplink.Contexts.{TunnelContext, anonymous}
use looplink.Contexts.Resolver
use looplink.Contexts.Resolver.{Services, TunnelHeaders, resolve_tunnel_web_socket}
use looplink.Contexts.Laws as ContextLaws
use looplink.Gateway.{Resolution, resolved, failed}

abbrev ann : AuthUser
ann = record {
  id = codes "ann";
  email = none;
  auth_method = some jwt;
  workspace_id = none;
  api_key_id = none;
}

abbrev ours : Membership
ours = record {
  id = codes "m1";
  workspace = record { id = codes "w1"; is_personal = false };
  role = developer;
  status = some active;
}

abbrev theirs : Membership
theirs = record {
  id = codes "m2";
  workspace = record { id = codes "w2"; is_personal = true };
  role = viewer;
  status = some suspended;
}

abbrev memberships : Text → List Membership
memberships account = theirs ∷ ours ∷ []

abbrev no_workspace : Text → Option Workspace
no_workspace id = none

abbrev ours_context : RequestContext
ours_context = build_request_context ann (codes "w1") (some (codes "m1")) developer false

resolve_workspace-AsMember_example :
    Laws.AsMember memberships no_workspace ann none ours_context
    ⊎ Laws.AsKey memberships no_workspace ann none ours_context
unfolding resolve_workspace resolve_by resolve_member member_context select
resolve_workspace-AsMember_example =
    Laws.resolve_workspace-AsMember memberships no_workspace ann none ours_context refl

abbrev services : Services
services = record {
  verify_access_token = λ token. answer ann;
  verify_api_key = λ token. failure (codes "no keys");
  memberships = memberships;
  find_workspace = no_workspace;
  hash_token = λ token. token;
}

abbrev headers : TunnelHeaders
headers = record {
  authorization = one (codes "Bearer x1");
  x_workspace_id = absent;
  x_anonymous_session = absent;
}

abbrev blank : TunnelContext
blank = record {
  context_id = [];
  context_type = anonymous;
  tunnel_id = none;
  workspace_id = none;
  anonymous_session_id = none;
  permissions = [];
  metadata = [];
}

abbrev or_blank : Resolution → TunnelContext
or_blank (resolved context) = context
or_blank (failed message) = blank

abbrev granted : TunnelContext
granted = or_blank (resolve_tunnel_web_socket services Sessions.empty (codes "c1") 5 headers).1

resolve_tunnel_web_socket-IsEntitled_example :
    ((Resolver.raw_header headers.authorization ≡ none)
      × ContextLaws.IsAnonymous services Sessions.empty 5
          (Resolver.read_header headers.x_anonymous_session)
          granted)
    ⊎ ContextLaws.IsEntitled services
        (Resolver.extract_bearer_token (Resolver.raw_header headers.authorization))
        (Resolver.read_header headers.x_workspace_id)
        granted
unfolding resolve_tunnel_web_socket to_lower Resolver.is_api_key_token resolve_workspace
resolve_tunnel_web_socket-IsEntitled_example =
    ContextLaws.resolve_tunnel_web_socket-IsEntitled services (codes "c1") 5 granted Sessions.empty
      headers refl
