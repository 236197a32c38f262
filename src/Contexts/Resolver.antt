-- ===== src/Contexts/Resolver.antt =====
-- context.resolver.ts and extract-bearer-token.ts: the context of a tunnel socket, from the headers
-- of its upgrade request. The checks of tokens and of API keys, the database and the sessions'
-- hash are arguments; the header values are those that the platform gives.
use looplink.Base.{
  ℕ, Bool, true, false, not, ◌&&◌, ◌||◌, Option, none, some, List, [], ◌∷◌, ◌==◌, drop,
  if◌then◌else◌,
}
use looplink.Text.{Text, codes, trim, trim_start, is_empty, is_space, starts_with, to_lower}
use looplink.Security.Policy.{Header, absent, one, many, head?}
use looplink.Sessions.{Sessions}
use looplink.Sessions.Service
use looplink.Sessions.Service.{Validated, valid, unauthorized}
use looplink.Access
use looplink.Access.{
  AuthUser, AuthMethod, jwt, api_key, Membership, Workspace, RequestContext, Outcome, answer,
  failure,
}
use looplink.Contexts.{
  Metadata, create_anonymous, create_workspace, to_tunnel_context, of_anonymous, of_workspace,
  assign, string,
}
use looplink.Gateway.{Resolution, resolved, failed}

abbrev ends_line : ℕ → Bool
ends_line c = c == 10 || c == 13 || c == 0x2028 || c == 0x2029

abbrev one_line : Text → Bool
one_line [] = true
one_line (c ∷ s) = not (ends_line c) && one_line s

abbrev begins_with_space : Text → Bool
begins_with_space [] = false
begins_with_space (c ∷ s) = is_space c

-- What follows `Bearer` in `/^Bearer\s+(.+)$/i`, on a trimmed text: white space, and then one line.
unfoldable pub token_after : Text → Option Text
unfolding is_space trim
token_after rest =
    let token = trim_start rest in
    if begins_with_space rest && not (is_empty token) && one_line token
    then some (trim token)
    else none

abbrev bearer : Text
bearer = codes "bearer"

unfoldable pub extract_bearer_token : Option Text → Option Text
unfolding token_after
extract_bearer_token none = none
extract_bearer_token (some authorization) =
    let value = trim authorization in
    if starts_with (to_lower value) bearer then token_after (drop 6 value) else none

abbrev not_blank : Text → Option Text
not_blank [] = none
not_blank (c ∷ s) = some (c ∷ s)

abbrev trimmed : Option Text → Option Text
trimmed none = none
trimmed (some s) = not_blank (trim s)

unfoldable pub read_header : Header → Option Text
read_header absent = none
read_header (one s) = trimmed (some s)
read_header (many values) = trimmed (head? values)

abbrev pub raw_header : Header → Option Text
raw_header absent = none
raw_header (one s) = some s
raw_header (many values) = head? values

pub record TunnelHeaders : Type 0 where
  pub authorization : Header
  pub x_workspace_id : Header
  pub x_anonymous_session : Header

pub record ContextResolveInput : Type 0 where
  pub access_token : Option Text
  pub authorization_header : Option Text
  pub anonymous_session_token : Option Text
  pub requested_workspace_id : Option Text
  pub tunnel_id : Option Text
  pub metadata : Metadata

abbrev method_name : AuthMethod → Text
method_name jwt = codes "jwt"
method_name api_key = codes "api_key"

abbrev key_metadata : Option Text → Metadata
key_metadata none = []
key_metadata (some id) = (codes "apiKeyId", string id) ∷ []

-- What the services answer: an account for an access token or for an API key, the memberships of an
-- account, a workspace, and the hash of a session's token.
pub record Services : Type 0 where
  pub verify_access_token : Text → Outcome AuthUser
  pub verify_api_key : Text → Outcome AuthUser
  pub memberships : Text → List Membership
  pub find_workspace : Text → Option Workspace
  pub hash_token : Text → Text

abbrev api_key_prefix : Text
api_key_prefix = codes "bgk_"

unfoldable pub is_api_key_token : Text → Bool
is_api_key_token token = starts_with (trim token) api_key_prefix

abbrev pub with_jwt : Outcome AuthUser → Outcome AuthUser
with_jwt (failure message) = failure message
with_jwt (answer user) = answer (record user { auth_method = some jwt })

unfoldable pub verify_access_token : Services → Text → Outcome AuthUser
verify_access_token services token =
    if is_api_key_token token
    then services.verify_api_key token
    else with_jwt (services.verify_access_token token)

-- The context of a workspace, `resolveAuthenticated` after its wait.
unfoldable pub workspace_resolution :
    (context_id : Text) (now : ℕ) (tunnel_id : Option Text)
    → Metadata
    → Outcome RequestContext
    → Resolution
unfolding create_workspace to_tunnel_context assign
workspace_resolution context_id now tunnel_id metadata (failure message) = failed message
workspace_resolution context_id now tunnel_id metadata (answer request) = resolved (
    to_tunnel_context (
      of_workspace (
        create_workspace context_id now
          (record {
            account_id = request.account_id;
            workspace_id = request.workspace_id;
            membership_id = request.membership_id;
            role = request.role;
            permissions = request.permissions;
            auth_method = method_name request.auth_method;
            api_key_id = request.api_key_id;
          })
          tunnel_id
          (assign
            (assign
              ((codes "authMethod", string (method_name request.auth_method))
                ∷ (codes "accountId", string request.account_id)
                ∷ [])
              (key_metadata request.api_key_id))
            metadata))))

abbrev pub account_resolution :
    Services → Text → ℕ → ContextResolveInput → Outcome AuthUser → Resolution
account_resolution services context_id now input (failure message) = failed message
account_resolution services context_id now input (answer user) =
    workspace_resolution context_id now input.tunnel_id input.metadata (
      Access.resolve_workspace services.memberships services.find_workspace user
        input.requested_workspace_id)

-- The context of an anonymous session. The times of a session are numbers, so they are finite.
unfoldable pub session_resolution :
    (context_id : Text) → ContextResolveInput → Sessions × Validated → Sessions × Resolution
unfolding create_anonymous to_tunnel_context
session_resolution context_id input (s, unauthorized message) = (s, failed message)
session_resolution context_id input (s, valid session) = (
  s,
  resolved (
      to_tunnel_context (
        of_anonymous (
          create_anonymous context_id session.created_at session.expires_at session.id
            input.tunnel_id input.metadata))),
)

unfoldable pub resolve_with :
    Services
    → Sessions
    → (context_id : Text) (now : ℕ) → ContextResolveInput
    → (access_token authorization_header anonymous_session_token : Option Text)
    → Sessions × Resolution
unfolding session_resolution workspace_resolution verify_access_token
resolve_with services s context_id now input (some token) authorization session =
    (s, account_resolution services context_id now input (verify_access_token services token))
resolve_with services s context_id now input none (some authorization) session =
    (s, failed (codes "Malformed Authorization header."))
resolve_with services s context_id now input none none (some token) =
    session_resolution context_id input (Service.validate services.hash_token s now token)
resolve_with services s context_id now input none none none =
    (s, failed (codes "Authentication required."))

unfoldable pub resolve :
    Services
    → Sessions
    → (context_id : Text) (now : ℕ) → ContextResolveInput
    → Sessions × Resolution
unfolding resolve_with
resolve services s context_id now input =
    resolve_with services s context_id now input input.access_token input.authorization_header
      input.anonymous_session_token

unfoldable pub resolve_tunnel_web_socket :
    Services → Sessions → (context_id : Text) (now : ℕ) → TunnelHeaders → Sessions × Resolution
unfolding resolve extract_bearer_token read_header
resolve_tunnel_web_socket services s context_id now headers =
    resolve services s context_id now (record {
      access_token = extract_bearer_token (raw_header headers.authorization);
      authorization_header = raw_header headers.authorization;
      anonymous_session_token = read_header headers.x_anonymous_session;
      requested_workspace_id = read_header headers.x_workspace_id;
      tunnel_id = none;
      metadata = (codes "transport", string (codes "tunnel_ws")) ∷ [];
    })
