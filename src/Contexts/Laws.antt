-- ===== src/Contexts/Laws.antt =====
-- What a socket may do with the context that is resolved for it.
use looplink.Base.{
  ℕ, ◌<◌, Bool, true, false, not, ◌||◌, if◌then◌else◌, arith, ◌≡◌, refl, ap, sym, ◌⊎◌, inl, inr,
  Option, none, some, List, [], ◌∷◌,
}
use looplink.Text.{Text, codes, trim, is_empty, starts_with}
use looplink.Workspaces.{WorkspacePermission, create_tunnel}
use looplink.Sessions.{Sessions, AnonymousSession, find_by_token_hash}
use looplink.Sessions.Service
use looplink.Sessions.Service.{Validated, valid, unauthorized, anonymous_token_prefix}
use looplink.Access
use looplink.Access.{AuthUser, jwt, RequestContext, Outcome, answer, failure}
use looplink.Access.Laws.{AsMember, AsKey, resolve_workspace-AsMember}
use looplink.Contexts.{
  ContextType, anonymous, workspace, guest, TunnelContext, Metadata, create_anonymous,
  create_workspace, to_tunnel_context, string,
}
use looplink.Contexts.Resolver.{
  Services, ContextResolveInput, TunnelHeaders, account_resolution, workspace_resolution,
  session_resolution, resolve_with, resolve, resolve_tunnel_web_socket, extract_bearer_token,
  read_header, raw_header, verify_access_token, is_api_key_token, with_jwt,
}
use looplink.Gateway.{Resolution, resolved, failed}

-- Without an account: by the token of a stored session that has not expired; the context is that of
-- the session, in no workspace, and may create a tunnel and nothing else.
abbrev pub IsAnonymous : Services → Sessions → ℕ → Option Text → TunnelContext → Type 0
IsAnonymous services s now given context =
    (token : Text) × (stored : AnonymousSession) × (session : AnonymousSession) × (given
      ≡ some token)
    × (starts_with (trim token) anonymous_token_prefix ≡ true)
    × (find_by_token_hash s (services.hash_token (trim token)) ≡ some stored)
    × (now < stored.expires_at)
    × ((Service.validate services.hash_token s now token).1 ≡ valid session)
    × (context.context_type ≡ anonymous)
    × (context.anonymous_session_id ≡ some (trim session.id))
    × (context.permissions ≡ create_tunnel ∷ [])
    × (context.workspace_id ≡ none)

-- The account that a token stands for: that of an API key, or that which the check of access tokens
-- gives.
abbrev pub Accepted : Services → Text → AuthUser → Type 0
Accepted services token user =
    ((starts_with (trim token) (codes "bgk_") ≡ true)
      × (services.verify_api_key token ≡ answer user))
    ⊎ ((starts_with (trim token) (codes "bgk_") ≡ false)
        × ((verified : AuthUser) × (services.verify_access_token token ≡ answer verified)
            × (user ≡ record verified { auth_method = some jwt })))

-- With an account, that of the token of the `Authorization` header: in a workspace that the account
-- is entitled to, with the permissions that it has there.
abbrev pub IsEntitled : Services → Option Text → Option Text → TunnelContext → Type 0
IsEntitled services bearer wanted context =
    (token : Text) × (user : AuthUser) × (request : RequestContext) × (bearer ≡ some token)
    × Accepted services token user
    × (context.context_type ≡ workspace)
    × (context.anonymous_session_id ≡ none)
    × (context.permissions ≡ request.permissions)
    × (context.workspace_id ≡ some (trim request.workspace_id))
    × (AsMember services.memberships services.find_workspace user wanted request
        ⊎ AsKey services.memberships services.find_workspace user wanted request)

abbrev permissions_of : Resolution → List WorkspacePermission
permissions_of (resolved context) = context.permissions
permissions_of (failed message) = []

abbrev workspace_of : Resolution → Option Text
workspace_of (resolved context) = context.workspace_id
workspace_of (failed message) = none

abbrev type_of : Resolution → ContextType
type_of (resolved context) = context.context_type
type_of (failed message) = guest

abbrev session_of : Resolution → Option Text
session_of (resolved context) = context.anonymous_session_id
session_of (failed message) = none

-- A token that is validated is that of a stored session that has not expired.
validate-stored :
    (hash_token : Text → Text) (s : Sessions) (now : ℕ) (token : Text) (session : AnonymousSession)
    → (Service.validate hash_token s now token).1 ≡ valid session
    → (stored : AnonymousSession) × (starts_with (trim token) anonymous_token_prefix ≡ true)
      × (find_by_token_hash s (hash_token (trim token)) ≡ some stored)
      × (now < stored.expires_at)
unfolding Service.validate
validate-stored hash_token s now token session h =
    prefixed (is_empty (trim token)) (starts_with (trim token) anonymous_token_prefix) refl
      (find_by_token_hash s (hash_token (trim token))) refl h
  where
    prefixed :
        (blank begins : Bool)
        → starts_with (trim token) anonymous_token_prefix ≡ begins
        → (o : Option AnonymousSession) → find_by_token_hash s (hash_token (trim token)) ≡ o
        → (if blank || not begins
            then (s, unauthorized (codes "Invalid anonymous session."))
            else Service.validate_found s now o).1
          ≡ valid session
        → (stored : AnonymousSession) × (starts_with (trim token) anonymous_token_prefix ≡ true)
          × (find_by_token_hash s (hash_token (trim token)) ≡ some stored)
          × (now < stored.expires_at)
    prefixed true begins p o q h = absurd (cc)
    prefixed false false p o q h = absurd (cc)
    prefixed false true p none q h = absurd (unfold Service.validate_found in cc)
    prefixed false true p (some stored) q h =
        (stored, p, q, (unfold Service.validate_found in ground arith))

module _ (services : Services) (context_id : Text) (now : ℕ) (context : TunnelContext) where
  session-IsAnonymous :
      (s : Sessions) (input : ContextResolveInput) (token : Text) (x : Sessions × Validated)
      → Service.validate services.hash_token s now token ≡ x
      → (session_resolution context_id input x).1 ≡ resolved context
      → IsAnonymous services s now (some token) context
  unfolding session_resolution create_anonymous to_tunnel_context
  session-IsAnonymous s input token (s', unauthorized message) e h = absurd (cc)
  session-IsAnonymous s input token (s', valid session) e h =
      let checked : (Service.validate services.hash_token s now token).1 ≡ valid session =
        ap (λ x. x.1) e in
      let (stored, p, q, live) = validate-stored services.hash_token s now token session checked in
      (
        token,
        stored,
        session,
        refl,
        p,
        q,
        live,
        checked,
        ap type_of (sym h),
        ap session_of (sym h),
        ap permissions_of (sym h),
        ap workspace_of (sym h),
      )

  workspace-parts :
      (tunnel_id : Option Text) (metadata : Metadata) (o : Outcome RequestContext)
      → workspace_resolution context_id now tunnel_id metadata o ≡ resolved context
      → (request : RequestContext) × (o ≡ answer request)
        × (context.context_type ≡ workspace)
        × (context.anonymous_session_id ≡ none)
        × (context.permissions ≡ request.permissions)
        × (context.workspace_id ≡ some (trim request.workspace_id))
  unfolding workspace_resolution create_workspace to_tunnel_context
  workspace-parts tunnel_id metadata (failure message) h = absurd (cc)
  workspace-parts tunnel_id metadata (answer request) h = (
    request,
    refl,
    ap type_of (sym h),
    ap session_of (sym h),
    ap permissions_of (sym h),
    ap workspace_of (sym h),
  )

  verify_access_token-Accepted :
      (token : Text) (user : AuthUser)
      → verify_access_token services token ≡ answer user
      → Accepted services token user
  unfolding verify_access_token is_api_key_token
  verify_access_token-Accepted token user h =
      by_prefix (starts_with (trim token) (codes "bgk_")) refl (services.verify_access_token token)
        refl h
    where
      by_prefix :
          (b : Bool)
          → starts_with (trim token) (codes "bgk_") ≡ b
          → (o : Outcome AuthUser) → services.verify_access_token token ≡ o
          → (if b then services.verify_api_key token else with_jwt o) ≡ answer user
          → Accepted services token user
      by_prefix true p o q h = inl (p, h)
      by_prefix false p (failure message) q h = absurd (cc)
      by_prefix false p (answer verified) q h = inr (p, (verified, q, cc))

  account-IsEntitled :
      (input : ContextResolveInput) (token : Text) (o : Outcome AuthUser)
      → verify_access_token services token ≡ o
      → account_resolution services context_id now input o ≡ resolved context
      → IsEntitled services (some token) input.requested_workspace_id context
  account-IsEntitled input token (failure message) e h = absurd (cc)
  account-IsEntitled input token (answer user) e h =
      let (request, found, kind, session, a, b) =
        workspace-parts input.tunnel_id input.metadata
          (Access.resolve_workspace services.memberships services.find_workspace user
            input.requested_workspace_id)
          h in
      (
        token,
        user,
        request,
        refl,
        verify_access_token-Accepted token user e,
        kind,
        session,
        a,
        b,
        resolve_workspace-AsMember services.memberships services.find_workspace user
            input.requested_workspace_id request found,
      )

  resolve-cases :
      (s : Sessions) (input : ContextResolveInput) (token authorization session : Option Text)
      → (resolve_with services s context_id now input token authorization session).1
        ≡ resolved context
      → ((authorization ≡ none) × IsAnonymous services s now session context)
        ⊎ IsEntitled services token input.requested_workspace_id context
  unfolding resolve_with
  resolve-cases s input (some token) authorization session h =
      inr (account-IsEntitled input token (verify_access_token services token) refl h)
  resolve-cases s input none (some authorization) session h = absurd (cc)
  resolve-cases s input none none none h = absurd (cc)
  resolve-cases s input none none (some token) h = inl (
    refl,
    session-IsAnonymous s input token (Service.validate services.hash_token s now token) refl h,
  )

  -- A context that is resolved for a tunnel socket is anonymous: it came without an `Authorization`
  -- header, with the token of a stored session that has not expired, is the context of the session
  -- that this token is validated as, and may create a tunnel and nothing else, in no workspace. Or it
  -- is that of the account for which the header's bearer token is accepted, by the check of API keys
  -- if it has their prefix and else by that of access tokens: in the workspace of an active
  -- membership of the account with the permissions of its role, the one that was asked for if one
  -- was, or, for a key that is bound to a workspace, in that one with the permissions of a key.
  pub resolve_tunnel_web_socket-IsEntitled :
      (s : Sessions) (headers : TunnelHeaders)
      → (resolve_tunnel_web_socket services s context_id now headers).1 ≡ resolved context
      → ((raw_header headers.authorization ≡ none)
          × IsAnonymous services s now (read_header headers.x_anonymous_session) context)
        ⊎ IsEntitled services
            (extract_bearer_token (raw_header headers.authorization))
            (read_header headers.x_workspace_id)
            context
  unfolding resolve_tunnel_web_socket resolve
  resolve_tunnel_web_socket-IsEntitled s headers h =
      resolve-cases s
        (record {
          access_token = extract_bearer_token (raw_header headers.authorization);
          authorization_header = raw_header headers.authorization;
          anonymous_session_token = read_header headers.x_anonymous_session;
          requested_workspace_id = read_header headers.x_workspace_id;
          tunnel_id = none;
          metadata = (codes "transport", string (codes "tunnel_ws")) ∷ [];
        })
        (extract_bearer_token (raw_header headers.authorization)) (raw_header headers.authorization)
        (read_header headers.x_anonymous_session) h
