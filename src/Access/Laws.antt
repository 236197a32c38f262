-- ===== src/Access/Laws.antt =====
-- An account acts only where it is entitled to.
use looplink.Base.{
  ◌≡◌, refl, ap, sym, subst, not, ◌&&◌, ◌∙◌, ◌⊎◌, inl, inr, Bool, true, false, Option, none, some,
  List, [], ◌∷◌, keep, if◌then◌else◌,
}
use mathlib.Core.List.{Memᴰ}
use mathlib.Core.List.Memᴰ.{head, tail}
use looplink.Text.{Text, codes, is_empty, ◌===◌, ===→eq}
use looplink.Workspaces.{developer}
use looplink.Access.{
  AuthUser, AuthMethod, jwt, api_key, Membership, RequestContext, Workspace, Outcome, answer,
  failure, find, select, chosen, or_first, is_active, member_context, key_context, requested,
  permissions_for_role, permissions_for_api_key, resolve_workspace, resolve_by, resolve_member,
  resolve_api_key_context, build_request_context, differs,
}

find-Mem :
    (p : Membership → Bool) (ms : List Membership) (m : Membership)
    → find p ms ≡ some m
    → Memᴰ m ms × (p m ≡ true)
find-Mem p [] m h = absurd (cc)
find-Mem p (x ∷ ms) m h = go (p x) refl h (find-Mem p ms m)
  where
    go :
        (b : Bool)
        → p x ≡ b
        → (if b then some x else find p ms) ≡ some m
        → (find p ms ≡ some m → Memᴰ m ms × (p m ≡ true))
        → Memᴰ m (x ∷ ms) × (p m ≡ true)
    go true e q rest = let same : m ≡ x = cc in (head same, rw same e)
    go false e q rest = let (a, b) = rest q in (tail a, b)

keep-Mem :
    (p : Membership → Bool) (ms : List Membership) (m : Membership)
    → Memᴰ m (keep p ms)
    → Memᴰ m ms × (p m ≡ true)
keep-Mem p [] m h = elim h [ ]
keep-Mem p (x ∷ ms) m h = go (p x) refl h (keep-Mem p ms m)
  where
    go :
        (b : Bool)
        → p x ≡ b
        → Memᴰ m (if b then x ∷ keep p ms else keep p ms)
        → (Memᴰ m (keep p ms) → Memᴰ m ms × (p m ≡ true))
        → Memᴰ m (x ∷ ms) × (p m ≡ true)
    go true e (head same) rest = (head same, rw same e)
    go true e (tail q) rest = let (a, b) = rest q in (tail a, b)
    go false e q rest = let (a, b) = rest q in (tail a, b)

chosen-answer :
    (message : Text) (o : Option Membership) (m : Membership)
    → chosen message o ≡ answer m
    → o ≡ some m
chosen-answer message none m h = cc
chosen-answer message (some x) m h = cc

or_first-Mem :
    (ms : List Membership) (o : Option Membership) (m : Membership)
    → ((x : Membership) → o ≡ some x → Memᴰ x ms)
    → or_first ms o ≡ some m
    → Memᴰ m ms
or_first-Mem ms (some x) m h e = h m e
or_first-Mem [] none m h e = absurd (cc)
or_first-Mem (x ∷ ms) none m h e = head (cc)

-- The membership that is selected is one of the list, and that of the workspace that was asked for.
select-Mem :
    (ms : List Membership) (wanted : Text) (m : Membership)
    → select ms wanted ≡ answer m
    → Memᴰ m ms × (is_empty wanted ≡ false → m.workspace.id ≡ wanted)
select-Mem [] wanted m h = absurd (unfold select in cc)
select-Mem (x ∷ ms) wanted m h = go (is_empty wanted) refl (unfold select in h)
  where
    personal : Option Membership
    personal = find (λ y. y.workspace.is_personal) (x ∷ ms)

    go :
        (b : Bool)
        → is_empty wanted ≡ b
        → (if b
            then chosen
                (codes "No workspaces found for current account.")
                (or_first (x ∷ ms) personal)
            else chosen
                (codes "Workspace not found for current account.")
                (find (λ y. y.workspace.id === wanted) (x ∷ ms)))
          ≡ answer m
        → Memᴰ m (x ∷ ms) × (is_empty wanted ≡ false → m.workspace.id ≡ wanted)
    go true e q = (
      or_first-Mem (x ∷ ms) personal m
          (λ y r. (find-Mem (λ z. z.workspace.is_personal) (x ∷ ms) y r).0)
          (chosen-answer (codes "No workspaces found for current account.")
            (or_first (x ∷ ms) personal) m q),
      λ f. absurd (cc),
    )
    go false e q =
        let found =
          chosen-answer (codes "Workspace not found for current account.")
            (find (λ y. y.workspace.id === wanted) (x ∷ ms)) m q in
        let (a, b) = find-Mem (λ y. y.workspace.id === wanted) (x ∷ ms) m found in
        (a, λ f. ===→eq m.workspace.id wanted b)

differs-no :
    (wanted : Option Text) (id : Text)
    → differs wanted id ≡ false
    → (asked : Text) → wanted ≡ some asked
    → is_empty asked ≡ false
    → asked ≡ id
differs-no none id h asked p q = absurd (cc)
differs-no (some x) id h asked p q =
    let same : x ≡ asked = cc in
    ===→eq asked id
      (equal (is_empty asked) (asked === id) (subst (λ y. differs (some y) id ≡ false) same h) q)
  where
    equal : (a b : Bool) → (not a && not b) ≡ false → a ≡ false → b ≡ true
    equal true b h e = absurd (cc)
    equal false true h e = refl
    equal false false h e = absurd (cc)

module _ (memberships : Text → List Membership) (find_workspace : Text → Option Workspace)
    (account : AuthUser) (wanted : Option Text) where
  -- As a member: by an active membership of the account, with the permissions of its role, in the
  -- workspace that was asked for, if one was.
  abbrev pub AsMember : RequestContext → Type 0
  AsMember context =
      (m : Membership) × Memᴰ m (memberships account.id)
      × (is_active m.status ≡ true)
      × (context.workspace_id ≡ m.workspace.id)
      × (context.account_id ≡ account.id)
      × (context.membership_id ≡ some m.id)
      × (context.permissions ≡ permissions_for_role m.role)
      × (is_empty (requested wanted) ≡ false → context.workspace_id ≡ requested wanted)

  -- As a key: by authentication with a key that is bound to a workspace, in that workspace, which is
  -- the one that was asked for, if one was, with the permissions of a key.
  abbrev pub AsKey : RequestContext → Type 0
  AsKey context =
      (id : Text) × (workspace : Workspace) × (account.auth_method ≡ some api_key)
      × (account.workspace_id ≡ some id)
      × (is_empty id ≡ false)
      × ((asked : Text) → wanted ≡ some asked → is_empty asked ≡ false → asked ≡ id)
      × (find_workspace id ≡ some workspace)
      × (context.workspace_id ≡ workspace.id)
      × (context.account_id ≡ account.id)
      × (context.permissions ≡ permissions_for_api_key)

  member-AsMember :
      (context : RequestContext)
      → resolve_member memberships find_workspace account wanted ≡ answer context
      → AsMember context
  unfolding resolve_member
  member-AsMember context h = go (select active_ones (requested wanted)) refl h
    where
      active_ones : List Membership
      active_ones = keep (λ m. is_active m.status) (memberships account.id)

      go :
          (o : Outcome Membership)
          → select active_ones (requested wanted) ≡ o
          → member_context account o ≡ answer context
          → AsMember context
      go (failure message) e q = absurd (unfold member_context in cc)
      go (answer m) e q =
          let (a, b) = select-Mem active_ones (requested wanted) m e in
          let (c, d) = keep-Mem (λ x. is_active x.status) (memberships account.id) m a in
          let made : build_request_context account m.workspace.id (some m.id) m.role false
              ≡ context =
            unfold member_context in cc in
          (
            m,
            c,
            d,
            ap (λ x. x.workspace_id) (sym made),
            ap (λ x. x.account_id) (sym made) ∙ (unfold build_request_context in refl),
            ap (λ x. x.membership_id) (sym made) ∙ (unfold build_request_context in refl),
            ap (λ x. x.permissions) (sym made) ∙ (unfold build_request_context in refl),
            λ f. ap (λ x. x.workspace_id) (sym made) ∙ b f,
          )

  key-AsKey :
      (id : Text) (context : RequestContext)
      → account.auth_method ≡ some api_key
      → account.workspace_id ≡ some id
      → is_empty id ≡ false
      → resolve_api_key_context memberships find_workspace account id wanted ≡ answer context
      → AsKey context
  unfolding resolve_api_key_context
  key-AsKey id context m p full h = go (differs wanted id) (find_workspace id) refl refl h
    where
      go :
          (b : Bool) (o : Option Workspace)
          → differs wanted id ≡ b
          → find_workspace id ≡ o
          → (if b
              then failure (codes "Workspace not found for current credentials.")
              else key_context account o)
            ≡ answer context
          → AsKey context
      go true o k e q = absurd (cc)
      go false none k e q = absurd (unfold key_context in cc)
      go false (some workspace) k e q =
          let made : build_request_context account workspace.id none developer true ≡ context =
            unfold key_context in cc in
          (
            id,
            workspace,
            m,
            p,
            full,
            differs-no wanted id k,
            e,
            ap (λ x. x.workspace_id) (sym made),
            ap (λ x. x.account_id) (sym made) ∙ (unfold build_request_context in refl),
            ap (λ x. x.permissions) (sym made) ∙ (unfold build_request_context in refl),
          )

  -- Where a workspace is resolved for an account, it is that of an active membership of the account,
  -- with the permissions of its role, and the one that was asked for, if one was; or the account was
  -- authenticated by a key that is bound to a workspace, it is the one that the database has under
  -- that id, no other id was asked for, and the permissions are those of a key.
  pub resolve_workspace-AsMember :
      (context : RequestContext)
      → resolve_workspace memberships find_workspace account wanted ≡ answer context
      → AsMember context ⊎ AsKey context
  unfolding resolve_workspace
  resolve_workspace-AsMember context h = go account.auth_method account.workspace_id refl refl h
    where
      go :
          (method : Option AuthMethod) (id : Option Text)
          → account.auth_method ≡ method
          → account.workspace_id ≡ id
          → resolve_by memberships find_workspace account method id wanted ≡ answer context
          → AsMember context ⊎ AsKey context
      go (some api_key) (some (c ∷ id)) k e q =
          inr (key-AsKey (c ∷ id) context k e refl (unfold resolve_by in q))
      go (some api_key) (some []) k e q = inl (member-AsMember context (unfold resolve_by in q))
      go (some api_key) none k e q = inl (member-AsMember context (unfold resolve_by in q))
      go (some jwt) id k e q = inl (member-AsMember context (unfold resolve_by in q))
      go none id k e q = inl (member-AsMember context (unfold resolve_by in q))
