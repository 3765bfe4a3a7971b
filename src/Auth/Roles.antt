-- ===== src/Auth/Roles.antt =====
-- The roles of a caller against a description of what one membership grants.
use mvirt.Prelude.{
  String, Bool, false, ◌≡◌, refl, Option, none, some, List, [], ◌∷◌, arith, ◌&&◌, ◌||◌, any,
}
use mvirt.Resource.Account.{MembershipData, Role}
use mvirt.Apply.Account.{role_eq, is_platform_admin}
use package.mvirt.Auth.{
  AuthContext, context_is_platform_admin, is_org_admin, is_parent_admin, is_project_admin, is_org,
  is_project,
}

-- A membership grants an organization if it is the platform's or that organization's own.
abbrev pub grants_org : String → MembershipData → Bool
grants_org org_slug m =
    is_platform_admin m || role_eq m.role Role.org_admin && is_org org_slug m.scope

abbrev pub grants_parent : Option String → MembershipData → Bool
grants_parent none m = false
grants_parent (some org_slug) m = grants_org org_slug m

-- It grants a project if it is the platform's, grants the project's organization, where that is
-- known, or is the project's own.
abbrev pub grants_project : String → Option String → MembershipData → Bool
grants_project project_slug parent m =
    is_platform_admin m
    || grants_parent parent m
    || role_eq m.role Role.project_admin && is_project project_slug m.scope

any_either :
    {A : Type 0} (p q : A → Bool) (xs : List A) → any (λ x. p x || q x) xs ≡ (any p xs || any q xs)
unfolding any
any_either p q [] = refl
any_either p q (x ∷ xs) = ground (arith, any_either p q xs)

none_passes : {A : Type 0} (xs : List A) → any (λ _. false) xs ≡ false
unfolding any
none_passes [] = refl
none_passes (x ∷ xs) = none_passes xs

module _ (ctx : AuthContext) where
  abbrev own_project : String → MembershipData → Bool
  own_project project_slug m = role_eq m.role Role.project_admin && is_project project_slug m.scope

  is_org_admin-any :
      (org_slug : String) → is_org_admin ctx org_slug ≡ any (grants_org org_slug) ctx.memberships
  unfolding is_org_admin context_is_platform_admin
  is_org_admin-any org_slug = ground (
    arith,
    any_either is_platform_admin (λ m. role_eq m.role Role.org_admin && is_org org_slug m.scope)
        ctx.memberships,
  )

  is_parent_admin-any :
      (parent : Option String)
      → is_parent_admin ctx parent ≡ any (grants_parent parent) ctx.memberships
  unfolding is_parent_admin
  is_parent_admin-any none = ground (arith, none_passes ctx.memberships)
  is_parent_admin-any (some org_slug) = is_org_admin-any org_slug

  -- A caller administers a project exactly if one of the caller's memberships grants it.
  pub is_project_admin-any :
      (project_slug : String) (parent : Option String)
      → is_project_admin ctx project_slug parent
        ≡ any (grants_project project_slug parent) ctx.memberships
  unfolding is_project_admin context_is_platform_admin
  is_project_admin-any project_slug parent = ground (
    arith,
    is_parent_admin-any parent,
    any_either is_platform_admin (λ m. grants_parent parent m || own_project project_slug m)
        ctx.memberships,
    any_either (λ m. is_platform_admin m || grants_parent parent m) (own_project project_slug)
        ctx.memberships,
    any_either is_platform_admin (grants_parent parent) ctx.memberships,
    any_either (grants_parent parent) (own_project project_slug) ctx.memberships,
  )
