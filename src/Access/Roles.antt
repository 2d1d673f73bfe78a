-- ===== src/Access/Roles.antt =====
-- The admin role, the restricted paths, and what `RenderOnAdminRole` renders around its children.
use tornjak.Prelude.{
  ◌+◌, ◌≡◌, refl, ◌∙◌, ℕ, Bool, true, false, not, ◌&&◌, Option, some, List, [], ◌∷◌, ◌++◌, map, any,
  find, leb, arith, if◌then◌else◌, All,
}
use tornjak.Js.{Text, codes, ◌===◌, has_substring}
use tornjak.Config.{Env, truthy}

-- `toLowerCase` on one code unit. Outside ASCII only İ and the Kelvin sign have lower cases with
-- letters of ASCII, `i` before a combining dot and `k`, which make no "admin".
abbrev pub to_lower : ℕ → ℕ
to_lower c = if leb b'A' c && leb c b'Z' then c + 32 else c

-- A role that grants administration.
unfoldable pub is_admin_role : Text → Bool
unfolding has_substring
is_admin_role role = has_substring (map to_lower role) (codes "admin")

unfoldable pub check_roles_admin_user : List Text → Option Text
unfolding is_admin_role
check_roles_admin_user user_roles = find is_admin_role user_roles

abbrev pub paths_with_admin_restr : List Text
paths_with_admin_restr =
    codes "/entry/create" ∷ codes "/agent/createjointoken" ∷ codes "/cluster/clustermanagement" ∷ []

unfoldable pub check_path : Text → Option Text
unfolding has_substring ◌===◌
check_path pathname =
    find (λ element. if not (pathname === codes "/") then has_substring element pathname else false)
      paths_with_admin_restr

-- What a rendered page consists of.
pub data Shown : Type 0 where
  children : Shown
  access_not_allowed : Shown

abbrev pub shown_if : Bool → Shown → List Shown
shown_if true s = s ∷ []
shown_if false s = []

unfoldable pub render : Env → Text → List Text → List Shown
unfolding check_roles_admin_user check_path
render env pathname global_user_roles =
    let iam = truthy env.auth_server_uri in
    let admin = truthy (check_roles_admin_user global_user_roles) in
    shown_if (not iam) children
    ++ (shown_if admin children
        ++ shown_if (not admin && (truthy (check_path pathname) && iam)) access_not_allowed)

-- A role that holds "admin" is not empty.
pub truthy-find_role :
    (roles : List Text) → truthy (find is_admin_role roles) ≡ any is_admin_role roles
unfolding is_admin_role
truthy-find_role [] = refl
truthy-find_role ([] ∷ roles) = truthy-find_role roles
truthy-find_role ((c ∷ role) ∷ roles) = ground (arith, truthy-find_role roles)

-- The address of the page is a part of a restricted one.
unfoldable pub is_restricted : Text → Bool
unfolding has_substring
is_restricted pathname = any (λ p. has_substring p pathname) paths_with_admin_restr

truthy-find_path :
    (pathname : Text) (paths : List Text)
    → All (λ p. truthy (some p) ≡ true) paths
    → truthy
        (find (λ p. if not (pathname === codes "/") then has_substring p pathname else false) paths)
      ≡ (not (pathname === codes "/") && any (λ p. has_substring p pathname) paths)
truthy-find_path pathname [] _ = ground arith
truthy-find_path pathname (p ∷ paths) (h, hs) = ground (arith, truthy-find_path pathname paths hs)

truthy-check_path :
    (pathname : Text)
    → truthy (check_path pathname) ≡ (not (pathname === codes "/") && is_restricted pathname)
unfolding check_path is_restricted
truthy-check_path pathname =
    truthy-find_path pathname paths_with_admin_restr (refl, (refl, (refl, tt)))

abbrev page_of : Bool → Bool → Bool → Bool → List Shown
page_of iam admin at_root restricted =
    shown_if (not iam) children
    ++ (shown_if admin children
        ++ shown_if (not admin && ((not at_root && restricted) && iam)) access_not_allowed)

render-page_of :
    (env : Env) (pathname : Text) (roles : List Text)
    → render env pathname roles
      ≡ page_of
          (truthy env.auth_server_uri)
          (any is_admin_role roles)
          (pathname === codes "/")
          (is_restricted pathname)
unfolding render check_roles_admin_user
render-page_of env pathname roles = rw (truthy-find_role roles, truthy-check_path pathname) refl

page_of_cases :
    (iam admin at_root restricted : Bool)
    → page_of iam admin at_root restricted ≡ (
        if iam
        then if admin
          then children ∷ []
          else if not at_root && restricted
          then access_not_allowed ∷ []
          else []
        else if admin
        then children ∷ children ∷ []
        else children ∷ [])
page_of_cases iam admin at_root restricted = ground arith

-- With an authentication server a user with an admin role sees the page once and nothing else; one
-- without sees the refusal alone where the path is not "/" and is a part of a restricted one, and
-- nothing elsewhere. Without such a server nobody is refused and the page is shown, a second time if
-- there is an admin role.
pub render_lem :
    (env : Env) (pathname : Text) (roles : List Text)
    → render env pathname roles ≡ (
        if truthy env.auth_server_uri
        then if any is_admin_role roles
          then children ∷ []
          else if not (pathname === codes "/") && is_restricted pathname
          then access_not_allowed ∷ []
          else []
        else if any is_admin_role roles
        then children ∷ children ∷ []
        else children ∷ [])
render_lem env pathname roles =
    render-page_of env pathname roles
    ∙ page_of_cases (truthy env.auth_server_uri) (any is_admin_role roles) (pathname === codes "/")
        (is_restricted pathname)
