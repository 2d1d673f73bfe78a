-- ===== src/Tables/Toolbar.antt =====
-- frontend/src/tables/table-toolbar.tsx and table-body.tsx: which buttons a table has.
use tornjak.Prelude.{
  ◌≡◌, Bool, true, false, not, ◌&&◌, ◌||◌, List, [], ◌∷◌, ◌++◌, arith, any, if◌then◌else◌,
}
use tornjak.Js.{Text, codes, ◌===◌}
use tornjak.Config.{Env, truthy}
use tornjak.Access.Roles.{check_roles_admin_user, is_admin_role, truthy-find_role}

-- Which of its functions an entity's table has: a function that is `undefined` has no button.
pub record Functions : Type 0 where
  pub delete_entity : Bool
  pub ban_entity : Bool
  pub download_entity : Bool

pub data Button : Type 0 where
  delete download ban attest : Button

abbrev pub button_if : Bool → Button → List Button
button_if true b = b ∷ []
button_if false b = []

-- `(f !== undefined && admin) || (f !== undefined && !Auth_Server_Uri)`
abbrev pub allowed : Env → List Text → Bool → Bool
allowed env roles there =
    (there && truthy (check_roles_admin_user roles)) || (there && not (truthy env.auth_server_uri))

unfoldable pub toolbar : Env → List Text → Functions → List Button
unfolding check_roles_admin_user
toolbar env roles f =
    button_if (allowed env roles f.delete_entity) delete
    ++ (button_if f.download_entity download ++ button_if (allowed env roles f.ban_entity) ban)

-- The button of a row, for the attestor of the workload.
unfoldable pub row_buttons : Env → List Text → Text → List Button
unfolding check_roles_admin_user ◌===◌
row_buttons env roles entity_type =
    button_if (allowed env roles (entity_type === codes "Agent")) attest

allowed_free :
    (env : Env) (roles : List Text) (there : Bool)
    → allowed env roles there
      ≡ (there && (any is_admin_role roles || not (truthy env.auth_server_uri)))
unfolding check_roles_admin_user
allowed_free env roles there = ground (arith, truthy-find_role roles)

-- With an authentication server and without an admin role a table offers the download at most, and
-- its rows offer nothing; otherwise every function that is there has its button.
pub toolbar_lem :
    (env : Env) (roles : List Text) (f : Functions) (entity_type : Text)
    → (toolbar env roles f ≡ (
        if any is_admin_role roles || not (truthy env.auth_server_uri)
        then button_if f.delete_entity delete
          ++ (button_if f.download_entity download ++ button_if f.ban_entity ban)
        else button_if f.download_entity download))
      × (row_buttons env roles entity_type ≡ (
          if any is_admin_role roles || not (truthy env.auth_server_uri)
          then button_if (entity_type === codes "Agent") attest
          else []))
unfolding toolbar row_buttons
toolbar_lem env roles f entity_type = ground (
  arith,
  allowed_free env roles f.delete_entity,
  allowed_free env roles f.ban_entity,
  allowed_free env roles (entity_type === codes "Agent"),
)
