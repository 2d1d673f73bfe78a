-- ===== src/Access/Tests.antt =====
-- Tests of the restriction, and an instance of its theorem.
use tornjak.Prelude.{◌≡◌, refl, true, none, some, [], ◌∷◌, ◌++◌}
use tornjak.Js.{codes, ◌===◌}
use tornjak.Config.{Env}
use tornjak.Access.Roles.{access_not_allowed, render, is_admin_role, is_restricted, render_lem}

abbrev guarded : Env
guarded = record {
  api_server_uri = none;
  tornjak_manager = none;
  api_version = codes "v1";
  auth_server_uri = some (codes "http://auth");
  urljoin = λ a b. a ++ b;
}

-- A role of the same word in capitals counts.
capitals : is_admin_role (codes "Tornjak-ADMIN") ≡ true
unfolding is_admin_role
capitals = refl

-- A part of a restricted path is restricted.
part : is_restricted (codes "/entry") ≡ true
unfolding is_restricted
part = refl

viewer_refused :
    render guarded (codes "/entry/create") (codes "viewer" ∷ []) ≡ access_not_allowed ∷ []
unfolding render
viewer_refused = refl

render_lem_example :
    render guarded (codes "/entry/create") (codes "viewer" ∷ []) ≡ access_not_allowed ∷ []
unfolding is_admin_role is_restricted ◌===◌
render_lem_example = render_lem guarded (codes "/entry/create") (codes "viewer" ∷ [])
