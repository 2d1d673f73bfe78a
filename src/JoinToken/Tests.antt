-- ===== src/JoinToken/Tests.antt =====
-- Tests of the form, and instances of its theorems.
use tornjak.Prelude.{◌≡◌, ◌≢◌, refl, none, some, [], ◌++◌, arith}
use tornjak.Js.{Text, codes}
use tornjak.Spiffe.Parse.{IsPlain}
use tornjak.Config.{Env}
use tornjak.JoinToken.Form.{
  State, initial, Number, nan, at_most_zero, positive, Token, get_api_token_endpoint, on_submit,
}
use tornjak.JoinToken.Laws.{IsSent, on_submit-IsSent}

abbrev local : Env
local = record {
  api_server_uri = none;
  tornjak_manager = none;
  api_version = codes "v1";
  auth_server_uri = none;
  urljoin = λ a b. a ++ b;
}

abbrev as_positive : Text → Number
as_positive t = positive t

abbrev as_nan : Text → Number
as_nan t = nan

abbrev filled : State
filled = record initial { spiffe_id = codes "spiffe://e.org/a" }

abbrev address : Text
address = codes "//api/v1/spire/agents/jointoken"

abbrev token : Token
token = record {
  ttl = positive (codes "500");
  trust_domain = codes "e.org";
  path = codes "/a";
  token = [];
}

filled_sent : (on_submit local as_positive filled).request ≡ some (address, token)
unfolding on_submit
filled_sent = refl

on_submit-IsSent_example :
    IsSent local (positive (codes "500")) filled address token
    × ((m : Text) → positive (codes "500") ≢ at_most_zero m)
on_submit-IsSent_example = on_submit-IsSent local as_positive filled address token filled_sent

address-some : (get_api_token_endpoint local initial).1 ≢ []
unfolding get_api_token_endpoint
address-some = λ e. cc

plain : IsPlain (codes "e.org") (codes "/a")
plain = record { nonempty = λ e. cc; no_slash = ground arith; rooted = refl; proper = omega arith }

filled_address-some : (get_api_token_endpoint local filled).1 ≢ []
unfolding get_api_token_endpoint
filled_address-some = λ e. cc
