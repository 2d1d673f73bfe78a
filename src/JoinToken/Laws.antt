-- ===== src/JoinToken/Laws.antt =====
-- What the form for join tokens sends.
use tornjak.Prelude.{
  ◌≡◌, ◌≢◌, ◌⊎◌, refl, Bool, true, false, some, List, [], ◌∷◌, ◌++◌, arith, Bool-cases, inl, inr,
}
use tornjak.Js.{Text, codes, ◌===◌, ===_iff}
use tornjak.Spiffe.Ids.{prefix}
use tornjak.Spiffe.Parse.{IsPlain, parse_spiffe_id, parse_spiffe_id_sound, parse_spiffe_id_complete}
use tornjak.Config.{Env}
use tornjak.JoinToken.Form.{
  State, Number, nan, at_most_zero, positive, Token, get_api_token_endpoint, post_to, with_id,
  submit_data, submit_number, on_submit,
}

-- The token is for the SPIFFE ID of the form, or for none if the field is empty.
abbrev pub IsFor : State → Token → Type 0
IsFor s t =
    ((s.spiffe_id ≡ []) × (t.trust_domain ≡ []) × (t.path ≡ []))
    ⊎ ((s.spiffe_id ≡ prefix ++ (t.trust_domain ++ t.path)) × IsPlain t.trust_domain t.path)

-- What a request that is sent says.
abbrev pub IsSent : Env → Number → State → Text → Token → Type 0
IsSent env n s uri t =
    IsFor s t × (t.ttl ≡ n) × (t.token ≡ s.token) × (uri ≡ (get_api_token_endpoint env s).1)

posted :
    (p : State × Text) (toasts : List Text) (given t : Token) (uri : Text)
    → (post_to p toasts given).request ≡ some (uri, t)
    → (uri ≡ p.1) × (t ≡ given) × ((post_to p toasts given).toasts ≡ toasts)
posted (s, []) toasts given t uri h = cc
posted (s, x ∷ u) toasts given t uri h = (cc, cc, refl)

-- A token with the fields, if its request goes out.
posted_token :
    (env : Env) (toasts : List Text) (n : Number) (s : State) (td p uri : Text) (t : Token)
    → (post_to
        (get_api_token_endpoint env s)
        toasts
        (record { ttl = n; trust_domain = td; path = p; token = s.token })).request
      ≡ some (uri, t)
    → (((s.spiffe_id ≡ []) × (td ≡ []) × (p ≡ []))
        ⊎ ((s.spiffe_id ≡ prefix ++ (td ++ p)) × IsPlain td p))
    → IsSent env n s uri t
posted_token env toasts n s td p uri t h for_ =
    let (to, same, _) =
      posted (get_api_token_endpoint env s) toasts
        (record { ttl = n; trust_domain = td; path = p; token = s.token }) t uri h in
    rw (to, same) (for_, refl, refl, refl)

with_id-IsSent :
    (env : Env) (toasts : List Text) (n : Number) (s : State) (r : Bool × Text × Text) (uri : Text)
    (t : Token)
    → parse_spiffe_id s.spiffe_id ≡ r
    → (with_id r env toasts n s).request ≡ some (uri, t)
    → IsSent env n s uri t
with_id-IsSent env toasts n s (false, td, p) uri t e h = cc
with_id-IsSent env toasts n s (true, td, p) uri t e h =
    posted_token env toasts n s td p uri t h (inr (parse_spiffe_id_sound s.spiffe_id td p e))

data-IsSent :
    (env : Env) (toasts : List Text) (n : Number) (s : State) (uri : Text) (t : Token)
    → (submit_data env toasts n s).request ≡ some (uri, t)
    → IsSent env n s uri t
unfolding submit_data
data-IsSent env toasts n s uri t h = elim (Bool-cases (s.spiffe_id === [])) [
  | inl e ↦
      posted_token env toasts n s [] [] uri t (rw e at h)
        (inl ((===_iff s.spiffe_id []).0 e, refl, refl))
  | inr e ↦ with_id-IsSent env toasts n s (parse_spiffe_id s.spiffe_id) uri t refl (rw e at h)
]

number-IsSent :
    (env : Env) (n : Number) (s : State) (uri : Text) (t : Token)
    → (submit_number env n s).request ≡ some (uri, t)
    → IsSent env n s uri t × ((m : Text) → n ≢ at_most_zero m)
number-IsSent env nan s uri t h = (data-IsSent env _ nan s uri t h, λ m e. cc)
number-IsSent env (at_most_zero k) s uri t h = cc
number-IsSent env (positive k) s uri t h = (data-IsSent env _ (positive k) s uri t h, λ m e. cc)

-- Every token that is asked for is for the SPIFFE ID of the form, cut into a trust domain without slash
-- and a path, or for none if the field is empty; its lifetime is the number of the form, which is never
-- zero or less.
pub on_submit-IsSent :
    (env : Env) (number : Text → Number) (s : State) (uri : Text) (t : Token)
    → (on_submit env number s).request ≡ some (uri, t)
    → IsSent env (number s.ttl) s uri t × ((m : Text) → number s.ttl ≢ at_most_zero m)
unfolding on_submit
on_submit-IsSent env number s uri t h = elim (Bool-cases (s.ttl === [])) [
  | inl e ↦ absurd (ground arith)
  | inr e ↦ number-IsSent env (number s.ttl) s uri t (rw e at h)
]

post_some :
    (p : State × Text) (toasts : List Text) (t : Token)
    → p.1 ≢ []
    → ((post_to p toasts t).toasts ≡ toasts) × ((post_to p toasts t).request ≡ some (p.1, t))
post_some (s, []) toasts t h = absurd (h refl)
post_some (s, x ∷ uri) toasts t h = (refl, refl)

-- A lifetime that is no number is reported to the user, and the request is sent all the same, if there is
-- an address and no SPIFFE ID.
pub on_submit_nan :
    (env : Env) (number : Text → Number) (s : State)
    → s.ttl ≢ []
    → number s.ttl ≡ nan
    → s.spiffe_id ≡ []
    → (get_api_token_endpoint env s).1 ≢ []
    → ((on_submit env number s).toasts ≡ codes "The TTL must be an integer." ∷ [])
      × ((on_submit env number s).request
          ≡ some (
            (get_api_token_endpoint env s).1,
            record { ttl = nan; trust_domain = []; path = []; token = s.token },
          ))
unfolding on_submit submit_data
on_submit_nan env number s h n i a = ground (
  arith,
  ===_iff s.ttl [],
  ===_iff s.spiffe_id [],
  n,
  post_some (get_api_token_endpoint env s) (codes "The TTL must be an integer." ∷ [])
      (record { ttl = nan; trust_domain = []; path = []; token = s.token }) a,
)

===_false : (t : Text) → t ≢ [] → t === [] ≡ false
===_false t h = ground (arith, ===_iff t [])

-- The form makes a token for every SPIFFE ID of a trust domain without slash and a path, if the lifetime
-- is positive and there is an address.
pub on_submit_complete :
    (env : Env) (number : Text → Number) (s : State) (m td p : Text)
    → s.ttl ≢ []
    → number s.ttl ≡ positive m
    → s.spiffe_id ≡ prefix ++ (td ++ p)
    → IsPlain td p
    → (get_api_token_endpoint env s).1 ≢ []
    → (on_submit env number s).request
      ≡ some (
        (get_api_token_endpoint env s).1,
        record { ttl = positive m; trust_domain = td; path = p; token = s.token },
      )
unfolding on_submit submit_data
on_submit_complete env number s m td p h n i plain a =
    let given : Token = record { ttl = positive m; trust_domain = td; path = p; token = s.token } in
    let accepted : parse_spiffe_id s.spiffe_id ≡ (true, td, p) =
      rw i (parse_spiffe_id_complete td p plain) in
    let nonempty : s.spiffe_id ≢ [] = λ e. cc in
    rw (===_false s.ttl h, n, ===_false s.spiffe_id nonempty, accepted)
      ((post_some (get_api_token_endpoint env s) [] given a).1)
