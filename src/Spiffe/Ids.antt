-- ===== src/Spiffe/Ids.antt =====
-- `checkSpiffeidValidity` and the printing of SPIFFE IDs.
use tornjak.Prelude.{
  ℕ, Bool, true, false, not, ◌&&◌, ◌||◌, Option, none, some, [], ◌∷◌, ◌++◌, ◌==◌, if◌then◌else◌,
  length,
}
use tornjak.Js.{Text, codes}
use tornjak.Types.{SpiffeId, Agent, Entry}

-- `s.charAt(0) === c`
abbrev pub first_is : ℕ → Text → Bool
first_is c [] = false
first_is c (x ∷ s) = x == c

-- `s.slice(-1) === c`
abbrev pub last_is : ℕ → Text → Bool
last_is c [] = false
last_is c (x ∷ []) = x == c
last_is c (x ∷ y ∷ s) = last_is c (y ∷ s)

unfoldable pub check_spiffeid_validity : Option Text → Option Text → Bool
check_spiffeid_validity none path = false
check_spiffeid_validity (some trust_domain) none = false
check_spiffeid_validity (some trust_domain) (some path) =
    if length trust_domain == 0 || length path == 0
    then false
    else if first_is b'/' trust_domain
    then false
    else if last_is b'/' trust_domain && not (first_is b'/' path)
    then true
    else not (last_is b'/' trust_domain) && first_is b'/' path

abbrev pub prefix : Text
prefix = codes "spiffe://"

-- A text or `undefined` as an operand of a concatenation.
abbrev pub text_of : Option Text → Text
text_of none = codes "undefined"
text_of (some s) = s

-- What the three functions below share.
unfoldable pub spiffeid_text : SpiffeId → Text
unfolding check_spiffeid_validity
spiffeid_text id =
    if check_spiffeid_validity id.trust_domain id.path
    then prefix ++ (text_of id.trust_domain ++ text_of id.path)
    else []

unfoldable pub get_agent_spiffeid : Option Agent → Text
unfolding spiffeid_text
get_agent_spiffeid none = []
get_agent_spiffeid (some agent) = spiffeid_text agent.id

unfoldable pub get_entry_spiffeid : Option Entry → Text
unfolding spiffeid_text
get_entry_spiffeid none = []
get_entry_spiffeid (some entry) = spiffeid_text entry.spiffe_id

unfoldable pub get_entry_parentid : Option Entry → Text
unfolding spiffeid_text
get_entry_parentid none = []
get_entry_parentid (some entry) = spiffeid_text entry.parent_id
