-- ===== src/Spiffe/Status.antt =====
-- The status, the metadata and the expiry times of agents and entries. The current time in
-- milliseconds (`new Date().getTime()`) is an argument. A result that is a number or "" is an
-- `Option`.
use tornjak.Prelude.{
  ℕ, ◌*◌, ◌≤◌, ◌<◌, ◌≡◌, ◌↔◌, Bool, true, false, Option, none, some, List, [], arith, if◌then◌else◌,
  ltb, filter, head?, find, head?-filter,
}
use tornjak.Js.{Text, codes, ◌===◌}
use tornjak.Types.{Agent, AttestorInfo, Entry}

unfoldable pub get_agent_expiry_milliseconds : Option Agent → Option ℕ
get_agent_expiry_milliseconds none = none
get_agent_expiry_milliseconds (some agent) = some (agent.x509svid_expires_at * 1000)

abbrev times_1000 : Option ℕ → Option ℕ
times_1000 none = none
times_1000 (some seconds) = some (seconds * 1000)

unfoldable pub get_entry_expiry_milliseconds : Option Entry → Option ℕ
get_entry_expiry_milliseconds none = none
get_entry_expiry_milliseconds (some entry) = times_1000 entry.expires_at

abbrev flag : Option Bool → Bool
flag none = false
flag (some b) = b

unfoldable pub get_entry_admin_flag : Option Entry → Bool
get_entry_admin_flag none = false
get_entry_admin_flag (some entry) = flag entry.admin

abbrev status_at : Bool → Option ℕ → ℕ → Text
status_at banned none now = []
status_at banned (some expiry) now =
    if banned then codes "Banned" else if ltb now expiry then codes "Attested" else codes "Expired"

unfoldable pub get_agent_status_string : ℕ → Option Agent → Text
unfolding get_agent_expiry_milliseconds
get_agent_status_string now none = []
get_agent_status_string now (some agent) =
    status_at agent.banned (get_agent_expiry_milliseconds (some agent)) now

-- What the callers read of the metadata of an agent.
pub record Metadata : Type 0 where
  pub plugin : Text
  pub cluster : Text

abbrev metadata_of : Option AttestorInfo → Metadata
metadata_of none = record { plugin = []; cluster = [] }
metadata_of (some info) = record { plugin = info.plugin; cluster = info.cluster }

unfoldable pub get_agent_metadata : Text → Option (List AttestorInfo) → Metadata
unfolding ◌===◌
get_agent_metadata spiffeid none = record { plugin = []; cluster = [] }
get_agent_metadata spiffeid (some metadata_list) =
    metadata_of (head? (filter (λ (info : AttestorInfo). info.spiffeid === spiffeid) metadata_list))

-- An agent is shown as attested, expired or banned, exactly by its ban and its expiry.
pub get_agent_status_string_iff :
    (now : ℕ) (a : Agent)
    → ((get_agent_status_string now (some a) ≡ codes "Banned") ↔ (a.banned ≡ true))
      × ((get_agent_status_string now (some a) ≡ codes "Attested")
          ↔ ((a.banned ≡ false) × (now < a.x509svid_expires_at * 1000)))
      × ((get_agent_status_string now (some a) ≡ codes "Expired")
          ↔ ((a.banned ≡ false) × (a.x509svid_expires_at * 1000 ≤ now)))
unfolding get_agent_status_string
get_agent_status_string_iff now a = ground arith

-- The metadata is that of the first information on the agent.
pub get_agent_metadata-find :
    (spiffeid : Text) (infos : List AttestorInfo) (info : AttestorInfo)
    → find (λ (i : AttestorInfo). i.spiffeid === spiffeid) infos ≡ some info
    → get_agent_metadata spiffeid (some infos)
      ≡ record { plugin = info.plugin; cluster = info.cluster }
unfolding get_agent_metadata
get_agent_metadata-find spiffeid infos info h =
    ground (arith, head?-filter (λ (i : AttestorInfo). i.spiffeid === spiffeid) infos)
