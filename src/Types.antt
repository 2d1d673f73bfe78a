-- ===== src/Types.antt =====
-- frontend/src/components/types.ts: the data of the user interface. A field whose absence the code
-- tests for (`typeof … === 'undefined'`) is an `Option`; times and counts are natural numbers.
use tornjak.Prelude.{ℕ, Bool, Option, List}
use tornjak.Js.{Text}

-- A SPIFFE ID as its trust domain and its path.
pub record SpiffeId : Type 0 where
  pub trust_domain : Option Text
  pub path : Option Text

pub record Selector : Type 0 where
  pub type : Text
  pub value : Text

-- `AgentsList`, which describes one agent.
pub record Agent : Type 0 where
  pub id : SpiffeId
  pub attetstation_type : Text
  pub x509svid_serial_number : Text
  pub x509svid_expires_at : ℕ
  pub selectors : Option (List Selector)
  pub banned : Bool

-- `AgentsWorkLoadAttestorInfo`, for one agent.
pub record AttestorInfo : Type 0 where
  pub spiffeid : Text
  pub plugin : Text
  pub cluster : Text

-- `ClustersList`, which describes one cluster.
pub record Cluster : Type 0 where
  pub name : Text
  pub edited_name : Text
  pub creation_time : Text
  pub domain_name : Text
  pub managed_by : Text
  pub platform_type : Text
  pub agents_list : List Text

-- `EntriesList`, which describes one entry.
pub record Entry : Type 0 where
  pub id : Text
  pub spiffe_id : SpiffeId
  pub parent_id : SpiffeId
  pub selectors : Option (List Selector)
  pub jwt_svid_ttl : ℕ
  pub x509_svid_ttl : ℕ
  pub federates_with : List Text
  pub admin : Option Bool
  pub downstream : Bool
  pub expires_at : Option ℕ
  pub dns_names : List Text
  pub revision_number : ℕ
  pub store_svid : Bool

-- `ServerInfo`
pub record ServerInfo : Type 0 where
  pub trust_domain : Text
  pub node_attestor_plugin : Text

-- The plugins of `TornjakServerInfo`, by their kinds.
pub record Plugins : Type 0 where
  pub data_store : List Text
  pub key_manager : List Text
  pub node_attestor : List Text
  pub node_resolver : List Text
  pub notifier : List Text

pub record TornjakServerInfo : Type 0 where
  pub plugins : Plugins
  pub trust_domain : Text
  pub verbose_config : Text

-- One element of `svid_chain`; the second has no path.
pub record Svid : Type 0 where
  pub id : SpiffeId
  pub expires_at : ℕ
  pub subject : Text

pub record DebugServerInfo : Type 0 where
  pub first_svid : Svid
  pub second_svid : Svid
  pub uptime : ℕ
  pub federated_bundles_count : ℕ

pub record SpireHealthCheckFreq : Type 0 where
  pub spire_healt_check_time : ℕ
  pub spire_health_check_freq_display : Text

-- `ServersList`, which describes one server.
pub record Server : Type 0 where
  pub name : Text
  pub address : Text
  pub mtls : Text
  pub tls : Text

-- `BundleEndpointProfile`: the SPIFFE ID of an endpoint with the profile `HttpsSpiffe`.
pub record BundleEndpointProfile : Type 0 where
  pub https_spiffe : Option Text
  pub https_web : Bool

pub record JwtAuthority : Type 0 where
  pub public_key : Text
  pub key_id : Text

pub record TrustDomainBundle : Type 0 where
  pub trust_domain : Text
  pub x509_authorities : List Text
  pub jwt_authorities : List JwtAuthority

-- `FederationsList`, which describes one federation relationship.
pub record Federation : Type 0 where
  pub trust_domain : Text
  pub bundle_endpoint_url : Text
  pub bundle_endpoint_profile : BundleEndpointProfile
  pub trust_domain_bundle : TrustDomainBundle

-- `SelectorInfoLabels`: from names of plugins to the labels that are offered for them.
abbrev pub SelectorInfo : Type 0
SelectorInfo = List (Text × List Text)
