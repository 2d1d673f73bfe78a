-- ===== src/Dashboard/Link.antt =====
-- `detailsLink` of frontend/src/components/tornjak-helper.tsx, and the way from a row to the page of its
-- details. What the browser offers for addresses is an argument.
use tornjak.Prelude.{
  ◌≡◌, ◌≢◌, refl, ap, ◌∙◌, Option, none, some, List, [], ◌∷◌, ◌++◌, map, All, length, ◌==◌,
  if◌then◌else◌, arith,
}
use tornjak.Js.{Text, codes}
use tornjak.Types.{Cluster, Agent, Entry}
use tornjak.Spiffe.Ids.{get_agent_spiffeid}
use tornjak.Access.Roles.{to_lower}
use tornjak.Dashboard.Details.{
  DetailProps, details_data_parse, row_of_cluster, row_of_agent, row_of_entry,
}
use tornjak.Dashboard.Laws.{details_data_parse_last}

-- `encodeURIComponent`, `decodeURIComponent`, and of URLSearchParams the text of the parameters after
-- `set("id", ...)`, and `get("id")`.
pub record Browser : Type 0 where
  pub encode : Text → Text
  pub decode : Text → Text
  pub set_id : Text → Text
  pub get_id : Text → Option Text

unfoldable pub details_link : Browser → Text → Text → Text
details_link browser selected_rows entity =
    if length selected_rows == 0
    then []
    else codes "/tornjak/dashboard/details/"
      ++ (map to_lower entity ++ (codes "?" ++ browser.set_id (browser.encode selected_rows)))

-- The ID that the page of details reads of the address's parameters.
abbrev decoded : Browser → Option Text → Text
decoded browser none = []
decoded browser (some parsed) = browser.decode parsed

abbrev pub id_of_address : Browser → Text → Text
id_of_address browser search = decoded browser (browser.get_id search)

-- Decoding undoes encoding, and a parameter that was set is read back.
pub record IsFaithful (browser : Browser) : Type 0 where
  pub decode-encode : (s : Text) → browser.decode (browser.encode s) ≡ s
  pub get-set : (s : Text) → browser.get_id (browser.set_id s) ≡ some s

id_back :
    (browser : Browser) (s : Text)
    → IsFaithful browser
    → id_of_address browser (browser.set_id (browser.encode s)) ≡ s
id_back browser s f = ap (decoded browser) (f.get-set (browser.encode s)) ∙ f.decode-encode s

-- The link of a table for a selected row.
abbrev pub link_to : Browser → Text → Text → Text
link_to browser entity id =
    codes "/tornjak/dashboard/details/"
    ++ (entity ++ (codes "?" ++ browser.set_id (browser.encode id)))

link_lower :
    (browser : Browser) (id entity lower : Text)
    → id ≢ []
    → map to_lower entity ≡ lower
    → details_link browser id entity ≡ link_to browser lower id
unfolding details_link
link_lower browser [] entity lower n h = absurd (n refl)
link_lower browser (c ∷ id) entity lower n h = ground (arith, h)

-- The button of a table leads from a selected row to the page that shows this row, for clusters, agents and
-- entries: the link has the entity and the ID of the row, and the page reads both back and shows the
-- row of the item with the ID, if there is an ID and no later item has it.
pub details_data_parse-details_link :
    (browser : Browser) (props : DetailProps) (cs cs2 : List Cluster) (c : Cluster)
    (bs bs2 : List Agent) (a : Agent) (es es2 : List Entry) (e : Entry)
    → IsFaithful browser
    → (c.name ≢ []) × (e.id ≢ [])
    → (props.global_clusters_list ≡ cs ++ c ∷ cs2) × All (λ (x : Cluster). x.name ≢ c.name) cs2
    → (props.global_agents_list ≡ bs ++ a ∷ bs2)
      × All (λ x. get_agent_spiffeid (some x) ≢ get_agent_spiffeid (some a)) bs2
    → (props.global_entries_list ≡ es ++ e ∷ es2) × All (λ (x : Entry). x.id ≢ e.id) es2
    → get_agent_spiffeid (some a) ≢ []
    → let query = (λ (id : Text). id_of_address browser (browser.set_id (browser.encode id))) in
      (details_link browser c.name (codes "Clusters") ≡ link_to browser (codes "clusters") c.name)
      × (details_data_parse (codes "clusters") (query c.name) props ≡ row_of_cluster props c)
      × (details_link browser (get_agent_spiffeid (some a)) (codes "Agents")
          ≡ link_to browser (codes "agents") (get_agent_spiffeid (some a)))
      × (details_data_parse (codes "agents") (query (get_agent_spiffeid (some a))) props
          ≡ row_of_agent props a)
      × (details_link browser e.id (codes "Entries") ≡ link_to browser (codes "entries") e.id)
      × (details_data_parse (codes "entries") (query e.id) props ≡ row_of_entry props e)
details_data_parse-details_link browser props cs cs2 c bs bs2 a es es2 e f (nc, ne) (hc, lc)
      (ha, la) (he, le) na =
    let (shown_c, shown_a, shown_e) =
      details_data_parse_last props cs cs2 c bs bs2 a es es2 e hc lc ha la he le in
    let back =
      (λ (entity id : Text). ap (λ i. details_data_parse entity i props) (id_back browser id f)) in
    (
      link_lower browser c.name (codes "Clusters") (codes "clusters") nc refl,
      back (codes "clusters") c.name ∙ shown_c,
      link_lower browser (get_agent_spiffeid (some a)) (codes "Agents") (codes "agents") na refl,
      back (codes "agents") (get_agent_spiffeid (some a)) ∙ shown_a,
      link_lower browser e.id (codes "Entries") (codes "entries") ne refl,
      back (codes "entries") e.id ∙ shown_e,
    )
