-- ===== src/Lib.antt =====
-- Tornjak's user interface (frontend/src): its data, its store, the requests it makes, and the
-- forms for entries, clusters, federations, servers and join tokens, its tables and its dashboard,
-- with the reading of SPIFFE IDs and the association of entries with agents.
--
-- A browser runs one form at a time over one store. The store (redux) is changed by actions only;
-- a request to the backend has its answer turned into actions, and the form reads the store's
-- lists of agents and entries, offers parents and selectors from them, and sends the entry that
-- the user made.
--
-- Which file models what:
-- - Prelude: names shared by all files, with lists measured and indexed by native numbers, Boolean
--   tests and their laws, and integers over the native numbers.
-- - Js: texts as lists of code units with indexOf, split, join, trim and includes, and sets of
--   texts, as far as the source uses them.
-- - Types: frontend/src/components/types.ts, each interface as a record.
-- - Config: frontend/src/env.ts, frontend/src/components/helpers.ts,
--   frontend/src/components/apiConfig.ts and frontend/src/components/is_manager.ts. The package
--   url-join is the field urljoin of Env.
-- - Spiffe: frontend/src/components/spiffe-helper.tsx. Spiffe.Ids has the validity test and the
--   printing of IDs, Spiffe.Parse has parseSpiffeId of frontend/src/components/entry-create.tsx,
--   Spiffe.Selectors the formatting and the inclusion of selectors, Spiffe.Association
--   getAgentEntries, getAgentsEntries and getCanonicalAgentSpiffeid, Spiffe.Count
--   numberEntriesOfAgent, Spiffe.Children getChildEntries, Spiffe.Status status and expiry. The
--   closures that getAgentsEntries builds are the records Lambda, its dictionary an association
--   list. What an array holds by a name is a parameter of getChildEntries.
-- - EntryCreate: frontend/src/components/entry-create.tsx. EntryCreate.State is the state of the
--   form; Handlers has the handlers of its fields, ParentIds and SelectorsList the two
--   preparations, Submit the button, the upload and what their answers do; a handler takes the
--   state and returns the next one. Machine puts all of them together as a step relation, LifeCycle
--   has componentDidMount and componentDidUpdate, and Fresh what an update leaves of the lists.
-- - Store: frontend/src/redux/actions, frontend/src/redux/reducers and frontend/src/data/data.ts.
--   A type of action is a constructor of Kind, and Payload gives what it carries; all_reducers is
--   the combined reducer.
-- - Api: frontend/src/components/tornjak-api-helpers.tsx. A request is a Call: its method, its
--   address and its body, with the effects of every answer; an answer is a Reply, either resolved
--   with data or rejected with an error. Local has the requests in local mode, Manager those in
--   manager mode, Delete those that delete.
-- - Dashboard: Rows and Details model frontend/src/components/tornjak-helper.tsx, the rows of the
--   dashboard and the item of the details page; the printing of dates and the current time are
--   arguments; Link has the way from a row to the page of its details. Tables and Charts model the
--   filtered tables, the page of details and the sections of the charts of
--   frontend/src/components/dashboard.
-- - ClusterCreate: frontend/src/components/cluster-create.tsx, the form that registers clusters:
--   ClusterCreate.Form has its state and handlers, ClusterCreate.Machine its step relation.
-- - EntryJson: frontend/src/components/entry-create-json.tsx, the form for entries from a file. State
--   has the form and its handlers; World adds the arrays of entries at their addresses, with the one
--   that the store (redux) holds, since the form edits an array in place, and the files that are being
--   read; Load has the choice of a file, the end of its reading and the display of an entry, Edit
--   writes the form back into it.
-- - ClusterEdit: frontend/src/components/cluster-edit.tsx, the form that edits clusters.
-- - FederationCreate: frontend/src/components/federation-create.tsx, federations from a file, and in
--   Bundle frontend/src/components/trustbundle-create.tsx, which makes such files. Json has the values
--   of JSON, and Read the keys that the form reads of them.
-- - JoinToken: frontend/src/components/agent-create-join-token.tsx.
-- - Servers: frontend/src/components/server-management.tsx (Register) and
--   frontend/src/components/select-server.tsx (Select).
-- - HealthCheck: frontend/src/components/spire-health-check.tsx, the refresh rate and the timers.
-- - Tables: frontend/src/tables, the rows of each table, what is requested for selected rows and what
--   follows (Agents, Entries, Others), the pages of list-table.tsx (Pages) and the buttons of
--   table-toolbar.tsx and table-body.tsx (Toolbar).
-- - EntryExpiry: frontend/src/components/entry-expiry-features.tsx, the choice of an entry's
--   expiry time. The package moment is an argument, as the function from texts to milliseconds
--   that it is used for. HandOver passes the time to the store, Sent follows it from there into
--   the request of EntryCreate.
-- - Access: frontend/src/components/RenderOnAdminRole.tsx with checkRolesAdminUser of
--   frontend/src/components/tornjak-helper.tsx.
--
-- Conventions. Text is a list of code units. A value that may be undefined is an Option where the
-- code tests for it. What throws is none, or the name of the error. Numbers are natural numbers
-- where the source only counts or compares. The source's loops run over lists, and their models are
-- structural; only the printing of a number (Js.Decimal) runs on fuel, one more than the number,
-- which is enough since each round divides by ten. The state of a component after setState is the
-- next state; properties stay as they were until the component is rendered again. JSON.parse,
-- JSON.stringify, Number, base64 and the reading of files enter as arguments or as their results.
--
-- Not modelled: the Go backend and the manager, which are reached by requests only; the rendering
-- of every page; the sign-in, which calls the Keycloak library; navigation and charts, which are
-- markup over component libraries.
pub mod Prelude
pub mod Js
pub mod Types
pub mod Config
pub mod Spiffe
pub mod EntryCreate
pub mod Store
pub mod Api
pub mod ClusterCreate
pub mod EntryExpiry
pub mod Access
pub mod Dashboard
pub mod EntryJson
pub mod HealthCheck
pub mod JoinToken
pub mod Servers
pub mod FederationCreate
pub mod ClusterEdit
pub mod Tables
