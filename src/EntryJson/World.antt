-- ===== src/EntryJson/World.antt =====
-- The form and the store share the array of entries of a file: the form writes into the array that
-- it has handed to `newEntriesUpdateFunc`. The model has the arrays at addresses.
use tornjak.Prelude.{ℕ, Option, none, some, List, [], ◌∷◌, get_elem?}
use tornjak.EntryJson.State.{Entries, State, initial}

-- `global_new_entries` is the address that the store's `globalNewEntries` stands at, and `reading`
-- counts the files that are chosen and still being read.
pub record World : Type 0 where
  pub arrays : List Entries
  pub global_new_entries : ℕ
  pub reading : ℕ
  pub form : State

abbrev pub or_nil : Option Entries → Entries
or_nil none = []
or_nil (some es) = es

-- The array at an address.
abbrev pub array_at : ℕ → List Entries → Entries
array_at a arrays = or_nil (get_elem? arrays a)

-- What the form shows as uploaded.
abbrev pub uploaded : World → Entries
uploaded w = array_at w.form.uploaded_entries w.arrays

-- What the store holds.
abbrev pub stored : World → Entries
stored w = array_at w.global_new_entries w.arrays

-- The form is mounted over a store that holds some array at address 1: the reducer's initial `[]`, what an
-- earlier visit left, or the `[]` of the form around this one, which nothing else hands to the store.
-- Address 0 is the array that every `[]` of the form stands for, which nothing writes into.
unfoldable pub start : Entries → World
unfolding initial
start held = record {
  arrays = [] ∷ held ∷ [];
  global_new_entries = 1;
  reading = 0;
  form = initial 0;
}
