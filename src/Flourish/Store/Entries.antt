-- ===== src/Flourish/Store/Entries.antt =====
-- flourish/server/adapter/memory/entry_store.go. The map is the list of its entries, each under its
-- own id; Go lists a map in any order, the model in the order of the list.
use tanzlaurel.Base.{ℕ, List, [], ◌∷◌, true, Option, none, some, ◌==◌, if◌then◌else◌}
use tanzlaurel.Base.Errors.{Result, ok, err}
use tanzlaurel.Flourish.Store.Domain.{
  Entry, EntryListItem, to_list_item, StoreError, entry_not_found, entry_deleted,
}

abbrev pub EntryStore : Type 0
EntryStore = List Entry

-- `s.entries[id]`
unfoldable pub find : ℕ → EntryStore → Option Entry
find id [] = none
find id (e ∷ s) = if e.id == id then some e else find id s

-- `s.entries[entry.ID] = entry`
unfoldable pub save : Entry → EntryStore → EntryStore
save entry [] = entry ∷ []
save entry (e ∷ s) = if e.id == entry.id then entry ∷ s else e ∷ save entry s

unfoldable pub find_by_id : ℕ → EntryStore → Result StoreError Entry
find_by_id id s = elim (find id s) [
  | none ↦ err entry_not_found
  | some e ↦ if e.deleted then err entry_deleted else ok e
]

unfoldable pub list : EntryStore → List EntryListItem
list [] = []
list (e ∷ s) = let rest = list s in if e.deleted then rest else to_list_item e ∷ rest

-- The new store, and the error or nothing.
unfoldable pub delete : ℕ → EntryStore → EntryStore × Option StoreError
delete id s = elim (find id s) [
  | none ↦ (s, some entry_not_found)
  | some e ↦ (save (record e { deleted = true }) s, none)
]
