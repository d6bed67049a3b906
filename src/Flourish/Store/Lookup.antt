-- ===== src/Flourish/Store/Lookup.antt =====
-- What a reader of the entry store sees after a write or a deletion.
use tanzlaurel.Base.{
  ℕ, ◌≡◌, ◌≢◌, refl, sym, ap, ◌∙◌, [], ◌∷◌, true, false, none, some, ◌==◌, ==_iff, if◌then◌else◌,
  inl, inr, ◌⊎◌, Bool-cases, Option-cases, arith,
}
use tanzlaurel.Base.Errors.{ok, err}
use tanzlaurel.Flourish.Store.Domain.{Entry, entry_not_found, entry_deleted}
use tanzlaurel.Flourish.Store.Entries.{EntryStore, find, save, find_by_id, delete}

pub find-save :
    (entry : Entry) (s : EntryStore) (id : ℕ)
    → find id (save entry s) ≡ (if entry.id == id then some entry else find id s)
unfolding find save
find-save entry [] id = refl
find-save entry (e ∷ s) id = ground (arith, find-save entry s id)

find-id : (id : ℕ) (s : EntryStore) (e : Entry) → find id s ≡ some e → e.id ≡ id
unfolding find
find-id id [] e h = cc
find-id id (x ∷ s) e h = ground (arith, find-id id s e)

-- A saved entry that is not deleted is the one that its id finds, and other ids find what they did.
pub find_by_id-save :
    (entry : Entry) (s : EntryStore) (id : ℕ)
    → entry.deleted ≡ false
    → find_by_id id (save entry s) ≡ (if entry.id == id then ok entry else find_by_id id s)
unfolding find_by_id
find_by_id-save entry s id live = ground (arith, find-save entry s id)

-- Deletion is logical: of an entry that is not there it reports so and changes nothing; of one that
-- is there it makes every later look-up report the deletion. Other ids find what they did.
pub find_by_id-delete :
    (id : ℕ) (s : EntryStore)
    → ((find_by_id id s ≡ err entry_not_found) × (delete id s ≡ (s, some entry_not_found)))
      ⊎ (((delete id s).1 ≡ none)
          × (find_by_id id (delete id s).0 ≡ err entry_deleted)
          × ((j : ℕ) → j ≢ id → find_by_id j (delete id s).0 ≡ find_by_id j s))
unfolding find_by_id delete
find_by_id-delete id s = elim (Option-cases (find id s)) [
  | inl e ↦ inl (rw (e, find_by_id), rw (e, delete))
  | inr (x, e) ↦
      let same = find-id id s x e in
      let gone : Entry = record x { deleted = true } in
      let hit : (x.id == id) ≡ true = (==_iff x.id id).1 same in
      inr (
        ground arith,
        ground (arith, find-save gone s id),
        λ j ne. ground (arith, find-save gone s j, other x.id j (λ q. ne (sym q ∙ same))),
      )
]
  where
    other : (a b : ℕ) → a ≢ b → (a == b) ≡ false
    other a b ne = ground arith

pub find_by_id-live :
    (id : ℕ) (s : EntryStore) (e : Entry)
    → find_by_id id s ≡ ok e
    → (e.id ≡ id) × (e.deleted ≡ false)
unfolding find_by_id
find_by_id-live id s e h = elim (Option-cases (find id s)) [
  | inl q ↦ absurd (ground arith)
  | inr (x, q) ↦ elim (Bool-cases x.deleted) [
    | inl gone ↦ absurd (ground arith)
    | inr live ↦
        let same : x ≡ e = ground arith in
        (
          ap (λ (y : Entry). y.id) (sym same) ∙ find-id id s x q,
          ap (λ (y : Entry). y.deleted) (sym same) ∙ live,
        )
  ]
]
