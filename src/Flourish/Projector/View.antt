-- ===== src/Flourish/Projector/View.antt =====
-- What a reader of an entry sees after an operation.
use tanzlaurel.Base.{
  ℕ, ◌≡◌, refl, sym, ap, ◌∙◌, List, [], ◌∷◌, ◌++◌, true, false, not, zero, suc, ◌≤◌, ltb, length,
  take, if◌then◌else◌, ◌==◌, ◌⊎◌, inl, inr, Bool-cases, arith, Option, none, some, ==_iff, Outcome,
}
use tanzlaurel.Base.Errors.{ok}
use tanzlaurel.Flourish.Uuid.{UuidText}
use tanzlaurel.Flourish.Crdt.Types.{Operation, Rga}
use tanzlaurel.Flourish.Crdt.Rga.{contains, text}
use tanzlaurel.Flourish.Crdt.Rga
use tanzlaurel.Flourish.Crdt.Buffer.{IsFresh}
use tanzlaurel.Flourish.Crdt.Apply.{IsWell, apply-IsWell}
use tanzlaurel.Flourish.Crdt.Snapshot.{PayloadMsg}
use tanzlaurel.Flourish.Store.Domain.{Entry}
use tanzlaurel.Flourish.Store.Entries
use tanzlaurel.Flourish.Store.Entries.{EntryStore}
use tanzlaurel.Flourish.Store.Lookup.{find_by_id-save, find_by_id-live}
use tanzlaurel.Flourish.Projector.{
  EntryStoreApi, RgaStateApi, Projector, rga_of, put, is_refused, refresh, save_state, with_text,
  apply_op, derive_fields, first_line,
}

-- What the projector relies on: an id finds a live entry with that id, and what is saved is found.
pub record IsEntryStore {S : Type 0} (api : EntryStoreApi S) : Type 0 where
  pub find_by_id-id :
      (s : S) (id : ℕ) (e : Entry) → api.find_by_id s id ≡ ok e → (e.id ≡ id) × (e.deleted ≡ false)
  pub saves : (s : S) (e : Entry) → (api.save e s).1 ≡ none
  pub find-save :
      (s : S) (e : Entry) → e.deleted ≡ false → api.find_by_id (api.save e s).0 e.id ≡ ok e

-- The store in memory.
abbrev pub memory_entry_store : EntryStoreApi EntryStore
memory_entry_store = record {
  find_by_id = λ s id. Entries.find_by_id id s;
  save = λ e s. (Entries.save e s, none);
}

pub memory_entry_store-IsEntryStore : IsEntryStore memory_entry_store
memory_entry_store-IsEntryStore = record {
  find_by_id-id = λ s id e h. find_by_id-live id s e h;
  saves = λ s e. refl;
  find-save = λ s e live. find_by_id-save e s e.id live ∙ rw ((==_iff e.id e.id).1 refl) refl;
}

-- The text is the line, without a line break, and then nothing or a line break and any text.
abbrev pub IsFirstLine : List ℕ → List ℕ → Type 0
IsFirstLine line content =
    (contains 10 line ≡ false)
    × ((content ≡ line) ⊎ ((rest : List ℕ) × (content ≡ line ++ (10 ∷ rest))))

first_line-IsFirstLine : (content : List ℕ) → IsFirstLine (first_line content) content
unfolding first_line contains
first_line-IsFirstLine [] = (refl, inl refl)
first_line-IsFirstLine (c ∷ cs) = elim (Bool-cases (c == 10)) [
  | inl here ↦ let same = (==_iff c 10).0 here in rw here (refl, inr (cs, rw same refl))
  | inr other ↦
      let other' : (10 == c) ≡ false = ground arith in
      let (free, shape) = first_line-IsFirstLine cs in
      rw (other, other')
        (
          free,
          elim shape [
            | inl whole ↦ inl (ap (◌∷◌ c) whole)
            | inr (rest, split) ↦ inr (rest, ap (◌∷◌ c) split)
          ],
        )
]

take_all {ℓ} : {A : Type ℓ} (n : ℕ) (xs : List A) → length xs ≤ n → take n xs ≡ xs
take_all zero [] h = refl
take_all (suc n) [] h = refl
take_all zero (x ∷ xs) h = absurd (omega (arith, h))
take_all (suc n) (x ∷ xs) h = ap (◌∷◌ x) (take_all n xs (omega (arith, h)))

take_200 :
    (content : List ℕ)
    → (if ltb 200 (length content) then take 200 content else content) ≡ take 200 content
take_200 content = elim (Bool-cases (ltb 200 (length content))) [
  | inl long ↦ rw long refl
  | inr short ↦ rw short (sym (take_all 200 content (ground arith)))
]

module _ (uuid : UuidText) {S T : Type 0} (entries : EntryStoreApi S) (states : RgaStateApi T) where
  shown : ℕ → Rga → Entry → Projector S T → Projector S T
  shown entry_id r e p = save_state uuid entries states entry_id r (record p {
    entry_store = (entries.save (with_text uuid entries states (text r) e) p.entry_store).0;
  })

  refresh-shown :
      (laws : IsEntryStore entries) (entry_id : ℕ) (r : Rga) (p : Projector S T) (e : Entry)
      → entries.find_by_id p.entry_store entry_id ≡ ok e
      → refresh uuid entries states entry_id r p ≡ (shown entry_id r e p, ok true)
  unfolding refresh shown
  refresh-shown laws entry_id r p e found =
      rw (found, laws.saves p.entry_store (with_text uuid entries states (text r) e), refresh) refl

  module _ (unmarshal : List ℕ → Option PayloadMsg) (laws : IsEntryStore entries) where
    -- Over an entry store that saves without an error and then finds what is saved, with the entry
    -- there: an operation that is not refused, whose node id, if it inserts, is not in use, is applied
    -- to a well-formed array. The answer is true, and the entry keeps the resulting array, which is
    -- well formed. The entry that the store then has shows the text of the array; its title is what is
    -- in front of the first line break, or the whole text when there is none, and its content
    -- is the first 200 characters. The text is written to the entry's file, too.
    pub apply_op-shows :
        (p : Projector S T) (entry_id : ℕ) (op : Operation) (e : Entry)
        → IsWell (rga_of p entry_id)
        → IsFresh (rga_of p entry_id).index ((rga_of p entry_id).pending ++ (op ∷ []))
        → is_refused (rga_of p entry_id) op ≡ Outcome.ok false
        → entries.find_by_id p.entry_store entry_id ≡ ok e
        → (p' : Projector S T) × (r' : Rga) × (e' : Entry) × (apply_op uuid entries states unmarshal
              p entry_id op
            ≡ Outcome.ok (p', true))
          × (Rga.apply uuid (rga_of p entry_id) op
              ≡ Outcome.ok (r', not (contains op.request_id (rga_of p entry_id).seen)))
          × IsWell r'
          × (p'.rgas entry_id ≡ some r')
          × (entries.find_by_id p'.entry_store entry_id ≡ ok e')
          × (e'.text ≡ text r')
          × IsFirstLine e'.title (text r')
          × (e'.content ≡ take 200 (text r'))
          × (p'.markdown ≡ p.markdown ++ ((entry_id, text r') ∷ []))
    unfolding apply_op shown save_state with_text put derive_fields
    apply_op-shows p entry_id op e well fresh allowed found =
        let (r', run, well', seen) = apply-IsWell uuid (rga_of p entry_id) op well fresh in
        let e' : Entry = with_text uuid entries states (text r') e in
        let (same, live) = laws.find_by_id-id p.entry_store entry_id e found in
        (
          shown entry_id r' e (put p entry_id r'),
          r',
          e',
          rw (allowed, run, refresh-shown laws entry_id r' (put p entry_id r') e found, apply_op)
              refl,
          run,
          well',
          rw ((==_iff entry_id entry_id).1 refl) refl,
          ap (entries.find_by_id _) (sym same) ∙ laws.find-save p.entry_store e' live,
          refl,
          first_line-IsFirstLine (text r'),
          take_200 (text r'),
          refl,
        )
