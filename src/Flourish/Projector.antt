-- ===== src/Flourish/Projector.antt =====
-- flourish/server/application/entry_projector.go: operations become text. The entry store and the
-- store of snapshots are any behind their interfaces; the markdown files are what is written, in
-- order. Log lines and the lock are left out, and so is a file that cannot be written.
pub mod Guard
pub mod View
use tanzlaurel.Base.{
  ℕ, List, [], ◌∷◌, ◌++◌, Bool, true, false, not, ◌&&◌, Option, none, some, ltb, ◌==◌,
  if◌then◌else◌, length, take, Outcome, ◌>>=◌,
}
use tanzlaurel.Base.Errors.{Result, ok, err}
use tanzlaurel.Flourish.Uuid.{UuidText, nil_uuid}
use tanzlaurel.Flourish.Crdt.Types.{NodeId, Operation, Rga, new_rga, op_delete}
use tanzlaurel.Flourish.Crdt.Rga.{is_node_authenticated, text}
use tanzlaurel.Flourish.Crdt.Rga
use tanzlaurel.Flourish.Crdt.Snapshot.{
  PayloadMsg, RgaSnapshot, PayloadError, operation_from_payload, export, import_rga,
}
use tanzlaurel.Flourish.Store.Domain.{Entry, Event, EventType, crdt_op, StoreError}
use tanzlaurel.Flourish.Store.Events.{update}

-- `EntryStore` of repository.go, the part that the projector uses, and `RGAStateStore`.
pub record EntryStoreApi (S : Type 0) : Type 0 where
  pub find_by_id : S → ℕ → Result StoreError Entry
  pub save : Entry → S → S × Option StoreError

pub record RgaStateApi (T : Type 0) : Type 0 where
  pub save_rga : ℕ → RgaSnapshot → T → T × Option StoreError
  pub load_rga : T → ℕ → Result StoreError RgaSnapshot

pub record Projector (S T : Type 0) : Type 0 where
  pub rgas : ℕ → Option Rga
  pub entry_store : S
  pub rga_state : T
  pub markdown : List (ℕ × List ℕ)

-- `strings.SplitN(text, "\n", 2)[0]`
unfoldable pub first_line : List ℕ → List ℕ
first_line [] = []
first_line (c ∷ cs) = if c == 10 then [] else c ∷ first_line cs

-- The title and the content.
unfoldable pub derive_fields : List ℕ → List ℕ × List ℕ
derive_fields content =
    (first_line content, if ltb 200 (length content) then take 200 content else content)

module _ {S T : Type 0} where
  -- The array of an entry, made when there is none.
  unfoldable pub rga_of : Projector S T → ℕ → Rga
  rga_of p entry_id = elim (p.rgas entry_id) [ none ↦ new_rga nil_uuid | some r ↦ r ]

  unfoldable pub put : Projector S T → ℕ → Rga → Projector S T
  put p entry_id r = record p { rgas = update p.rgas entry_id (some r) }

  unfoldable pub is_authenticated : Projector S T → ℕ → NodeId → Outcome Bool
  is_authenticated p entry_id node_id = elim (p.rgas entry_id) [
    | none ↦ Outcome.ok true
    | some r ↦ is_node_authenticated r node_id
  ]

-- Is the operation a deletion, by a client that is not authenticated, of a node that is?
unfoldable pub is_refused : Rga → Operation → Outcome Bool
is_refused r op = elim (op.op_type == op_delete && not op.authenticated) [
  | true ↦ is_node_authenticated r op.node_id
  | false ↦ Outcome.ok false
]

module _ (uuid : UuidText) {S T : Type 0} (entries : EntryStoreApi S) (states : RgaStateApi T) where
  -- The snapshot and the markdown file.
  unfoldable pub save_state : ℕ → Rga → Projector S T → Projector S T
  save_state entry_id r p = record p {
    rga_state = (states.save_rga entry_id (export uuid r) p.rga_state).0;
    markdown = p.markdown ++ ((entry_id, text r) ∷ []);
  }

  unfoldable pub with_text : List ℕ → Entry → Entry
  with_text content e = record e {
    title = (derive_fields content).0;
    content = (derive_fields content).1;
    text = content;
  }

  -- The part of `Apply` and of the loop of `Restore` that updates the entry: the error, or nothing.
  -- `Apply` returns false for either error, `Restore` goes on when the entry is not found.
  unfoldable pub refresh : ℕ → Rga → Projector S T → Projector S T × Result StoreError Bool
  refresh entry_id r p = elim (entries.find_by_id p.entry_store entry_id) [
    | err e ↦ (p, ok false)
    | ok entry ↦
        let (store, answer) = entries.save (with_text (text r) entry) p.entry_store in
        let saved = record p { entry_store = store } in
        elim answer [ some e ↦ (saved, err e) | none ↦ (save_state entry_id r saved, ok true) ]
  ]

  abbrev pub is_done : Result StoreError Bool → Bool
  is_done (err e) = false
  is_done (ok b) = b

  module _ (unmarshal : List ℕ → Option PayloadMsg) where
    -- The part of `Apply` behind the parsed payload.
    unfoldable pub apply_op : Projector S T → ℕ → Operation → Outcome (Projector S T × Bool)
    apply_op p entry_id op =
        let r = rga_of p entry_id in
        is_refused r op >>= elim [
          | true ↦ Outcome.ok (put p entry_id r, false)
          | false ↦ Rga.apply uuid r op >>= λ res.
              let (p', answer) = refresh entry_id res.0 (put p entry_id (res.0)) in
              Outcome.ok (p', is_done answer)
        ]

    unfoldable pub apply : Projector S T → ℕ → List ℕ → Outcome (Projector S T × Bool)
    apply p entry_id payload = elim (operation_from_payload uuid unmarshal payload) [
      | err e ↦ Outcome.ok (p, false)
      | ok op ↦ apply_op p entry_id op
    ]

    -- The snapshots that `Restore` starts from.
    unfoldable pub load_snapshots : Projector S T → List ℕ → Projector S T
    load_snapshots p [] = p
    load_snapshots p (entry_id ∷ ids) = elim (states.load_rga p.rga_state entry_id) [
      | err e ↦ load_snapshots p ids
      | ok snap ↦ elim (import_rga uuid snap) [
        | err e ↦ load_snapshots p ids
        | ok r ↦ load_snapshots (put p entry_id r) ids
      ]
    ]

    -- The events of one entry, applied one after the other.
    unfoldable pub replay : Rga → List (Event (List ℕ)) → Outcome Rga
    replay r [] = Outcome.ok r
    replay r (ev ∷ evs) = elim ev.event_type [
      | crdt_op ↦ elim (operation_from_payload uuid unmarshal ev.payload) [
        | err e ↦ replay r evs
        | ok op ↦ Rga.apply uuid r op >>= λ res. replay (res.0) evs
      ]
      | EventType.entry_create ↦ replay r evs
      | EventType.entry_delete ↦ replay r evs
    ]

    -- The loop of `Restore` over the entries: `list_after` reads all events of an entry.
    unfoldable pub restore_entries :
        (ℕ → Result StoreError (List (Event (List ℕ))))
        → Projector S T
        → List ℕ
        → Outcome (Projector S T × Option StoreError)
    restore_entries list_after p [] = Outcome.ok (p, none)
    restore_entries list_after p (entry_id ∷ ids) = elim (list_after entry_id) [
      | err e ↦ Outcome.ok (p, some e)
      | ok events ↦ replay (rga_of p entry_id) events >>= λ r.
          let (p', answer) = refresh entry_id r (put p entry_id r) in
          elim answer [ err e ↦ Outcome.ok (p', some e) | ok b ↦ restore_entries list_after p' ids ]
    ]

    unfoldable pub restore :
        (ℕ → Result StoreError (List (Event (List ℕ))))
        → Projector S T
        → Result StoreError (List ℕ)
        → List ℕ
        → Outcome (Projector S T × Option StoreError)
    restore list_after p (err e) entry_ids = Outcome.ok (p, some e)
    restore list_after p (ok snap_ids) entry_ids =
        restore_entries list_after (load_snapshots p snap_ids) entry_ids
