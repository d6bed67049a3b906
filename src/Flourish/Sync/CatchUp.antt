-- ===== src/Flourish/Sync/CatchUp.antt =====
-- What a client gets from the sync service over the store in memory.
use tanzlaurel.Base.{
  ℕ, suc, zero, ◌≡◌, ◌≢◌, refl, ap, List, [], ◌∷◌, ◌++◌, map, true, false, ◌==◌, ==_iff, length,
  take, drop, arith, Bool-cases, inl, inr,
}
use mathlib.Core.List.{map-append}
use tanzlaurel.Base.Errors.{ok}
use tanzlaurel.Base.Int.{pos}
use tanzlaurel.Flourish.Crdt.Rga.{contains}
use tanzlaurel.Flourish.Store.Domain.{Event}
use tanzlaurel.Flourish.Store.Events.{EventStore, memory_event_store, max_server_seq}
use tanzlaurel.Flourish.Store.Numbering.{IsConsistent, list_after-drop}
use tanzlaurel.Flourish.Sync.{
  SyncOp, SyncMessage, SyncService, get_diff, subscribe, unsubscribe, broadcast, remove_first,
}

-- An event as the client sees it.
pub op_of : {P : Type 0} → Event P → SyncOp P
op_of e = record { request_id = e.request_id; server_seq = e.server_seq; payload = e.payload }

take-map-drop {ℓ κ} :
    {A : Type ℓ} {B : Type κ} (g : A → B) (n : ℕ) (xs : List A)
    → take n (map g xs) ++ map g (drop n xs) ≡ map g xs
take-map-drop g zero xs = refl
take-map-drop g (suc n) [] = refl
take-map-drop g (suc n) (x ∷ xs) = ap (◌∷◌ (g x)) (take-map-drop g n xs)

module _ {P : Type 0} where
  -- Over a consistent store in memory, a client that holds the first `n` operations of an entry
  -- and appends the difference that it is sent then holds all of them in order, and the latest
  -- number tells how many there are.
  pub get_diff_completes :
      (now : ℕ) (s : SyncService (EventStore P)) (entry_id n : ℕ)
      → IsConsistent s.event_store
      → (msg : SyncMessage P) × (get_diff (memory_event_store now) s entry_id (pos n) ≡ ok msg)
        × (take n (map op_of (s.event_store.events entry_id)) ++ msg.ops
            ≡ map op_of (s.event_store.events entry_id))
        × (msg.latest_server_seq ≡ length (s.event_store.events entry_id))
        × (msg.entry_id ≡ entry_id)
  unfolding get_diff op_of max_server_seq
  get_diff_completes now s entry_id n h =
      let events = s.event_store.events entry_id in
      (
        record {
          entry_id = entry_id;
          ops = map op_of (drop n events);
          latest_server_seq = s.event_store.seqs entry_id;
        },
        rw (list_after-drop s.event_store entry_id n h),
        take-map-drop op_of n events,
        h.highest entry_id,
        refl,
      )

pub remove_first-append :
    (sub : ℕ) (subs : List ℕ)
    → contains sub subs ≡ false
    → remove_first sub (subs ++ (sub ∷ [])) ≡ subs
unfolding remove_first contains
remove_first-append sub [] h = ground arith
remove_first-append sub (x ∷ xs) h = ground (arith, remove_first-append sub xs)

module _ {S : Type 0} where
  -- A subscriber that was not there gets every broadcast of the entry after the others, and no other
  -- entry's broadcasts change. Once it unsubscribes, every entry is broadcast as before.
  pub broadcast-subscribe :
      (s : SyncService S) (entry_id sub : ℕ) (msg : SyncMessage ℕ)
      → contains sub (s.subscribers entry_id) ≡ false
      → (broadcast (subscribe s entry_id sub) entry_id msg
          ≡ broadcast s entry_id msg ++ ((sub, msg) ∷ []))
        × ((j : ℕ) → j ≢ entry_id → broadcast (subscribe s entry_id sub) j msg ≡ broadcast s j msg)
        × ((j : ℕ)
            → broadcast (unsubscribe (subscribe s entry_id sub) entry_id sub) j msg
              ≡ broadcast s j msg)
  unfolding broadcast subscribe unsubscribe
  broadcast-subscribe s entry_id sub msg h = (
    rw here (map-append _ subs (sub ∷ [])),
    (λ j ne. rw (other j ne)),
    λ j. elim (Bool-cases (j == entry_id)) [
      | inr q ↦ rw q
      | inl q ↦
          let same : j ≡ entry_id = (==_iff j entry_id).0 q in
          rw (q, here, remove_first-append sub subs h, same)
    ],
  )
    where
      subs : List ℕ
      subs = s.subscribers entry_id

      here : (entry_id == entry_id) ≡ true
      here = (==_iff entry_id entry_id).1 refl

      other : (j : ℕ) → j ≢ entry_id → (j == entry_id) ≡ false
      other j ne = ground arith
