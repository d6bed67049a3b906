-- ===== src/Flourish/Store/Numbering.antt =====
-- The server sequence numbers of an entry's events: 1, 2, 3 and so on, without a gap.
use tanzlaurel.Base.{
  ℕ, zero, suc, ◌+◌, ◌<◌, ◌≡◌, refl, sym, ap, ◌∙◌, ◌⊎◌, inl, inr, List, [], ◌∷◌, ◌++◌, true, false,
  ◌==◌, ==_iff, Bool-cases, lt→ltb, ge→ltb, length, length-append, drop, arith,
}
use mathlib.Core.Path.{subst}
use tanzlaurel.Base.Int.{pos}
use tanzlaurel.Flourish.Crdt.Rga.{contains}
use tanzlaurel.Flourish.Store.Domain.{Event}
use tanzlaurel.Flourish.Store.Events.{EventStore, new_event_store, append, newer, list_after}

module _ {P : Type 0} where
  -- The events from the number `k` on.
  abbrev pub IsNumbered : ℕ → ℕ → List (Event P) → Type 0
  IsNumbered entry_id k [] = Unit {0}
  IsNumbered entry_id k (e ∷ es) =
      (e.server_seq ≡ k) × (e.entry_id ≡ entry_id) × IsNumbered entry_id (suc k) es

  -- Each entry's events are numbered from 1 in the order of their arrival, the highest number is
  -- known, and the request of every stored event counts as seen.
  pub record IsConsistent (s : EventStore P) : Type 0 where
    pub numbered : (entry_id : ℕ) → IsNumbered entry_id 1 (s.events entry_id)
    pub highest : (entry_id : ℕ) → s.seqs entry_id ≡ length (s.events entry_id)

  IsNumbered-append :
      (entry_id k : ℕ) (es : List (Event P)) (e : Event P)
      → IsNumbered entry_id k es
      → e.server_seq ≡ k + length es
      → e.entry_id ≡ entry_id
      → IsNumbered entry_id k (es ++ (e ∷ []))
  IsNumbered-append entry_id k [] e h q r = (omega arith, r, tt)
  IsNumbered-append entry_id k (x ∷ xs) e h q r =
      (h.0, h.1, IsNumbered-append entry_id (suc k) xs e h.2 (omega arith) r)

  pub new_event_store-IsConsistent : IsConsistent new_event_store
  unfolding new_event_store
  new_event_store-IsConsistent = record { numbered = λ e. tt; highest = λ e. refl }

  -- On a consistent store, a repeated request changes nothing and is answered by 0. A new one is
  -- answered by the number of the event in its entry, which then has one event more. The store
  -- stays consistent: the events of an entry are numbered from 1 without gaps.
  pub append-IsConsistent :
      (now : ℕ) (event : Event P) (s : EventStore P)
      → IsConsistent s
      → IsConsistent (append now event s).0
        × ((contains event.request_id s.seen ≡ true)
              × ((append now event s).0 ≡ s)
              × ((append now event s).1 ≡ 0)
            ⊎ (contains event.request_id s.seen ≡ false)
              × ((append now event s).1 ≡ suc (length (s.events event.entry_id)))
              × (length ((append now event s).0.events event.entry_id)
                  ≡ suc (length (s.events event.entry_id))))
  unfolding append
  append-IsConsistent now event s h = elim (Bool-cases (contains event.request_id s.seen)) [
    | inl dup ↦ rw dup (h, inl (refl, refl, refl))
    | inr new ↦ rw new (
      record {
        numbered = λ j. elim (Bool-cases (j == here)) [
          | inl q ↦ rw q (
              subst (λ (k : ℕ). IsNumbered k 1 (old ++ (stamped ∷ []))) (sym ((==_iff j here).0 q))
                stored)
          | inr q ↦ rw q (h.numbered j)
        ];
        highest =
            λ j. elim (Bool-cases (j == here)) [ inl q ↦ rw q grown | inr q ↦ rw q (h.highest j) ];
      },
      inr (refl, ap suc (h.highest here), rw ((==_iff here here).1 refl) longer),
    )
  ]
    where
      here : ℕ
      here = event.entry_id

      old : List (Event P)
      old = s.events here

      stamped : Event P
      stamped = record event { server_seq = suc (s.seqs here); created_at = now }

      stored : IsNumbered here 1 (old ++ (stamped ∷ []))
      stored =
          IsNumbered-append here 1 old stamped (h.numbered here) (omega (arith, h.highest here))
            refl

      longer : length (old ++ (stamped ∷ [])) ≡ suc (length old)
      longer = omega (arith, length-append old (stamped ∷ []))

      grown : suc (s.seqs here) ≡ length (old ++ (stamped ∷ []))
      grown = omega (arith, h.highest here, longer)

  newer_all :
      (entry_id k n : ℕ) (es : List (Event P))
      → IsNumbered entry_id k es
      → n < k
      → newer (pos n) es ≡ es
  unfolding newer
  newer_all entry_id k n [] h lt = refl
  newer_all entry_id k n (x ∷ xs) h lt =
      rw (lt→ltb n x.server_seq (omega (arith, h.0)))
        (ap (◌∷◌ x) (newer_all entry_id (suc k) n xs h.2 (omega arith)))

  newer-drop :
      (entry_id k n : ℕ) (es : List (Event P))
      → IsNumbered entry_id (suc k) es
      → newer (pos (k + n)) es ≡ drop n es
  unfolding newer
  newer-drop entry_id k zero es h = newer_all entry_id (suc k) (k + 0) es h (omega arith)
  newer-drop entry_id k (suc n) [] h = refl
  newer-drop entry_id k (suc n) (x ∷ xs) h =
      let next : k + suc n ≡ suc k + n = omega arith in
      rw (ge→ltb (k + suc n) x.server_seq (omega (arith, h.0)))
        (ap (λ (m : ℕ). newer (pos m) xs) next ∙ newer-drop entry_id (suc k) n xs h.2)

  -- In a consistent store, what comes after the number `n` is exactly what is behind the first `n`
  -- events of the entry.
  pub list_after-drop :
      (s : EventStore P) (entry_id n : ℕ)
      → IsConsistent s
      → list_after s entry_id (pos n) ≡ drop n (s.events entry_id)
  unfolding list_after
  list_after-drop s entry_id n h =
      let start : 0 + n ≡ n = omega arith in
      rw start at (newer-drop entry_id 0 n (s.events entry_id) (h.numbered entry_id))
