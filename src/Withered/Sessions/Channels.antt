-- ===== src/Withered/Sessions/Channels.antt =====
-- The state of the topics of withered/server/domain/simple_pubsub.go that subscribing and unsubscribing keep.
use tanzlaurel.Base.{
  ℕ, ◌≤◌, ◌<◌, ◌≡◌, refl, sym, ◌∙◌, [], ◌∷◌, true, false, ◌==◌, ==_iff, length, subst, Bool-cases,
  inl, inr, ◌⊎◌, arith,
}
use tanzlaurel.Base.Members.{In, In-cases}
use tanzlaurel.Flourish.Crdt.Rga.{contains}
use tanzlaurel.Flourish.Store.Events.{update}
use tanzlaurel.Withered.Sessions.Topics.{
  SimplePubSub, without, new_simple_pub_sub, subscribe, unsubscribe,
}
use tanzlaurel.Withered.Sessions.Places.{
  without-In, Single, contains-In, without-gone, without-Single, Single-snoc,
}

module _ {M : Type 0} where
  pub record IsPubSub (p : SimplePubSub M) : Type 0 where
    pub bounded : (ch : ℕ) → length (p.queues ch) ≤ 1024
    pub is_open : (t ch : ℕ) → In ch (p.subscribers t) → p.closed ch ≡ false
    pub below : (t ch : ℕ) → In ch (p.subscribers t) → ch < p.next
    pub single : (t : ℕ) → Single (p.subscribers t)
    pub apart : (t t' ch : ℕ) → In ch (p.subscribers t) → In ch (p.subscribers t') → t ≡ t'

  pub new_simple_pub_sub-IsPubSub : IsPubSub new_simple_pub_sub
  unfolding new_simple_pub_sub
  new_simple_pub_sub-IsPubSub = record {
    bounded = λ ch. omega arith;
    is_open = λ t ch m. absurd m;
    below = λ t ch m. absurd m;
    single = λ t. tt;
    apart = λ t t' ch m m'. absurd m;
  }

  pub subscribe-IsPubSub :
      (topic : ℕ) (p : SimplePubSub M) → IsPubSub p → IsPubSub (subscribe topic p).0
  unfolding subscribe
  subscribe-IsPubSub topic p h = record {
    bounded = λ ch. elim (Bool-cases (ch == p.next)) [
      | inl here ↦ rw here (omega arith)
      | inr other ↦ rw other (h.bounded ch)
    ];
    is_open = λ t ch m. elim (old_or_new t ch m) [
      | inl old ↦
          let ne : (ch == p.next) ≡ false = ground (arith, h.below t ch old) in
          rw ne (h.is_open t ch old)
      | inr (at, new) ↦ rw (new, (==_iff p.next p.next).1 refl) refl
    ];
    below = λ t ch m. elim (old_or_new t ch m) [
      | inl old ↦ omega (arith, h.below t ch old)
      | inr (at, new) ↦ omega (arith, new)
    ];
    single = λ t. elim (Bool-cases (t == topic)) [
      | inl here ↦
          rw here (Single-snoc p.next (p.subscribers topic) (h.below topic) (h.single topic))
      | inr other ↦ rw other (h.single t)
    ];
    apart = λ t t' ch m m'. elim (old_or_new t ch m) [
      | inl old ↦ elim (old_or_new t' ch m') [
        | inl old' ↦ h.apart t t' ch old old'
        | inr (at', new) ↦ absurd (omega (arith, h.below t ch old, new))
      ]
      | inr (at, new) ↦ elim (old_or_new t' ch m') [
        | inl old' ↦ absurd (omega (arith, h.below t' ch old', new))
        | inr (at', new') ↦ at ∙ sym at'
      ]
    ];
  }
    where
      old_or_new :
          (t ch : ℕ)
          → In ch ((subscribe topic p).0.subscribers t)
          → In ch (p.subscribers t) ⊎ ((t ≡ topic) × (ch ≡ p.next))
      old_or_new t ch m = elim (Bool-cases (t == topic)) [
        | inr other ↦ inl (rw other at m)
        | inl here ↦
            let at = (==_iff t topic).0 here in
            elim (In-cases ch (p.subscribers topic) (p.next ∷ []) (rw here at m)) [
              | inl old ↦ inl (rw at old)
              | inr last ↦ elim last [ inl e ↦ inr (at, e) | inr none' ↦ absurd none' ]
            ]
      ]

  pub unsubscribe-IsPubSub :
      (topic ch : ℕ) (p : SimplePubSub M) → IsPubSub p → IsPubSub (unsubscribe topic ch p)
  unfolding unsubscribe
  unsubscribe-IsPubSub topic ch p h = elim (Bool-cases (contains ch (p.subscribers topic))) [
    | inr not_there ↦ rw (not_there, unsubscribe) h
    | inl there ↦
        rw (there, unsubscribe)
          (record {
            bounded = h.bounded;
            is_open = λ t c m. elim (Bool-cases (c == ch)) [
              | inl same ↦ absurd (
                  gone there t (
                    subst
                      (λ (z : ℕ).
                        In z (update p.subscribers topic (without ch (p.subscribers topic)) t))
                      ((==_iff c ch).0 same) m))
              | inr other ↦ rw other (h.is_open t c (old t c m))
            ];
            below = λ t c m. h.below t c (old t c m);
            single = λ t. elim (Bool-cases (t == topic)) [
              | inl here ↦ rw here (without-Single ch (p.subscribers topic) (h.single topic))
              | inr other ↦ rw other (h.single t)
            ];
            apart = λ t t' c m m'. h.apart t t' c (old t c m) (old t' c m');
          })
  ]
    where
      old :
          (t c : ℕ)
          → In c (update p.subscribers topic (without ch (p.subscribers topic)) t)
          → In c (p.subscribers t)
      old t c m = elim (Bool-cases (t == topic)) [
        | inl here ↦
            let at = (==_iff t topic).0 here in
            rw at (without-In ch c (p.subscribers topic) (rw here at m))
        | inr other ↦ rw other at m
      ]

      gone :
          contains ch (p.subscribers topic) ≡ true
          → (t : ℕ) → ¬ In ch (update p.subscribers topic (without ch (p.subscribers topic)) t)
      gone there t m = elim (Bool-cases (t == topic)) [
        | inl here ↦ without-gone ch (p.subscribers topic) (h.single topic) (rw here at m)
        | inr other ↦
            let same =
              h.apart t topic ch (rw other at m) (contains-In ch (p.subscribers topic) there) in
            absurd (cc ((==_iff t topic).1 same))
      ]
