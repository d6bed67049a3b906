-- ===== src/Withered/Sessions/Publishing.antt =====
-- What a call of Publish of withered/server/domain/simple_pubsub.go does to the buffers.
use tanzlaurel.Base.{
  ℕ, ◌≤◌, ◌≡◌, ◌≢◌, refl, ◌∙◌, List, [], ◌∷◌, ◌++◌, false, leb, ◌==◌, ==_iff, if◌then◌else◌, length,
  length-append, Returns, Returns-bind, Returns-weaken, Bool-cases, inl, inr, arith,
}
use tanzlaurel.Base.Members.{In}
use tanzlaurel.Flourish.Crdt.Rga.{contains}
use tanzlaurel.Withered.Sessions.Topics.{SimplePubSub, send, deliver, publish}
use tanzlaurel.Withered.Sessions.Places.{Single, contains-In}
use tanzlaurel.Withered.Sessions.Channels.{IsPubSub}

module _ {M : Type 0} where
  -- One more message, unless the buffer is full.
  abbrev pub fill : M → List M → List M
  fill msg queue = if leb 1024 (length queue) then queue else queue ++ (msg ∷ [])

  abbrev Sends : M → List ℕ → SimplePubSub M → SimplePubSub M → Type 0
  Sends msg subs p q =
      IsPubSub q
      × (q.subscribers ≡ p.subscribers)
      × (q.closed ≡ p.closed)
      × ((ch : ℕ)
          → q.queues ch ≡ (if contains ch subs then fill msg (p.queues ch) else p.queues ch))

  fill-bounded : (msg : M) (queue : List M) → length queue ≤ 1024 → length (fill msg queue) ≤ 1024
  fill-bounded msg queue h = let grown = length-append queue (msg ∷ []) in ground (arith, grown)

  send-Sends :
      (msg : M) (ch : ℕ) (p : SimplePubSub M)
      → IsPubSub p
      → p.closed ch ≡ false
      → Returns (Sends msg (ch ∷ []) p) (send msg ch p)
  unfolding send contains
  send-Sends msg ch p h o = elim (Bool-cases (leb 1024 (length (p.queues ch)))) [
    | inl full ↦
        rw (o, full, send)
          (
            h,
            refl,
            refl,
            λ k. elim (Bool-cases (k == ch)) [
              | inl here ↦ let same = (==_iff k ch).0 here in rw (here, same, full) refl
              | inr other ↦ rw other refl
            ],
          )
    | inr room ↦
        let small : length (p.queues ch ++ (msg ∷ [])) ≤ 1024 =
          rw room at (fill-bounded msg (p.queues ch) (h.bounded ch)) in
        rw (o, room, send)
          (
            record {
              bounded = λ k. elim (Bool-cases (k == ch)) [
                | inl here ↦ rw here small
                | inr other ↦ rw other (h.bounded k)
              ];
              is_open = h.is_open;
              below = h.below;
              single = h.single;
              apart = h.apart;
            },
            refl,
            refl,
            λ k. elim (Bool-cases (k == ch)) [
              | inl here ↦ let same = (==_iff k ch).0 here in rw (here, same, room) refl
              | inr other ↦ rw other refl
            ],
          )
  ]

  both_queues :
      (msg : M) (x : ℕ) (subs : List ℕ) (ch : ℕ) (before between : List M)
      → ((y : ℕ) → In y subs → y ≢ x)
      → between ≡ (if contains ch (x ∷ []) then fill msg before else before)
      → (if contains ch subs then fill msg between else between)
        ≡ (if contains ch (x ∷ subs) then fill msg before else before)
  unfolding contains
  both_queues msg x subs ch before between apart sent = elim (Bool-cases (ch == x)) [
    | inr other ↦ let same : between ≡ before = rw other at sent in rw (same, other) refl
    | inl here ↦ elim (Bool-cases (contains ch subs)) [
      | inl again ↦ absurd (apart ch (contains-In ch subs again) ((==_iff ch x).0 here))
      | inr once ↦ let one : between ≡ fill msg before = rw here at sent in rw (here, once) one
    ]
  ]

  deliver-Sends :
      (msg : M) (subs : List ℕ) (p : SimplePubSub M)
      → IsPubSub p
      → ((ch : ℕ) → In ch subs → p.closed ch ≡ false)
      → Single subs
      → Returns (Sends msg subs p) (deliver (λ ch. false) msg subs p)
  unfolding deliver contains
  deliver-Sends msg [] p h o s = (h, refl, refl, λ ch. refl)
  deliver-Sends msg (x ∷ subs) p h o s =
      Returns-bind (Sends msg (x ∷ []) p) (Sends msg (x ∷ subs) p) (send msg x p)
        (deliver (λ ch. false) msg subs) (send-Sends msg x p h (o x (inl refl)))
        (λ q (hq, subs_same, closed_same, queues).
          Returns-weaken (Sends msg subs q) (Sends msg (x ∷ subs) p)
            (deliver (λ ch. false) msg subs q)
            (deliver-Sends msg subs q hq (λ ch m. rw closed_same (o ch (inr m))) s.1)
            (λ r (hr, subs_same', closed_same', queues'). (
              hr,
              subs_same' ∙ subs_same,
              closed_same' ∙ closed_same,
              λ ch.
                  queues' ch
                  ∙ both_queues msg x subs ch (p.queues ch) (q.queues ch) s.0 (queues ch),
            )))

  -- In a state where the subscribed channels are open, at one place and numbered below the next one, and
  -- every buffer holds at most 1024 messages, a whole `Publish` whose context does not end does not
  -- panic. It leaves such a state with the same subscribers, every channel of the topic has
  -- got the message at its end unless it held 1024, and every other channel holds what it held.
  pub publish-Sends :
      (topic : ℕ) (msg : M) (p : SimplePubSub M)
      → IsPubSub p
      → Returns
          (λ q.
            IsPubSub q
            × (q.subscribers ≡ p.subscribers)
            × ((ch : ℕ)
                → q.queues ch ≡ (
                    if contains ch (p.subscribers topic)
                    then fill msg (p.queues ch)
                    else p.queues ch)))
          (publish (λ ch. false) topic msg p)
  unfolding publish
  publish-Sends topic msg p h =
      Returns-weaken (Sends msg (p.subscribers topic) p) _
        (deliver (λ ch. false) msg (p.subscribers topic) p)
        (deliver-Sends msg (p.subscribers topic) p h (h.is_open topic) (h.single topic))
        (λ q sends. (sends.0, sends.1, sends.3))
