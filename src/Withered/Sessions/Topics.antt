-- ===== src/Withered/Sessions/Topics.antt =====
-- withered/server/domain/simple_pubsub.go: the topics and their channels. A channel is a number, and
-- what it holds is a queue; log lines are left out. `Publish` reads the subscribers under the lock and
-- sends without it, so these are two operations.
use tanzlaurel.Base.{
  ℕ, suc, List, [], ◌∷◌, ◌++◌, Bool, true, false, leb, ◌==◌, if◌then◌else◌, length, Outcome, ok,
  panic, ◌>>=◌,
}
use tanzlaurel.Flourish.Crdt.Rga.{contains}
use tanzlaurel.Flourish.Store.Events.{update}

abbrev pub default_channel_buffer : ℕ
default_channel_buffer = 1024

-- `next` is the channel that `make` gives.
pub record SimplePubSub (M : Type 0) : Type 0 where
  pub subscribers : ℕ → List ℕ
  pub queues : ℕ → List M
  pub closed : ℕ → Bool
  pub next : ℕ

-- The first occurrence is taken out.
unfoldable pub without : ℕ → List ℕ → List ℕ
without ch [] = []
without ch (sub ∷ subs) = if sub == ch then subs else sub ∷ without ch subs

module _ {M : Type 0} where
  unfoldable pub new_simple_pub_sub : SimplePubSub M
  new_simple_pub_sub = record {
    subscribers = λ t. [];
    queues = λ c. [];
    closed = λ c. false;
    next = 0;
  }

  unfoldable pub subscribe : ℕ → SimplePubSub M → SimplePubSub M × ℕ
  subscribe topic p =
      let ch = p.next in
      (
        record {
          subscribers = update p.subscribers topic (p.subscribers topic ++ (ch ∷ []));
          queues = update p.queues ch [];
          closed = update p.closed ch false;
          next = suc ch;
        },
        ch,
      )

  -- A topic without subscribers reads as one that is not there.
  unfoldable pub unsubscribe : ℕ → ℕ → SimplePubSub M → SimplePubSub M
  unsubscribe topic ch p =
      if contains ch (p.subscribers topic)
      then record p {
        closed = update p.closed ch true;
        subscribers = update p.subscribers topic (without ch (p.subscribers topic));
      }
      else p

  -- The `select` for one channel. A send to a closed channel panics, a full one is passed over.
  unfoldable pub send : M → ℕ → SimplePubSub M → Outcome (SimplePubSub M)
  send msg ch p = elim (p.closed ch) [
    | true ↦ panic
    | false ↦ elim (leb default_channel_buffer (length (p.queues ch))) [
      | true ↦ ok p
      | false ↦ ok (record p { queues = update p.queues ch (p.queues ch ++ (msg ∷ [])) })
    ]
  ]

  -- The loop of `Publish`; `done` tells for which channel the select takes the end of the context.
  unfoldable pub deliver : (ℕ → Bool) → M → List ℕ → SimplePubSub M → Outcome (SimplePubSub M)
  deliver done msg [] p = ok p
  deliver done msg (ch ∷ subs) p = elim (done ch) [
    | true ↦ ok p
    | false ↦ send msg ch p >>= deliver done msg subs
  ]

  -- With nothing between the two parts.
  unfoldable pub publish : (ℕ → Bool) → ℕ → M → SimplePubSub M → Outcome (SimplePubSub M)
  publish done topic msg p = deliver done msg (p.subscribers topic) p
