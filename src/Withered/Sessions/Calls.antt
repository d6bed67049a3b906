-- ===== src/Withered/Sessions/Calls.antt =====
-- Sequences of calls of the topics of withered/server/domain/simple_pubsub.go.
use tanzlaurel.Base.{
  ℕ, ◌≤◌, ◌≡◌, List, [], ◌∷◌, false, length, Outcome, ok, ◌>>=◌, Returns, Returns-bind,
  Returns-weaken,
}
use tanzlaurel.Base.Members.{In}
use tanzlaurel.Withered.Sessions.Topics.{
  SimplePubSub, new_simple_pub_sub, subscribe, unsubscribe, publish,
}
use tanzlaurel.Withered.Sessions.Channels.{
  IsPubSub, new_simple_pub_sub-IsPubSub, subscribe-IsPubSub, unsubscribe-IsPubSub,
}
use tanzlaurel.Withered.Sessions.Publishing.{publish-Sends}

-- What the sessions and rooms ask of it.
pub data Call (M : Type 0) : Type 0 where
  subscribing : ℕ → Call M
  unsubscribing : ℕ → ℕ → Call M
  publishing : ℕ → M → Call M

module _ {M : Type 0} where
  unfoldable pub answer : Call M → SimplePubSub M → Outcome (SimplePubSub M)
  answer (subscribing topic) p = ok (subscribe topic p).0
  answer (unsubscribing topic ch) p = ok (unsubscribe topic ch p)
  answer (publishing topic msg) p = publish (λ ch. false) topic msg p

  unfoldable pub answer_all : List (Call M) → SimplePubSub M → Outcome (SimplePubSub M)
  answer_all [] p = ok p
  answer_all (call ∷ calls) p = answer call p >>= answer_all calls

  answer-IsPubSub :
      (call : Call M) (p : SimplePubSub M) → IsPubSub p → Returns IsPubSub (answer call p)
  unfolding answer
  answer-IsPubSub (subscribing topic) p h = subscribe-IsPubSub topic p h
  answer-IsPubSub (unsubscribing topic ch) p h = unsubscribe-IsPubSub topic ch p h
  answer-IsPubSub (publishing topic msg) p h =
      Returns-weaken _ IsPubSub (publish (λ ch. false) topic msg p) (publish-Sends topic msg p h)
        (λ q sends. sends.0)

  from_IsPubSub :
      (calls : List (Call M)) (p : SimplePubSub M)
      → IsPubSub p
      → Returns IsPubSub (answer_all calls p)
  unfolding answer_all
  from_IsPubSub [] p h = h
  from_IsPubSub (call ∷ calls) p h =
      Returns-bind IsPubSub IsPubSub (answer call p) (answer_all calls) (answer-IsPubSub call p h)
        (from_IsPubSub calls)

  -- From a new one, every sequence of whole calls of `Subscribe`, `Unsubscribe` and `Publish`, the contexts
  -- of which do not end, runs without a panic. After it every subscribed channel is open, is subscribed
  -- to one topic only, and no channel holds more than 1024 messages.
  pub answer_all-bounded :
      (calls : List (Call M))
      → Returns
          (λ q.
            ((ch : ℕ) → length (q.queues ch) ≤ 1024)
            × ((t ch : ℕ) → In ch (q.subscribers t) → q.closed ch ≡ false)
            × ((t t' ch : ℕ) → In ch (q.subscribers t) → In ch (q.subscribers t') → t ≡ t'))
          (answer_all calls new_simple_pub_sub)
  answer_all-bounded calls =
      Returns-weaken IsPubSub _ (answer_all calls new_simple_pub_sub)
        (from_IsPubSub calls new_simple_pub_sub new_simple_pub_sub-IsPubSub)
        (λ q h. (h.bounded, h.is_open, h.apart))
