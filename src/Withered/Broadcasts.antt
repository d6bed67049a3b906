-- ===== src/Withered/Broadcasts.antt =====
-- Runs of the topics: two channels of one topic, one of another.
use tanzlaurel.Base.{
  ℕ, ◌≤◌, ◌≡◌, refl, List, [], ◌∷◌, false, if◌then◌else◌, length, Outcome, ok, panic, Returns,
}
use tanzlaurel.Base.Members.{In}
use tanzlaurel.Flourish.Crdt.Rga.{contains}
use tanzlaurel.Withered.Sessions.Topics.{
  SimplePubSub, without, new_simple_pub_sub, subscribe, unsubscribe, send, deliver, publish,
}
use tanzlaurel.Withered.Sessions.Channels.{
  IsPubSub, new_simple_pub_sub-IsPubSub, subscribe-IsPubSub,
}
use tanzlaurel.Withered.Sessions.Publishing.{fill, publish-Sends}
use tanzlaurel.Withered.Sessions.Calls.{
  Call, subscribing, unsubscribing, publishing, answer, answer_all, answer_all-bounded,
}

abbrev three : SimplePubSub ℕ
three = (subscribe 2 (subscribe 1 (subscribe 1 new_simple_pub_sub).0).0).0

three-IsPubSub : IsPubSub three
three-IsPubSub = subscribe-IsPubSub 2 (subscribe 1 (subscribe 1 new_simple_pub_sub).0).0 (
    subscribe-IsPubSub 1 (subscribe 1 new_simple_pub_sub).0
      (subscribe-IsPubSub 1 new_simple_pub_sub new_simple_pub_sub-IsPubSub))

publish-Sends_example :
    Returns
      (λ q.
        IsPubSub q
        × (q.subscribers ≡ three.subscribers)
        × ((ch : ℕ)
            → q.queues ch ≡ (
                if contains ch (three.subscribers 1)
                then fill 7 (three.queues ch)
                else three.queues ch)))
      (publish (λ ch. false) 1 7 three)
publish-Sends_example = publish-Sends 1 7 three three-IsPubSub

abbrev rounds : List (Call ℕ)
rounds = subscribing 1 ∷ subscribing 1 ∷ publishing 1 7 ∷ unsubscribing 1 0 ∷ publishing 1 8 ∷ []

abbrev queue : ℕ → Outcome (SimplePubSub ℕ) → List ℕ
queue ch outcome = elim outcome [ ok q ↦ q.queues ch | _ ↦ [] ]

gone_channel : queue 0 (answer_all rounds new_simple_pub_sub) ≡ 7 ∷ []
unfolding new_simple_pub_sub without subscribe unsubscribe send deliver publish answer answer_all
    contains
gone_channel = refl

kept_channel : queue 1 (answer_all rounds new_simple_pub_sub) ≡ 7 ∷ 8 ∷ []
unfolding new_simple_pub_sub without subscribe unsubscribe send deliver publish answer answer_all
    contains
kept_channel = refl

-- A send to a channel that the reader of the subscribers still has, after its Unsubscribe.
late_send : deliver (λ ch. false) 7 (three.subscribers 1) (unsubscribe 1 1 three) ≡ panic
unfolding new_simple_pub_sub without subscribe unsubscribe send deliver publish contains
late_send = refl

answer_all-bounded_example :
    Returns
      (λ q.
        ((ch : ℕ) → length (q.queues ch) ≤ 1024)
        × ((t ch : ℕ) → In ch (q.subscribers t) → q.closed ch ≡ false)
        × ((t t' ch : ℕ) → In ch (q.subscribers t) → In ch (q.subscribers t') → t ≡ t'))
      (answer_all rounds new_simple_pub_sub)
answer_all-bounded_example = answer_all-bounded rounds
