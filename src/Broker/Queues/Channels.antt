-- ===== src/Broker/Queues/Channels.antt =====
-- shared/pkg/broker/rabbitmq.go: the channels that the queue operations open.
use price_scount.Base.{
  ◌⊎◌, inl, inr, ◌&&◌, not, ℕ, ◌≡◌, String, Bool, true, false, none, some, List, [], ◌∷◌, ◌==◌,
  if◌then◌else◌, arith,
}
use price_scount.Broker.{
  BrokerError, done, failed, Effect, channel_opened, channel_closed, consuming, declared,
  Connection,
}
use price_scount.Broker.Queues.{
  Declaring, declare_notify_queues, millis32, Consuming, consume_with_prefetch,
}
use price_scount.Broker.Publish.Attempts.{Answer-cases}

-- Whether a consumer channel is open after a trace.
abbrev pub is_open : ℕ → List Effect → Bool
is_open k [] = false
is_open k (channel_opened j ∷ t) = let rest = is_open k t in if j == k then true else rest
is_open k (channel_closed j ∷ t) = let rest = is_open k t in if j == k then false else rest
is_open k (_ ∷ t) = is_open k t

-- No channel stays open that was not open before.
abbrev pub NoLeak : Connection → Connection → Type 0
NoLeak c c' = (j : ℕ) → (is_open j c'.trace && not (is_open j c.trace)) ≡ false

module _ (task_queue retry_queue dead_queue : String) (retry_delay : ℕ) where
  -- DeclareNotifyQueues leaves no channel open, whatever fails. When it succeeds it has declared
  -- the queue of the tasks, the queue of the retries, whose messages expire after the delay and go
  -- back to the queue of the tasks, and the queue of the dead messages, in this order.
  pub declare_notify_queues-NoLeak :
      (d : Declaring) (c : Connection)
      → NoLeak c (declare_notify_queues d task_queue retry_queue dead_queue retry_delay c).1
        × (((e : BrokerError) × ((declare_notify_queues d task_queue retry_queue dead_queue
                  retry_delay c).0
                ≡ failed e))
            ⊎ (((declare_notify_queues d task_queue retry_queue dead_queue retry_delay c).0
                  ≡ done tt)
                × ((declare_notify_queues d task_queue retry_queue dead_queue retry_delay c).1.trace
                    ≡ channel_closed d.channel
                      ∷ declared dead_queue none
                      ∷ declared retry_queue (some (millis32 retry_delay, task_queue))
                      ∷ declared task_queue none
                      ∷ channel_opened d.channel
                      ∷ c.trace)))
  unfolding declare_notify_queues
  declare_notify_queues-NoLeak d c =
      let answer = (declare_notify_queues d task_queue retry_queue dead_queue retry_delay c).0 in
      (
        λ j. ground arith,
        elim (Answer-cases answer) [
          | inl (_, h) ↦ inr (ground (arith, h), ground (arith, h))
          | inr (e, h) ↦ inl (e, h)
        ],
      )

-- ConsumeWithPrefetch leaves no channel open when it fails; when it succeeds the channel that it
-- returns is open and consumes the queue, which was declared before.
pub consume_with_prefetch-NoLeak :
    (d : Consuming) (queue : String) (c : Connection)
    → ((e : BrokerError)
        → (consume_with_prefetch d queue c).0 ≡ failed e
        → NoLeak c (consume_with_prefetch d queue c).1)
      × ((k : ℕ)
          → (consume_with_prefetch d queue c).0 ≡ done k
          → (is_open k (consume_with_prefetch d queue c).1.trace ≡ true)
            × ((consume_with_prefetch d queue c).1.trace
                ≡ consuming k queue ∷ declared queue none ∷ channel_opened k ∷ c.trace))
unfolding consume_with_prefetch
consume_with_prefetch-NoLeak d queue c = (λ e h j. ground (arith, h), λ k h. ground (arith, h))
