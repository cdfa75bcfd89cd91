-- ===== src/Broker/Life.antt =====
-- shared/pkg/broker/rabbitmq.go: a connection from its dial on, through the calls that its owners make.
use mathlib.Core.Path.{subst}
use price_scount.Base.{
  ℕ, ◌≡◌, sym, refl, ◌⊎◌, inl, inr, String, Bool, not, ◌||◌, Option, none, some, arith, Bool-cases,
}
use price_scount.Broker.{done, Connection, note, channel_opened, close, is_dead}
use price_scount.Broker.Publisher.{open_publisher}
use price_scount.Broker.Publisher.Frame.{pending, open_publisher-made}
use price_scount.Broker.Publish.{redial, Call, publish_on, publish_again, publish}
use price_scount.Broker.Publish.Attempts.{Answer-cases}
use price_scount.Broker.Publish.Redialed.{redial-IsSettled}
use price_scount.Broker.Publish.Settled.{IsSettled, close-IsSettled, publish_on-IsSettled}
use price_scount.Broker.Connect.{Dialing, dial, undialed, new_connection}
use price_scount.Broker.Queues.{
  declare_queue, consume, Declaring, declare_notify_queues, Consuming, consume_with_prefetch,
}

publish_again-IsSettled :
    (p : Call) (queue body : String) (c : Connection)
    → IsSettled c
    → IsSettled (publish_again p queue body c).1
publish_again-IsSettled p queue body c h =
    let c' : Connection = (redial p.redialing c).1 in
    let h' : IsSettled c' = redial-IsSettled p.redialing c h in
    elim (Answer-cases (redial p.redialing c).0) [
      | inr (e, f) ↦
          let step : (publish_again p queue body c).1 ≡ c' =
            unfold publish_again in ground (arith, f) in
          subst IsSettled (sym step) h'
      | inl (_, f) ↦
          let step : (publish_again p queue body c).1 ≡ (publish_on queue body p.second c').1 =
            unfold publish_again in ground (arith, f) in
          subst IsSettled (sym step) (publish_on-IsSettled queue body p.second c' h')
    ]

publish-cases :
    (p : Call) (queue body : String) (c : Connection)
    → ((publish p queue (some body) c).1 ≡ (publish_on queue body p.first c).1)
      ⊎ ((publish p queue (some body) c).1
          ≡ (publish_again p queue body (publish_on queue body p.first c).1).1)
publish-cases p queue body c =
    let c' : Connection = (publish_on queue body p.first c).1 in
    elim (Answer-cases (publish_on queue body p.first c).0) [
      | inl (_, f) ↦ inl (unfold publish in ground (arith, f))
      | inr (e, f) ↦ elim (Bool-cases (p.expired || not (is_dead p.health c'))) [
        | inl kept ↦ inl (unfold publish in ground (arith, f, kept))
        | inr dead ↦ inr (unfold publish in ground (arith, f, dead))
      ]
    ]

publish-IsSettled :
    (p : Call) (queue : String) (body : Option String) (c : Connection)
    → IsSettled c
    → IsSettled (publish p queue body c).1
publish-IsSettled p queue none c h =
    let same : (publish p queue none c).1 ≡ c = unfold publish in refl in
    subst IsSettled (sym same) h
publish-IsSettled p queue (some body) c h =
    let c' : Connection = (publish_on queue body p.first c).1 in
    let h' : IsSettled c' = publish_on-IsSettled queue body p.first c h in
    elim (publish-cases p queue body c) [
      | inl same ↦ subst IsSettled (sym same) h'
      | inr step ↦ subst IsSettled (sym step) (publish_again-IsSettled p queue body c' h')
    ]

-- The consumer side writes to the trace only.
Framed : Connection → Connection → Type 0
Framed c c' =
    (c'.publish_ch ≡ c.publish_ch)
    × (c'.closed ≡ c.closed)
    × (c'.confirms ≡ c.confirms)
    × (c'.returns ≡ c.returns)
    × ((k : ℕ) → pending k c'.trace ≡ pending k c.trace)

Framed-IsSettled : (c c' : Connection) → Framed c c' → IsSettled c → IsSettled c'
unfolding Framed
Framed-IsSettled c c' f h k e = ground (arith, f.0, f.1, f.2, f.3, f.4 k, h k, e)

declare_queue-Framed :
    (b : Bool) (name : String) (c : Connection) → Framed c (declare_queue b name c).1
unfolding Framed declare_queue
declare_queue-Framed b name c =
    (ground arith, ground arith, ground arith, ground arith, λ k. ground arith)

consume-Framed : (b : Bool) (queue : String) (c : Connection) → Framed c (consume b queue c).1
unfolding Framed consume
consume-Framed b queue c =
    (ground arith, ground arith, ground arith, ground arith, λ k. ground arith)

declare_notify_queues-Framed :
    (d : Declaring) (task_queue retry_queue dead_queue : String) (delay : ℕ) (c : Connection)
    → Framed c (declare_notify_queues d task_queue retry_queue dead_queue delay c).1
unfolding Framed declare_notify_queues
declare_notify_queues-Framed d t r x n c =
    (ground arith, ground arith, ground arith, ground arith, λ k. ground arith)

consume_with_prefetch-Framed :
    (d : Consuming) (queue : String) (c : Connection) → Framed c (consume_with_prefetch d queue c).1
unfolding Framed consume_with_prefetch
consume_with_prefetch-Framed d queue c =
    (ground arith, ground arith, ground arith, ground arith, λ k. ground arith)

new_connection-IsSettled : (d : Dialing) (c : Connection) → new_connection d ≡ done c → IsSettled c
unfolding new_connection dial
new_connection-IsSettled d c e k held =
    let start : Connection = note (channel_opened d.channel) (undialed d) in
    elim (Answer-cases (open_publisher d.setup start).0) [
      | inr (x, f) ↦ absurd (ground (arith, e, f))
      | inl (made, f) ↦ ground (arith, e, f, held, open_publisher-made d.setup start made refl f)
    ]

-- The states of a connection: it is dialed, and then published on, closed, and asked for queues, in
-- any order. Close may also come in the middle of a publication.
pub data Reach : Connection → Type 0 where
  dialed : (d : Dialing) {c : Connection} → new_connection d ≡ done c → Reach c
  publishes :
      {c : Connection} (p : Call) (queue : String) (body : Option String)
      → Reach c
      → Reach (publish p queue body c).1
  closes : {c : Connection} → Reach c → Reach (close c)
  declares :
      {c : Connection} (b : Bool) (name : String) → Reach c → Reach (declare_queue b name c).1
  declares_notify :
      {c : Connection} (d : Declaring) (task_queue retry_queue dead_queue : String) (delay : ℕ)
      → Reach c
      → Reach (declare_notify_queues d task_queue retry_queue dead_queue delay c).1
  consumes : {c : Connection} (b : Bool) (queue : String) → Reach c → Reach (consume b queue c).1
  consumes_with_prefetch :
      {c : Connection} (d : Consuming) (queue : String)
      → Reach c
      → Reach (consume_with_prefetch d queue c).1

-- Between its operations, in whatever order they come and wherever Close interrupts them, a
-- connection that holds a publisher channel is not closed, listens to the confirmations and returns
-- of that channel, and has no confirmation of an earlier message outstanding on it.
pub Reach-IsSettled : {c : Connection} → Reach c → IsSettled c
Reach-IsSettled (dialed d {c} e) = new_connection-IsSettled d c e
Reach-IsSettled (publishes {c} p queue body r) =
    publish-IsSettled p queue body c (Reach-IsSettled r)
Reach-IsSettled (closes {c} r) = close-IsSettled c (Reach-IsSettled r)
Reach-IsSettled (declares {c} b name r) =
    Framed-IsSettled c (declare_queue b name c).1 (declare_queue-Framed b name c)
      (Reach-IsSettled r)
Reach-IsSettled (declares_notify {c} d t x y n r) =
    Framed-IsSettled c (declare_notify_queues d t x y n c).1
      (declare_notify_queues-Framed d t x y n c) (Reach-IsSettled r)
Reach-IsSettled (consumes {c} b queue r) =
    Framed-IsSettled c (consume b queue c).1 (consume-Framed b queue c) (Reach-IsSettled r)
Reach-IsSettled (consumes_with_prefetch {c} d queue r) =
    Framed-IsSettled c (consume_with_prefetch d queue c).1 (consume_with_prefetch-Framed d queue c)
      (Reach-IsSettled r)
