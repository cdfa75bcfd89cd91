-- ===== src/Broker/Queues.antt =====
-- shared/pkg/broker/rabbitmq.go: the queues that are declared and consumed.
pub mod Channels
use price_scount.Base.{
  ℕ, ◌*◌, ◌/◌, ◌%◌, ◌^◌, String, Bool, true, false, not, ◌||◌, Option, none, some,
}
use price_scount.Broker.{
  BrokerError, channel_failed, qos_failed, unavailable, declare_failed, consume_failed, Answer,
  done, failed, channel_opened, channel_closed, consuming, declared, Connection, Section, ◌>>=◌,
  ◌>>◌, note, then_do, need, returning, on_failure, finally, unchanged, is_lost,
}

-- NotifyRetryDelay; delays count nanoseconds.
abbrev pub notify_retry_delay : ℕ
notify_retry_delay = 30 * 1000000000

-- QueueDeclare of a durable queue, and whether the library accepts it.
abbrev pub queue_declare : Bool → String → Option (ℕ × String) → Section (Unit {0})
queue_declare is_ok name options = do
  need is_ok declare_failed unchanged
  then_do (note (declared name options))

-- The consumer channel, or the connection, that is there.
abbrev pub held : Option ℕ → Section ℕ
held none c = (failed unavailable, c)
held (some k) c = (done k, c)

unfoldable pub declare_queue : Bool → String → Section (Unit {0})
declare_queue is_ok name = do _ ← (λ c. held c.ch c); queue_declare is_ok name none

-- Consume on the consumer channel.
unfoldable pub consume : Bool → String → Section ℕ
consume is_ok queue = do
  k ← (λ c. held c.ch c)
  need is_ok consume_failed unchanged
  then_do (note (consuming k queue))
  returning k

-- A connection that is not closed.
abbrev pub usable : Section (Unit {0})
usable c = need (not (c.closed || is_lost c.conn false)) unavailable unchanged c

-- What DeclareNotifyQueues meets: the channel, and each declaration.
pub record Declaring : Type 0 where
  pub channel : ℕ
  pub opens_channel : Bool
  pub task_is_ok : Bool
  pub retry_is_ok : Bool
  pub dead_is_ok : Bool

-- int32 of a number of milliseconds, as a 32-bit pattern.
abbrev pub millis32 : ℕ → ℕ
millis32 delay = delay / 1000000 % 2 ^ 32

unfoldable pub declare_notify_queues : Declaring → String → String → String → ℕ → Section (Unit {0})
declare_notify_queues d task_queue retry_queue dead_queue retry_delay = do
  usable
  need d.opens_channel channel_failed unchanged
  then_do (note (channel_opened d.channel))
  finally (note (channel_closed d.channel)) do
    queue_declare d.task_is_ok task_queue none
    queue_declare d.retry_is_ok retry_queue (some (millis32 retry_delay, task_queue))
    queue_declare d.dead_is_ok dead_queue none

-- What ConsumeWithPrefetch meets.
pub record Consuming : Type 0 where
  pub channel : ℕ
  pub opens_channel : Bool
  pub qos : Bool
  pub declare_is_ok : Bool
  pub consume_is_ok : Bool

-- The channel whose deliveries are returned.
unfoldable pub consume_with_prefetch : Consuming → String → Section ℕ
consume_with_prefetch d queue = do
  usable
  need d.opens_channel channel_failed unchanged
  then_do (note (channel_opened d.channel))
  on_failure (note (channel_closed d.channel)) do
    need d.qos qos_failed unchanged
    queue_declare d.declare_is_ok queue none
    need d.consume_is_ok consume_failed unchanged
    then_do (note (consuming d.channel queue))
    returning d.channel
