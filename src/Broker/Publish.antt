-- ===== src/Broker/Publish.antt =====
-- shared/pkg/broker/rabbitmq.go: a message is published and its confirmation awaited.
pub mod Attempts
pub mod Confirmed
pub mod Once
pub mod Redialed
pub mod Settled
use price_scount.Base.{
  ℕ, String, Bool, true, false, not, ◌||◌, Option, none, some, ◌==◌, if◌then◌else◌,
}
use price_scount.Broker.{
  BrokerError, json_failed, deadline_failed, cancelled, connection_closed, unavailable,
  publish_failed, confirms_lost, nacked, unroutable, Answer, done, failed, limited, published,
  confirm_taken, stream_ended, Connection, Section, note, clear_deadline, drop_socket,
  drop_connection, no_publisher, retire_publisher, closing, Health, lacks_publisher, is_dead,
  io_deadline,
}
use price_scount.Broker.Publisher.{Setup, open_publisher}

-- What the select of awaitConfirm receives, up to where it returns. A confirmation comes with the
-- text of a returned message that is ready at that moment, if there is one.
pub data Wait : Type 0 where
  confirm : Bool → Option String → Wait
  confirms_closed : Wait
  context_done : Wait
  then_returned : String → Wait → Wait
  then_returns_closed : Wait → Wait

-- The verdict on a confirmation, given the text of a returned message.
abbrev pub judge : Bool → Option String → Answer (Unit {0})
judge is_ack (some text) = failed (unroutable text)
judge true none = done tt
judge false none = failed nacked

-- The loop, with the returned message so far and whether `returns` is still read.
unfoldable pub await_loop : Option String → Bool → Wait → Answer (Unit {0})
await_loop (some text) is_open (confirm is_ack ready) = judge is_ack (some text)
await_loop none true (confirm is_ack ready) = judge is_ack ready
await_loop none false (confirm is_ack ready) = judge is_ack none
await_loop returned is_open confirms_closed = failed confirms_lost
await_loop returned is_open context_done = failed cancelled
await_loop returned true (then_returned text w) = await_loop (some text) false w
await_loop returned false (then_returned text w) = await_loop returned false w
await_loop returned is_open (then_returns_closed w) = await_loop returned false w

-- awaitConfirm.
unfoldable pub await_confirm : Wait → Answer (Unit {0})
unfolding await_loop
await_confirm w = await_loop none true w

-- What the wait took from the stream of confirmations.
abbrev pub taken : ℕ → Wait → Connection → Connection
taken s (confirm is_ack ready) c = note (confirm_taken s) c
taken s confirms_closed c = note (stream_ended s) c
taken s context_done c = c
taken s (then_returned text w) c = taken s w c
taken s (then_returns_closed w) c = taken s w c

-- A context that is done has an error from then on.
abbrev pub is_cancelled : Wait → Bool
is_cancelled (confirm is_ack ready) = false
is_cancelled confirms_closed = false
is_cancelled context_done = true
is_cancelled (then_returned text w) = is_cancelled w
is_cancelled (then_returns_closed w) = is_cancelled w

-- What one attempt meets.
pub record Attempt : Type 0 where
  -- The gate is entered before the context is done.
  pub gate : Bool
  pub channel_is_closed : Bool
  -- Close by another goroutine before the deadline is set, and during the wait.
  pub closes_early : Bool
  pub closes_late : Bool
  pub now : ℕ
  pub limit : Option ℕ
  pub is_set : Bool
  pub accepted : Bool
  pub wait : Wait
  -- ctx.Err() is set after the wait.
  pub expired : Bool

-- The message is on its way: the wait, and what becomes of the publisher.
unfoldable pub conclude : Attempt → ℕ → Connection → Answer (Unit {0}) × Connection
conclude a channel c =
    let waited = taken channel a.wait (closing a.closes_late (clear_deadline c.pub_net_conn c)) in
    (
      await_confirm a.wait,
      if is_cancelled a.wait || a.expired then retire_publisher channel waited else waited,
    )

module _ (queue : String) (body : String) where
  -- From the deadline on.
  unfoldable pub send_on : Attempt → ℕ → Connection → Answer (Unit {0}) × Connection
  send_on a channel c = elim c.pub_net_conn [
    | none ↦ (failed deadline_failed, retire_publisher channel c)
    | some socket ↦
        let set = note (limited socket (io_deadline a.now a.limit)) c in
        if not a.is_set
        then (failed deadline_failed, retire_publisher channel c)
        else if not a.accepted
        then (failed publish_failed, retire_publisher channel set)
        else conclude a channel (note (published channel queue body) set)
  ]

  -- publishOn.
  unfoldable pub publish_on : Attempt → Section (Unit {0})
  publish_on a c = if not a.gate then (failed cancelled, c) else (elim c.publish_ch [
    | none ↦ (failed unavailable, c)
    | some channel ↦
        if c.closed || a.channel_is_closed
        then (failed unavailable, c)
        else send_on a channel (closing a.closes_early c)
  ])

-- What a redial meets.
pub record Redial : Type 0 where
  pub gate : Bool
  pub health : Health
  -- Close by another goroutine while the old publisher is closed, and after the setup.
  pub closes_early : Bool
  pub closes_late : Bool
  pub expired : Bool
  pub setup : Setup

-- The new publisher is kept, unless the connection was closed meanwhile.
unfoldable pub adopt : ℕ × ℕ → Section (Unit {0})
adopt (connection, channel) c =
    if c.closed
    then (
      failed connection_closed,
      drop_connection (some connection) (drop_socket c.pub_net_conn c),
    )
    else (done tt, record c { pub_conn = some connection; publish_ch = some channel })

-- The old publisher is closed.
abbrev pub abandon : Connection → Connection
abandon c = drop_connection c.pub_conn (drop_socket c.pub_net_conn (no_publisher c))

-- A setup in the place of a publisher that is gone.
unfoldable pub replace_publisher : Redial → Section (Unit {0})
replace_publisher r c =
    if r.expired
    then (failed cancelled, c)
    else (let (answer, c') = open_publisher r.setup c in
        elim answer [
          | failed e ↦ (failed e, c')
          | done made ↦ adopt made (closing r.closes_late c')
        ])

unfoldable pub redial : Redial → Section (Unit {0})
redial r c =
    if not r.gate
    then (failed cancelled, c)
    else if c.closed
    then (failed connection_closed, c)
    else if not (lacks_publisher r.health c)
    then (done tt, c)
    else replace_publisher r (closing r.closes_early (abandon c))

-- What a call of Publish meets.
pub record Call : Type 0 where
  pub first : Attempt
  pub expired : Bool
  pub health : Health
  pub redialing : Redial
  pub second : Attempt

-- The redial and the second attempt.
unfoldable pub publish_again : Call → String → String → Section (Unit {0})
publish_again p queue body c =
    let (answer, c') = redial p.redialing c in
    elim answer [ failed e ↦ (failed e, c') | done _ ↦ publish_on queue body p.second c' ]

-- Publish; the body is what json.Marshal makes of the value.
unfoldable pub publish : Call → String → Option String → Section (Unit {0})
publish p queue none c = (failed json_failed, c)
publish p queue (some body) c =
    let (answer, c') = publish_on queue body p.first c in
    elim answer [
      | done _ ↦ (done tt, c')
      | failed e ↦
          if p.expired || not (is_dead p.health c')
          then (failed e, c')
          else publish_again p queue body c'
    ]
