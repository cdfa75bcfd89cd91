-- ===== src/Tests/Publishing.antt =====
-- Runs of the broker connection.
use price_scount.Base.{◌⊎◌, ℕ, ◌+◌, Bool, true, false, none, some, ◌∷◌, ltb, ◌≡◌, refl}
use price_scount.Broker.{
  BrokerError, failed, nacked, unroutable, done, failed, channel_opened, channel_closed, declared,
  Connection, close, io_deadline, retire_publisher, is_dead,
}
use price_scount.Broker.Publisher.{
  DeadlineTry, Setup, open_publisher, connect_publisher, open_channel, register_publisher_socket,
}
use price_scount.Broker.Publish.{
  Wait, confirm, confirms_closed, then_returned, then_returns_closed, await_confirm, Attempt, Call,
  publish, publish_on, send_on, conclude, publish_again, redial, replace_publisher, adopt,
}
use price_scount.Broker.Publish.Once.{Outcome, publish-Outcome}
use price_scount.Broker.Publish.Settled.{IsSettled}
use price_scount.Broker.Connect.{
  Dialing, dial, undialed, new_connection, connect_with_retry, connect_from,
}
use price_scount.Broker.Connect.Retry.{Exact, connect_with_retry-Exact}
use price_scount.Broker.Queues.{Declaring, declare_notify_queues, millis32, notify_retry_delay}
use price_scount.Broker.Queues.Channels.{NoLeak, declare_notify_queues-NoLeak}
use price_scount.Broker.Life.{dialed, publishes, closes, Reach-IsSettled}

abbrev in_time : DeadlineTry
in_time = record { now = 100; limit = none; is_set = true; expired = false }

-- A setup that goes through, with the numbers that it is given.
abbrev setup_of : ℕ → Setup
setup_of n = record {
  socket = n;
  connection = n + 1;
  channel = n + 2;
  dials = true;
  register = in_time;
  handshake = true;
  first = in_time;
  opens_channel = true;
  second = in_time;
  confirm_mode = true;
  third = in_time;
  in_time = true;
  expired = false;
  closes = false;
}

-- A dial that goes through where it may.
abbrev dialing_of : Bool → Dialing
dialing_of b = record {
  connection = 1;
  channel = 2;
  dials = b;
  opens_channel = true;
  qos = true;
  setup = setup_of 10;
}

-- The connection after the dial.
abbrev fresh : Connection
fresh = (dial (dialing_of true) (undialed (dialing_of true))).1

abbrev attempt_of : Wait → Attempt
attempt_of w = record {
  gate = true;
  channel_is_closed = false;
  closes_early = false;
  closes_late = false;
  now = 200;
  limit = some 202;
  is_set = true;
  accepted = true;
  wait = w;
  expired = false;
}

-- The first attempt loses its channel, the redial succeeds, and the second one is confirmed.
abbrev redialed : Call
redialed = record {
  first = attempt_of confirms_closed;
  expired = false;
  health = record { connection_is_closed = false; channel_is_closed = true };
  redialing = record {
    gate = true;
    health = record { connection_is_closed = false; channel_is_closed = true };
    closes_early = false;
    closes_late = false;
    expired = false;
    setup = setup_of 20;
  };
  second = attempt_of (then_returns_closed (confirm true none));
}

returned_message :
    await_confirm (then_returned "NO_ROUTE" (confirm true none)) ≡ failed (unroutable "NO_ROUTE")
unfolding await_confirm
returned_message = refl

refused_message : await_confirm (confirm false none) ≡ failed nacked
unfolding await_confirm
refused_message = refl

redialed_twice : (publish redialed "notify.tasks" (some "{}") fresh).0 ≡ done tt
unfolding publish publish_on send_on conclude publish_again redial replace_publisher adopt dial
    open_publisher connect_publisher open_channel close retire_publisher is_dead await_confirm
    register_publisher_socket
redialed_twice = refl

-- A write deadline that the context brings forward.
earlier_deadline : io_deadline 200 (some 202) ≡ 202
unfolding io_deadline
earlier_deadline = refl

publish-Outcome_example :
    Outcome "notify.tasks" "{}" redialed fresh (publish redialed "notify.tasks" (some "{}") fresh)
publish-Outcome_example = publish-Outcome redialed "notify.tasks" "{}" fresh

Reach-IsSettled_example : IsSettled (close (publish redialed "notify.tasks" (some "{}") fresh).1)
unfolding new_connection dial open_publisher connect_publisher open_channel
Reach-IsSettled_example =
    Reach-IsSettled
      (closes (publishes redialed "notify.tasks" (some "{}") (dialed (dialing_of true) refl)))

-- The third dial goes through.
abbrev third_time : ℕ → Dialing
third_time i = dialing_of (ltb 2 i)

connected_at_third : (connect_with_retry third_time 10).slept ≡ 6
unfolding connect_with_retry connect_from new_connection dial open_publisher connect_publisher
    open_channel
connected_at_third = refl

connect_with_retry-Exact_example : Exact third_time 10 (connect_with_retry third_time 10)
connect_with_retry-Exact_example = connect_with_retry-Exact third_time 10

abbrev declaring : Declaring
declaring = record {
  channel = 5;
  opens_channel = true;
  task_is_ok = true;
  retry_is_ok = true;
  dead_is_ok = true;
}

declare_notify_queues-NoLeak_example :
    NoLeak fresh
      (declare_notify_queues declaring "notify.tasks" "notify.retry" "notify.dead"
        notify_retry_delay fresh).1
    × (((e : BrokerError) × ((declare_notify_queues declaring "notify.tasks" "notify.retry"
              "notify.dead" notify_retry_delay fresh).0
            ≡ failed e))
        ⊎ (((declare_notify_queues declaring "notify.tasks" "notify.retry" "notify.dead"
                notify_retry_delay fresh).0
              ≡ done tt)
            × ((declare_notify_queues declaring "notify.tasks" "notify.retry" "notify.dead"
                  notify_retry_delay fresh).1.trace
                ≡ channel_closed 5
                  ∷ declared "notify.dead" none
                  ∷ declared "notify.retry" (some (millis32 notify_retry_delay, "notify.tasks"))
                  ∷ declared "notify.tasks" none
                  ∷ channel_opened 5
                  ∷ fresh.trace)))
declare_notify_queues-NoLeak_example =
    declare_notify_queues-NoLeak "notify.tasks" "notify.retry" "notify.dead" notify_retry_delay
      declaring fresh
