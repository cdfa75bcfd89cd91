-- ===== src/Broker/Connect.antt =====
-- shared/pkg/broker/rabbitmq.go: NewConnection and ConnectWithRetry.
pub mod Retry
use price_scount.Base.{ℕ, zero, suc, ◌+◌, ◌*◌, Bool, true, false, not, Option, none, some, []}
use price_scount.Broker.{
  BrokerError, dial_failed, channel_failed, qos_failed, connection_closed, gave_up, never_tried,
  Answer, done, failed, connection_closed_by, channel_opened, channel_closed, Connection, Section,
  ◌>>=◌, ◌>>◌, note, then_do, need, on_failure, unchanged,
}
use price_scount.Broker.Publisher.{Setup, open_publisher}

-- What one dial meets: the consumer's connection and channel, and the setup of the publisher.
pub record Dialing : Type 0 where
  pub connection : ℕ
  pub channel : ℕ
  pub dials : Bool
  pub opens_channel : Bool
  pub qos : Bool
  pub setup : Setup

module _ (d : Dialing) where
  abbrev pub close_consumer : Connection → Connection
  close_consumer c = note (connection_closed_by d.connection) (note (channel_closed d.channel) c)

  abbrev pub close_all : Connection → Connection
  close_all c = close_consumer (note (channel_closed d.setup.channel) c)

  -- The last section of dial: what was opened is stored.
  abbrev pub store_all : ℕ × ℕ → Connection → Connection
  store_all (pub_conn, publish_ch) c = record c {
    conn = some d.connection;
    ch = some d.channel;
    pub_conn = some pub_conn;
    publish_ch = some publish_ch;
  }

  unfoldable pub dial : Section (Unit {0})
  dial = do
    need d.dials dial_failed unchanged
    need d.opens_channel channel_failed (note (connection_closed_by d.connection))
    then_do (note (channel_opened d.channel))
    need d.qos qos_failed close_consumer
    made ← on_failure close_consumer (open_publisher d.setup)
    λ c. need (not c.closed) connection_closed close_all c
    then_do (store_all made)

  -- The connection before it is dialed.
  abbrev pub undialed : Connection
  undialed = record {
    conn = none;
    pub_conn = none;
    pub_net_conn = none;
    ch = none;
    publish_ch = none;
    confirms = none;
    returns = none;
    closed = false;
    trace = [];
  }

  unfoldable pub new_connection : Answer Connection
  new_connection =
      let (answer, c) = dial undialed in elim answer [ failed e ↦ failed e | done _ ↦ done c ]

pub record Connected : Type 0 where
  pub answer : Answer Connection
  pub attempts : ℕ
  -- Seconds.
  pub slept : ℕ

abbrev pub give_up : Option BrokerError → BrokerError
give_up none = never_tried
give_up (some e) = gave_up e

abbrev pub after_sleep : ℕ → Connected → Connected
after_sleep wait rest = record {
  answer = rest.answer;
  attempts = suc rest.attempts;
  slept = wait + rest.slept;
}

module _ (dialing : ℕ → Dialing) where
  -- The loop with the rounds left, the number of the attempt and the last error.
  unfoldable pub connect_from : ℕ → ℕ → Option BrokerError → Connected
  connect_from zero i last = record { answer = failed (give_up last); attempts = 0; slept = 0 }
  connect_from (suc left) i last = elim (new_connection (dialing i)) [
    | done c ↦ record { answer = done c; attempts = 1; slept = 0 }
    | failed e ↦ after_sleep (i * 2) (connect_from left (i + 1) (some e))
  ]

  unfoldable pub connect_with_retry : ℕ → Connected
  connect_with_retry max_attempts = connect_from max_attempts 1 none
