-- ===== src/Broker.antt =====
-- shared/pkg/broker/rabbitmq.go: the connection to RabbitMQ. The AMQP library and the sockets are not
-- the program's: what they answer are arguments, and what the program asks of them is written to a
-- trace, newest first. A section under the mutex is one step; where another goroutine may call Close
-- between two sections, an argument says whether it does.
pub mod Publisher
pub mod Publish
pub mod Connect
pub mod Queues
pub mod Life
use price_scount.Base.{
  ℕ, suc, ◌+◌, ◌-◌, String, Bool, true, false, not, ◌||◌, Option, none, some, List, [], ◌∷◌, ◌==◌,
  ltb, if◌then◌else◌,
}

-- The errors of the package. `cancelled` is the error of the context, and `unroutable` has the text
-- of the returned message.
pub data BrokerError : Type 0 where
  json_failed dial_failed channel_failed qos_failed confirm_failed setup_timeout : BrokerError
  deadline_failed cancelled connection_closed unavailable publish_failed : BrokerError
  confirms_lost nacked declare_failed consume_failed : BrokerError
  unroutable : String → BrokerError
  -- What ConnectWithRetry makes of the last error, and of none.
  gave_up : BrokerError → BrokerError
  never_tried : BrokerError

pub data Answer (A : Type 0) : Type 0 where
  done : A → Answer A
  failed : BrokerError → Answer A

-- A call of the library. Sockets, connections and channels go by numbers.
pub data Effect : Type 0 where
  socket_closed connection_closed_by : ℕ → Effect
  -- A consumer channel that is opened or closed, and a queue that it consumes.
  channel_opened channel_closed : ℕ → Effect
  consuming : ℕ → String → Effect
  -- A socket and its deadline.
  limited : ℕ → ℕ → Effect
  unlimited : ℕ → Effect
  -- A publisher channel that was opened.
  opened : ℕ → Effect
  -- A message that the channel accepted, with its queue and body.
  published : ℕ → String → String → Effect
  -- A confirmation taken from the stream of a channel, and the end of that stream.
  confirm_taken stream_ended : ℕ → Effect
  -- A durable queue, with its time to live and the queue that its expired messages go to.
  declared : String → Option (ℕ × String) → Effect

pub record Connection : Type 0 where
  pub conn : Option ℕ
  pub pub_conn : Option ℕ
  pub pub_net_conn : Option ℕ
  pub ch : Option ℕ
  pub publish_ch : Option ℕ
  -- The channel whose confirmations and returns the program listens to.
  pub confirms : Option ℕ
  pub returns : Option ℕ
  pub closed : Bool
  pub trace : List Effect

-- A section that may fail; the state stays as it was left.
abbrev pub Section : Type 0 → Type 0
Section A = Connection → Answer A × Connection

infixl 5 ◌>>=◌ ◌>>◌
abbrev pub ◌>>=◌ : {A B : Type 0} → Section A → (A → Section B) → Section B
◌>>=◌ m f c = let (r, c') = m c in elim r [ failed e ↦ (failed e, c') | done a ↦ f a c' ]

abbrev pub ◌>>◌ : {A B : Type 0} → Section A → Section B → Section B
m >> k = m >>= λ _. k

abbrev pub returning : {A : Type 0} → A → Section A
returning a c = (done a, c)

abbrev pub note : Effect → Connection → Connection
note e c = record c { trace = e ∷ c.trace }

abbrev pub then_do : (Connection → Connection) → Section (Unit {0})
then_do f c = (done tt, f c)

-- A call that fails unless the library answers `true`, with what is closed on the way out.
abbrev pub need : Bool → BrokerError → (Connection → Connection) → Section (Unit {0})
need true e leave c = (done tt, c)
need false e leave c = (failed e, leave c)

-- What a failure closes on the way out, and what is done in any case.
abbrev pub on_failure : {A : Type 0} → (Connection → Connection) → Section A → Section A
on_failure leave m c =
    let (r, c') = m c in elim r [ failed e ↦ (failed e, leave c') | done a ↦ (done a, c') ]

abbrev pub finally : {A : Type 0} → (Connection → Connection) → Section A → Section A
finally leave m c = let (r, c') = m c in (r, leave c')

abbrev pub unchanged : Connection → Connection
unchanged c = c

-- setWriteDeadline with the zero time, on the socket that is there.
abbrev pub clear_deadline : Option ℕ → Connection → Connection
clear_deadline none c = c
clear_deadline (some s) c = note (unlimited s) c

-- Closes a socket and a connection, where there are any.
abbrev pub drop_socket : Option ℕ → Connection → Connection
drop_socket none c = c
drop_socket (some s) c = note (socket_closed s) c

abbrev pub drop_connection : Option ℕ → Connection → Connection
drop_connection none c = c
drop_connection (some k) c = note (connection_closed_by k) c

-- The assignment that takes the publisher out of the connection.
abbrev pub no_publisher : Connection → Connection
no_publisher c = record c {
  pub_conn = none;
  publish_ch = none;
  confirms = none;
  returns = none;
  pub_net_conn = none;
}

-- retirePublisher.
unfoldable pub retire_publisher : ℕ → Connection → Connection
retire_publisher channel c = elim c.publish_ch [
  | none ↦ c
  | some held ↦
      if held == channel
      then drop_connection c.pub_conn (drop_socket c.pub_net_conn (no_publisher c))
      else c
]

unfoldable pub close : Connection → Connection
close c =
    if c.closed
    then c
    else (drop_connection c.conn (
        drop_connection c.pub_conn
          (drop_socket c.pub_net_conn (record (no_publisher c) { closed = true }))))

-- Close by another goroutine, if it comes here.
abbrev pub closing : Bool → Connection → Connection
closing true c = close c
closing false c = c

-- IsClosed of the publisher's connection and of its channel.
pub record Health : Type 0 where
  pub connection_is_closed : Bool
  pub channel_is_closed : Bool

abbrev pub is_lost : Option ℕ → Bool → Bool
is_lost none b = true
is_lost (some k) b = b

-- The test that isDead and redial share: no publisher connection or channel that is open.
abbrev pub lacks_publisher : Health → Connection → Bool
lacks_publisher h c =
    is_lost c.pub_conn h.connection_is_closed || is_lost c.publish_ch h.channel_is_closed

-- isDead.
unfoldable pub is_dead : Health → Connection → Bool
is_dead h c = c.closed || lacks_publisher h c

-- The deadline of a write or of the setup: five seconds from now, or the context's if that is
-- earlier. Times count seconds.
unfoldable pub io_deadline : ℕ → Option ℕ → ℕ
io_deadline now none = now + 5
io_deadline now (some limit) = if ltb limit (now + 5) then limit else now + 5
