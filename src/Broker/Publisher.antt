-- ===== src/Broker/Publisher.antt =====
-- shared/pkg/broker/rabbitmq.go: openPublisher, with the registration of its socket.
pub mod Frame
use price_scount.Base.{ℕ, Bool, true, false, not, ◌&&◌, Option, none, some, if◌then◌else◌}
use price_scount.Broker.{
  BrokerError, dial_failed, channel_failed, confirm_failed, setup_timeout, deadline_failed,
  cancelled, Answer, done, failed, socket_closed, connection_closed_by, opened, limited, unlimited,
  Connection, Section, ◌>>=◌, ◌>>◌, returning, note, then_do, need, unchanged, closing, io_deadline,
}

-- SetDeadline of setupDeadline, the time and the context's deadline, and whether ctx.Err() is set
-- afterwards.
pub record DeadlineTry : Type 0 where
  pub now : ℕ
  pub limit : Option ℕ
  pub is_set : Bool
  pub expired : Bool

-- What one setup of a publisher meets.
pub record Setup : Type 0 where
  -- The socket, the connection and the channel that the library hands out.
  pub socket : ℕ
  pub connection : ℕ
  pub channel : ℕ
  pub dials : Bool
  pub register : DeadlineTry
  pub handshake : Bool
  pub first : DeadlineTry
  pub opens_channel : Bool
  pub second : DeadlineTry
  pub confirm_mode : Bool
  pub third : DeadlineTry
  -- Neither the context nor the timer of the setup fired, and ctx.Err() at the end.
  pub in_time : Bool
  pub expired : Bool
  -- Close by another goroutine once the socket is stored.
  pub closes : Bool

module _ (s : Setup) where
  abbrev pub leave_socket : Connection → Connection
  leave_socket c = note (socket_closed s.socket) c

  abbrev pub leave_both : Connection → Connection
  leave_both c = note (connection_closed_by s.connection) (note (socket_closed s.socket) c)

  -- setupDeadline of a socket that is there.
  abbrev pub setup_deadline : DeadlineTry → (Connection → Connection) → Section (Unit {0})
  setup_deadline d leave = do
    need d.is_set deadline_failed leave
    then_do (note (limited s.socket (io_deadline d.now d.limit)))
    need (not d.expired) cancelled leave

  -- registerPublisherSocket.
  unfoldable pub register_publisher_socket : Section (Unit {0})
  register_publisher_socket = do
    need (not s.register.expired) cancelled leave_socket
    need s.register.is_set deadline_failed leave_socket
    then_do (note (limited s.socket (io_deadline s.register.now none)))

  -- The handshake. If it fails, the socket is the library's to close.
  unfoldable pub connect_publisher : Section (Unit {0})
  unfolding register_publisher_socket
  connect_publisher = do
    need s.dials dial_failed unchanged
    register_publisher_socket
    need s.handshake dial_failed unchanged
    setup_deadline s.first leave_socket

  -- The channel, in confirm mode, on the stored socket.
  unfoldable pub open_channel : Section (Unit {0})
  open_channel = do
    then_do (λ c. closing s.closes (record c { pub_net_conn = some s.socket }))
    need s.opens_channel channel_failed leave_both
    then_do (note (opened s.channel))
    setup_deadline s.second leave_both
    need s.confirm_mode confirm_failed leave_both
    setup_deadline s.third leave_both
    need s.in_time (if s.expired then cancelled else setup_timeout) leave_both

  -- openPublisher: the new connection and channel, whose streams are stored.
  unfoldable pub open_publisher : Section (ℕ × ℕ)
  open_publisher = do
    connect_publisher
    open_channel
    then_do (note (unlimited s.socket))
    then_do (λ c. record c { confirms = some s.channel; returns = some s.channel })
    returning (s.connection, s.channel)
