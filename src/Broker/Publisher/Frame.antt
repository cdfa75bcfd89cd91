-- ===== src/Broker/Publisher/Frame.antt =====
-- shared/pkg/broker/rabbitmq.go: openPublisher and the state around it.
use price_scount.Base.{
  ℕ, suc, ◌-◌, ◌≡◌, inl, inr, true, none, some, List, [], ◌∷◌, ◌==◌, String, if◌then◌else◌, arith,
  Bool-cases,
}
use price_scount.Broker.{
  done, Effect, opened, published, confirm_taken, stream_ended, Connection, close,
}
use price_scount.Broker.Publisher.{Setup, connect_publisher, open_channel, open_publisher}

-- The messages that the publisher channels accepted, newest first: queue and body.
abbrev pub messages : List Effect → List (String × String)
messages [] = []
messages (published k queue body ∷ t) = (queue, body) ∷ messages t
messages (_ ∷ t) = messages t

abbrev pub publications : Connection → List (String × String)
publications c = messages c.trace

-- The messages of a channel whose confirmation has not been taken and may still come.
abbrev pub pending : ℕ → List Effect → ℕ
pending k [] = 0
pending k (opened j ∷ t) = let rest = pending k t in if j == k then 0 else rest
pending k (published j queue body ∷ t) = let rest = pending k t in if j == k then suc rest else rest
pending k (confirm_taken j ∷ t) = let rest = pending k t in if j == k then rest - 1 else rest
pending k (stream_ended j ∷ t) = let rest = pending k t in if j == k then 0 else rest
pending k (_ ∷ t) = pending k t

pub close-publications : (c : Connection) → publications (close c) ≡ publications c
unfolding close
close-publications c = ground arith

pub close-frame :
    (k : ℕ) (c : Connection)
    → ((close c).closed ≡ true) × (pending k (close c).trace ≡ pending k c.trace)
unfolding close
close-frame k c = ground arith

pub close-idle : (c : Connection) → c.publish_ch ≡ none → (close c).publish_ch ≡ none
unfolding close
close-idle c h = ground (arith, h)

module _ (s : Setup) where
  connect-frame :
      (c : Connection)
      → (publications (connect_publisher s c).1 ≡ publications c)
        × ((connect_publisher s c).1.closed ≡ c.closed)
        × ((connect_publisher s c).1.publish_ch ≡ c.publish_ch)
  unfolding connect_publisher
  connect-frame c = ground arith

  open_channel-publications :
      (c : Connection) → (publications (open_channel s c).1 ≡ publications c)
  unfolding open_channel
  open_channel-publications c = elim (Bool-cases s.closes) [
    | inl e ↦ ground (arith, e, close-publications (record c { pub_net_conn = some s.socket }))
    | inr e ↦ ground (arith, e)
  ]

  connect-pending :
      (k : ℕ) (c : Connection) → (pending k (connect_publisher s c).1.trace ≡ pending k c.trace)
  unfolding connect_publisher
  connect-pending k c = ground arith

  open_channel-idle :
      (c : Connection)
      → c.publish_ch ≡ none
      → ((open_channel s c).1.publish_ch ≡ none)
        × (c.closed ≡ true → (open_channel s c).1.closed ≡ true)
        × ((open_channel s c).0 ≡ done tt → pending s.channel (open_channel s c).1.trace ≡ 0)
  unfolding open_channel
  open_channel-idle c h = elim (Bool-cases s.closes) [
    | inl e ↦ ground (
      arith,
      e,
      h,
      close-idle (record c { pub_net_conn = some s.socket }),
      close-frame s.channel (record c { pub_net_conn = some s.socket }),
    )
    | inr e ↦ ground (arith, e, h)
  ]

  pub open_publisher-publications :
      (c : Connection) → publications (open_publisher s c).1 ≡ publications c
  unfolding open_publisher
  open_publisher-publications c =
      ground (arith, connect-frame c, open_channel-publications (connect_publisher s c).1)

  pub open_publisher-idle :
      (c : Connection)
      → c.publish_ch ≡ none
      → ((open_publisher s c).1.publish_ch ≡ none)
        × (c.closed ≡ true → (open_publisher s c).1.closed ≡ true)
  unfolding open_publisher
  open_publisher-idle c h =
      ground (arith, h, connect-frame c, open_channel-idle (connect_publisher s c).1)

  pub open_publisher-made :
      (c : Connection) (made : ℕ × ℕ)
      → c.publish_ch ≡ none
      → (open_publisher s c).0 ≡ done made
      → ((open_publisher s c).1.confirms ≡ some made.1)
        × ((open_publisher s c).1.returns ≡ some made.1)
        × (pending made.1 (open_publisher s c).1.trace ≡ 0)
  unfolding open_publisher
  open_publisher-made c made h e =
      ground (arith, h, e, connect-frame c, open_channel-idle (connect_publisher s c).1)
