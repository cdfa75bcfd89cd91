-- ===== src/Broker/Publish/Settled.antt =====
-- shared/pkg/broker/rabbitmq.go: the confirmations that are outstanding between the operations.
use mathlib.Core.Path.{subst}
use price_scount.Base.{
  ℕ, ◌≤◌, ◌≡◌, sym, inl, inr, String, Bool, true, false, ◌||◌, Option, none, some, arith,
  Bool-cases, Option-cases, ==_refl,
}
use price_scount.Broker.{
  published, limited, Connection, note, io_deadline, clear_deadline, retire_publisher, close,
  closing,
}
use price_scount.Broker.Publisher.Frame.{pending}
use price_scount.Broker.Publish.{
  Wait, confirm, confirms_closed, context_done, then_returned, then_returns_closed, taken,
  is_cancelled, Attempt, conclude, send_on, publish_on,
}
use price_scount.Broker.Publish.Attempts.{publish_on-cases}

-- Where a publisher channel is held, the connection is open, the program listens to the streams of
-- that channel, and no confirmation of an earlier message can still arrive on it.
abbrev pub IsSettled : Connection → Type 0
IsSettled c =
    (k : ℕ)
    → c.publish_ch ≡ some k
    → (c.closed ≡ false) × (c.confirms ≡ some k) × (c.returns ≡ some k) × (pending k c.trace ≡ 0)

-- While a message is on its way on channel `k`, one confirmation may be outstanding.
abbrev Sending : ℕ → Connection → Type 0
Sending k c =
    (j : ℕ)
    → c.publish_ch ≡ some j
    → (j ≡ k)
      × (c.closed ≡ false)
      × (c.confirms ≡ some j)
      × (c.returns ≡ some j)
      × (pending k c.trace ≤ 1)

pub idle-IsSettled : (c : Connection) → c.publish_ch ≡ none → IsSettled c
idle-IsSettled c h k e = absurd (ground (arith, h, e))

pub close-IsSettled : (c : Connection) → IsSettled c → IsSettled (close c)
unfolding close
close-IsSettled c h k e = ground (arith, e, h k)

closing-IsSettled : (b : Bool) (c : Connection) → IsSettled c → IsSettled (closing b c)
closing-IsSettled true c h = close-IsSettled c h
closing-IsSettled false c h = h

-- Close leaves no other channel than the one that was held.
close-same :
    (k : ℕ) (c : Connection)
    → c.publish_ch ≡ some k
    → (j : ℕ) → (close c).publish_ch ≡ some j
    → j ≡ k
unfolding close
close-same k c h j e = ground (arith, h, e)

closing-same :
    (b : Bool) (k : ℕ) (c : Connection)
    → c.publish_ch ≡ some k
    → (j : ℕ) → (closing b c).publish_ch ≡ some j
    → j ≡ k
closing-same true k c h j e = close-same k c h j e
closing-same false k c h j e = ground (arith, h, e)

retire-IsSettled :
    (k : ℕ) (c : Connection)
    → ((j : ℕ) → c.publish_ch ≡ some j → j ≡ k)
    → IsSettled (retire_publisher k c)
retire-IsSettled k c h = elim (Option-cases c.publish_ch) [
  | inl gone ↦
      idle-IsSettled (retire_publisher k c) (unfold retire_publisher in ground (arith, gone))
  | inr (j, held) ↦
      idle-IsSettled (retire_publisher k c)
        (unfold retire_publisher in ground (arith, held, h j held, ==_refl k))
]

close-Sending : (k : ℕ) (c : Connection) → Sending k c → Sending k (close c)
unfolding close
close-Sending k c h j e = ground (arith, e, h j)

closing-Sending : (b : Bool) (k : ℕ) (c : Connection) → Sending k c → Sending k (closing b c)
closing-Sending true k c h = close-Sending k c h
closing-Sending false k c h = h

clear-Sending :
    (s : Option ℕ) (k : ℕ) (c : Connection) → Sending k c → Sending k (clear_deadline s c)
clear-Sending none k c h = h
clear-Sending (some s) k c h = h

-- The wait takes the confirmation, or ends with the context.
taken-Sending :
    (k : ℕ) (w : Wait) (c : Connection)
    → Sending k c
    → Sending k (taken k w c) × (is_cancelled w ≡ false → IsSettled (taken k w c))
taken-Sending k (confirm a r) c h =
    (λ j e. ground (arith, e, h j, ==_refl k), λ n j e. ground (arith, e, h j, ==_refl k))
taken-Sending k confirms_closed c h =
    (λ j e. ground (arith, e, h j, ==_refl k), λ n j e. ground (arith, e, h j, ==_refl k))
taken-Sending k context_done c h = (h, λ n. absurd (ground (arith, n)))
taken-Sending k (then_returned t w) c h = taken-Sending k w c h
taken-Sending k (then_returns_closed w) c h = taken-Sending k w c h

conclude-IsSettled :
    (a : Attempt) (k : ℕ) (c : Connection) → Sending k c → IsSettled (conclude a k c).1
conclude-IsSettled a k c h =
    let cleared : Connection = clear_deadline c.pub_net_conn c in
    let before : Connection = closing a.closes_late cleared in
    let on_its_way : Sending k before =
      closing-Sending a.closes_late k cleared (clear-Sending c.pub_net_conn k c h) in
    let waited : Connection = taken k a.wait before in
    elim (Bool-cases (is_cancelled a.wait || a.expired)) [
      | inl over ↦
          let step : (conclude a k c).1 ≡ retire_publisher k waited =
            unfold conclude in ground (arith, over) in
          subst IsSettled (sym step) (
            retire-IsSettled k waited (λ j e. ((taken-Sending k a.wait before on_its_way).0 j e).0))
      | inr kept ↦
          let step : (conclude a k c).1 ≡ waited = unfold conclude in ground (arith, kept) in
          subst IsSettled (sym step)
            ((taken-Sending k a.wait before on_its_way).1 (ground (arith, kept)))
    ]

module _ (queue : String) (body : String) where
  sent-Sending :
      (k s t : ℕ) (c : Connection)
      → IsSettled c
      → ((j : ℕ) → c.publish_ch ≡ some j → j ≡ k)
      → Sending k (note (published k queue body) (note (limited s t) c))
  sent-Sending k s t c h same j e = ground (arith, e, h j, same j, ==_refl k)

  send_on-IsSettled :
      (a : Attempt) (k : ℕ) (c : Connection)
      → IsSettled c
      → ((j : ℕ) → c.publish_ch ≡ some j → j ≡ k)
      → IsSettled (send_on queue body a k c).1
  send_on-IsSettled a k c h same = elim (Option-cases c.pub_net_conn) [
    | inl gone ↦
        let step : (send_on queue body a k c).1 ≡ retire_publisher k c =
          unfold send_on in ground (arith, gone) in
        subst IsSettled (sym step) (retire-IsSettled k c same)
    | inr (s, held) ↦
        let set : Connection = note (limited s (io_deadline a.now a.limit)) c in
        let sent : Connection = note (published k queue body) set in
        elim (Bool-cases a.is_set) [
          | inr e ↦
              let step : (send_on queue body a k c).1 ≡ retire_publisher k c =
                unfold send_on in ground (arith, held, e) in
              subst IsSettled (sym step) (retire-IsSettled k c same)
          | inl e ↦ elim (Bool-cases a.accepted) [
            | inr f ↦
                let step : (send_on queue body a k c).1 ≡ retire_publisher k set =
                  unfold send_on in ground (arith, held, e, f) in
                subst IsSettled (sym step) (retire-IsSettled k set same)
            | inl f ↦
                let step : (send_on queue body a k c).1 ≡ (conclude a k sent).1 =
                  unfold send_on in ground (arith, held, e, f) in
                subst IsSettled (sym step) (
                  conclude-IsSettled a k sent
                    (sent-Sending k s (io_deadline a.now a.limit) c h same))
          ]
        ]
  ]

  pub publish_on-IsSettled :
      (a : Attempt) (c : Connection) → IsSettled c → IsSettled (publish_on queue body a c).1
  publish_on-IsSettled a c h = elim (publish_on-cases queue body a c) [
    | inl (e, step) ↦
        let same : (publish_on queue body a c).1 ≡ c = ground (arith, step) in
        subst IsSettled (sym same) h
    | inr (k, held, step) ↦
        let before : Connection = closing a.closes_early c in
        let next : (publish_on queue body a c).1 ≡ (send_on queue body a k before).1 =
          ground (arith, step) in
        subst IsSettled (sym next) (
          send_on-IsSettled a k before (closing-IsSettled a.closes_early c h)
            (closing-same a.closes_early k c held))
  ]
