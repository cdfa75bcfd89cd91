-- ===== src/Broker/Publish/Confirmed.antt =====
-- shared/pkg/broker/rabbitmq.go: Publish and the confirmations that it waits for.
use price_scount.Base.{◌≡◌, refl, String, Bool, true, false, none, some, ◌↔◌, arith}
use price_scount.Broker.{done}
use price_scount.Broker.Publish.{
  Wait, confirm, confirms_closed, context_done, then_returned, then_returns_closed, await_loop,
  await_confirm,
}

-- The wait ends with a positive confirmation and no message comes back, neither before it nor with
-- it. Once the stream of returns has ended, nothing is read from it.
abbrev pub AckedWhile : Bool → Wait → Type 0
AckedWhile true (confirm is_ack ready) = (is_ack ≡ true) × (ready ≡ none)
AckedWhile false (confirm is_ack ready) = is_ack ≡ true
AckedWhile is_open confirms_closed = true ≡ false
AckedWhile is_open context_done = true ≡ false
AckedWhile true (then_returned text w) = true ≡ false
AckedWhile false (then_returned text w) = AckedWhile false w
AckedWhile is_open (then_returns_closed w) = AckedWhile false w

abbrev pub Acked : Wait → Type 0
Acked w = AckedWhile true w

returned-fails :
    (text : String) (is_open : Bool) (w : Wait)
    → await_loop (some text) is_open w ≡ done tt
    → true ≡ false
unfolding await_loop
returned-fails text true (confirm a r) h = ground arith
returned-fails text false (confirm a r) h = ground arith
returned-fails text is_open confirms_closed h = ground arith
returned-fails text is_open context_done h = ground arith
returned-fails text true (then_returned t w) h = returned-fails t false w h
returned-fails text false (then_returned t w) h = returned-fails text false w h
returned-fails text true (then_returns_closed w) h = returned-fails text false w h
returned-fails text false (then_returns_closed w) h = returned-fails text false w h

await_loop-Acked :
    (is_open : Bool) (w : Wait) → (await_loop none is_open w ≡ done tt) → AckedWhile is_open w
unfolding await_loop
await_loop-Acked true (confirm true none) h = (refl, refl)
await_loop-Acked true (confirm true (some t)) h = absurd (ground arith)
await_loop-Acked true (confirm false none) h = absurd (ground arith)
await_loop-Acked true (confirm false (some t)) h = absurd (ground arith)
await_loop-Acked false (confirm true r) h = refl
await_loop-Acked false (confirm false r) h = absurd (ground arith)
await_loop-Acked is_open confirms_closed h = absurd (ground arith)
await_loop-Acked is_open context_done h = absurd (ground arith)
await_loop-Acked true (then_returned t w) h = returned-fails t false w h
await_loop-Acked false (then_returned t w) h = await_loop-Acked false w h
await_loop-Acked true (then_returns_closed w) h = await_loop-Acked false w h
await_loop-Acked false (then_returns_closed w) h = await_loop-Acked false w h

Acked-await_loop :
    (is_open : Bool) (w : Wait) → AckedWhile is_open w → await_loop none is_open w ≡ done tt
unfolding await_loop
Acked-await_loop true (confirm a r) h = ground (arith, h)
Acked-await_loop false (confirm a r) h = ground (arith, h)
Acked-await_loop is_open confirms_closed h = absurd (ground arith)
Acked-await_loop is_open context_done h = absurd (ground arith)
Acked-await_loop true (then_returned t w) h = absurd (ground arith)
Acked-await_loop false (then_returned t w) h = Acked-await_loop false w h
Acked-await_loop true (then_returns_closed w) h = Acked-await_loop false w h
Acked-await_loop false (then_returns_closed w) h = Acked-await_loop false w h

-- The wait for a confirmation succeeds exactly when a positive one comes and the message is not
-- returned.
pub await_confirm-eq-done : (w : Wait) → (await_confirm w ≡ done tt) ↔ Acked w
unfolding await_confirm
await_confirm-eq-done w = (await_loop-Acked true w, Acked-await_loop true w)
