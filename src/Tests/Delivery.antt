-- ===== src/Tests/Delivery.antt =====
-- Runs of the outbox.
use price_scount.Base.{◌⊎◌, ◌≤◌, exists, update, true, false, List, [], ◌∷◌, ◌≡◌, refl, arith, All}
use price_scount.Contracts.{notify_task, queue_notify_tasks}
use price_scount.Env.{Uuid}
use price_scount.Outbox.Table.{Row, EventKey, has_key, key_eq, new_row}
use price_scount.Outbox.Lease.{
  gateway, scheduler, claim, is_among, can_claim, mark_published, retry,
}
use price_scount.Outbox.Lease.Exclusive.{claim-exclusive, stale_lease}
use price_scount.Outbox.Worker.{Delivery, delivered, turn}
use price_scount.Outbox.Worker.Turn.{turn-exact, settled}
use price_scount.Outbox.Lease.{Event, event_of}

abbrev row : Row
row = new_row 10 (EventKey.alert 3 1) queue_notify_tasks (
    notify_task (record {
      task_id = "task";
      channel = "telegram";
      target = "77";
      text = "text";
      direction = "up";
      not_before = 0;
    }))

abbrev rows : List Row
rows = row ∷ []

abbrev draw : EventKey → Uuid
draw k = 8

claim-exclusive_example :
    All
      (λ e. exists (λ f. key_eq e.id f.id) (claim gateway 20 1 60 draw rows).0 ≡ false)
      (claim gateway 70 5 60 (λ k. 9) (claim gateway 20 1 60 draw rows).1).0
claim-exclusive_example = claim-exclusive gateway 20 1 60 70 5 60 draw (λ k. 9) rows (omega arith)

stale_lease_example :
    ((mark_published scheduler 30 (EventKey.alert 3 1) 5 (claim scheduler 20 1 60 draw rows).1).1
      ≡ (claim scheduler 20 1 60 draw rows).1)
    × ((retry scheduler 30
          (EventKey.alert 3 1)
          5
          "refused"
          1
          (claim scheduler 20 1 60 draw rows).1).1
        ≡ (claim scheduler 20 1 60 draw rows).1)
stale_lease_example =
    stale_lease scheduler 20 1 60 30 draw rows (EventKey.alert 3 1) 5 "refused" 1 refl (λ k. refl)

abbrev succeeds : Event → Delivery
succeeds e = delivered

turn-exact_example :
    ((turn gateway 20 25 draw succeeds rows ≡ rows)
      × All (λ s. can_claim gateway 20 s ≡ false) rows)
    ⊎ ((r : Row) × (has_key r.event_key rows ≡ true)
        × (can_claim gateway 20 r ≡ true)
        × All (λ s. (can_claim gateway 20 s ≡ false) ⊎ (r.created_at ≤ s.created_at)) rows
        × (turn gateway 20 25 draw succeeds rows
            ≡ update (is_among (r ∷ [])) (settled gateway 25 (succeeds (event_of draw r))) rows))
turn-exact_example =
    turn-exact gateway 20 25 draw succeeds rows ((refl, (λ e. refl, tt), omega arith), tt)
