-- ===== src/Scheduler/Consumer/Again.antt =====
-- Deliveries of track requests that come again.
use price_scount.Base.{
  ℕ, Option, none, some, str_eq, ◌≡◌, ◌≢◌, refl, arith, ok, Result-cases, Bool-cases, inl, inr,
}
use price_scount.Env.{Env, Uuid}
use price_scount.Contracts.{TrackRequest}
use price_scount.Delivery.{ack}
use price_scount.Scheduler.Db.{SchedulerDb}
use price_scount.Scheduler.Snapshot.Latest.{apply_snapshot_again}
use price_scount.Scheduler.Force.Once.{enqueue_force_again}
use price_scount.Scheduler.Consumer.{route, handle}

module _ (env : Env) (now later : ℕ) (id id' : Uuid) where
  route_again :
      (r : TrackRequest) (db db' : SchedulerDb)
      → route env now id r db ≡ ok (tt, db')
      → route env later id' r db' ≡ ok (tt, db')
  unfolding route
  route_again r db db' e = elim (Bool-cases (str_eq r.action "set_state")) [
    | inl snapshot ↦ ground (arith, snapshot, e, apply_snapshot_again env now later id id' r db db')
    | inr other ↦ elim (Bool-cases (str_eq r.action "force")) [
      | inl force ↦ ground (arith, other, force, e, enqueue_force_again env now later r db db')
      | inr unknown ↦ absurd (ground (arith, other, unknown, e))
    ]
  ]

  -- A delivery that is not acknowledged leaves the schedule and the outbox as they are; one that is
  -- acknowledged and comes again later is acknowledged again and changes nothing.
  pub request_again :
      (d : Option TrackRequest) (db : SchedulerDb)
      → ((handle env now id d db).0 ≢ ack → (handle env now id d db).1 ≡ db)
        × ((handle env now id d db).0 ≡ ack
            → handle env later id' d (handle env now id d db).1 ≡ (ack, (handle env now id d db).1))
  request_again none db = unfold handle in (λ n. refl, λ e. absurd (ground arith))
  request_again (some r) db = elim (Result-cases (route env now id r db)) [
    | inr (e, failed) ↦
        let kept : (handle env now id (some r) db).1 ≡ db =
          unfold handle in ground (arith, failed) in
        (λ n. kept, λ acked. absurd (unfold handle in ground (arith, failed, acked)))
    | inl ((t, db'), done) ↦
        let moved : (handle env now id (some r) db).1 ≡ db' =
          unfold handle in ground (arith, done) in
        let again = route_again r db db' done in
        (
          λ n. absurd (unfold handle in ground (arith, done, n)),
          λ acked. rw moved (unfold handle in ground (arith, again)),
        )
  ]
