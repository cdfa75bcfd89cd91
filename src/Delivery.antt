-- ===== src/Delivery.antt =====
-- What a consumer answers the broker: Ack, Nack without requeue, Nack with requeue.
pub data Verdict : Type 0 where
  ack drop requeue : Verdict
