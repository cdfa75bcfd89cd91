-- ===== src/Outbox/Worker/Delays.antt =====
-- The delays of the worker.
use price_scount.Base.{ℕ, zero, suc, ◌≤◌, ◌==◌, ◌≡◌, refl, arith, leb, if◌then◌else◌, max_int64}
use price_scount.Outbox.Worker.{backoff, min_backoff, max_backoff, at_most_six}

-- The delay in microseconds by the attempts.
abbrev pub table : ℕ → ℕ
table n =
    if n == 0
    then 1000000
    else if n == 1
    then 2000000
    else if n == 2
    then 4000000
    else if n == 3
    then 8000000
    else if n == 4
    then 16000000
    else if n == 5
    then 32000000
    else 60000000

six_or_more : (n : ℕ) → 6 ≤ n → n ≤ max_int64 → at_most_six (if leb n max_int64 then n else 0) ≡ 6
six_or_more n l h = ground (arith, l, h)

pub backoff-table : (n : ℕ) → n ≤ max_int64 → backoff n ≡ table n
unfolding backoff
backoff-table zero m = refl
backoff-table (suc zero) m = refl
backoff-table (suc (suc zero)) m = refl
backoff-table (suc (suc (suc zero))) m = refl
backoff-table (suc (suc (suc (suc zero)))) m = refl
backoff-table (suc (suc (suc (suc (suc zero))))) m = refl
backoff-table (suc (suc (suc (suc (suc (suc n)))))) m =
    rw (six_or_more (suc (suc (suc (suc (suc (suc n)))))) (omega arith) m) (ground arith)

-- A delay is between one second and one minute, and with more attempts, within int64, never shorter.
pub backoff-bounds :
    (a b : ℕ)
    → a ≤ b
    → b ≤ max_int64
    → (min_backoff ≤ backoff a) × (backoff a ≤ backoff b) × (backoff b ≤ max_backoff)
backoff-bounds a b h m = ground (arith, backoff-table a, backoff-table b, h, m)
