-- ===== src/Gateway/Monitoring/Reconcile.antt =====
-- ReconcileMonitoring and the snapshots of all products.
use price_scount.Base.{◌<◌, false, some, List, [], ◌∷◌, ◌==◌, ◌≡◌, All, max_int64}
use price_scount.Env.{Env, Uuid}
use price_scount.Gateway.Db.{Db, Product, find_product}

-- No product of the list has the id.
abbrev pub Missing : Uuid → List Product → Type 0
Missing i = All (λ p. (i == p.id) ≡ false)

-- No id stands twice: the primary key of the table.
abbrev pub DistinctProducts : List Product → Type 0
DistinctProducts [] = Unit
DistinctProducts (p ∷ rest) = All (λ q. (q.id == p.id) ≡ false) rest × DistinctProducts rest

-- The row of the table is this one, and its version can grow.
abbrev Waiting : Db → Product → Type 0
Waiting db p = (find_product p.id db.products ≡ some p) × (p.monitor_version < max_int64)
