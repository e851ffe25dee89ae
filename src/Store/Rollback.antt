-- ===== src/Store/Rollback.antt =====
-- What a transaction leaves where its body fails.
use locker.Prelude.{◌≡◌, refl, arith}
use locker.Store.{Db, RepoError, ok, err, Op, transaction}

pub transaction-err :
    {A : Type 0} (body : Op A) (db : Db) {e : RepoError}
    → (transaction body db).0 ≡ err e
    → (transaction body db).1 ≡ db
transaction-err body db h =
    elim (body db).0 as (λ r. (body db).0 ≡ r → (transaction body db).1 ≡ db) [
      | ok a ↦ λ q. absurd (ground (arith, h, q))
      | err x ↦ λ q. ground (arith, q)
    ]
      refl
