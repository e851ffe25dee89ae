-- ===== src/Auth/Accounts.antt =====
-- `Create` of internal/repository/admin_repository.go.
use locker.Prelude.{ℕ, ◌+◌, ◌∷◌, [], ◌++◌, text_eq}
use locker.Table.{exists}
use locker.Domain.{Admin}
use locker.Store.{Db, store_failed, Op, ◌>>=◌, ◌>>◌, pure, gets, fail_if, exec}

-- `nowUnix`, which is no clock.
abbrev pub now_unix : ℕ
now_unix = 0

abbrev pub insert_admin : Admin → Db → Db
insert_admin a db = record db {
  admins =
      db.admins
      ++ record a { id = db.next_admin; created_at = now_unix; updated_at = now_unix } ∷ [];
  next_admin = db.next_admin + 1;
}

-- A login that is taken breaks the UNIQUE column.
unfoldable pub create_admin : Admin → Op ℕ
unfolding exists text_eq
create_admin a = do
  taken ← gets (λ db. exists (λ b. text_eq b.login a.login) db.admins)
  fail_if taken store_failed
  id ← gets (λ db. db.next_admin)
  exec (insert_admin a)
  pure id
