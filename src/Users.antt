-- ===== src/Users.antt =====
-- backend/src/services/users.ts: the deletion of an account.
pub mod Erased
use crew_link.Base.{String, ◌==◌}
use crew_link.Db.{Tables}
use crew_link.Db.Query.{Query, transaction, write, ◌>>◌}
use crew_link.Db.Sql.{delete_convoys, delete_users}

unfoldable pub delete_user_account : String → Query (Unit {0})
delete_user_account user_id =
    transaction do
      write (delete_convoys (λ c. c.owner_user_id == user_id))
      delete_users (λ u. u.id == user_id)
