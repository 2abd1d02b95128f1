-- ===== src/Routes/Users.antt =====
-- backend/src/routes/users.ts.
use crew_link.Base.{String}
use crew_link.Db.Query.{Query, return, ◌>>◌}
use crew_link.Users.{delete_user_account}
use crew_link.Routes.{Reply, nothing}

unfoldable pub delete_me : String → Query Reply
delete_me user_id = delete_user_account user_id >> return (record { code = 204; body = nothing })
