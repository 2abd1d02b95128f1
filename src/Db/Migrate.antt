-- ===== src/Db/Migrate.antt =====
-- backend/src/db/client.ts and backend/src/db/migrate.ts. `runs` is the outcome of a command at the
-- database; the handler for notices is left out.
use crew_link.Base.{
  ℕ, String, Option, none, some, List, [], ◌∷◌, ◌++◌, ◌==◌, if◌then◌else◌, ◌≡◌, ◌⊎◌, inl, inr, refl,
}
use mathlib.Core.Option
use crew_link.Promise.{Promise, fulfilled, rejected}

pub record CreateDatabaseOptions : Type 0 where
  pub url : String
  pub max : Option ℕ

abbrev pub default_pool_size : ℕ
default_pool_size = 10

-- The options of the pool that `createDatabase` opens.
pub record Pool : Type 0 where
  pub url : String
  pub max : ℕ

unfoldable pub create_database : CreateDatabaseOptions → Pool
create_database o = record { url = o.url; max = Option.get_or o.max default_pool_size }

pub data DbCommand : Type 0 where
  create_extension run_migrations end_pool : DbCommand

-- The body of `try`, by what becomes of its two commands: what was sent, and the outcome.
abbrev pub tried : Promise (Unit {0}) → Promise (Unit {0}) → List DbCommand × Promise (Unit {0})
tried rejected migrated = (create_extension ∷ [], rejected)
tried (fulfilled _) migrated = (create_extension ∷ run_migrations ∷ [], migrated)

-- `finally` ends the pool; a rejection there takes the place of the outcome.
abbrev pub finally_end :
    Promise (Unit {0}) → List DbCommand × Promise (Unit {0}) → List DbCommand × Promise (Unit {0})
finally_end rejected (sent, outcome) = (sent ++ end_pool ∷ [], rejected)
finally_end (fulfilled _) (sent, outcome) = (sent ++ end_pool ∷ [], outcome)

finally_end-cases :
    (extended migrated ended : Promise (Unit {0}))
    → ((finally_end ended (tried extended migrated)).0
        ≡ create_extension ∷ run_migrations ∷ end_pool ∷ [])
      ⊎ (((finally_end ended (tried extended migrated)).0 ≡ create_extension ∷ end_pool ∷ [])
          × ((finally_end ended (tried extended migrated)).1 ≡ rejected))
finally_end-cases rejected migrated rejected = inr (refl, refl)
finally_end-cases rejected migrated (fulfilled _) = inr (refl, refl)
finally_end-cases (fulfilled _) migrated rejected = inl refl
finally_end-cases (fulfilled _) migrated (fulfilled _) = inl refl

module _ (runs : Pool → DbCommand → Promise (Unit {0})) where
  unfoldable pub apply_migrations : String → List DbCommand × Promise (Unit {0})
  unfolding create_database
  apply_migrations database_url =
      let pool = create_database (record { url = database_url; max = some 1 }) in
      finally_end (runs pool end_pool)
        (tried (runs pool create_extension) (runs pool run_migrations))

  abbrev exit_code : Promise (Unit {0}) → ℕ
  exit_code rejected = 1
  exit_code (fulfilled _) = 0

  -- The script: the commands that were sent, and the exit code.
  unfoldable pub migrate : Option String → List DbCommand × ℕ
  unfolding apply_migrations
  migrate none = ([], 1)
  migrate (some url) =
      let (sent, outcome) = apply_migrations url in
      if url == "" then ([], 1) else (sent, exit_code outcome)

  -- The pool is ended last, whatever fails, and the migrations run only after the extension is
  -- there.
  pub apply_migrations-cases :
      (url : String)
      → ((apply_migrations url).0 ≡ create_extension ∷ run_migrations ∷ end_pool ∷ [])
        ⊎ (((apply_migrations url).0 ≡ create_extension ∷ end_pool ∷ [])
            × ((apply_migrations url).1 ≡ rejected))
  unfolding apply_migrations create_database
  apply_migrations-cases url =
      let pool : Pool = record { url = url; max = 1 } in
      finally_end-cases (runs pool create_extension) (runs pool run_migrations) (runs pool end_pool)
