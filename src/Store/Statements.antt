-- ===== src/Store/Statements.antt =====
-- Statements, queries and transactions of pgx, against a server that may be lost at each round trip.
use chainmesh.Base.{ℕ, zero, suc, Bool, true, false, Option, none, some, List, [], ◌∷◌}
use chainmesh.Redis.{Delivery, delivered, refused, lost}
use chainmesh.Store.{Database}

-- A statement's effect; none is a violated constraint.
abbrev pub Statement : Type 0
Statement = Database → Option Database

abbrev pub or_else : Option Database → Database → Bool × Database
or_else none db = (false, db)
or_else (some db') db = (true, db')

-- pool.Exec: is there no error? A lost reply is an error, but the statement has run.
unfoldable pub exec : Delivery → Statement → Database → Bool × Database
exec delivered s db = or_else (s db) db
exec refused s db = (false, db)
exec lost s db = (false, (or_else (s db) db).1)

-- QueryRow and Scan: none is an error, also that there is no row.
unfoldable pub query_row {ℓ} : {A : Type ℓ} → Delivery → Option A → Option A
query_row delivered row = row
query_row refused row = none
query_row lost row = none

-- How a query's rows arrive: not at all, all of them, or only the first n. rows.Next ends the loop in
-- the last two cases alike; the code does not ask rows.Err which it was.
pub data Reading : Type 0 where
  failed complete : Reading
  cut : ℕ → Reading

abbrev pub first {ℓ} : {A : Type ℓ} → ℕ → List A → List A
first zero xs = []
first (suc n) [] = []
first (suc n) (x ∷ xs) = x ∷ first n xs

-- pool.Query and the loop over its rows
unfoldable pub query {ℓ} : {A : Type ℓ} → Reading → List A → Option (List A)
query failed rows = none
query complete rows = some rows
query (cut n) rows = some (first n rows)

-- tx.Exec: an error ends the function, and the deferred Rollback the transaction.
unfoldable pub in_transaction : Delivery → Statement → Database → Option Database
in_transaction delivered s db = s db
in_transaction refused s db = none
in_transaction lost s db = none

-- tx.Commit, from the database before to the one that the transaction has made
unfoldable pub commit : Delivery → Database → Database → Bool × Database
commit delivered db db' = (true, db')
commit refused db db' = (false, db)
commit lost db db' = (false, db')

infixl 10 ◌>>=◌
abbrev pub ◌>>=◌ : {A B : Type 0} → Option A → (A → Option B) → Option B
none >>= f = none
some a >>= f = f a
