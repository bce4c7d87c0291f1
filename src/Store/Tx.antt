-- ===== src/Store/Tx.antt =====
-- A transaction: persistence/engine.py's `session_scope` commits what a body returns and rolls back
-- what it raises, so an error carries no state.
use mcp_shared_memory_hub.Prelude.{Option, none, some}
use mcp_shared_memory_hub.Domain.Errors.{Error, Result, ok, err}
use mcp_shared_memory_hub.Store.Tables.{Db}

abbrev pub Tx : Type 0 → Type 0
Tx A = Db → Result (A × Db)

-- what a statement leaves behind: its result and the database
abbrev pub done : {A : Type 0} → A → Db → Result (A × Db)
done a db = ok (a, db)

unfoldable pub pure : {A : Type 0} → A → Tx A
pure a db = ok (a, db)

unfoldable pub raise : {A : Type 0} → Error → Tx A
raise e db = err e

unfoldable pub lift : {A : Type 0} → Result A → Tx A
lift (ok a) db = ok (a, db)
lift (err e) db = err e

unfoldable pub gets : {A : Type 0} → (Db → A) → Tx A
gets f db = ok (f db, db)

unfoldable pub modify : (Db → Db) → Tx (Unit {0})
modify f db = ok (tt, f db)

abbrev pub continue : {A B : Type 0} → Result (A × Db) → (A → Tx B) → Result (B × Db)
continue (ok (a, db)) f = f a db
continue (err e) f = err e

infixl 5 ◌>>=◌ ◌>>◌
-- opening this opens the actions above too
unfoldable pub ◌>>=◌ : {A B : Type 0} → Tx A → (A → Tx B) → Tx B
unfolding pure raise lift gets modify
◌>>=◌ m f db = continue (m db) f

abbrev pub ◌>>◌ : {B : Type 0} → Tx (Unit {0}) → Tx B → Tx B
m >> k = m >>= λ _. k

abbrev pub undo : {A : Type 0} → Db → Result (Option A × Db) → Result (Option A × Db)
undo db (ok (none, _)) = ok (none, db)
undo db (ok (some a, db')) = ok (some a, db')
undo db (err e) = err e

-- session.begin_nested(): a body that gives up returns `none`, and its writes are undone
unfoldable pub savepoint : {A : Type 0} → Tx (Option A) → Tx (Option A)
savepoint m db = undo db (m db)

abbrev pub committed : {A : Type 0} → Db → Result (A × Db) → Db
committed db (ok (_, db')) = db'
committed db (err _) = db

-- `session_scope`: the database after one request, which an error leaves as it was
unfoldable pub session_scope : {A : Type 0} → Tx A → Db → Db
session_scope m db = committed db (m db)
