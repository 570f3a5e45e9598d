-- ===== src/Store/Ensures.antt =====
-- What a block that returns has done: a postcondition on its value and its database.
use task_scheduler_mcp.Store.{Db}
use task_scheduler_mcp.Store.Keeps.{Keeps, OnOk}
use task_scheduler_mcp.Store.Session.{Session, Result, ok, err, ◌>>=◌}
use task_scheduler_mcp.Common.{◌≡◌, refl}

abbrev pub Ensures : {A : Type 0} → (A → Db → Type 0) → Result (A × Db) → Type 0
Ensures Q (ok (a, db)) = Q a db
Ensures Q (err e) = Unit

-- A block that writes nothing.
abbrev pub ReadsOnly : {A : Type 0} → Session A → Type 1
ReadsOnly m = (P : Db → Type 0) → Keeps P m

module _ {A B : Type 0} (P : A → Db → Type 0) (Q : B → Db → Type 0) where
  pub Ensures-bind :
      (m : Session A) (f : A → Session B) (db : Db)
      → Ensures P (m db)
      → ((a : A) (db' : Db) → P a db' → Ensures Q (f a db'))
      → Ensures Q ((m >>= f) db)
  Ensures-bind m f db h k = cases (m db) h
    where
      cases :
          (r : Result (A × Db))
          → Ensures P r
          → Ensures Q (elim r [ ok (a, db') ↦ f a db' | err e ↦ err e ])
      cases (ok (a, db')) p = k a db' p
      cases (err e) p = tt

module _ {A B : Type 0} (Q : B → Db → Type 0) where
  pub Ensures-after :
      (m : Session A) (f : A → Session B) (db : Db)
      → ReadsOnly m
      → ((a : A) → Ensures Q (f a db))
      → Ensures Q ((m >>= f) db)
  Ensures-after m f db reads k = cases (m db) ((reads (λ d. d ≡ db)).at db refl)
    where
      cases :
          (r : Result (A × Db))
          → OnOk (λ d. d ≡ db) r
          → Ensures Q (elim r [ ok (a, db') ↦ f a db' | err e ↦ err e ])
      cases (ok (a, db')) same = rw same (k a)
      cases (err e) same = tt
