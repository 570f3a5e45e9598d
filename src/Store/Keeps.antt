-- ===== src/Store/Keeps.antt =====
-- Invariants of session blocks, one rule for each way to build a block.
use task_scheduler_mcp.Common.{none, some, Option, Bool, true, false, if◌then◌else◌}
use task_scheduler_mcp.Store.{Db}
use task_scheduler_mcp.Store.Session.{
  or_raise, Session, Result, Error, ok, err, pure, raise, gets, modify, ◌>>=◌, try_nested, begin,
  commit,
}

abbrev pub OnOk : {A : Type 0} → (Db → Type 0) → Result (A × Db) → Type 0
OnOk P (ok (a, db)) = P db
OnOk P (err e) = Unit

-- Where the block returns, it keeps `P`.
pub record Keeps (P : Db → Type 0) {A : Type 0} (m : Session A) : Type 0 where
  pub at : (db : Db) → P db → OnOk P (m db)

module _ {P : Db → Type 0} {A : Type 0} where
  pub Keeps-pure : (a : A) → Keeps P (pure a)
  Keeps-pure a = record { at = λ db h. h }

  pub Keeps-raise : (e : Error) → Keeps P (raise {A = A} e)
  Keeps-raise e = record { at = λ db h. tt }

  pub Keeps-or_raise : (o : Option A) (e : Error) → Keeps P (or_raise o e)
  Keeps-or_raise none e = Keeps-raise e
  Keeps-or_raise (some a) e = Keeps-pure a

  pub Keeps-gets : (f : Db → A) → Keeps P (gets f)
  Keeps-gets f = record { at = λ db h. h }

  pub Keeps-if : (b : Bool) (m n : Session A) → Keeps P m → Keeps P n → Keeps P (if b then m else n)
  Keeps-if true m n km kn = km
  Keeps-if false m n km kn = kn

  pub Keeps-try_nested :
      (m : Session A) (f : Error → Session A)
      → Keeps P m
      → ((e : Error) → Keeps P (f e))
      → Keeps P (try_nested m f)
  Keeps-try_nested m f km kf = record { at = λ db h. cases (m db) db h (km.at db h) }
    where
      cases :
          (r : Result (A × Db)) (db : Db)
          → P db
          → OnOk P r
          → OnOk P (elim r [ ok v ↦ ok v | err e ↦ f e db ])
      cases (ok v) db h k = k
      cases (err e) db h k = (kf e).at db h

  -- A committed or rolled back transaction keeps `P`.
  pub Keeps-begin : (m : Session A) (db : Db) → Keeps P m → P db → P (begin m db).1
  Keeps-begin m db km h = cases (m db) (km.at db h)
    where
      cases : (r : Result (A × Db)) → OnOk P r → P (commit db r).1
      cases (ok v) k = k
      cases (err e) k = h

module _ {P : Db → Type 0} {A B : Type 0} where
  pub Keeps-bind :
      (m : Session A) (f : A → Session B)
      → Keeps P m
      → ((a : A) → Keeps P (f a))
      → Keeps P (m >>= f)
  Keeps-bind m f km kf = record { at = λ db h. cases (m db) (km.at db h) }
    where
      cases :
          (r : Result (A × Db))
          → OnOk P r
          → OnOk P (elim r [ ok (a, db') ↦ f a db' | err e ↦ err e ])
      cases (ok (a, db')) k = (kf a).at db' k
      cases (err e) k = tt

pub Keeps-modify :
    {P : Db → Type 0} (f : Db → Db) → ((db : Db) → P db → P (f db)) → Keeps P (modify f)
Keeps-modify f h = record { at = h }

pub ruleset keeps_rules =
    (Keeps-pure, Keeps-raise, Keeps-gets, Keeps-if, Keeps-try_nested, Keeps-bind)
