-- ===== src/Finance/Invariant/Kept.antt =====
-- Calls that keep the invariant, whatever they return.
use finty.Base.{◌≡◌, refl, arith}
use finty.Shared.Errors.{Error, Result, ok, err}
use finty.Finance.Store.{Db, Statement}
use finty.Finance.Session.{Session, atomic, ◌>>◌, pure, exec-ok, pure-ok, atomic-ok, atomic-err}
use finty.Finance.Accounts.{before, duplicate_name, has_transactions}
use finty.Finance.Invariant.{IsValid}

module _ {A : Type 0} where
  -- A call that does nothing when it raises.
  pub any-keeps :
      (x : Result A × Db) (db : Db)
      → IsValid db
      → ((a : A) (db' : Db) → x ≡ (ok a, db') → IsValid db')
      → ((e : Error) (db' : Db) → x ≡ (err e, db') → db' ≡ db)
      → IsValid x.1
  any-keeps (ok a, db') db v h k = h a db' refl
  any-keeps (err e, db') db v h k = rw (k e db' refl) v

  pub atomic-keeps :
      (body : Session A) (db : Db)
      → IsValid db
      → ((a : A) (db' : Db) → body db ≡ (ok a, db') → IsValid db')
      → IsValid (atomic body db).1
  atomic-keeps body db v k =
      any-keeps (atomic body db) db v (λ a db' e. k a db' (atomic-ok body db e))
        (λ x db' e. atomic-err body db e)

  -- A block of one statement.
  pub statement-keeps :
      (s : Statement) (a : A) (db : Db)
      → IsValid db
      → ((db' : Db) → s db ≡ ok db' → IsValid db')
      → IsValid (atomic (s >> pure a) db).1
  statement-keeps s a db v k =
      atomic-keeps (s >> pure a) db v
        λ b db' e. let (db₁, e₁, e₂) = exec-ok s (pure a) db e in rw (pure-ok a db₁ e₂).1 (k db₁ e₁)

  pub before-keeps :
      {B : Type 0} (x : Result B) (db : Db) (k : B → Result A × Db)
      → IsValid db
      → ((b : B) → x ≡ ok b → IsValid (k b).1)
      → IsValid (before x db k).1
  unfolding before
  before-keeps (ok b) db k v h = h b refl
  before-keeps (err e) db k v h = v

  pub duplicate_name-tables : (r : Result A × Db) → (duplicate_name r).1 ≡ r.1
  unfolding duplicate_name
  duplicate_name-tables r = ground arith

  pub has_transactions-tables : (r : Result A × Db) → (has_transactions r).1 ≡ r.1
  unfolding has_transactions
  has_transactions-tables r = ground arith
