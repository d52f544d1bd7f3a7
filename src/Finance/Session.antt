-- ===== src/Finance/Session.antt =====
-- Calls on a database session, and the `atomic` block of services/finance-service/services.py.
use finty.Base.{⊤, ◌≡◌, refl, arith}
use finty.Shared.Errors.{Error, Result, ok, err}
use finty.Finance.Store.{Db, Statement}

-- What runs inside a block: it returns or raises, and either way leaves what it wrote so far.
abbrev pub Session : Type 0 → Type 0
Session A = Db → Result A × Db

-- What follows a call that returned; one that raised ends the block.
abbrev follow : {A B : Type 0} → Result A × Db → (A → Session B) → Result B × Db
follow (ok a, db) f = f a db
follow (err e, db) f = (err e, db)

infixl 5 ◌>>=◌ ◌>>◌
unfoldable pub ◌>>=◌ : {A B : Type 0} → Session A → (A → Session B) → Session B
◌>>=◌ m f db = follow (m db) f

abbrev follow_statement : {B : Type 0} → Db → Result Db → Session B → Result B × Db
follow_statement db (ok written) k = k written
follow_statement db (err e) k = (err e, db)

-- A statement on the tables, and what follows it. A statement that raises writes nothing.
unfoldable pub ◌>>◌ : {B : Type 0} → Statement → Session B → Session B
◌>>◌ s k db = follow_statement db (s db) k

unfoldable pub pure : {A : Type 0} → A → Session A
pure a db = (ok a, db)

-- A call that touches no table.
unfoldable pub lift : {A : Type 0} → Result A → Session A
lift r db = (r, db)

unfoldable pub gets : {A : Type 0} → (Db → A) → Session A
gets f db = (ok (f db), db)

-- A check, as a statement that changes nothing.
unfoldable pub check : Result ⊤ → Statement
check r db = elim r [ ok _ ↦ ok db | err e ↦ err e ]

-- The end of a block: `session.commit()`, or `session.rollback()` to the tables at its start.
abbrev settle : {A : Type 0} → Db → Result A × Db → Result A × Db
settle start (ok a, written) = (ok a, written)
settle start (err e, written) = (err e, start)

-- `with atomic(session):` commits what the block wrote; where the block raises, it goes back to the
-- tables as they were and raises.
unfoldable pub atomic : {A : Type 0} → Session A → Db → Result A × Db
atomic body db = settle db (body db)

after-ok :
    {A B : Type 0} (r : Result A × Db) (f : A → Session B) {b : B} {db' : Db}
    → follow r f ≡ (ok b, db')
    → (a : A) × (db₁ : Db) × (r ≡ (ok a, db₁)) × (f a db₁ ≡ (ok b, db'))
after-ok (ok a, db₁) f e = (a, db₁, refl, e)
after-ok (err x, db₁) f e = absurd (cc e)

ran-ok :
    {B : Type 0} (r : Result Db) (k : Session B) (db : Db) {b : B} {db' : Db}
    → follow_statement db r k ≡ (ok b, db')
    → (db₁ : Db) × (r ≡ ok db₁) × (k db₁ ≡ (ok b, db'))
ran-ok (ok db₁) k db e = (db₁, refl, e)
ran-ok (err x) k db e = absurd (cc e)

block-ok :
    {B : Type 0} (r : Result B × Db) (db : Db) {b : B} {db' : Db}
    → settle db r ≡ (ok b, db')
    → r ≡ (ok b, db')
block-ok (ok a, db₁) db e = e
block-ok (err x, db₁) db e = absurd (cc e)

block-err :
    {B : Type 0} (r : Result B × Db) (db : Db) {x : Error} {db' : Db}
    → settle db r ≡ (err x, db')
    → db' ≡ db
block-err (ok a, db₁) db e = absurd (cc e)
block-err (err x, db₁) db e = cc e

-- How a call that succeeded went.
module _ {A B : Type 0} where
  pub bind-ok :
      (m : Session A) (f : A → Session B) (db : Db) {b : B} {db' : Db}
      → (m >>= f) db ≡ (ok b, db')
      → (a : A) × (db₁ : Db) × (m db ≡ (ok a, db₁)) × (f a db₁ ≡ (ok b, db'))
  unfolding ◌>>=◌
  bind-ok m f db e = after-ok (m db) f e

  pub lift-ok :
      (x : Result A) (f : A → Session B) (db : Db) {b : B} {db' : Db}
      → (lift x >>= f) db ≡ (ok b, db')
      → (a : A) × (x ≡ ok a) × (f a db ≡ (ok b, db'))
  unfolding ◌>>=◌ lift
  lift-ok (ok a) f db e = (a, refl, e)
  lift-ok (err _) f db e = absurd (cc e)

  pub gets-ok :
      (g : Db → A) (f : A → Session B) (db : Db) {b : B} {db' : Db}
      → (gets g >>= f) db ≡ (ok b, db')
      → f (g db) db ≡ (ok b, db')
  unfolding ◌>>=◌ gets
  gets-ok g f db e = e

module _ {B : Type 0} where
  pub exec-ok :
      (s : Statement) (k : Session B) (db : Db) {b : B} {db' : Db}
      → (s >> k) db ≡ (ok b, db')
      → (db₁ : Db) × (s db ≡ ok db₁) × (k db₁ ≡ (ok b, db'))
  unfolding ◌>>◌
  exec-ok s k db e = ran-ok (s db) k db e

  pub check-ok :
      (x : Result ⊤) (k : Session B) (db : Db) {b : B} {db' : Db}
      → (check x >> k) db ≡ (ok b, db')
      → (x ≡ ok tt) × (k db ≡ (ok b, db'))
  unfolding ◌>>◌ check
  check-ok (ok _) k db e = (refl, e)
  check-ok (err _) k db e = absurd (cc e)

  pub pure-ok :
      (b : B) (db : Db) {c : B} {db' : Db} → pure b db ≡ (ok c, db') → (c ≡ b) × (db' ≡ db)
  unfolding pure
  pure-ok b db e = ground arith

  pub atomic-ok :
      (body : Session B) (db : Db) {b : B} {db' : Db}
      → atomic body db ≡ (ok b, db')
      → body db ≡ (ok b, db')
  unfolding atomic
  atomic-ok body db e = block-ok (body db) db e

  -- A block that raises leaves the tables as they were.
  pub atomic-err :
      (body : Session B) (db : Db) {x : Error} {db' : Db} → atomic body db ≡ (err x, db') → db' ≡ db
  unfolding atomic
  atomic-err body db e = block-err (body db) db e
