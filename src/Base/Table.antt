-- ===== src/Base/Table.antt =====
-- A database table with a primary key, as the list of its rows: what `SELECT`, `INSERT`, `UPDATE`
-- and `DELETE` on the key do.
use Prim.Native.Nat.{ℕ}
use mathlib.Core.Path.{◌≡◌, refl}
use mathlib.Core.Option
use mathlib.Core.Bool.{Bool}
use mathlib.Core.Option.{Option, none, some}
use mathlib.Core.List.{List, [], ◌∷◌, ◌++◌}
use native.Mathlib.Omega.{arith}
use finty.Base.Tests.{◌==◌, if◌then◌else◌}
use finty.Base.Lists.{keep}

-- A row type and its primary key.
pub record Row (A : Type 0) : Type 0 where
  pub key : A → ℕ

module _ {A : Type 0} ⦃r : Row A⦄ where
  -- `SELECT ... WHERE id = k`
  abbrev pub lookup : ℕ → List A → Option A
  lookup k [] = none
  lookup k (a ∷ m) = if r.key a == k then some a else lookup k m

  -- `UPDATE ... WHERE id = k`
  abbrev pub update : ℕ → (A → A) → List A → List A
  update k f [] = []
  update k f (a ∷ m) = (if r.key a == k then f a else a) ∷ update k f m

  -- `DELETE ... WHERE id = k`
  abbrev pub erase : ℕ → List A → List A
  erase k [] = []
  erase k (a ∷ m) = if r.key a == k then erase k m else a ∷ erase k m

  -- No primary key stands twice.
  abbrev pub IsKeyed : List A → Type 0
  IsKeyed [] = Unit
  IsKeyed (a ∷ m) = (lookup (r.key a) m ≡ none) × IsKeyed m

  pub key-lookup : (k : ℕ) (m : List A) (a : A) → lookup k m ≡ some a → r.key a ≡ k
  key-lookup k [] a e = cc
  key-lookup k (b ∷ m) a e = ground (arith, key-lookup k m a)

  pub lookup-append :
      (k : ℕ) (m : List A) (a : A)
      → lookup k (m ++ (a ∷ []))
        ≡ elim (lookup k m) [ none ↦ if r.key a == k then some a else none | some b ↦ some b ]
  lookup-append k [] a = refl
  lookup-append k (b ∷ m) a = ground (arith, lookup-append k m a)

  pub lookup-update :
      (j k : ℕ) (f : A → A) (m : List A)
      → ((a : A) → r.key (f a) ≡ r.key a)
      → lookup j (update k f m) ≡ (if j == k then Option.map f (lookup j m) else lookup j m)
  lookup-update j k f [] same = ground arith
  lookup-update j k f (a ∷ m) same = ground (arith, same a, lookup-update j k f m same)

  pub lookup-erase :
      (j k : ℕ) (m : List A) → lookup j (erase k m) ≡ (if j == k then none else lookup j m)
  lookup-erase j k [] = ground arith
  lookup-erase j k (a ∷ m) = ground (arith, lookup-erase j k m)

  pub append-IsKeyed :
      (m : List A) (a : A) → IsKeyed m → lookup (r.key a) m ≡ none → IsKeyed (m ++ (a ∷ []))
  append-IsKeyed [] a h e = (refl, tt)
  append-IsKeyed (b ∷ m) a h e = ground (arith, append-IsKeyed m a h.1, lookup-append (r.key b) m a)

  pub update-IsKeyed :
      (k : ℕ) (f : A → A) (m : List A)
      → ((a : A) → r.key (f a) ≡ r.key a)
      → IsKeyed m
      → IsKeyed (update k f m)
  update-IsKeyed k f [] same h = tt
  update-IsKeyed k f (a ∷ m) same h = ground (
    arith,
    same a,
    lookup-update (r.key a) k f m same,
    lookup-update (r.key (f a)) k f m same,
    update-IsKeyed k f m same h.1,
  )

  pub erase-IsKeyed : (k : ℕ) (m : List A) → IsKeyed m → IsKeyed (erase k m)
  erase-IsKeyed k [] h = tt
  erase-IsKeyed k (a ∷ m) h = ground (arith, erase-IsKeyed k m h.1, lookup-erase (r.key a) k m)

  -- `UPDATE` with a whole row.
  pub lookup-replace :
      (j k : ℕ) (b : A) (m : List A)
      → r.key b ≡ k
      → lookup j (update k (λ _. b) m)
        ≡ (if j == k then Option.map (λ _. b) (lookup j m) else lookup j m)
  lookup-replace j k b [] same = ground arith
  lookup-replace j k b (a ∷ m) same = ground (arith, lookup-replace j k b m same)

  pub replace-IsKeyed :
      (k : ℕ) (b : A) (m : List A) → r.key b ≡ k → IsKeyed m → IsKeyed (update k (λ _. b) m)
  replace-IsKeyed k b [] same h = tt
  replace-IsKeyed k b (a ∷ m) same h = ground (
    arith,
    lookup-replace (r.key a) k b m same,
    lookup-replace (r.key b) k b m same,
    replace-IsKeyed k b m same h.1,
  )

  pub lookup-keep-none :
      (k : ℕ) (test : A → Bool) (m : List A) → lookup k m ≡ none → lookup k (keep test m) ≡ none
  lookup-keep-none k test [] e = refl
  lookup-keep-none k test (a ∷ m) e = ground (arith, lookup-keep-none k test m)

  pub keep-IsKeyed : (test : A → Bool) (m : List A) → IsKeyed m → IsKeyed (keep test m)
  keep-IsKeyed test [] h = tt
  keep-IsKeyed test (a ∷ m) h =
      ground (arith, lookup-keep-none (r.key a) test m, keep-IsKeyed test m h.1)
