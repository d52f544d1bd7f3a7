-- ===== src/Finance/Invariant/Total.antt =====
-- The signed sum of an account's rows under an insertion and a deletion.
use finty.Base.{ℕ, ◌≡◌, refl, some, none, List, [], ◌∷◌, ◌++◌, ◌==◌, inl, inr, Bool-cases, arith}
use finty.Base.Int.{pos, ◌+ℤ◌, +ℤ_assoc, +ℤ_comm}
use finty.Base.Table.{lookup, erase, IsKeyed}
use finty.Finance.Store.{Transaction, transaction_row}
use finty.Finance.Invariant.{total, contribution}

pub total-append :
    (k : ℕ) (m : List Transaction) (t : Transaction)
    → total k (m ++ (t ∷ [])) ≡ total k m +ℤ contribution k t
total-append k [] t = +ℤ_comm (contribution k t) (pos 0)
total-append k (s ∷ m) t =
    rw (total-append k m t) (rw (+ℤ_assoc (contribution k s) (total k m) (contribution k t)) refl)

-- A key that is not there is not erased.
erase-absent : (id : ℕ) (m : List Transaction) → lookup id m ≡ none → erase id m ≡ m
erase-absent id [] e = refl
erase-absent id (s ∷ m) e = ground (arith, erase-absent id m)

pub total-erase :
    (k id : ℕ) (m : List Transaction) (t : Transaction)
    → IsKeyed m
    → lookup id m ≡ some t
    → total k (erase id m) +ℤ contribution k t ≡ total k m
total-erase k id [] t h e = cc
total-erase k id (s ∷ m) t (new, h) e = elim (Bool-cases (s.id == id)) [
  | inl here ↦
      let gone : erase id m ≡ m = ground (arith, erase-absent id m) in
      let same : s ≡ t = ground arith in
      rw (here, gone, same) (+ℤ_comm (total k m) (contribution k t))
  | inr there ↦
      let ih = total-erase k id m t h (rw there at e) in rw (there, ← ih) (rw +ℤ_assoc refl)
]
