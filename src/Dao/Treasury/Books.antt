-- ===== src/Dao/Treasury/Books.antt =====
-- The books of border/dao/treasury.py.
use border.Prelude.{ℕ, String, ◌≡◌, refl, List, [], ◌∷◌, ◌++◌, map, arith}
use border.Prelude.Int.{ℤ, pos, ◌+ℤ◌, ◌≤ℤ◌, int_laws}
use border.Block.{sum_ℤ}
use border.Dao.Treasury.{
  Treasury, Step, Reach, initial_treasury, collect, spend, apply_parameter, total_collected,
  total_spent,
}

-- The balance is what was collected less what was spent, and is not negative.
pub record IsBalanced (t : Treasury) : Type 0 where
  pub books : t.balance +ℤ total_spent t ≡ total_collected t
  pub solvent : pos 0 ≤ℤ t.balance

sum_amounts-snoc {ℓ} :
    {A : Type ℓ} (f : A → ℤ) (xs : List A) (x : A)
    → sum_ℤ (map f (xs ++ x ∷ [])) ≡ sum_ℤ (map f xs) +ℤ f x
sum_amounts-snoc f [] x = grind int_laws
sum_amounts-snoc f (y ∷ xs) x = grind (int_laws, sum_amounts-snoc f xs x)

pub collect-IsBalanced :
    (id : String) (now : ℕ) (source : String) (amount : ℤ) (from note : String) (t : Treasury)
    → IsBalanced t
    → IsBalanced (collect id now source amount from note t).1
unfolding collect
collect-IsBalanced id now source amount from note t h = record {
  books = grind (int_laws, sum_amounts-snoc, h.books);
  solvent = grind (int_laws, h.solvent);
}

pub spend-IsBalanced :
    (id : String) (now : ℕ) (pid recipient : String) (amount : ℤ) (note : String) (t : Treasury)
    → IsBalanced t
    → IsBalanced (spend id now pid recipient amount note t).1
unfolding spend
spend-IsBalanced id now pid recipient amount note t h = record {
  books = grind (int_laws, sum_amounts-snoc, h.books);
  solvent = grind (int_laws, h.solvent);
}

pub apply_parameter-IsBalanced :
    (key : String) (value : ℤ) (t : Treasury)
    → IsBalanced t
    → IsBalanced (apply_parameter key value t)
unfolding apply_parameter
apply_parameter-IsBalanced key value t h = record {
  books = grind (arith, h.books);
  solvent = grind (arith, h.solvent);
}

pub initial_treasury-IsBalanced : IsBalanced initial_treasury
unfolding initial_treasury ◌+ℤ◌
initial_treasury-IsBalanced = record { books = refl; solvent = omega arith }

Step-IsBalanced : {t t' : Treasury} → Step t t' → IsBalanced t → IsBalanced t'
Step-IsBalanced {t} (Step.collects id now source amount from note) h =
    collect-IsBalanced id now source amount from note t h
Step-IsBalanced {t} (Step.spends id now pid recipient amount note) h =
    spend-IsBalanced id now pid recipient amount note t h
Step-IsBalanced {t} (Step.sets key value) h = apply_parameter-IsBalanced key value t h

-- After any sequence of calls of the treasury, its balance is what was collected less what was spent,
-- and is not negative.
pub Reach-IsBalanced : {t : Treasury} → Reach t → IsBalanced t
Reach-IsBalanced Reach.start = initial_treasury-IsBalanced
Reach-IsBalanced (Reach.next r s) = Step-IsBalanced s (Reach-IsBalanced r)
