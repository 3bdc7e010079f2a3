-- ===== src/Store/Rebind.antt =====
-- The placeholders of a query (rebind of store.go).
use aleart_hub.Base.{
  ℕ, ◌+◌, ◌≡◌, refl, Bool, true, false, List, [], ◌∷◌, ◌++◌, if◌then◌else◌, nat_eq, nat_eqb, Text,
  itoa, split_all, Bool-cases, inl, inr,
}
use aleart_hub.Store.{rebind_from, rebind}

-- The pieces between the placeholders, put together with `$` and their numbers.
abbrev pub numbered : ℕ → List Text → Text
numbered n [] = []
numbered n (p ∷ []) = p
numbered n (p ∷ q ∷ ps) = p ++ b'$' ∷ itoa (n + 1) ++ numbered (n + 1) (q ∷ ps)

consed : (n c : ℕ) (p : Text) (ps : List Text) → c ∷ numbered n (p ∷ ps) ≡ numbered n ((c ∷ p) ∷ ps)
consed n c p [] = refl
consed n c p (q ∷ ps) = refl

pieces : (sep : ℕ) (q : Text) → (p : Text) × (ps : List Text) × (split_all sep q ≡ p ∷ ps)
unfolding split_all
pieces sep [] = ([], [], refl)
pieces sep (c ∷ q) =
    let (p, ps, e) = pieces sep q in
    elim (Bool-cases (nat_eqb c sep)) [
      | inl mark ↦ ([], p ∷ ps, rw (mark, e) refl)
      | inr other ↦ (c ∷ p, ps, rw (other, e) refl)
    ]

rebound : (n : ℕ) (q : Text) → rebind_from n q ≡ numbered n (split_all b'?' q)
unfolding rebind_from split_all
rebound n [] = refl
rebound n (c ∷ q) =
    let (p, ps, e) = pieces b'?' q in
    elim (Bool-cases (nat_eqb c b'?')) [
      | inl mark ↦ rw (mark, rebound (n + 1) q, e) refl
      | inr other ↦ rw (other, rebound n q, e) (consed n c p ps)
    ]

-- For PostgreSQL a query is the texts between its question marks with $1, $2 and so on in their
-- place, in order; for SQLite it stays as it is.
pub rebind_lem :
    (postgres : Bool) (q : Text)
    → rebind postgres q ≡ (if postgres then numbered 0 (split_all b'?' q) else q)
unfolding rebind
rebind_lem true q = rebound 0 q
rebind_lem false q = refl
