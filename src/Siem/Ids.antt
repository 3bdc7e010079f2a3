-- ===== src/Siem/Ids.antt =====
-- The ids of the audit log ascend (store/audit_export.go relies on it), and what the rows above a
-- cursor then are.
use aleart_hub.Base.{
  ℕ, zero, suc, ◌≤◌, ◌<◌, ◌≡◌, refl, ap, true, false, List, [], ◌∷◌, ◌++◌, arith, ltb, take, drop,
  select, length,
}
use aleart_hub.Audit.{AuditEntry}
use aleart_hub.Siem.{last_id}

abbrev pub IsAbove : ℕ → List AuditEntry → Type 0
IsAbove n [] = Unit
IsAbove n (e ∷ log) = (n < e.id) × IsAbove e.id log

abbrev pub beyond : ℕ → List AuditEntry → List AuditEntry
beyond c log = select (λ e. ltb c e.id) log

pub last_id-append :
    (n : ℕ) (xs ys : List AuditEntry) → last_id n (xs ++ ys) ≡ last_id (last_id n xs) ys
unfolding last_id
last_id-append n [] ys = refl
last_id-append n (x ∷ xs) ys = last_id-append x.id xs ys

last_id-le : (n : ℕ) (xs : List AuditEntry) → IsAbove n xs → n ≤ last_id n xs
unfolding last_id
last_id-le n [] h = omega arith
last_id-le n (x ∷ xs) h = let le = last_id-le x.id xs h.1 in let lt = h.0 in omega arith

pub IsAbove-left : (n : ℕ) (xs ys : List AuditEntry) → IsAbove n (xs ++ ys) → IsAbove n xs
IsAbove-left n [] ys h = tt
IsAbove-left n (x ∷ xs) ys h = (h.0, IsAbove-left x.id xs ys h.1)

-- What comes after a row has a larger id.
pub above_later :
    (n : ℕ) (xs : List AuditEntry) (e : AuditEntry) (ys : List AuditEntry)
    → IsAbove n (xs ++ e ∷ ys)
    → n < e.id
above_later n [] e ys h = h.0
above_later n (x ∷ xs) e ys h =
    let lt = above_later x.id xs e ys h.1 in let first = h.0 in omega arith

pub IsAbove-snoc :
    (n : ℕ) (xs : List AuditEntry) (e : AuditEntry)
    → IsAbove n xs
    → last_id n xs < e.id
    → IsAbove n (xs ++ e ∷ [])
unfolding last_id
IsAbove-snoc n [] e h lt = (lt, tt)
IsAbove-snoc n (x ∷ xs) e h lt = (h.0, IsAbove-snoc x.id xs e h.1 lt)

beyond_all : (c n : ℕ) (xs : List AuditEntry) → c ≤ n → IsAbove n xs → beyond c xs ≡ xs
beyond_all c n [] le h = refl
beyond_all c n (x ∷ xs) le h =
    let lt = h.0 in
    let up : ltb c x.id ≡ true = ground arith in
    rw (up, beyond_all c x.id xs (omega arith) h.1) refl

-- The rows above the last id of a first part of the log are the rest of it.
pub beyond_rest :
    (n : ℕ) (xs ys : List AuditEntry) → IsAbove n (xs ++ ys) → beyond (last_id n xs) (xs ++ ys) ≡ ys
unfolding last_id
beyond_rest n [] ys h = beyond_all n n ys (omega arith) h
beyond_rest n (x ∷ xs) ys h =
    let le = last_id-le x.id xs (IsAbove-left x.id xs ys h.1) in
    let down : ltb (last_id x.id xs) x.id ≡ false = ground arith in
    rw (down) (beyond_rest x.id xs ys h.1)

pub take-drop : (n : ℕ) (xs : List AuditEntry) → xs ≡ take n xs ++ drop n xs
take-drop zero xs = refl
take-drop (suc n) [] = refl
take-drop (suc n) (x ∷ xs) = ap (λ (l : List AuditEntry). x ∷ l) (take-drop n xs)

-- A batch that is shorter than asked leaves nothing.
pub drop_short : (n : ℕ) (xs : List AuditEntry) → length (take n xs) < n → drop n xs ≡ []
drop_short zero xs h = absurd (omega arith)
drop_short (suc n) [] h = refl
drop_short (suc n) (x ∷ xs) h = drop_short n xs (omega arith)
