-- ===== src/Siem/Collector.antt =====
-- A collector that keeps one copy of each entry, by id, as siem.go asks of the receiving end ("the
-- receiving end must dedupe on entry id"). It is no code of the repository.
use aleart_hub.Base.{
  ℕ, ◌≡◌, refl, sym, ap, subst, ◌∙◌, Bool, true, false, List, [], ◌∷◌, ◌++◌, append_assoc,
  append-nil, arith, if◌then◌else◌, ◌==◌, nat_eq, any,
}
use aleart_hub.Audit.{AuditEntry}
use aleart_hub.Siem.Ids.{IsAbove, above_later}

abbrev pub has_entry : ℕ → List AuditEntry → Bool
has_entry i kept = any (λ e. e.id == i) kept

abbrev pub keep : List AuditEntry → AuditEntry → List AuditEntry
keep kept e = if has_entry e.id kept then kept else kept ++ e ∷ []

unfoldable pub receive : List AuditEntry → List AuditEntry → List AuditEntry
receive kept [] = kept
receive kept (e ∷ es) = receive (keep kept e) es

pub receive-append :
    (kept xs ys : List AuditEntry) → receive kept (xs ++ ys) ≡ receive (receive kept xs) ys
unfolding receive
receive-append kept [] ys = refl
receive-append kept (x ∷ xs) ys = receive-append (keep kept x) xs ys

has_entry_new :
    (n : ℕ) (kept : List AuditEntry) (e : AuditEntry) (tail : List AuditEntry)
    → IsAbove n (kept ++ e ∷ tail)
    → has_entry e.id kept ≡ false
has_entry_new n [] e tail h = refl
has_entry_new n (x ∷ kept) e tail h =
    let lt = above_later x.id kept e tail h.1 in
    let other : (x.id == e.id) ≡ false = ground arith in
    rw (other, has_entry_new x.id kept e tail h.1) refl

has_entry_kept :
    (kept : List AuditEntry) (e : AuditEntry) (more : List AuditEntry)
    → has_entry e.id (kept ++ e ∷ more) ≡ true
has_entry_kept [] e more = let same : (e.id == e.id) ≡ true = ground arith in rw same refl
has_entry_kept (x ∷ kept) e more = ground (arith, has_entry_kept kept e more)

snoc_append :
    (xs : List AuditEntry) (e : AuditEntry) (ys : List AuditEntry)
    → (xs ++ e ∷ []) ++ ys ≡ xs ++ e ∷ ys
snoc_append xs e ys = append_assoc xs (e ∷ []) ys

-- The log from its first row.
abbrev IsAbove0 : List AuditEntry → Type 0
IsAbove0 log = IsAbove 0 log

receive_new :
    (kept xs after : List AuditEntry)
    → IsAbove 0 (kept ++ (xs ++ after))
    → receive kept xs ≡ kept ++ xs
unfolding receive
receive_new kept [] after h = sym (append-nil kept)
receive_new kept (x ∷ xs) after h = rw (has_entry_new 0 kept x (xs ++ after) h) (
    receive_new (kept ++ x ∷ []) xs after
      (subst IsAbove0 (sym (snoc_append kept x (xs ++ after))) h)
    ∙ snoc_append kept x xs)

-- A collector that keeps `done ++ pending` of a log and gets a batch from after `done`: it then keeps
-- at least `done ++ batch`, in the order of the log.
pub receive_again :
    (done pending rest batch after : List AuditEntry)
    → IsAbove 0 (done ++ (pending ++ rest))
    → pending ++ rest ≡ batch ++ after
    → (more : List AuditEntry) × (left : List AuditEntry) × (receive (done ++ pending) batch
        ≡ done ++ (batch ++ more))
      × (batch ++ more ++ left ≡ pending ++ rest)
unfolding receive
receive_again done pending rest [] after h e = (pending, rest, refl, refl)
receive_again done [] rest (b ∷ batch) after h e = (
  [],
  after,
  ap (λ (l : List AuditEntry). receive l (b ∷ batch)) (append-nil done)
      ∙ receive_new done (b ∷ batch) after
          (subst (λ (l : List AuditEntry). IsAbove 0 (done ++ l)) e h)
      ∙ ap (λ (l : List AuditEntry). done ++ l) (sym (append-nil (b ∷ batch))),
  ap (λ (l : List AuditEntry). l ++ after) (append-nil (b ∷ batch)) ∙ sym e,
)
receive_again done (p ∷ pending) rest (b ∷ batch) after h e =
    let same : p ≡ b = cc in
    let (more, left, kept, all) =
      receive_again (done ++ p ∷ []) pending rest batch after
        (subst IsAbove0 (sym (snoc_append done p (pending ++ rest))) h) (cc) in
    let known : has_entry b.id (done ++ p ∷ pending) ≡ true =
      subst (λ (x : AuditEntry). has_entry x.id (done ++ p ∷ pending) ≡ true) same
        (has_entry_kept done p pending) in
    (
      more,
      left,
      rw known (
          ap (λ (l : List AuditEntry). receive l batch) (sym (snoc_append done p pending))
          ∙ kept
          ∙ snoc_append done p (batch ++ more)
          ∙ ap (λ (x : AuditEntry). done ++ x ∷ (batch ++ more)) same),
      cc,
    )
