-- ===== src/Siem/Passes.antt =====
-- What passes of the exporter (siem.go, exportOnce) leave in the collector, in whatever way the
-- database and the collector fail, and that a pass ends.
use aleart_hub.Base.{
  ℕ, zero, suc, ◌+◌, ◌<◌, ◌≡◌, ◌≢◌, refl, sym, ap, subst, ◌∙◌, List, [], ◌∷◌, ◌++◌, append_assoc,
  append-nil, inl, inr, Bool-cases, arith, ltb, take, drop, length, length-append,
}
use aleart_hub.Audit.{AuditEntry}
use aleart_hub.Siem.{
  Shipment, unreadable, refused, unmarked, taken, Export, Outcome, drained, failed, out_of_fuel,
  clamp, audit_since, last_id, sent, ship, export_once,
}
use aleart_hub.Siem.Ids.{IsAbove, beyond, last_id-append, beyond_rest, take-drop, drop_short}
use aleart_hub.Siem.Collector.{receive, receive-append, receive_again}

-- What a collector that starts empty keeps of all it has received.
abbrev pub kept : Export → List AuditEntry
kept x = receive [] x.received

-- The log splits in what was marked as shipped, what the collector has beyond that, and the rest.
pub record IsSynced (log : List AuditEntry) (x : Export) : Type 0 where
  pub done : List AuditEntry
  pub pending : List AuditEntry
  pub rest : List AuditEntry
  pub splits : log ≡ done ++ (pending ++ rest)
  pub marks : x.cursor ≡ last_id 0 done
  pub holds : kept x ≡ done ++ pending

beyond_cursor :
    (log : List AuditEntry) (x : Export) (s : IsSynced log x)
    → IsAbove 0 log
    → beyond x.cursor log ≡ s.pending ++ s.rest
beyond_cursor log x s h =
    ap (λ (c : ℕ). beyond c log) s.marks
    ∙ ap (beyond (last_id 0 s.done)) s.splits
    ∙ beyond_rest 0 s.done (s.pending ++ s.rest) (subst (IsAbove 0) s.splits h)

-- How many rows the exporter has still to mark.
abbrev behind : (log : List AuditEntry) (x : Export) → IsSynced log x → ℕ
behind log x s = length s.pending + length s.rest

abbrev take_batch : List AuditEntry → Export → Export
take_batch batch x = record (sent batch x) { cursor = last_id x.cursor batch }

-- The collector gets a batch from after the cursor; the cursor stays, or moves to its last row.
sent-IsSynced :
    (log batch after : List AuditEntry) (x : Export)
    → IsAbove 0 log
    → IsSynced log x
    → beyond x.cursor log ≡ batch ++ after
    → IsSynced log (sent batch x)
      × (s : IsSynced log (take_batch batch x)) × (behind log (take_batch batch x) s ≡ length after)
sent-IsSynced log batch after x h s e =
    let tail = sym (beyond_cursor log x s h) ∙ e in
    let (more, left, has, all) =
      receive_again s.done s.pending s.rest batch after (subst (IsAbove 0) s.splits h) tail in
    let got : kept (sent batch x) ≡ s.done ++ (batch ++ more) =
      receive-append [] x.received batch
      ∙ ap (λ (l : List AuditEntry). receive l batch) s.holds
      ∙ has in
    let whole : log ≡ s.done ++ (batch ++ more ++ left) =
      s.splits ∙ ap (λ (l : List AuditEntry). s.done ++ l) (sym all) in
    let count : length (batch ++ more ++ left) ≡ length (batch ++ after) = ap length (all ∙ tail) in
    (
      record {
        done = s.done;
        pending = batch ++ more;
        rest = left;
        splits = whole;
        marks = s.marks;
        holds = got;
      },
      record {
        done = s.done ++ batch;
        pending = more;
        rest = left;
        splits =
            whole
            ∙ ap (λ (l : List AuditEntry). s.done ++ l) (append_assoc batch more left)
            ∙ sym (append_assoc s.done batch (more ++ left));
        marks = ap (λ (c : ℕ). last_id c batch) s.marks ∙ sym (last_id-append 0 s.done batch);
        holds = got ∙ sym (append_assoc s.done batch more);
      },
      (let a = length-append (batch ++ more) left in
          let b = length-append batch more in let c = length-append batch after in omega arith),
    )

empty_of_length : (xs : List AuditEntry) → length xs ≡ 0 → xs ≡ []
empty_of_length [] h = refl
empty_of_length (x ∷ xs) h = absurd (omega arith)

-- With nothing left to mark, the collector has the whole log.
all_kept :
    (log : List AuditEntry) (x : Export) (s : IsSynced log x) → behind log x s ≡ 0 → kept x ≡ log
all_kept log x s h =
    let p = empty_of_length s.pending (omega arith) in
    let r = empty_of_length s.rest (omega arith) in
    let l : s.pending ++ s.rest ≡ s.pending =
      ap (λ (l : List AuditEntry). s.pending ++ l) r ∙ append-nil s.pending in
    s.holds ∙ ap (λ (l : List AuditEntry). s.done ++ l) (sym l) ∙ sym s.splits

-- What a pass promises: it ends, the collector stays a part of the log, and where the pass ends
-- because it found nothing more, with a batch size that AuditSince accepts, the collector has it all.
abbrev pub IsPass : ℕ → List AuditEntry → Export × Outcome → Type 0
IsPass batch log (x, o) =
    IsSynced log x × (o ≢ out_of_fuel) × (clamp batch ≡ batch → o ≡ drained → kept x ≡ log)

still_failed :
    (batch : ℕ) (log : List AuditEntry) (x : Export) → IsSynced log x → IsPass batch log (x, failed)
still_failed batch log x s = (s, λ e. ground arith, λ c e. absurd (ground arith))

ends_drained :
    (batch : ℕ) (log : List AuditEntry) (x : Export) (s : IsSynced log x)
    → (clamp batch ≡ batch → behind log x s ≡ 0)
    → IsPass batch log (x, drained)
ends_drained batch log x s none_left = (s, λ e. ground arith, λ c e. all_kept log x s (none_left c))

clamp_pos : (n : ℕ) → clamp n ≡ n → 0 < n
unfolding clamp
clamp_pos n h = ground arith

-- An empty batch: nothing is left.
behind_none :
    (log after : List AuditEntry) (x : Export)
    → IsAbove 0 log
    → (s : IsSynced log x) → beyond x.cursor log ≡ after
    → behind log x s ≡ length after
behind_none log after x h s e =
    let l = ap length (sym (beyond_cursor log x s h) ∙ e) in
    let a = length-append s.pending s.rest in omega arith

-- A round of which `next` keeps the promise.
ship-IsPass :
    (batch : ℕ) (log es after : List AuditEntry) (a : Shipment) (x : Export)
    (next : Export → Export × Outcome)
    → IsAbove 0 log
    → IsSynced log x
    → beyond x.cursor log ≡ es ++ after
    → (clamp batch ≡ batch → length es < batch → after ≡ [])
    → ((y : Export) (t : IsSynced log y)
        → behind log y t ≡ length after
        → 0 < length es
        → IsPass batch log (next y))
    → IsPass batch log (ship batch es a x next)
unfolding ship last_id
ship-IsPass batch log [] after a x next h s e short go =
    let stop =
      ends_drained batch log x s
        (λ c. behind_none log after x h s e ∙ ap length (short c (clamp_pos batch c))) in
    elim a as (λ k. IsPass batch log (ship batch [] k x next)) [
      | unreadable ↦ still_failed batch log x s
      | refused n ↦ stop
      | unmarked ↦ stop
      | taken ↦ stop
    ]
ship-IsPass batch log (b ∷ es) after unreadable x next h s e short go = still_failed batch log x s
ship-IsPass batch log (b ∷ es) after (refused n) x next h s e short go =
    let part : beyond x.cursor log ≡ take n (b ∷ es) ++ (drop n (b ∷ es) ++ after) =
      e
      ∙ ap (λ (l : List AuditEntry). l ++ after) (take-drop n (b ∷ es))
      ∙ append_assoc (take n (b ∷ es)) (drop n (b ∷ es)) after in
    still_failed batch log _
      (sent-IsSynced log (take n (b ∷ es)) (drop n (b ∷ es) ++ after) x h s part).0
ship-IsPass batch log (b ∷ es) after unmarked x next h s e short go =
    still_failed batch log _ (sent-IsSynced log (b ∷ es) after x h s e).0
ship-IsPass batch log (b ∷ es) after taken x next h s e short go =
    let (_, t, left) = sent-IsSynced log (b ∷ es) after x h s e in
    elim (Bool-cases (ltb (length (b ∷ es)) batch)) [
      | inl last ↦
          rw (last, ship)
            (ends_drained batch log _ t (λ c. left ∙ ap length (short c (ground arith))))
      | inr full ↦ rw (full, ship) (go (take_batch (b ∷ es) x) t left (omega arith))
    ]

-- exportOnce with as much fuel as there are rows to mark, and one more.
pub export_once-IsPass :
    (fuel batch : ℕ) (answers : ℕ → Shipment) (i : ℕ) (log : List AuditEntry) (x : Export)
    → IsAbove 0 log
    → (s : IsSynced log x) → behind log x s < fuel
    → IsPass batch log (export_once fuel batch answers i log x)
unfolding export_once audit_since
export_once-IsPass zero batch answers i log x h s enough = absurd (omega arith)
export_once-IsPass (suc fuel) batch answers i log x h s enough =
    let rows = beyond x.cursor log in
    let es = take (clamp batch) rows in
    let after = drop (clamp batch) rows in
    let count = behind_none log rows x h s refl in
    let split = take-drop (clamp batch) rows in
    let sizes = ap length split ∙ length-append es after in
    ship-IsPass batch log es after (answers i) x (export_once fuel batch answers (i + 1) log) h s
      split (λ c few. drop_short (clamp batch) rows (ground arith))
      (λ y t left some_taken. export_once-IsPass fuel batch answers (i + 1) log y h t (omega arith))
