-- ===== src/Server/Active.antt =====
-- Which alert is active (api/api.go, maybeSetActive and sweepExpiredActive).
use aleart_hub.Base.{
  sym, ltb→lt, Option-cases, leb, ◌/◌, ◌+◌, ◌==◌, text_eq, text_eqb_iff, Bool-cases, inl, inr, ℕ,
  ◌≤◌, ◌≡◌, refl, ap, ◌∙◌, subst, Bool, true, false, List, [], ◌∷◌, Option, none, some, Text, arith,
  not, ◌&&◌, if◌then◌else◌, ltb,
}
use aleart_hub.Alert.{
  notice, warning, critical, emergency, Alert, Signer, sign, severity_rank, severity_rank?,
}
use aleart_hub.Server.{
  Server, Outside, Setup, signed, publish_alert, maybe_set_active, outranks, is_expired,
  sweep_expired_active,
}
use aleart_hub.Server.Topics.{broadcast_topics, broadcast_on, published_up, sweep_over, sweep_none}

abbrev pub level : Text → ℕ
level s = if s == emergency then 3 else if s == critical then 2 else if s == warning then 1 else 0

not-ltb : (a b : ℕ) → not (ltb a b) ≡ leb b a
not-ltb a b = ground arith

severity_rank_lem : (s : Text) → severity_rank s ≡ level s
unfolding severity_rank severity_rank?
severity_rank_lem s = elim (Bool-cases (s == notice)) [
  | inl same ↦ rw ((text_eqb_iff s notice).0 same) refl
  | inr n ↦ elim (Bool-cases (s == warning)) [
    | inl same ↦ rw ((text_eqb_iff s warning).0 same) refl
    | inr w ↦ elim (Bool-cases (s == critical)) [
      | inl same ↦ rw ((text_eqb_iff s critical).0 same) refl
      | inr c ↦ elim (Bool-cases (s == emergency)) [
        | inl e ↦ rw (severity_rank, severity_rank?, n, w, c, e) refl
        | inr e ↦ rw (severity_rank, severity_rank?, n, w, c, e) refl
      ]
    ]
  ]
]

-- The alert that a publish leaves active: the new one, unless one was active whose time of issue
-- and lifetime reach the second that it is now, and whose severity is higher.
abbrev pub winner : ℕ → Option Alert → Alert → Alert
winner now none a = a
winner now (some cur) a =
    if leb (now / 1_000_000_000) (cur.issued_at + cur.ttl)
      && ltb (level a.severity) (level cur.severity)
    then cur
    else a

outranks-some :
    (now : ℕ) (cur a : Alert)
    → outranks now (some cur) a
      ≡ leb (now / 1_000_000_000) (cur.issued_at + cur.ttl)
        && ltb (level a.severity) (level cur.severity)
unfolding outranks is_expired
outranks-some now cur a =
    rw (severity_rank_lem a.severity, severity_rank_lem cur.severity)
      (ap (λ b. b && ltb (level a.severity) (level cur.severity))
        (not-ltb (cur.issued_at + cur.ttl) (now / 1_000_000_000)))

outranks-none : (now : ℕ) (a : Alert) → outranks now none a ≡ false
unfolding outranks
outranks-none now a = refl

chosen : (b : Bool) (c a : Alert) → (if b then some c else some a) ≡ some (if b then c else a)
chosen true c a = refl
chosen false c a = refl

set_by :
    (io : Outside) (a : Alert) (p : Text) (s : Server) (b : Bool)
    → outranks io.now s.active a ≡ b
    → (maybe_set_active io a p s).active ≡ (if b then s.active else some a)
unfolding maybe_set_active
set_by io a p s true e = rw e refl
set_by io a p s false e = rw (maybe_set_active, e) (ground arith)

set_active_winner :
    (io : Outside) (a : Alert) (p : Text) (s : Server)
    → (maybe_set_active io a p s).active ≡ some (winner io.now s.active a)
set_active_winner io a p s = elim (Option-cases s.active) [
  | inl e ↦
      set_by io a p s false (ap (λ o. outranks io.now o a) e ∙ outranks-none io.now a)
      ∙ rw (ap (λ o. winner io.now o a) e) refl
  | inr (cur, e) ↦
      let b =
        leb (io.now / 1_000_000_000) (cur.issued_at + cur.ttl)
        && ltb (level a.severity) (level cur.severity) in
      set_by io a p s b (ap (λ o. outranks io.now o a) e ∙ outranks-some io.now cur a)
      ∙ ap (λ o. if b then o else some a) e
      ∙ chosen b cur a
      ∙ ap (λ o. some (winner io.now o a)) (sym e)
]

signed_severity :
    (signer : Signer) (setup : Setup signer) (a : Alert)
    → (signed signer setup a).severity ≡ a.severity
unfolding sign
signed_severity signer setup a = refl

kept_level :
    (live above : Bool) (c a : Alert)
    → (above ≡ true → level a.severity ≤ level c.severity)
    → level a.severity ≤ level (if live && above then c else a).severity
kept_level true true c a h = h refl
kept_level true false c a h = omega arith
kept_level false true c a h = omega arith
kept_level false false c a h = omega arith

level-winner :
    (now : ℕ) (cur : Option Alert) (a : Alert)
    → level a.severity ≤ level (winner now cur a).severity
level-winner now none a = omega arith
level-winner now (some c) a =
    kept_level (leb (now / 1_000_000_000) (c.issued_at + c.ttl))
      (ltb (level a.severity) (level c.severity)) c a
      (λ h. let k = ltb→lt (level a.severity) (level c.severity) h in omega (arith, k))

module _ (signer : Signer) (setup : Setup signer) where
  -- A publish that the broker takes leaves an alert active: the one that was, where the current
  -- second is no later than its time of issue plus its lifetime and its severity is higher than
  -- that of the new one, and else the new one as it was signed. So the active alert is never less
  -- severe than the alert just published.
  pub publish_alert_active :
      (io : Outside) (a : Alert) (org : ℕ) (s : Server)
      → io.events_ok ≡ true
      → (x : Alert) × ((publish_alert signer setup io a org s).0.active ≡ some x)
        × (x ≡ winner io.now s.active (signed signer setup a))
        × (level a.severity ≤ level x.severity)
  publish_alert_active io a org s up =
      let k = signed signer setup a in
      let t = broadcast_on signer setup k s in
      (
        winner io.now s.active k,
        ap (λ r. r.0.active) (published_up signer setup io a org s up)
            ∙ (broadcast_topics signer setup io k org t).0
            ∙ set_active_winner io k (setup.marshal k) t,
        refl,
        subst (λ (v : Text). level v ≤ level (winner io.now s.active k).severity)
            (signed_severity signer setup a) (level-winner io.now s.active k),
      )

abbrev pub run_sweeps : List Outside → Server → Server
run_sweeps [] s = s
run_sweeps (io ∷ ios) s = run_sweeps ios (sweep_expired_active io s)

sweeps_idle : (ios : List Outside) (s : Server) → s.active ≡ none → run_sweeps ios s ≡ s
sweeps_idle [] s h = refl
sweeps_idle (io ∷ ios) s h =
    let e = sweep_none io s h in ap (run_sweeps ios) e ∙ sweeps_idle ios s h

-- Whether an alert is active that has not expired, or none is.
abbrev pub is_live : ℕ → Option Alert → Bool
is_live now none = true
is_live now (some a) = not (is_expired now a)

-- After a pass of the sweeper no expired alert is active, whatever the broker answers, and one that
-- has not expired stays.
pub sweep_expired_active_lem :
    (io : Outside) (s : Server)
    → (is_live io.now (sweep_expired_active io s).active ≡ true)
      × ((sweep_expired_active io s).active ≡ (if is_live io.now s.active then s.active else none))
unfolding sweep_expired_active
sweep_expired_active_lem io s = (ground arith, ground arith)

-- If the broker refuses the message that clears an expired alert, no later pass of the sweeper
-- sends it again: the alert stays retained on alerts/active.
pub sweep_expired_active_lost :
    (io : Outside) (ios : List Outside) (s : Server) (a : Alert)
    → s.active ≡ some a
    → is_expired io.now a ≡ true
    → io.active_ok ≡ false
    → (run_sweeps (io ∷ ios) s).retained ≡ s.retained
sweep_expired_active_lost io ios s a e x down =
    let over = sweep_over io s a e x in
    ap (λ r. (run_sweeps ios r).retained) (over ∙ rw down refl)
    ∙ ap (λ r. r.retained) (sweeps_idle ios (record s { active = none }) refl)
