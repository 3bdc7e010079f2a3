-- ===== src/Login/Password.antt =====
-- A password alone opens no session of an account with a second factor (auth_handlers.go over
-- twofa.go), whatever requests are made in whatever order.
use aleart_hub.Base.{
  ℕ, ◌≡◌, ◌≢◌, refl, sym, ◌∙◌, true, false, Option, none, some, List, inl, inr, Option-cases, arith,
  nat_eq, text_eq, Text,
}
use aleart_hub.Access.{Claims, Request, Gate, unauthorized, forbidden, served, credential}
use aleart_hub.TwoFactor.{Totp, Factor, Io, Generated, verify_login}
use aleart_hub.TwoFactor.Rows.{begin_other, enable_other, disable_other}
use aleart_hub.Login.{
  Site, World, Reply, LoginReq, VerifyReq, access, handle_login, handle_2fa_verify, handle_refresh,
  gate, with_gate, handle_2fa_begin, handle_2fa_enable, handle_2fa_disable, audit_person,
}
use aleart_hub.Login.Tokens.{IsKnown, verified_other, gate_verified}
use aleart_hub.Login.Locked.{IsSetUp, IsLocked, login-IsLocked, refresh-IsLocked, verify-IsLocked}

-- One request. The users, the clock and the answers of the libraries may differ from one to the next.
-- Login reads the row of the second factor; the caller of 2fa/verify has no code of the account `uid`;
-- and tokens are not forged.
pub data Step (uid : ℕ) : World → World → Type 0 where
  logs_in :
      (site : Site) (io : Io) (body : Option LoginReq) (w : World)
      → IsSetUp site
      → io.reads ≡ true
      → Step uid w (handle_login site io body w).0
  verifies :
      (site : Site) (f : Factor) (io : Io) (req : VerifyReq) (w : World)
      → IsSetUp site
      → IsKnown site w req.pending_token
      → (verify_login f io uid req.code w.totps).1 ≡ false
      → Step uid w (handle_2fa_verify site f io (some req) w).0
  refreshes :
      (site : Site) (raw : Text) (w : World)
      → IsSetUp site
      → IsKnown site w raw
      → Step uid w (handle_refresh site (some raw) w).0
  begins :
      (site : Site) (io : Io) (g : Option Generated) (r : Request) (w : World)
      → IsSetUp site
      → IsKnown site w (credential r)
      → Step uid w (with_gate site r w (handle_2fa_begin site io g w)).0
  enables :
      (site : Site) (f : Factor) (io : Io) (drawn : List Text) (org : ℕ) (body : Option Text)
      (r : Request) (w : World)
      → IsSetUp site
      → IsKnown site w (credential r)
      → Step uid w (with_gate site r w (handle_2fa_enable site f io drawn org body w)).0
  disables :
      (site : Site) (f : Factor) (io : Io) (org : ℕ) (body : Option Text) (r : Request) (w : World)
      → IsSetUp site
      → IsKnown site w (credential r)
      → Step uid w (with_gate site r w (handle_2fa_disable site f io org body w)).0

pub data Reaches (uid : ℕ) : World → World → Type 0 where
  stays : (w : World) → Reaches uid w w
  goes : (v w x : World) → Reaches uid v w → Step uid w x → Reaches uid v x

module _ (uid : ℕ) (r : Totp) (on : r.enabled ≡ true) where
  -- An endpoint of a session: the caller is another person, or the admin token.
  gated-IsLocked :
      (site : Site) (rq : Request) (w : World) (handler : Option Claims → World × Reply)
      → IsKnown site w (credential rq)
      → IsLocked uid r w
      → IsLocked uid r (handler none).0
      → ((c : Claims) → c.user_id ≢ uid → IsLocked uid r (handler (some c)).0)
      → (g : Gate) → gate site rq ≡ g
      → IsLocked uid r (with_gate site rq w handler).0
  unfolding with_gate
  gated-IsLocked site rq w handler known h anonymous own unauthorized e = rw (e, with_gate) h
  gated-IsLocked site rq w handler known h anonymous own forbidden e = rw (e, with_gate) h
  gated-IsLocked site rq w handler known h anonymous own (served none org) e =
      rw (e, with_gate) anonymous
  gated-IsLocked site rq w handler known h anonymous own (served (some c) org) e =
      rw (e, with_gate)
        (own c (
          verified_other site uid w (credential rq) access c h.1 known
            (gate_verified site rq c org e) (λ q. ground arith)))

  begin-IsLocked :
      (site : Site) (io : Io) (g : Option Generated) (w : World) (c : Claims)
      → IsSetUp site
      → IsLocked uid r w
      → c.user_id ≢ uid
      → IsLocked uid r (handle_2fa_begin site io g w (some c)).0
  unfolding handle_2fa_begin
  begin-IsLocked site io g w c setup h ne =
      elim (Option-cases (site.directory.user_by_id c.user_id)) [
        | inl e ↦ ground arith
        | inr (u, e) ↦
            let other : u.id ≢ uid = λ same. ne (sym (setup.1 c.user_id u e) ∙ same) in
            let row = begin_other uid u.id other io g w.totps ∙ h.0 in (ground arith, ground arith)
      ]

  enable-IsLocked :
      (site : Site) (f : Factor) (io : Io) (drawn : List Text) (org : ℕ) (body : Option Text)
      (w : World) (c : Claims)
      → IsLocked uid r w
      → c.user_id ≢ uid
      → IsLocked uid r (handle_2fa_enable site f io drawn org body w (some c)).0
  unfolding handle_2fa_enable audit_person
  enable-IsLocked site f io drawn org none w c h ne = (ground arith, ground arith)
  enable-IsLocked site f io drawn org (some code) w c h ne =
      let row = enable_other uid c.user_id ne f io drawn code w.totps ∙ h.0 in
      (ground arith, ground arith)

  disable-IsLocked :
      (site : Site) (f : Factor) (io : Io) (org : ℕ) (body : Option Text) (w : World) (c : Claims)
      → IsLocked uid r w
      → c.user_id ≢ uid
      → IsLocked uid r (handle_2fa_disable site f io org body w (some c)).0
  unfolding handle_2fa_disable audit_person
  disable-IsLocked site f io org none w c h ne = (ground arith, ground arith)
  disable-IsLocked site f io org (some code) w c h ne =
      let row = disable_other uid c.user_id ne f io code w.totps ∙ h.0 in
      (ground arith, ground arith)

  Step-IsLocked : (v w : World) → Step uid v w → IsLocked uid r v → IsLocked uid r w
  unfolding handle_2fa_begin handle_2fa_enable handle_2fa_disable
  Step-IsLocked _ _ (logs_in site io body w setup reads) h =
      login-IsLocked uid r on site io body w setup reads h
  Step-IsLocked _ _ (verifies site f io req w setup known no_code) h =
      verify-IsLocked uid r on site f io req w setup no_code h
  Step-IsLocked _ _ (refreshes site raw w setup known) h =
      refresh-IsLocked uid r on site raw w setup known h
  Step-IsLocked _ _ (begins site io g rq w setup known) h =
      gated-IsLocked site rq w (handle_2fa_begin site io g w) known h h
        (λ c ne. begin-IsLocked site io g w c setup h ne) (gate site rq) refl
  Step-IsLocked _ _ (enables site f io drawn org body rq w setup known) h =
      gated-IsLocked site rq w (handle_2fa_enable site f io drawn org body w) known h h
        (λ c ne. enable-IsLocked site f io drawn org body w c h ne) (gate site rq) refl
  Step-IsLocked _ _ (disables site f io org body rq w setup known) h =
      gated-IsLocked site rq w (handle_2fa_disable site f io org body w) known h h
        (λ c ne. disable-IsLocked site f io org body w c h ne) (gate site rq) refl

-- Take an account whose second factor is on and of which no access or refresh token was given out,
-- and requests in any order to login, 2fa/verify, refresh and the enrolment endpoints, by callers who
-- may know its password and hold every token that was given out, but hold no code of it and forge no
-- token, where login can read the row. Then no access or refresh token of the account is ever given
-- out, and its second factor stays on with the same secret and recovery codes.
pub Reaches-IsLocked :
    (uid : ℕ) (r : Totp) (v w : World)
    → r.enabled ≡ true
    → Reaches uid v w
    → IsLocked uid r v
    → IsLocked uid r w
Reaches-IsLocked uid r _ _ on (stays w) h = h
Reaches-IsLocked uid r _ _ on (goes v w x path step) h =
    Step-IsLocked uid r on w x step (Reaches-IsLocked uid r v w on path h)
