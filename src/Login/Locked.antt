-- ===== src/Login/Locked.antt =====
-- What the login handlers keep of an account with a second factor (auth_handlers.go over twofa.go).
use aleart_hub.Base.{
  ℕ, ◌≡◌, ◌≢◌, sym, ap, subst, ◌∙◌, Bool, true, false, Option, none, some, inl, inr, Bool-cases,
  Option-cases, arith, ◌==◌, nat_eq, text_eq, Text,
}
use aleart_hub.Access.{User}
use aleart_hub.TwoFactor.{Totp, Totps, Factor, Io, verify_login}
use aleart_hub.TwoFactor.Rows.{verify_login_other, verify_login_refused, status_lem}
use aleart_hub.Login.{
  Site, World, LoginReq, VerifyReq, refresh, pending, token_user, open_session, ask_second_factor,
  audit_login_attempt, password_user, second_factor_on, handle_login, handle_2fa_verify,
  handle_refresh,
}
use aleart_hub.Login.Tokens.{
  IsKnown, NoSession, verified_other, token_user_verified, open_session_closed,
  ask_second_factor_closed,
}

-- TwoFA is there, and a user is found under the own id.
abbrev pub IsSetUp : Site → Type 0
IsSetUp site =
    (site.two_fa ≡ true) × ((i : ℕ) (u : User) → site.directory.user_by_id i ≡ some u → u.id ≡ i)

-- The row is `r`, and no access or refresh token of the account was given out.
abbrev pub IsLocked : ℕ → Totp → World → Type 0
IsLocked uid r w = (w.totps uid ≡ some r) × NoSession uid w

module _ (uid : ℕ) (r : Totp) (on : r.enabled ≡ true) where
  open-IsLocked :
      (site : Site) (u : User) (w : World)
      → u.id ≢ uid
      → IsLocked uid r w
      → IsLocked uid r (open_session site u w).0
  unfolding open_session
  open-IsLocked site u w ne h = (ground arith, open_session_closed site uid u w ne h.1)

  ask-IsLocked :
      (site : Site) (u : User) (w : World)
      → IsLocked uid r w
      → IsLocked uid r (ask_second_factor site u w).0
  unfolding ask_second_factor
  ask-IsLocked site u w h = (ground arith, ask_second_factor_closed site uid u w h.1)

  audit-IsLocked :
      (site : Site) (upn : Text) (ok : Bool) (w : World)
      → IsLocked uid r w
      → IsLocked uid r (audit_login_attempt site upn ok w)
  unfolding audit_login_attempt
  audit-IsLocked site upn ok w h = h

  second_factor_asked :
      (site : Site) (io : Io) (u : User) (w : World)
      → site.two_fa ≡ true
      → io.reads ≡ true
      → u.id ≡ uid
      → w.totps uid ≡ some r
      → second_factor_on site io u w ≡ true
  unfolding second_factor_on
  second_factor_asked site io u w wired reads same row =
      let row' : w.totps u.id ≡ some r = ap w.totps same ∙ row in
      ground (arith, status_lem io u.id w.totps r reads row')

  pub login-IsLocked :
      (site : Site) (io : Io) (body : Option LoginReq) (w : World)
      → IsSetUp site
      → io.reads ≡ true
      → IsLocked uid r w
      → IsLocked uid r (handle_login site io body w).0
  unfolding handle_login
  login-IsLocked site io none w setup reads h = h
  login-IsLocked site io (some req) w setup reads h = elim (Option-cases (password_user site req)) [
    | inl e ↦ rw (e, handle_login) (audit-IsLocked site req.upn false w h)
    | inr (u, e) ↦
        let logged = audit_login_attempt site u.upn true w in
        let h' = audit-IsLocked site u.upn true w h in
        elim (Bool-cases (second_factor_on site io u logged)) [
          | inl asked ↦ rw (e, asked, handle_login) (ask-IsLocked site u logged h')
          | inr open_at_once ↦
              rw (e, open_at_once, handle_login)
                (open-IsLocked site u logged
                  (λ same.
                    ground (arith, second_factor_asked site io u logged setup.0 reads same h'.0))
                  h')
        ]
  ]

  -- The user of a token that opens a session is another.
  token_other :
      (site : Site) (raw subject : Text) (u : User) (w : World)
      → IsSetUp site
      → IsKnown site w raw
      → IsLocked uid r w
      → subject ≢ pending
      → token_user site raw subject ≡ some u
      → u.id ≢ uid
  token_other site raw subject u w setup known h ne e =
      let (c, verified, row) = token_user_verified site raw subject u e in
      let other = verified_other site uid w raw subject c h.1 known verified ne in
      λ same. other (sym (setup.1 c.user_id u row) ∙ same)

  pub refresh-IsLocked :
      (site : Site) (raw : Text) (w : World)
      → IsSetUp site
      → IsKnown site w raw
      → IsLocked uid r w
      → IsLocked uid r (handle_refresh site (some raw) w).0
  unfolding handle_refresh
  refresh-IsLocked site raw w setup known h = elim (Option-cases (token_user site raw refresh)) [
    | inl e ↦ rw (e, handle_refresh) h
    | inr (u, e) ↦
        rw (e, handle_refresh)
          (open-IsLocked site u w
            (token_other site raw refresh u w setup known h (λ q. ground arith) e) h)
  ]

  -- The row and the tokens after a code was refused, or was that of another account.
  verified-IsLocked :
      (f : Factor) (io : Io) (v : ℕ) (code : Text) (w : World)
      → (verify_login f io uid code w.totps).1 ≡ false
      → IsLocked uid r w
      → IsLocked uid r (record w { totps = (verify_login f io v code w.totps).0 })
  verified-IsLocked f io v code w no_code h = elim (Bool-cases (v == uid)) [
    | inl same ↦
        let e : v ≡ uid = ground arith in
        let refused =
          subst (λ (x : ℕ). (verify_login f io x code w.totps).1 ≡ false) (sym e) no_code in
        (ap (λ (t : Totps). t uid) (verify_login_refused f io v code w.totps refused) ∙ h.0, h.1)
    | inr differs ↦ (verify_login_other uid v (λ e. ground arith) f io code w.totps ∙ h.0, h.1)
  ]

  pub verify-IsLocked :
      (site : Site) (f : Factor) (io : Io) (req : VerifyReq) (w : World)
      → IsSetUp site
      → (verify_login f io uid req.code w.totps).1 ≡ false
      → IsLocked uid r w
      → IsLocked uid r (handle_2fa_verify site f io (some req) w).0
  unfolding handle_2fa_verify open_session
  verify-IsLocked site f io req w setup no_code h =
      elim (Option-cases (token_user site req.pending_token pending)) [
        | inl e ↦ rw (e, handle_2fa_verify) h
        | inr (u, e) ↦
            let after = record w { totps = (verify_login f io u.id req.code w.totps).0 } in
            let h' = verified-IsLocked f io u.id req.code w no_code h in
            let wired = setup.0 in
            elim (Bool-cases (verify_login f io u.id req.code w.totps).1) [
              | inl accepted ↦
                  rw (e, wired, accepted, handle_2fa_verify)
                    (open-IsLocked site u after
                      (λ same. ground (
                        arith,
                        subst (λ (x : ℕ). (verify_login f io x req.code w.totps).1 ≡ false)
                            (sym same) no_code,
                      ))
                      h')
              | inr refused ↦ rw (e, wired, refused, handle_2fa_verify) h'
            ]
      ]
