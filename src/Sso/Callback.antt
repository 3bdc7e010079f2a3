-- ===== src/Sso/Callback.antt =====
-- What a sign-on callback takes, and what the panel gets for its code (api/oidc_handlers.go).
use aleart_hub.Base.{
  ℕ, ◌+◌, ◌≡◌, ◌≢◌, ◌≤◌, refl, sym, ◌∙◌, ap, subst, true, false, some, [], arith, Option-cases,
  Bool-cases, inl, inr, Text, text, text_eq, text_eqb_iff, ◌==◌, some-injective, ge→ltb,
}
use aleart_hub.Access.{User}
use aleart_hub.OneTime.{stash, redeem}
use aleart_hub.Login.{to_dto}
use aleart_hub.Sso.{
  Provider, Identity, IdToken, Portal, Pending, CallbackReq, to_panel, session_given, identity_of,
  exchange, ensure_sso_user, issue_tokens, admit, put_sso_code, take_sso_code, code_lifetime,
  handle_oidc_callback, handle_oidc_exchange,
}

module _ (p : Provider) (now : ℕ) (random : Text) where
  exchanged :
      (code nonce verifier : Text) (c : Identity)
      → exchange p code nonce verifier ≡ some c
      → (raw : Text) × (t : IdToken) × (p.redeem_code code verifier ≡ some raw)
        × (p.verify_id_token raw ≡ some (nonce, some t))
        × (identity_of t ≡ c)
  unfolding exchange
  exchanged code nonce verifier c h = elim (Option-cases (p.redeem_code code verifier)) [
    | inl refused ↦ absurd (ground arith)
    | inr (raw, given) ↦ elim (Option-cases (p.verify_id_token raw)) [
      | inl forged ↦ absurd (ground arith)
      | inr ((n, claims), verified) ↦ elim (Option-cases claims) [
        | inl odd ↦ absurd (ground arith)
        | inr (t, read) ↦
            let fresh : n ≡ nonce = ground (arith, text_eqb_iff n nonce) in
            let same : some (identity_of t) ≡ some c = ground (arith, text_eqb_iff n nonce) in
            (
              raw,
              t,
              given,
              verified ∙ ap (λ m. some (m, claims)) fresh ∙ ap (λ o. some (nonce, o)) read,
              some-injective (identity_of t) c same,
            )
      ]
    ]
  ]

  paid :
      (d : Pending) (s : Portal) (now' : ℕ)
      → now' ≤ now + code_lifetime
      → (handle_oidc_exchange now' (some random) (put_sso_code now random d s)).1
        ≡ session_given d.access d.refresh d.user
  unfolding handle_oidc_exchange take_sso_code put_sso_code stash redeem
  paid d s now' h =
      rw
        (
          handle_oidc_exchange,
          take_sso_code,
          redeem,
          put_sso_code,
          stash,
          (text_eqb_iff random random).1 refl,
          ge→ltb (now + code_lifetime) now' h,
        )
        refl

  panel-injective : (a b : Text) → to_panel a ≡ to_panel b → a ≡ b
  panel-injective a b = ap (λ x. elim x [ to_panel k ↦ k | _ ↦ a ])

  -- The account that was let in, and its tokens, which the code `code` pays.
  pub record Admitted (provider code : Text) (c : Identity) (s s' : Portal) : Type 0 where
    pub user : User
    pub access : Text
    refresh : Text
    is_account : (ensure_sso_user p c provider s.tables).1 ≡ some user
    is_enabled : user.enabled ≡ true
    has_tokens : issue_tokens p user ≡ some (access, refresh)
    pays :
        (now' : ℕ)
        → now' ≤ now + code_lifetime
        → (handle_oidc_exchange now' (some code) s').1 ≡ session_given access refresh (to_dto user)

  admitted :
      (provider : Text) (c : Identity) (s : Portal) (code : Text)
      → (admit p now random provider c s).1 ≡ to_panel code
      → Admitted provider code c s (admit p now random provider c s).0
  unfolding admit
  admitted provider c s code h = elim (Option-cases (ensure_sso_user p c provider s.tables).1) [
    | inl missing ↦ absurd (ground arith)
    | inr (u, found) ↦ elim (Bool-cases u.enabled) [
      | inr off ↦ absurd (ground arith)
      | inl on ↦ elim (Option-cases (issue_tokens p u)) [
        | inl unsigned ↦ absurd (ground arith)
        | inr ((a, r), tokens) ↦ record {
          user = u;
          access = a;
          refresh = r;
          is_account = found;
          is_enabled = on;
          has_tokens = tokens;
          pays = λ now' early.
              let out : (admit p now random provider c s).1 ≡ to_panel random =
                rw (admit, found, tokens, on) refl in
              let sent = panel-injective random code (sym out ∙ h) in
              subst
                (λ k.
                  (handle_oidc_exchange now' (some k) (admit p now random provider c s).0).1
                  ≡ session_given a r (to_dto u))
                sent (rw (admit, found, tokens, on) (paid _ _ now' early));
        }
      ]
    ]
  ]

  -- What a callback has shown: the identity, and the account it let in.
  pub record Passed (q : CallbackReq) (code : Text) (s s' : Portal) : Type 0 where
    raw : Text
    token : IdToken
    has_state : q.state_cookie ≢ []
    same_state : q.state_cookie ≡ q.state
    redeemed : p.redeem_code q.code q.verifier_cookie ≡ some raw
    verified : p.verify_id_token raw ≡ some (q.nonce_cookie, some token)
    account : Admitted (text "oidc") code (identity_of token) s s'

  called :
      (q : CallbackReq) (s : Portal) (code : Text)
      → (handle_oidc_callback p now random q s).1 ≡ to_panel code
      → (c : Identity) × (exchange p q.code q.nonce_cookie q.verifier_cookie ≡ some c)
        × (p.oidc_enabled ≡ true)
        × ((q.error == []) ≡ true)
        × ((q.state_cookie == []) ≡ false)
        × ((q.state_cookie == q.state) ≡ true)
  unfolding handle_oidc_callback
  called q s code h = elim (Option-cases (exchange p q.code q.nonce_cookie q.verifier_cookie)) [
    | inl failed ↦ absurd (ground arith)
    | inr (c, done) ↦ (c, done, ground arith, ground arith, ground arith, ground arith)
  ]

  let_in :
      (q : CallbackReq) (s : Portal) (c : Identity)
      → exchange p q.code q.nonce_cookie q.verifier_cookie ≡ some c
      → p.oidc_enabled ≡ true
      → (q.error == []) ≡ true
      → (q.state_cookie == []) ≡ false
      → (q.state_cookie == q.state) ≡ true
      → handle_oidc_callback p now random q s ≡ admit p now random (text "oidc") c s
  unfolding handle_oidc_callback
  let_in q s c done on calm present same =
      rw (handle_oidc_callback, done, on, calm, present, same) refl

  -- An OIDC callback sends the browser to the panel only if the state in the query is the one of the
  -- cookie and is not empty, the code and the verifier of the cookie give an ID token that verifies with the nonce of the
  -- cookie, and the account of its subject is enabled; the code it sends then gives the tokens of
  -- that account, for a minute.
  pub handle_oidc_callback-Passed :
      (q : CallbackReq) (s : Portal) (code : Text)
      → (handle_oidc_callback p now random q s).1 ≡ to_panel code
      → Passed q code s (handle_oidc_callback p now random q s).0
  handle_oidc_callback-Passed q s code h =
      let (c, exchanges, is_on, no_error, has_state, same_state) = called q s code h in
      let same = let_in q s c exchanges is_on no_error has_state same_state in
      let (raw, t, given, verified, it) =
        exchanged q.code q.nonce_cookie q.verifier_cookie c exchanges in
      record {
        raw = raw;
        token = t;
        has_state = λ e. ground (arith, text_eqb_iff q.state_cookie []);
        same_state = (text_eqb_iff q.state_cookie q.state).0 same_state;
        redeemed = given;
        verified = verified;
        account =
            subst (λ o. Admitted (text "oidc") code (identity_of t) s o.0)
              (sym (same ∙ ap (λ i. admit p now random (text "oidc") i s) (sym it)))
              (admitted (text "oidc") (identity_of t) s code (
                ap (λ i. (admit p now random (text "oidc") i s).1) it
                ∙ ap (λ o. o.1) (sym same)
                ∙ h));
      }
