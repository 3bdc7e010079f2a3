-- ===== src/Passkey/Owners.antt =====
-- Whose passkeys a request may change (passkey_handlers.go, passkey.go, store/passkey.go).
use aleart_hub.Base.{
  ℕ, ◌≡◌, ◌≢◌, refl, ◌∙◌, ap, Bool, true, false, not, ◌&&◌, Option, none, some, List, [], ◌∷◌, ◌++◌,
  arith, Option-cases, Bool-cases, inl, inr, Text, any, select, select-append, append-nil, nat_eq,
  text_eq, ◌==◌,
}
use aleart_hub.Access.{Claims, User}
use aleart_hub.Passkey.{
  PasskeyRow, PasskeyTable, WebAuthn, SessionEntry, Service, Visit, add_passkey, list_passkeys,
  delete_passkey, take_session, load_user, finish_registration,
}
use aleart_hub.Passkey.Endpoints.{
  Desk, no_content, handle_passkey_reg_finish, handle_passkey_delete,
}

delete_passkey-others :
    (user id v : ℕ) (rows : List PasskeyRow)
    → v ≢ user
    → select (λ p. p.user_id == v) (select (λ p. not (p.id == id && p.user_id == user)) rows)
      ≡ select (λ p. p.user_id == v) rows
delete_passkey-others user id v [] h = refl
delete_passkey-others user id v (p ∷ ps) h = ground (arith, delete_passkey-others user id v ps h)

add_passkey-others :
    (p : PasskeyRow) (v : ℕ) (t : PasskeyTable)
    → v ≢ p.user_id
    → list_passkeys v (elim (add_passkey p t) [ none ↦ t | some t' ↦ t' ]) ≡ list_passkeys v t
unfolding add_passkey list_passkeys
add_passkey-others p v t h =
    elim (Bool-cases (any (λ q. q.credential_id == p.credential_id) t.rows)) [
      | inl known ↦ rw known refl
      | inr fresh ↦ rw fresh (
          select-append (λ q. q.user_id == v) t.rows (record p { id = t.next_id } ∷ [])
          ∙ ap (λ r. select (λ q. q.user_id == v) t.rows ++ r) (ground arith)
          ∙ append-nil (select (λ q. q.user_id == v) t.rows))
    ]

module _ (wa : WebAuthn) (io : Visit) (user : ℕ) (upn sid name : Text) where
  module _ (v : ℕ) (other : v ≢ user) where
    stored :
        (p : PasskeyRow) (s : Service wa)
        → p.user_id ≡ user
        → list_passkeys v
            (elim (add_passkey p s.table) as (λ o. Service wa × Bool) [
              | none ↦ (s, false)
              | some t ↦ (record s { table = t }, true)
            ]).0.table
          ≡ list_passkeys v s.table
    stored p s own = elim (Option-cases (add_passkey p s.table)) [
      | inl full ↦ rw full refl
      | inr (t, added) ↦
          rw added (rw added at (add_passkey-others p v s.table (λ e. other (e ∙ own))))
    ]

  registered :
      (s : Service wa) (v : ℕ)
      → v ≢ user
      → list_passkeys v (finish_registration wa io user upn sid name s).0.table
        ≡ list_passkeys v s.table
  unfolding finish_registration take_session
  registered s v h = elim (Option-cases (take_session wa io sid s).1) [
    | inl gone ↦ rw (finish_registration, gone) refl
    | inr (e, held) ↦ elim (Bool-cases (e.user_id == user)) [
      | inr foreign ↦ rw (finish_registration, held, foreign) refl
      | inl own ↦
          elim (Option-cases (
            wa.finish_registration (load_user wa user upn (take_session wa io sid s).0) e.session
              io.body)) [
                | inl refused ↦ rw (finish_registration, held, own, refused) refl
                | inr (c, made) ↦
                    rw (finish_registration, held, own, made)
                      (stored v h _ (take_session wa io sid s).0 refl)
              ]
    ]
  ]

  by_owner :
      (s : Service wa)
      → (finish_registration wa io user upn sid name s).1 ≡ true
      → (e : SessionEntry wa) × ((take_session wa io sid s).1 ≡ some e) × (e.user_id ≡ user)
  unfolding finish_registration
  by_owner s h = elim (Option-cases (take_session wa io sid s).1) [
    | inl gone ↦ absurd (ground arith)
    | inr (e, held) ↦ (e, held, ground arith)
  ]

module _ (wa : WebAuthn) (users : ℕ → Option User) (c : Claims) (v : ℕ) where
  module _ (io : Visit) (sid name : Text) (d : Desk wa users) where
    abbrev finished : User → Service wa × Bool
    finished u = finish_registration wa io u.id u.upn sid name d.service

    finished_table :
        (u : User)
        → users c.user_id ≡ some u
        → (handle_passkey_reg_finish wa users (some c) io sid name d).0.service ≡ (finished u).0
    unfolding handle_passkey_reg_finish
    finished_table u known = elim (Bool-cases (finished u).1) [
      | inl ok ↦ rw (handle_passkey_reg_finish, known, ok) refl
      | inr failed ↦ rw (handle_passkey_reg_finish, known, failed) refl
    ]

    finished_ok :
        (u : User)
        → users c.user_id ≡ some u
        → (handle_passkey_reg_finish wa users (some c) io sid name d).1 ≡ no_content
        → (finished u).1 ≡ true
    unfolding handle_passkey_reg_finish
    finished_ok u known ok = elim (Bool-cases (finished u).1) [
      | inl done ↦ done
      | inr failed ↦ absurd (ground arith)
    ]

  -- A registration goes through only in a session that the same user began.
  pub handle_passkey_reg_finish-begun :
      (io : Visit) (sid name : Text) (d : Desk wa users)
      → ((i : ℕ) (u : User) → users i ≡ some u → u.id ≡ i)
      → (handle_passkey_reg_finish wa users (some c) io sid name d).1 ≡ no_content
      → (e : SessionEntry wa) × ((take_session wa io sid d.service).1 ≡ some e)
        × (e.user_id ≡ c.user_id)
  unfolding handle_passkey_reg_finish
  handle_passkey_reg_finish-begun io sid name d keyed ok = elim (Option-cases (users c.user_id)) [
    | inl unknown ↦ absurd (ground arith)
    | inr (u, known) ↦
        let (e, held, begun) =
          by_owner wa io u.id u.upn sid name d.service (finished_ok io sid name d u known ok) in
        (e, held, begun ∙ keyed c.user_id u known)
  ]

  -- A person's request to finish a registration or to delete a passkey, whatever it says and whether
  -- or not it goes through, leaves the passkeys of every other user as they are.
  pub passkeys_isolated :
      (io : Visit) (sid name : Text) (id : ℕ) (d : Desk wa users)
      → ((i : ℕ) (u : User) → users i ≡ some u → u.id ≡ i)
      → v ≢ c.user_id
      → (list_passkeys v (handle_passkey_reg_finish wa users (some c) io sid name d).0.service.table
          ≡ list_passkeys v d.service.table)
        × (list_passkeys v (handle_passkey_delete wa users (some c) (some id) d).0.service.table
            ≡ list_passkeys v d.service.table)
  unfolding handle_passkey_reg_finish handle_passkey_delete delete_passkey list_passkeys
  passkeys_isolated io sid name id d keyed other = (
    elim (Option-cases (users c.user_id)) [
      | inl unknown ↦ rw (handle_passkey_reg_finish, unknown) refl
      | inr (u, known) ↦
          let own = keyed c.user_id u known in
          ap (list_passkeys v) (ap (λ s. s.table) (finished_table io sid name d u known))
          ∙ registered wa io u.id u.upn sid name d.service v (λ e. other (e ∙ own))
    ],
    delete_passkey-others c.user_id id v d.service.table.rows other,
  )
