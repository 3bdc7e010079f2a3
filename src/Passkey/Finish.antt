-- ===== src/Passkey/Finish.antt =====
-- Who gets in with a passkey, and how often (FinishLogin of passkey.go).
use aleart_hub.Base.{
  ℕ, ◌≡◌, refl, ◌∙◌, ap, subst, true, Option, none, some, text_eqb_iff, some-injective, List, arith,
  Option-cases, Bool-cases, inl, inr, ◌⊎◌, Text,
}
use aleart_hub.Access.{User}
use aleart_hub.OneTime.{redeem}
use aleart_hub.OneTime.Uses.{Use, IsOrdered, after, due, redeem_lem}
use aleart_hub.Passkey.{
  WebAuthn, Credential, SessionEntry, Service, Visit, session_lifetime, load_user, take_session,
  resolve, finish_login,
}

module _ (wa : WebAuthn) (users : ℕ → Option User) (io : Visit) (sid : Text) where
  abbrev spent : Service wa → Service wa
  spent s = (take_session wa io sid s).0

  -- How a user got in: the session, what the request asserted, and that the library accepted it.
  pub record Entrance (s : Service wa) (u : User) (held : Option (SessionEntry wa)) : Type 0 where
    pub entry : SessionEntry wa
    pub credential : Credential
    pub raw : Text
    pub handle : Text
    pub open_session : held ≡ some entry
    pub named : wa.asserted io.body ≡ some (raw, handle)
    pub is_user : resolve users handle ≡ some u
    pub accepted :
        wa.check_login (load_user wa u.id u.upn s) entry.session io.body ≡ some credential
    pub is_enabled : u.enabled ≡ true

  module _ (s : Service wa) (u v : User) (e : SessionEntry wa) (raw handle : Text) where
    abbrev accepts : User → Option Credential
    accepts x = wa.check_login (load_user wa x.id x.upn s) e.session io.body

    checked :
        (o : Option Credential)
        → (take_session wa io sid s).1 ≡ some e
        → wa.asserted io.body ≡ some (raw, handle)
        → resolve users handle ≡ some v
        → accepts v ≡ o
        → (finish_login wa users io sid s).1 ≡ some u
        → Entrance s u (take_session wa io sid s).1
    unfolding finish_login take_session load_user
    checked none held said found seen h = absurd (ground arith)
    checked (some c) held said found seen h = elim (Bool-cases v.enabled) [
      | inr off ↦ absurd (ground arith)
      | inl on ↦
          let same : some v ≡ some u = ground arith in
          let it : v ≡ u = some-injective v u same in
          record {
            entry = e;
            credential = c;
            raw = raw;
            handle = handle;
            open_session = held;
            named = said;
            is_user = found ∙ same;
            accepted = subst (λ x. accepts x ≡ some c) it seen;
            is_enabled = subst (λ x. x.enabled ≡ true) it on;
          }
    ]

  entered :
      (s : Service wa) (u : User)
      → (finish_login wa users io sid s).1 ≡ some u
      → Entrance s u (take_session wa io sid s).1
  unfolding finish_login take_session load_user
  entered s u h = elim (Option-cases (take_session wa io sid s).1) [
    | inl gone ↦ absurd (ground arith)
    | inr (e, held) ↦ elim (Option-cases (wa.asserted io.body)) [
      | inl silent ↦ absurd (ground arith)
      | inr ((raw, handle), said) ↦ elim (Option-cases (resolve users handle)) [
        | inl unknown ↦ absurd (ground arith)
        | inr (v, found) ↦ checked s u v e raw handle _ held said found refl h
      ]
    ]
  ]

  spent_here : (s : Service wa) → (spent s).sessions sid ≡ none
  unfolding take_session redeem
  spent_here s = ground (arith, text_eqb_iff sid sid)

  used_up : (s : Service wa) → (finish_login wa users io sid s).0.sessions sid ≡ none
  unfolding finish_login take_session
  used_up s = elim (Option-cases (take_session wa io sid s).1) [
    | inl gone ↦ ground (arith, spent_here s)
    | inr (e, held) ↦ elim (Option-cases (wa.asserted io.body)) [
      | inl silent ↦ ground (arith, spent_here s)
      | inr ((raw, handle), said) ↦ elim (Option-cases (resolve users handle)) [
        | inl unknown ↦ ground (arith, spent_here s)
        | inr (v, found) ↦ ground (arith, spent_here s)
      ]
    ]
  ]

  closed :
      (io' : Visit) (s : Service wa)
      → s.sessions sid ≡ none
      → (finish_login wa users io' sid s).1 ≡ none
  unfolding finish_login take_session redeem
  closed io' s h = rw (finish_login, take_session, redeem, h) refl

  -- After any calls on the sessions, FinishLogin gives a user only if the latest call on the session id
  -- began a login or a registration less than five minutes ago, the library accepts the request for what that call
  -- stored and for the passkeys of that user, whose id the request's handle spells, and the account is enabled;
  -- and whatever it answers, the same session id gives no user again until a new session has it.
  pub finish_login_once :
      (s : Service wa) (us : List (Use (SessionEntry wa)))
      → IsOrdered io.now us
      → s.sessions ≡ after session_lifetime us
      → (((finish_login wa users io sid s).1 ≡ none)
          ⊎ ((u : User) × ((finish_login wa users io sid s).1 ≡ some u)
              × Entrance s u (due session_lifetime io.now sid us)))
        × ((io' : Visit)
            → (finish_login wa users io' sid (finish_login wa users io sid s).0).1 ≡ none)
  unfolding take_session redeem
  finish_login_once s us ordered history = (
    elim (Option-cases (finish_login wa users io sid s).1) [
      | inl nobody ↦ inl nobody
      | inr (u, h) ↦ inr (
        u,
        h,
        subst (λ o. Entrance s u o)
            (ap (λ m. (redeem io.now sid m).1) history
              ∙ redeem_lem session_lifetime io.now sid us ordered)
            (entered s u h),
      )
    ],
    λ io'. closed io' (finish_login wa users io sid s).0 (used_up s),
  )
