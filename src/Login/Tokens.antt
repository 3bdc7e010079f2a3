-- ===== src/Login/Tokens.antt =====
-- The tokens that the endpoints give out and take (auth/auth.go, auth_handlers.go): nobody can make
-- one without the key of the server.
use aleart_hub.Base.{
  ℕ, ◌≡◌, ◌≢◌, ◌⊎◌, inl, inr, refl, sym, subst, Option, some, List, [], ◌∷◌, Option-cases, arith,
  nat_eq, text_eq, text_eqb_iff, Text, All, All-append,
}
use aleart_hub.Access.{Claims, User, Request, served, credential, authn, session, require_role}
use aleart_hub.Login.{
  Site, World, access, refresh, pending, verify_token, token_user, open_session, ask_second_factor,
  claims_of, gate,
}

module _ {A : Type 0} where
  abbrev pub IsAmong : A → List A → Type 0
  IsAmong x [] = ⊥
  IsAmong x (y ∷ ys) = (x ≡ y) ⊎ IsAmong x ys

  All-IsAmong : (P : A → Type 0) (x : A) (ys : List A) → All P ys → IsAmong x ys → P x
  All-IsAmong P x [] h k = absurd k
  All-IsAmong P x (y ∷ ys) h (inl e) = subst P (sym e) h.0
  All-IsAmong P x (y ∷ ys) h (inr k) = All-IsAmong P x ys h.1 k

-- Whoever presents `raw` has it from the server: if the JWT library accepts it, it was given out.
abbrev pub IsKnown : Site → World → Text → Type 0
IsKnown site w raw =
    (subject : Text) (c : Claims)
    → site.parse raw ≡ some (subject, c)
    → IsAmong (subject, c) w.issued

-- Of the account nothing was given out that opens a session.
abbrev pub IsClosedFor : ℕ → Text × Claims → Type 0
IsClosedFor uid (subject, c) = c.user_id ≡ uid → subject ≡ pending

abbrev pub NoSession : ℕ → World → Type 0
NoSession uid w = All (IsClosedFor uid) w.issued

parsed :
    (site : Site) (raw subject : Text) (c : Claims)
    → verify_token site raw subject ≡ some c
    → site.parse raw ≡ some (subject, c)
unfolding verify_token
parsed site raw subject c h = elim (Option-cases (site.parse raw)) [
  | inl e ↦ absurd (ground arith)
  | inr ((s, d), e) ↦ ground (arith, text_eqb_iff s subject)
]

pub verified_other :
    (site : Site) (uid : ℕ) (w : World) (raw subject : Text) (c : Claims)
    → NoSession uid w
    → IsKnown site w raw
    → verify_token site raw subject ≡ some c
    → subject ≢ pending
    → c.user_id ≢ uid
verified_other site uid w raw subject c none_open known h ne same = ne (
    All-IsAmong (IsClosedFor uid) (subject, c) w.issued none_open
      (known subject c (parsed site raw subject c h)) same)

pub gate_verified :
    (site : Site) (r : Request) (c : Claims) (org : Option ℕ)
    → gate site r ≡ served (some c) org
    → verify_token site (credential r) access ≡ some c
unfolding gate require_role authn session
gate_verified site r c org h = ground arith

pub token_user_verified :
    (site : Site) (raw subject : Text) (u : User)
    → token_user site raw subject ≡ some u
    → (c : Claims) × (verify_token site raw subject ≡ some c)
      × (site.directory.user_by_id c.user_id ≡ some u)
unfolding token_user
token_user_verified site raw subject u h = ground arith

pub open_session_closed :
    (site : Site) (uid : ℕ) (u : User) (w : World)
    → u.id ≢ uid
    → NoSession uid w
    → NoSession uid (open_session site u w).0
unfolding open_session claims_of
open_session_closed site uid u w ne h = elim (Option-cases (site.sign_token access (claims_of u))) [
  | inl e ↦ rw (e, open_session) h
  | inr (a, e) ↦ elim (Option-cases (site.sign_token refresh (claims_of u))) [
    | inl e' ↦ rw (e, e', open_session) h
    | inr (r, e') ↦
        rw (e, e', open_session)
          (All-append (IsClosedFor uid) w.issued _ h
            ((λ same. absurd (ne same)), ((λ same. absurd (ne same)), tt)))
  ]
]

pub ask_second_factor_closed :
    (site : Site) (uid : ℕ) (u : User) (w : World)
    → NoSession uid w
    → NoSession uid (ask_second_factor site u w).0
unfolding ask_second_factor
ask_second_factor_closed site uid u w h =
    elim (Option-cases (site.sign_token pending (claims_of u))) [
      | inl e ↦ rw (e, ask_second_factor) h
      | inr (p, e) ↦
          rw (e, ask_second_factor) (All-append (IsClosedFor uid) w.issued _ h ((λ same. refl), tt))
    ]
