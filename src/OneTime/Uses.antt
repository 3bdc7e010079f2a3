-- ===== src/OneTime/Uses.antt =====
-- What a key gives, read off the history of the calls (passkey.go, oidc_handlers.go).
use aleart_hub.Base.{
  ℕ, ◌+◌, ◌≡◌, ◌≤◌, refl, Option, none, some, List, [], ◌∷◌, arith, if◌then◌else◌, ◌==◌, text_eq,
  ltb, Text, Map, no_keys, Bool-cases, ◌∙◌, inl, inr,
}
use aleart_hub.OneTime.{Held, is_stale, stash, fresh_data, redeem}

-- A call, with its time.
pub data Use (D : Type 0) : Type 0 where
  stashed : ℕ → Text → D → Use D
  redeemed : ℕ → Text → Use D

module _ {D : Type 0} where
  abbrev pub time_of : Use D → ℕ
  time_of (stashed t i d) = t
  time_of (redeemed t i) = t

  -- The latest call comes first, and the clock does not go back.
  abbrev pub IsOrdered : ℕ → List (Use D) → Type 0
  IsOrdered now [] = Unit
  IsOrdered now (u ∷ us) = (time_of u ≤ now) × IsOrdered (time_of u) us

  module _ (lifetime : ℕ) where
    abbrev pub after : List (Use D) → Map (Held D)
    after [] = no_keys
    after (stashed t i d ∷ us) = stash lifetime t i d (after us)
    after (redeemed t i ∷ us) = (redeem t i (after us)).0

    -- The latest call on the key decides: what it stored, if the time is not over.
    abbrev pub due : ℕ → Text → List (Use D) → Option D
    due now id [] = none
    due now id (stashed t i d ∷ us) =
        let rest = due now id us in
        if id == i then (if ltb (t + lifetime) now then none else some d) else rest
    due now id (redeemed t i ∷ us) = let rest = due now id us in if id == i then none else rest

    IsOrdered-later : (t now : ℕ) (us : List (Use D)) → t ≤ now → IsOrdered t us → IsOrdered now us
    IsOrdered-later t now [] h o = tt
    IsOrdered-later t now (u ∷ us) h o = (omega (arith, o.0), o.1)

    swept :
        (t now : ℕ) (o : Option (Held D))
        → t ≤ now
        → fresh_data now (elim o [ none ↦ none | some v ↦ if is_stale t v then none else some v ])
          ≡ fresh_data now o
    swept t now none h = refl
    swept t now (some v) h = ground arith

    -- Whatever calls were made before, and whatever they swept: a key gives what the latest call on it
    -- stored, if that call was a put whose lifetime is not over, and nothing else; so it is good
    -- for one take at most.
    pub redeem_lem :
        (now : ℕ) (id : Text) (us : List (Use D))
        → IsOrdered now us
        → (redeem now id (after us)).1 ≡ due now id us
    unfolding redeem stash
    redeem_lem now id [] o = refl
    redeem_lem now id (stashed t i d ∷ us) o =
        let earlier = redeem_lem now id us (IsOrdered-later t now us o.0 o.1) in
        elim (Bool-cases (id == i)) [
          | inl same ↦ rw same refl
          | inr other ↦ rw other (swept t now (after us id) o.0 ∙ earlier)
        ]
    redeem_lem now id (redeemed t i ∷ us) o =
        let earlier = redeem_lem now id us (IsOrdered-later t now us o.0 o.1) in
        elim (Bool-cases (id == i)) [ inl same ↦ rw same refl | inr other ↦ rw other earlier ]
