-- ===== src/RateLimit/Window.antt =====
-- How many calls one window lets through (api/ratelimit.go, allow).
use Prim.Native.Nat.{min, max}
use aleart_hub.Base.{
  ℕ, suc, ◌+◌, ◌-◌, ◌≤◌, ◌≡◌, refl, ap, sym, ◌∙◌, Bool, Bool-cases, true, false, inl, inr, none,
  some, List, [], ◌∷◌, arith, if◌then◌else◌, ◌==◌, text_eq, text_eqb_iff, ltb, Text, Map, prune,
  All,
}
use aleart_hub.RateLimit.{HitWindow, Limit, is_over, record_hit, allow}

-- A call: its time and its key.
abbrev pub Call : Type 0
Call = ℕ × Text

-- How many of a key's calls are let through.
abbrev pub let_through : Limit → Text → List Call → Map HitWindow → ℕ
let_through rl key [] hits = 0
let_through rl key ((now, k) ∷ cs) hits =
    let (hits', ok) = allow rl now k hits in
    let rest = let_through rl key cs hits' in
    if k == key then if ok then suc rest else rest else rest

abbrev pub calls_of : Text → List Call → ℕ
calls_of key [] = 0
calls_of key ((now, k) ∷ cs) = let rest = calls_of key cs in if k == key then suc rest else rest

abbrev pub AllBy : ℕ → List Call → Type 0
AllBy end cs = All (λ c. c.0 ≤ end) cs

hit_other :
    (rl : Limit) (now : ℕ) (k key : Text) (hits : Map HitWindow) (w : HitWindow)
    → hits key ≡ some w
    → now ≤ w.reset
    → (k == key) ≡ false
    → (allow rl now k hits).0 key ≡ some w
unfolding allow record_hit is_over
hit_other rl now k key hits w h b d = ground (arith, text_eqb_iff k key, text_eqb_iff key k)

pruned :
    (now : ℕ) (key : Text) (hits : Map HitWindow) (w : HitWindow)
    → hits key ≡ some w
    → now ≤ w.reset
    → prune (is_over now) hits key ≡ some w
unfolding is_over
pruned now key hits w h b = ground arith

-- The limiter for a key whose window is open.
recorded :
    (rl : Limit) (now : ℕ) (key : Text) (hits : Map HitWindow) (w : HitWindow)
    → hits key ≡ some w
    → now ≤ w.reset
    → ((record_hit rl now key hits).1 ≡ ltb w.count rl.max)
      × ((record_hit rl now key hits).0 key
          ≡ some (if ltb w.count rl.max then record w { count = w.count + 1 } else w))
unfolding record_hit is_over
recorded rl now key hits w h b =
    (ground (arith, text_eqb_iff key key), ground (arith, text_eqb_iff key key))

hit_held :
    (rl : Limit) (now : ℕ) (key : Text) (hits : Map HitWindow) (w : HitWindow)
    → hits key ≡ some w
    → now ≤ w.reset
    → ((allow rl now key hits).1 ≡ ltb w.count rl.max)
      × ((allow rl now key hits).0 key
          ≡ some (if ltb w.count rl.max then record w { count = w.count + 1 } else w))
unfolding allow
hit_held rl now key hits w h b =
    recorded rl now key (prune (is_over now) hits) w (pruned now key hits w h b) b

-- Whether the key has no open window.
abbrev pub is_clear : ℕ → Text → Map HitWindow → Bool
is_clear now key hits = elim (hits key) [ none ↦ true | some w ↦ ltb w.reset now ]

hit_first :
    (rl : Limit) (now : ℕ) (key : Text) (hits : Map HitWindow)
    → is_clear now key hits ≡ true
    → ((allow rl now key hits).1 ≡ true)
      × ((allow rl now key hits).0 key ≡ some (record { count = 1; reset = now + rl.window }))
unfolding allow record_hit is_over
hit_first rl now key hits c =
    (ground (arith, text_eqb_iff key key), ground (arith, text_eqb_iff key key))

rest_of_window :
    (rl : Limit) (key : Text) (cs : List Call) (hits : Map HitWindow) (w : HitWindow)
    → hits key ≡ some w
    → AllBy w.reset cs
    → let_through rl key cs hits ≡ min (calls_of key cs) (rl.max - w.count)
rest_of_window rl key [] hits w h b = omega arith
rest_of_window rl key ((now, k) ∷ cs) hits w h b = elim (Bool-cases (k == key)) [
  | inr other ↦ rw other (
      rest_of_window rl key cs (allow rl now k hits).0 w (hit_other rl now k key hits w h b.0 other)
        b.1)
  | inl same ↦
      let e = (text_eqb_iff k key).0 same in
      let (ok, kept) = hit_held rl now k hits w (ap hits e ∙ h) b.0 in
      let at' = ap (allow rl now k hits).0 (sym e) ∙ kept in
      elim (Bool-cases (ltb w.count rl.max)) [
        | inl room ↦
            rw
              (
                same,
                ok ∙ room,
                rest_of_window rl key cs (allow rl now k hits).0 (record w { count = w.count + 1 })
                    (rw room at at') b.1,
              )
              (ground arith)
        | inr full ↦
            rw
              (
                same,
                ok ∙ full,
                rest_of_window rl key cs (allow rl now k hits).0 w (rw full at at') b.1,
              )
              (ground arith)
      ]
]

-- From a call of a key without an open window until its window ends, however the calls of other
-- keys are mixed in, the limiter lets through as many of the key's calls as there are, up to the
-- limit, and never fewer than the first.
pub let_through_lem :
    (rl : Limit) (key : Text) (now : ℕ) (cs : List Call) (hits : Map HitWindow)
    → is_clear now key hits ≡ true
    → AllBy (now + rl.window) cs
    → let_through rl key ((now, key) ∷ cs) hits ≡ min (suc (calls_of key cs)) (max 1 rl.max)
let_through_lem rl key now cs hits c b =
    let (ok, opened) = hit_first rl now key hits c in
    rw
      (
        (text_eqb_iff key key).1 refl,
        ok,
        rest_of_window rl key cs (allow rl now key hits).0
            (record { count = 1; reset = now + rl.window }) opened b,
      )
      (ground arith)
