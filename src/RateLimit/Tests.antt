-- ===== src/RateLimit/Tests.antt =====
-- Runs of the limiter.
use Prim.Native.Nat.{min, max}
use aleart_hub.Base.{suc, ◌≡◌, refl, List, [], ◌∷◌, arith, text, no_keys}
use aleart_hub.RateLimit.{Limit, allow, record_hit, is_over}
use aleart_hub.RateLimit.Window.{Call, let_through, calls_of, let_through_lem}

abbrev two : Limit
two = record { max = 2; window = 60 }

abbrev calls : List Call
calls = (110, text "b") ∷ (120, text "a") ∷ (130, text "a") ∷ (140, text "b") ∷ (160, text "a") ∷ []

let_through_lem_example :
    let_through two (text "a") ((100, text "a") ∷ calls) no_keys
    ≡ min (suc (calls_of (text "a") calls)) (max 1 2)
let_through_lem_example =
    let_through_lem two (text "a") 100 calls no_keys refl
      (omega arith, (omega arith, (omega arith, (omega arith, (omega arith, tt)))))

two_pass : let_through two (text "a") ((100, text "a") ∷ calls) no_keys ≡ 2
unfolding allow record_hit is_over
two_pass = refl
