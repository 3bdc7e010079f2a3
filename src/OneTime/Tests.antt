-- ===== src/OneTime/Tests.antt =====
-- A code that is stored at 10, asked for at 12 and at 13.
use aleart_hub.Base.{ℕ, ◌≡◌, refl, none, some, List, [], ◌∷◌, arith, text}
use aleart_hub.OneTime.{redeem}
use aleart_hub.OneTime.Uses.{Use, stashed, redeemed, after, redeem_lem}

abbrev begun : List (Use ℕ)
begun = redeemed 11 (text "b") ∷ stashed 10 (text "a") 7 ∷ []

redeem_lem_example : (redeem 12 (text "a") (after 60 begun)).1 ≡ some 7
redeem_lem_example = redeem_lem 60 12 (text "a") begun (omega arith, (omega arith, tt))

taken_before : (redeem 13 (text "a") (after 60 (redeemed 12 (text "a") ∷ begun))).1 ≡ none
unfolding redeem
taken_before = refl
