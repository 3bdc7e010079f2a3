-- ===== src/TwoFactor/Recovery.antt =====
-- The recovery codes (twofa.go): how they are stored, and that each works once.
use aleart_hub.Base.{
  ℕ, ◌≡◌, ◌≢◌, refl, sym, ap, subst, ◌∙◌, ◌⊎◌, Bool, true, false, Option, none, some, List, [], ◌∷◌,
  ◌++◌, inl, inr, Bool-cases, arith, if◌then◌else◌, ◌==◌, nat_eq, text_eq, text_eqb_iff, Text, All,
  IsOneLine, join, newline,
}
use aleart_hub.TwoFactor.{
  Totp, Totps, Factor, Io, found, get_totp, set_row, set_totp_recovery, hash_code, close_part,
  split_lines, split_non_empty, consume, valid_code, use_recovery, accept, verify_login,
}

-- A hash in hex is such a text.
abbrev pub IsPart : Text → Type 0
IsPart p = (p ≢ []) × IsOneLine p

close-IsPart : (p : Text) (rest : List Text) → IsPart p → close_part p rest ≡ p ∷ rest
unfolding close_part
close-IsPart [] rest h = absurd (h.0 refl)
close-IsPart (c ∷ p) rest h = refl

split_last : (p : Text) → IsOneLine p → split_lines p ≡ (p, [])
unfolding split_lines
split_last [] h = refl
split_last (c ∷ p) h =
    let other : (c == newline) ≡ false = ground (arith, h.0) in rw (other, split_last p h.1) refl

split_first : (p s : Text) → IsOneLine p → split_lines (p ++ newline ∷ s) ≡ (p, split_non_empty s)
unfolding split_lines split_non_empty
split_first [] s h = refl
split_first (c ∷ p) s h =
    let other : (c == newline) ≡ false = ground (arith, h.0) in rw (other, split_first p s h.1) refl

-- Joining the hashes by line feeds and splitting them again.
pub split_non_empty-join : (hs : List Text) → All IsPart hs → split_non_empty (join newline hs) ≡ hs
unfolding split_non_empty split_lines close_part
split_non_empty-join [] h = refl
split_non_empty-join (p ∷ []) h = rw (split_last p h.0.1) (close-IsPart p [] h.0)
split_non_empty-join (p ∷ q ∷ hs) h =
    rw (split_first p (join newline (q ∷ hs)) h.0.1)
      (close-IsPart p _ h.0 ∙ ap (λ (l : List Text). p ∷ l) (split_non_empty-join (q ∷ hs) h.1))

-- No hash stands twice.
abbrev pub IsDistinct : List Text → Type 0
IsDistinct [] = Unit
IsDistinct (h ∷ hs) = (consume h hs ≡ none) × IsDistinct hs

-- The element taken is the first of the list, or stands in the rest of it.
abbrev IsTaken : Text → Text → List Text → List Text → Type 0
IsTaken want h hs left =
    (h ≡ want) × (left ≡ hs)
    ⊎ ((h == want) ≡ false) × ((l : List Text) × (consume want hs ≡ some l) × (left ≡ h ∷ l))

split-IsTaken :
    (want h : Text) (hs : List Text) (left : List Text) (o : Option (List Text))
    → consume want hs ≡ o
    → (h == want) ≡ false
    → elim o as (λ x. Option (List Text)) [ none ↦ none | some l ↦ some (h ∷ l) ] ≡ some left
    → IsTaken want h hs left
split-IsTaken want h hs left none q ne e = absurd (ground arith)
split-IsTaken want h hs left (some l) q ne e = inr (ne, (l, q, ground arith))

take_cases :
    (want h : Text) (hs left : List Text)
    → consume want (h ∷ hs) ≡ some left
    → IsTaken want h hs left
unfolding consume
take_cases want h hs left e = elim (Bool-cases (h == want)) [
  | inl same ↦ inl (ground (arith, text_eqb_iff h want), ground arith)
  | inr other ↦ split-IsTaken want h hs left (consume want hs) refl other (ground arith)
]

consume_gone :
    (want : Text) (hs left : List Text)
    → IsDistinct hs
    → consume want hs ≡ some left
    → consume want left ≡ none
unfolding consume
consume_gone want [] left d e = ground arith
consume_gone want (h ∷ hs) left d e = elim (take_cases want h hs left e) [
  | inl (same, rest) ↦
      subst (λ (l : List Text). consume want l ≡ none) (sym rest)
        (subst (λ (w : Text). consume w hs ≡ none) same d.0)
  | inr (ne, (l, q, rest)) ↦
      subst (λ (l : List Text). consume want l ≡ none) (sym rest)
        (rw (ne, consume_gone want hs l d.1 q) refl)
]

consume-All :
    (want : Text) (hs left : List Text)
    → All IsPart hs
    → consume want hs ≡ some left
    → All IsPart left
unfolding consume
consume-All want [] left a e = absurd (ground arith)
consume-All want (h ∷ hs) left a e = elim (take_cases want h hs left e) [
  | inl (same, rest) ↦ subst (All IsPart) (sym rest) a.1
  | inr (ne, (l, q, rest)) ↦ subst (All IsPart) (sym rest) (a.0, consume-All want hs l a.1 q)
]

-- Whether a hash is in the list.
abbrev pub is_left : Text → List Text → Bool
is_left want hs = elim (consume want hs) [ none ↦ false | some left ↦ true ]

is_left-cons :
    (want h : Text) (hs : List Text)
    → is_left want (h ∷ hs) ≡ (if h == want then true else is_left want hs)
unfolding consume
is_left-cons want h hs = ground arith

consume_other :
    (want other : Text) (hs left : List Text)
    → consume want hs ≡ some left
    → want ≢ other
    → is_left other left ≡ is_left other hs
unfolding consume
consume_other want other [] left e ne = absurd (ground arith)
consume_other want other (h ∷ hs) left e ne = elim (take_cases want h hs left e) [
  | inl (same, rest) ↦
      let differs : (h == other) ≡ false = ground (arith, text_eqb_iff h other) in
      subst (λ (l : List Text). is_left other l ≡ is_left other (h ∷ hs)) (sym rest)
        (sym (
          is_left-cons other h hs
          ∙ ap (λ (b : Bool). if b then true else is_left other hs) differs))
  | inr (apart, (l, q, rest)) ↦
      subst (λ (l : List Text). is_left other l ≡ is_left other (h ∷ hs)) (sym rest)
        (is_left-cons other h l
          ∙ ap (λ (b : Bool). if h == other then true else b) (consume_other want other hs l q ne)
          ∙ sym (is_left-cons other h hs))
]

none_of_is_left : (want : Text) (hs : List Text) → is_left want hs ≡ false → consume want hs ≡ none
none_of_is_left want hs h = ground arith

consume-IsDistinct :
    (want : Text) (hs left : List Text)
    → IsDistinct hs
    → consume want hs ≡ some left
    → IsDistinct left
unfolding consume
consume-IsDistinct want [] left d e = absurd (ground arith)
consume-IsDistinct want (h ∷ hs) left d e = elim (take_cases want h hs left e) [
  | inl (same, rest) ↦ subst IsDistinct (sym rest) d.1
  | inr (ne, (l, q, rest)) ↦
      let differs : want ≢ h = ground (arith, text_eqb_iff h want) in
      let gone : is_left h hs ≡ false = rw (d.0, is_left) refl in
      subst IsDistinct (sym rest) (
        none_of_is_left h l (consume_other want h hs l q differs ∙ gone),
        consume-IsDistinct want hs l d.1 q,
      )
]

-- A row whose recovery codes are stored as Enable stores them.
pub record HasCodes (r : Totp) (hs : List Text) : Type 0 where
  pub stored : r.recovery ≡ join newline hs
  pub parts : All IsPart hs
  pub distinct : IsDistinct hs
  pub is_on : r.enabled ≡ true

get_found :
    (io : Io) (uid : ℕ) (t : Totps) (r : Totp)
    → io.reads ≡ true
    → t uid ≡ some r
    → get_totp io uid t ≡ found r
unfolding get_totp
get_found io uid t r reads row = ground arith

-- VerifyLogin on a row that can be read, for a code that is not a valid time-based one.
verify_recovery :
    (f : Factor) (io : Io) (uid : ℕ) (code : Text) (t : Totps) (r : Totp) (hs : List Text)
    → io.reads ≡ true
    → t uid ≡ some r
    → HasCodes r hs
    → valid_code f r code ≡ false
    → verify_login f io uid code t ≡ use_recovery io uid (consume (hash_code f code) hs) t
unfolding verify_login accept valid_code use_recovery
verify_recovery f io uid code t r hs reads row h bad =
    let codes : split_non_empty r.recovery ≡ hs =
      ap split_non_empty h.stored ∙ split_non_empty-join hs h.parts in
    let on = h.is_on in
    rw (get_found io uid t r reads row, verify_login, on, bad, codes, accept) refl

used_row :
    (io : Io) (uid : ℕ) (r : Totp) (left : List Text) (t : Totps)
    → io.writes ≡ true
    → t uid ≡ some r
    → set_totp_recovery io uid (join newline left) t uid
      ≡ some (record r { recovery = join newline left })
unfolding set_totp_recovery set_row
used_row io uid r left t writes row = ground arith

use_accepts :
    (io : Io) (uid : ℕ) (want : Text) (hs : List Text) (t : Totps)
    → (use_recovery io uid (consume want hs) t).1 ≡ is_left want hs
unfolding use_recovery
use_accepts io uid want hs t =
    elim (consume want hs)
      as (λ o. (use_recovery io uid o t).1 ≡ elim o [ none ↦ false | some l ↦ true ]) [
        | none ↦ refl
        | some l ↦ refl
      ]

-- Then the answer is whether the hash of the code is left.
verify_accepts :
    (f : Factor) (io : Io) (uid : ℕ) (code : Text) (t : Totps) (r : Totp) (hs : List Text)
    → io.reads ≡ true
    → t uid ≡ some r
    → HasCodes r hs
    → valid_code f r code ≡ false
    → (verify_login f io uid code t).1 ≡ is_left (hash_code f code) hs
verify_accepts f io uid code t r hs reads row h bad =
    ap (λ (x : Totps × Bool). x.1) (verify_recovery f io uid code t r hs reads row h bad)
    ∙ use_accepts io uid (hash_code f code) hs t

-- A recovery code works once. On an enabled account whose codes are stored as Enable stores them,
-- where the database reads and writes: a code that is among them, and is no valid time-based code, is
-- accepted; the row then has the other codes, stored in the same way; the code is refused from then
-- on; and every other code is accepted or refused as before.
pub verify_login_once :
    (f : Factor) (io : Io) (uid : ℕ) (code : Text) (t : Totps) (r : Totp) (hs left : List Text)
    → io.reads ≡ true
    → io.writes ≡ true
    → t uid ≡ some r
    → HasCodes r hs
    → valid_code f r code ≡ false
    → consume (hash_code f code) hs ≡ some left
    → let (t', accepted) = verify_login f io uid code t in
      (accepted ≡ true)
      × (t' uid ≡ some (record r { recovery = join newline left }))
      × HasCodes (record r { recovery = join newline left }) left
      × ((verify_login f io uid code t').1 ≡ false)
      × ((other : Text)
          → valid_code f r other ≡ false
          → hash_code f code ≢ hash_code f other
          → (verify_login f io uid other t').1 ≡ (verify_login f io uid other t).1)
unfolding use_recovery valid_code
verify_login_once f io uid code t r hs left reads writes row h bad has =
    let r' : Totp = record r { recovery = join newline left } in
    let h' : HasCodes r' left = record {
      stored = refl;
      parts = consume-All _ hs left h.parts has;
      distinct = consume-IsDistinct _ hs left h.distinct has;
      is_on = h.is_on;
    } in
    let t' = set_totp_recovery io uid (join newline left) t in
    let row' : t' uid ≡ some r' = used_row io uid r left t writes row in
    let first : verify_login f io uid code t ≡ (t', true) =
      verify_recovery f io uid code t r hs reads row h bad
      ∙ ap (λ (o : Option (List Text)). use_recovery io uid o t) has in
    let gone : is_left (hash_code f code) left ≡ false =
      rw (consume_gone (hash_code f code) hs left h.distinct has, is_left) refl in
    rw first (
      refl,
      row',
      h',
      verify_accepts f io uid code t' r' left reads row' h' bad ∙ gone,
      λ other invalid ne.
          verify_accepts f io uid other t' r' left reads row' h' invalid
          ∙ consume_other (hash_code f code) (hash_code f other) hs left has ne
          ∙ sym (verify_accepts f io uid other t r hs reads row h invalid),
    )
