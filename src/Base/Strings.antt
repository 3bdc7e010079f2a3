-- ===== src/Base/Strings.antt =====
-- The `strings` package of Go on byte strings: TrimSpace, Fields, SplitN on one byte, and the
-- one-line clean-up that two packages share.
use Prim.Native.Nat.{ℕ, zero, suc, ◌+◌, ◌≤◌, ◌<◌}
use mathlib.Core.Path.{◌≡◌, refl, sym, ap, ◌∙◌}
use mathlib.Core.Logic.{◌≢◌}
use mathlib.Core.Bool.{Bool, true, false, ◌&&◌, ◌||◌}
use mathlib.Core.List.{List, [], ◌∷◌, ◌++◌, reverse, reverse_aux, reverse-reverse, map}
use native.Mathlib.Omega.{arith}
use aleart_hub.Base.Tests.{nat_eqb, leb, if◌then◌else◌}
use aleart_hub.Base.Lists.{All, length, drop}
use aleart_hub.Base.Bytes.{Text, has_prefix}

-- ToLower on an ASCII byte.
abbrev pub lower : ℕ → ℕ
lower c = if leb b'A' c && leb c b'Z' then c + 32 else c

abbrev pub is_ascii_space : ℕ → Bool
is_ascii_space c = nat_eqb c 32 || leb 9 c && leb c 13

-- U+2000 to U+200A, U+2028, U+2029 and U+202F are E2 80 followed by one of these bytes.
abbrev pub is_e280_space : ℕ → Bool
is_e280_space c = leb 0x80 c && leb c 0x8A || nat_eqb c 0xA8 || nat_eqb c 0xA9 || nat_eqb c 0xAF

-- How many bytes the white space at the front has (unicode.IsSpace in UTF-8); 0 if there is none.
unfoldable pub space_len : Text → ℕ
space_len [] = 0
space_len (a ∷ []) = if is_ascii_space a then 1 else 0
space_len (a ∷ b ∷ []) =
    if is_ascii_space a
    then 1
    else if nat_eqb a 0xC2 && (nat_eqb b 0x85 || nat_eqb b 0xA0)
    then 2
    else 0
space_len (a ∷ b ∷ c ∷ s) =
    if is_ascii_space a
    then 1
    else if nat_eqb a 0xC2 && (nat_eqb b 0x85 || nat_eqb b 0xA0)
    then 2
    else if nat_eqb a 0xE2 && nat_eqb b 0x80 && is_e280_space c
        || has_prefix (0xE1 ∷ 0x9A ∷ 0x80 ∷ []) (a ∷ b ∷ c ∷ [])
        || has_prefix (0xE2 ∷ 0x81 ∷ 0x9F ∷ []) (a ∷ b ∷ c ∷ [])
        || has_prefix (0xE3 ∷ 0x80 ∷ 0x80 ∷ []) (a ∷ b ∷ c ∷ [])
    then 3
    else 0

-- The same at the back, on the reversed text.
unfoldable pub space_len_back : Text → ℕ
unfolding space_len
space_len_back [] = 0
space_len_back (a ∷ []) = space_len (a ∷ [])
space_len_back (a ∷ b ∷ []) =
    if is_ascii_space a then 1 else if nat_eqb (space_len (b ∷ a ∷ [])) 2 then 2 else 0
space_len_back (a ∷ b ∷ c ∷ s) =
    if is_ascii_space a
    then 1
    else if nat_eqb (space_len (b ∷ a ∷ [])) 2
    then 2
    else if nat_eqb (space_len (c ∷ b ∷ a ∷ [])) 3
    then 3
    else 0

-- Each round drops at least one byte, so the length is fuel enough.
unfoldable pub skip : (Text → ℕ) → ℕ → Text → Text
skip len zero s = s
skip len (suc fuel) s = elim (len s) [ zero ↦ s | suc n ↦ skip len fuel (drop (suc n) s) ]

unfoldable pub trim_space : Text → Text
unfolding skip space_len space_len_back
trim_space s =
    let front = skip space_len (length s) s in
    reverse (skip space_len_back (length front) (reverse front))

-- strings.NewReplacer("\n", " ", "\r", " ", "\t", " ") on one byte.
abbrev pub unbreak : ℕ → ℕ
unbreak c = if nat_eqb c 10 || nat_eqb c 13 || nat_eqb c 9 then 32 else c

unfoldable pub oneline : Text → Text
unfolding trim_space
oneline s = trim_space (map unbreak s)

-- The end of a word that was read in reverse; between two spaces there is none.
abbrev pub close_word : Text → List Text → List Text
close_word [] rest = rest
close_word (c ∷ word) rest = reverse (c ∷ word) ∷ rest

-- strings.Fields: `word` holds the bytes of the word being read, reversed. Each round takes a byte.
unfoldable pub fields_from : ℕ → Text → Text → List Text
fields_from zero word s = []
fields_from (suc fuel) word [] = close_word word []
fields_from (suc fuel) word (c ∷ s) = elim (space_len (c ∷ s)) [
  | zero ↦ fields_from fuel (c ∷ word) s
  | suc n ↦ close_word word (fields_from fuel [] (drop n s))
]

unfoldable pub fields : Text → List Text
unfolding fields_from space_len
fields s = fields_from (suc (length s)) [] s

-- The text before the first `sep`, and the text after it if there is one.
unfoldable pub cut : ℕ → Text → Text × List Text
cut sep [] = ([], [])
cut sep (c ∷ s) =
    let (before, after) = cut sep s in if nat_eqb c sep then ([], s ∷ []) else (c ∷ before, after)

-- strings.SplitN(s, sep, n) for n at least 1.
unfoldable pub split_n : ℕ → Text → ℕ → List Text
unfolding cut
split_n sep s zero = []
split_n sep s (suc zero) = s ∷ []
split_n sep s (suc (suc n)) =
    let (before, after) = cut sep s in
    elim after [ [] ↦ before ∷ [] | rest ∷ _ ↦ before ∷ split_n sep rest (suc n) ]

abbrev onto_first : ℕ → List Text → List Text
onto_first c [] = (c ∷ []) ∷ []
onto_first c (t ∷ ts) = (c ∷ t) ∷ ts

-- strings.Split(s, sep) for a separator of one byte.
unfoldable pub split_all : ℕ → Text → List Text
split_all sep [] = [] ∷ []
split_all sep (c ∷ s) =
    let rest = split_all sep s in if nat_eqb c sep then [] ∷ rest else onto_first c rest

module _ (sep : ℕ) where
  pub split_all_last : (p : Text) → All (λ c. c ≢ sep) p → split_all sep p ≡ p ∷ []
  unfolding split_all
  split_all_last [] h = refl
  split_all_last (c ∷ p) h =
      let other : nat_eqb c sep ≡ false = ground (arith, h.0) in
      rw (other, split_all_last p h.1) refl

  pub split_all_first :
      (p s : Text) → All (λ c. c ≢ sep) p → split_all sep (p ++ sep ∷ s) ≡ p ∷ split_all sep s
  unfolding split_all
  split_all_first [] s h = let same : nat_eqb sep sep ≡ true = ground arith in rw same refl
  split_all_first (c ∷ p) s h =
      let other : nat_eqb c sep ≡ false = ground (arith, h.0) in
      rw (other, split_all_first p s h.1) refl

module _ (P : ℕ → Type 0) where
  drop-All : (n : ℕ) (s : Text) → All P s → All P (drop n s)
  drop-All zero s h = h
  drop-All (suc n) [] h = h
  drop-All (suc n) (c ∷ s) h = drop-All n s h.1

  reverse_aux-All : (s t : Text) → All P s → All P t → All P (reverse_aux s t)
  reverse_aux-All [] t h k = k
  reverse_aux-All (c ∷ s) t h k = reverse_aux-All s (c ∷ t) h.1 (h.0, k)

  reverse-All : (s : Text) → All P s → All P (reverse s)
  reverse-All s h = reverse_aux-All s [] h tt

  skip-All : (len : Text → ℕ) (fuel : ℕ) (s : Text) → All P s → All P (skip len fuel s)
  unfolding skip
  skip-All len zero s h = h
  skip-All len (suc fuel) s h =
      elim (len s) as (λ k. All P (elim k [ zero ↦ s | suc n ↦ skip len fuel (drop (suc n) s) ])) [
        | zero ↦ h
        | suc n ↦ skip-All len fuel (drop (suc n) s) (drop-All (suc n) s h)
      ]

  pub trim_space-All : (s : Text) → All P s → All P (trim_space s)
  unfolding trim_space
  trim_space-All s h =
      let front = skip space_len (length s) s in
      reverse-All _ (
        skip-All space_len_back (length front) (reverse front)
          (reverse-All front (skip-All space_len (length s) s h)))

trim_sample :
    trim_space (32 ∷ 0xC2 ∷ 0xA0 ∷ 97 ∷ 32 ∷ 98 ∷ 10 ∷ 0xE3 ∷ 0x80 ∷ 0x80 ∷ []) ≡ 97 ∷ 32 ∷ 98 ∷ []
unfolding trim_space
trim_sample = refl

fields_sample : fields (97 ∷ 32 ∷ 32 ∷ 98 ∷ 99 ∷ 10 ∷ []) ≡ (97 ∷ []) ∷ (98 ∷ 99 ∷ []) ∷ []
unfolding fields
fields_sample = refl

split_sample :
    split_n 44 (97 ∷ 44 ∷ 98 ∷ 44 ∷ 99 ∷ 44 ∷ []) 3 ≡ (97 ∷ []) ∷ (98 ∷ []) ∷ (99 ∷ 44 ∷ []) ∷ []
unfolding split_n
split_sample = refl

-- After the clean-up no line feed and no carriage return is left.
pub oneline_lem : (s : Text) → All (λ c. (c ≢ 10) × (c ≢ 13)) (oneline s)
unfolding oneline
oneline_lem s = trim_space-All (λ c. (c ≢ 10) × (c ≢ 13)) (map unbreak s) (cleaned s)
  where
    cleaned : (s : Text) → All (λ c. (c ≢ 10) × (c ≢ 13)) (map unbreak s)
    cleaned [] = tt
    cleaned (c ∷ s) = ((ground arith, ground arith), cleaned s)

-- A text of printable ASCII with no space: one word for `Fields`.
abbrev pub IsToken : Text → Type 0
IsToken = All (λ c. (33 ≤ c) × (c ≤ 126))

space_len-token : (c : ℕ) (s : Text) → IsToken (c ∷ s) → space_len (c ∷ s) ≡ 0
unfolding space_len
space_len-token c [] h = ground arith
space_len-token c (b ∷ []) h = ground arith
space_len-token c (b ∷ d ∷ s) h = ground arith

fields_from-token :
    (fuel : ℕ) (word s : Text)
    → IsToken s
    → length s < fuel
    → fields_from fuel word s ≡ close_word (reverse_aux s word) []
unfolding fields_from
fields_from-token zero word s h n = absurd (omega arith)
fields_from-token (suc fuel) word [] h n = refl
fields_from-token (suc fuel) word (c ∷ s) h n =
    rw (space_len-token c s h, fields_from) (fields_from-token fuel (c ∷ word) s h.1 (omega arith))

pub fields-token : (c : ℕ) (s : Text) → IsToken (c ∷ s) → fields (c ∷ s) ≡ (c ∷ s) ∷ []
unfolding fields
fields-token c s h =
    fields_from-token (suc (length (c ∷ s))) [] (c ∷ s) h (omega arith)
    ∙ closed (reverse (c ∷ s)) refl
  where
    closed : (w : Text) → reverse (c ∷ s) ≡ w → close_word w [] ≡ (c ∷ s) ∷ []
    closed [] e = absurd (cc (sym (reverse-reverse (c ∷ s)), ap reverse e))
    closed (d ∷ w) e = ap (λ (v : Text). v ∷ []) (ap reverse (sym e) ∙ reverse-reverse (c ∷ s))

cut-append : (sep : ℕ) (p s : Text) → All (λ c. c ≢ sep) p → cut sep (p ++ sep ∷ s) ≡ (p, s ∷ [])
unfolding cut
cut-append sep [] s h = ground arith
cut-append sep (c ∷ p) s h = ground (arith, cut-append sep p s)

pub split_n-append :
    (sep : ℕ) (p s : Text) (n : ℕ)
    → All (λ c. c ≢ sep) p
    → split_n sep (p ++ sep ∷ s) (suc (suc n)) ≡ p ∷ split_n sep s (suc n)
unfolding split_n
split_n-append sep p s n h = ground (arith, cut-append sep p s h)
