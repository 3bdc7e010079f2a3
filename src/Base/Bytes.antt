-- ===== src/Base/Bytes.antt =====
-- Go strings: lists of bytes. A literal is its UTF-8 encoding.
use Prim.Native.Nat.{ℕ, ◌+◌, ◌/◌, ◌%◌}
use Prim.Native.Char.{code}
use Prim.Native.String.{String}
use mathlib.Core.Path.{◌≡◌, refl}
use mathlib.Core.Logic.{◌↔◌, ◌≢◌}
use mathlib.Core.Bool.{Bool, true, false, ◌&&◌, ◌||◌}
use mathlib.Core.List.{List, [], ◌∷◌, ◌++◌}
use native.Mathlib.Omega.{arith}
use aleart_hub.Base.Tests.{ltb, nat_eqb, if◌then◌else◌, Comparable}
use aleart_hub.Base.Lists.{All, length}

abbrev pub Text : Type 0
Text = List ℕ

-- The UTF-8 bytes of one code point.
abbrev pub encode_rune : ℕ → Text
encode_rune c =
    if ltb c 0x80
    then c ∷ []
    else if ltb c 0x800
    then (0xC0 + c / 64) ∷ (0x80 + c % 64) ∷ []
    else if ltb c 0x10000
    then (0xE0 + c / 4096) ∷ (0x80 + c / 64 % 64) ∷ (0x80 + c % 64) ∷ []
    else (0xF0 + c / 262144) ∷ (0x80 + c / 4096 % 64) ∷ (0x80 + c / 64 % 64) ∷ (0x80 + c % 64) ∷ []

abbrev pub text : String → Text
text String.[] = []
text (String.◌∷◌ c s) = encode_rune (code c) ++ text s

abbrev pub text_eqb : Text → Text → Bool
text_eqb [] [] = true
text_eqb [] (b ∷ t) = false
text_eqb (a ∷ s) [] = false
text_eqb (a ∷ s) (b ∷ t) = nat_eqb a b && text_eqb s t

eq_of_text_eqb : (s t : Text) → text_eqb s t ≡ true → s ≡ t
eq_of_text_eqb [] [] h = refl
eq_of_text_eqb [] (b ∷ t) h = ground arith
eq_of_text_eqb (a ∷ s) [] h = ground arith
eq_of_text_eqb (a ∷ s) (b ∷ t) h = ground (arith, eq_of_text_eqb s t)

text_eqb_refl : (s : Text) → text_eqb s s ≡ true
text_eqb_refl [] = refl
text_eqb_refl (a ∷ s) = ground (arith, text_eqb_refl s)

pub text_eqb_iff : (s t : Text) → (text_eqb s t ≡ true) ↔ (s ≡ t)
text_eqb_iff s t = (eq_of_text_eqb s t, λ e. ground (arith, text_eqb_refl s))

instance abbrev pub text_eq : Comparable Text
text_eq = record { equals = text_eqb; equals_iff = text_eqb_iff }

-- strings.HasPrefix(s, p), with the prefix first.
abbrev pub has_prefix : Text → Text → Bool
has_prefix [] s = true
has_prefix (c ∷ p) [] = false
has_prefix (c ∷ p) (d ∷ s) = nat_eqb c d && has_prefix p s

-- strings.Contains(s, sub), with the part first.
abbrev pub contains : Text → Text → Bool
contains p [] = has_prefix p []
contains p (c ∷ s) = has_prefix p (c ∷ s) || contains p s

pub has_prefix-append : (p s : Text) → has_prefix p (p ++ s) ≡ true
has_prefix-append [] s = refl
has_prefix-append (c ∷ p) s = ground (arith, has_prefix-append p s)

contains_here : (p s : Text) → has_prefix p s ≡ true → contains p s ≡ true
contains_here p [] h = h
contains_here p (c ∷ s) h = ground arith

-- What the second of two texts contains, both together contain.
pub contains-append : (p s t : Text) → contains p t ≡ true → contains p (s ++ t) ≡ true
contains-append p [] t h = h
contains-append p (c ∷ s) t h = ground (arith, contains-append p s t)

pub contains_first : (p s : Text) → contains p (p ++ s) ≡ true
contains_first p s = contains_here p (p ++ s) (has_prefix-append p s)

-- strings.ContainsRune for one ASCII byte.
abbrev pub has_byte : ℕ → Text → Bool
has_byte b [] = false
has_byte b (c ∷ s) = nat_eqb c b || has_byte b s

abbrev pub newline : ℕ
newline = 10

-- No byte of the text is a line feed.
abbrev pub IsOneLine : Text → Type 0
IsOneLine = All (λ c. c ≢ newline)

pub IsOneLine-has_byte : (s : Text) → has_byte newline s ≡ false → IsOneLine s
IsOneLine-has_byte [] h = tt
IsOneLine-has_byte (c ∷ s) h = (ground arith, IsOneLine-has_byte s (ground arith))

-- strings.Join(parts, sep) for a separator of one byte.
abbrev pub join : ℕ → List Text → Text
join sep [] = []
join sep (p ∷ []) = p
join sep (p ∷ q ∷ ps) = p ++ sep ∷ join sep (q ∷ ps)

-- The byte that ends the first part of two texts decides where the part ends.
pub split_inj :
    (sep : ℕ) (p q s t : Text)
    → All (λ c. c ≢ sep) p
    → All (λ c. c ≢ sep) q
    → p ++ sep ∷ s ≡ q ++ sep ∷ t
    → (p ≡ q) × (s ≡ t)
split_inj sep [] [] s t h k e = (refl, cc)
split_inj sep [] (b ∷ q) s t h k e = absurd (ground arith)
split_inj sep (a ∷ p) [] s t h k e = absurd (ground arith)
split_inj sep (a ∷ p) (b ∷ q) s t h k e = let (l, r) = split_inj sep p q s t h.1 k.1 (cc) in (cc, r)

-- All parts but the last are one line each, so line feeds between them mark the parts.
abbrev pub IsFramed : List Text → Type 0
IsFramed [] = Unit
IsFramed (p ∷ []) = Unit
IsFramed (p ∷ q ∷ ps) = IsOneLine p × IsFramed (q ∷ ps)

pub join-injective :
    (ps qs : List Text)
    → length ps ≡ length qs
    → IsFramed ps
    → IsFramed qs
    → join newline ps ≡ join newline qs
    → ps ≡ qs
join-injective [] [] n h k e = refl
join-injective [] (q ∷ qs) n h k e = absurd (omega arith)
join-injective (p ∷ ps) [] n h k e = absurd (omega arith)
join-injective (p ∷ []) (q ∷ []) n h k e = cc
join-injective (p ∷ []) (q ∷ q' ∷ qs) n h k e = absurd (omega arith)
join-injective (p ∷ p' ∷ ps) (q ∷ []) n h k e = absurd (omega arith)
join-injective (p ∷ p' ∷ ps) (q ∷ q' ∷ qs) n h k e =
    let (first, rest) =
      split_inj newline p q (join newline (p' ∷ ps)) (join newline (q' ∷ qs)) h.0 k.0 e in
    let others = join-injective (p' ∷ ps) (q' ∷ qs) (omega arith) h.1 k.1 rest in cc
