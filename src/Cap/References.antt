-- ===== src/Cap/References.antt =====
-- CAP <references>: what an emitted Cancel says is what the ingest side reads (cap.go).
use aleart_hub.Base.{
  ℕ, ◌≡◌, ◌≢◌, refl, ◌∙◌, ap, List, [], ◌∷◌, ◌++◌, arith, Text, All, All-append, IsToken,
  fields-token, split_n-append, split_n, text_eq,
}
use aleart_hub.Alert.{Alert}
use aleart_hub.Cap.{comma, collect_references, parse_references}
use aleart_hub.Cap.Outgoing.{cancel_references}

-- Printable ASCII with neither a space nor a comma, as CAP 1.2 §3.2.1 wants of both names.
abbrev pub IsCapName : Text → Type 0
IsCapName s = IsToken s × All (λ c. c ≢ comma) s

abbrev triple : Text → Text → Text → Text
triple sender identifier sent = sender ++ comma ∷ (identifier ++ comma ∷ sent)

split_triple :
    (sender identifier sent : Text)
    → All (λ c. c ≢ comma) sender
    → All (λ c. c ≢ comma) identifier
    → split_n comma (triple sender identifier sent) 3 ≡ sender ∷ identifier ∷ sent ∷ []
split_triple sender identifier sent h k =
    split_n-append comma sender (identifier ++ comma ∷ sent) 1 h
    ∙ ap (λ (r : List Text). sender ∷ r)
        (split_n-append comma identifier sent 0 k ∙ last identifier sent)
  where
    last : (p s : Text) → (p ∷ split_n comma s 1) ≡ p ∷ s ∷ []
    last p s = unfold split_n in refl

one_reference :
    (tok sender sent : Text) (c : ℕ) (identifier : Text)
    → split_n comma tok 3 ≡ sender ∷ (c ∷ identifier) ∷ sent ∷ []
    → collect_references (tok ∷ [])
      ≡ record { sender = sender; identifier = c ∷ identifier; sent = sent } ∷ []
unfolding collect_references
one_reference tok sender sent c identifier e = rw (e, collect_references) refl

IsToken-of :
    (sender identifier sent : Text)
    → IsToken sender
    → IsToken identifier
    → IsToken sent
    → IsToken (triple sender identifier sent)
IsToken-of sender identifier sent h k l =
    All-append _ sender (comma ∷ (identifier ++ comma ∷ sent)) h
      (omega arith, All-append _ identifier (comma ∷ sent) k (omega arith, l))

parse_triple :
    (a : ℕ) (sender : Text) (c : ℕ) (identifier sent : Text)
    → IsCapName (a ∷ sender)
    → IsCapName (c ∷ identifier)
    → IsToken sent
    → parse_references (triple (a ∷ sender) (c ∷ identifier) sent)
      ≡ record { sender = a ∷ sender; identifier = c ∷ identifier; sent = sent } ∷ []
unfolding parse_references
parse_triple a sender c identifier sent h k l =
    rw
      (fields-token a (sender ++ comma ∷ ((c ∷ identifier) ++ comma ∷ sent))
        (IsToken-of (a ∷ sender) (c ∷ identifier) sent h.0 k.0 l))
      (one_reference (triple (a ∷ sender) (c ∷ identifier) sent) (a ∷ sender) sent c identifier
        (split_triple (a ∷ sender) (c ∷ identifier) sent h.1 k.1))

-- The references that an emitted Cancel carries are read as one reference, to the recalled id and
-- this sender, if both are non-empty names without spaces or commas and times are printed
-- without spaces.
pub parse_references-cancel_references :
    (format_time : ℕ → Text) (a : Alert) (sender : Text)
    → ((t : ℕ) → IsToken (format_time t))
    → IsCapName sender
    → IsCapName a.cancels
    → sender ≢ []
    → a.cancels ≢ []
    → parse_references (cancel_references format_time a sender)
      ≡ record { sender = sender; identifier = a.cancels; sent = format_time a.issued_at } ∷ []
unfolding cancel_references
parse_references-cancel_references format_time a sender f h k n m = go sender a.cancels h k n m
  where
    go :
        (s i : Text)
        → IsCapName s
        → IsCapName i
        → s ≢ []
        → i ≢ []
        → parse_references (triple s i (format_time a.issued_at))
          ≡ record { sender = s; identifier = i; sent = format_time a.issued_at } ∷ []
    go [] i h k n m = absurd (n refl)
    go (b ∷ s) [] h k n m = absurd (m refl)
    go (b ∷ s) (c ∷ i) h k n m = parse_triple b s c i (format_time a.issued_at) h k (f a.issued_at)
