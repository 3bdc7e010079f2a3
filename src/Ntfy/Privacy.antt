-- ===== src/Ntfy/Privacy.antt =====
-- What a public relay learns (ntfy/ntfy.go).
use aleart_hub.Base.{ℕ, ◌≡◌, refl, List, [], text_eq, Text}
use aleart_hub.Alert.{Alert}
use aleart_hub.Ntfy.{Config, publish, escalate, public_post}

-- Without a self-hosted server, Publish posts two alerts of one category and severity alike, so that
-- post carries no title, text, action or source; and Escalate posts an alert alike whoever is
-- silent, so that post carries no device name. It does carry the alert's title and text.
pub posts_private :
    (c : Config) (a b : Alert) (phase : ℕ) (pending others : List Text)
    → c.base_url ≡ []
    → a.category ≡ b.category
    → a.severity ≡ b.severity
    → (publish c a ≡ publish c b) × (escalate c a phase pending ≡ escalate c a phase others)
unfolding publish escalate public_post
posts_private c a b phase pending others h e f = (rw (h, e, f) refl, rw h refl)
