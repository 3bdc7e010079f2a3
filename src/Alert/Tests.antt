-- ===== src/Alert/Tests.antt =====
-- The signing theorems at concrete messages, with a toy signer that sums the bytes.
use aleart_hub.Base.{ℕ, ◌+◌, ◌≡◌, refl, true, false, some, [], ◌∷◌, arith, Text, text, text_eqb}
use aleart_hub.Alert.{
  Alert, Heartbeat, Signer, critical, health_ok, canonical, canonical_heartbeat, sign, verify,
}
use aleart_hub.Base.{itoa}
use aleart_hub.Alert.Canonical.{IsSignable, SameSigned, KeepsLines}
use aleart_hub.Alert.Signature.{SignerLaws, verify_tampered}

abbrev pub fire : Alert
fire = record {
  schema_version = 1;
  id = text "a1";
  type = text "alert";
  category = text "fire";
  severity = critical;
  title = text "Smoke";
  body = text "Leave";
  action = [];
  source = text "panel";
  issued_at = 1700000000;
  ttl = 120;
  nonce = text "00ff";
  cancels = [];
  sig = [];
}

abbrev later : Alert
later = record fire { ttl = 600 }

abbrev beat : Heartbeat
beat = record {
  schema_version = 1;
  type = text "heartbeat";
  seq = 7;
  issued_at = 1700000000;
  interval = 10;
  active_count = 1;
  health = health_ok;
  sig = [];
}

abbrev sum : Text → ℕ
sum [] = 0
sum (c ∷ s) = c + sum s

abbrev zeros : ℕ → Text
zeros ℕ.zero = []
zeros (ℕ.suc n) = 0 ∷ zeros n

-- A checksum in place of Ed25519.
abbrev pub toy : Signer
toy = record {
  PrivateKey = Unit {0};
  PublicKey = Unit {0};
  public = λ k. k;
  sign_bytes = λ k m. sum m ∷ zeros 63;
  verify_bytes = λ k m s. text_eqb (sum m ∷ zeros 63) s;
  encode = λ b. b;
  decode = some;
}

abbrev pub same : Text → Text
same s = s

self_eqb : (n : ℕ) → text_eqb (n ∷ zeros 63) (n ∷ zeros 63) ≡ true
self_eqb n = ground arith

pub toy_laws : SignerLaws toy
toy_laws = record {
  decode-encode = λ b. refl;
  size = λ k m. refl;
  accepts = λ k m. self_eqb (sum m);
}

fire-IsSignable : IsSignable fire
fire-IsSignable = omega arith

later-IsSignable : IsSignable later
later-IsSignable = omega arith

keeps-same : KeepsLines same
keeps-same s h = h

canonical-fire :
    canonical same fire
    ≡ text "1\na1\nalert\nfire\ncritical\nSmoke\nLeave\n\npanel\n1700000000\n120\n00ff\n"
unfolding canonical itoa
canonical-fire = refl

abbrev resent : Alert
resent = record fire { sig = text "x" }

accepted : verify toy same tt (record resent { sig = (sign toy same tt fire).sig }) ≡ true
unfolding verify sign canonical itoa
accepted = refl

verify_tampered_example : SameSigned same resent fire
verify_tampered_example =
    verify_tampered toy toy_laws same tt fire resent keeps-same (λ v. unfold canonical in refl)
      fire-IsSignable (omega arith) accepted

not_a_beat :
    text_eqb (sum (canonical_heartbeat beat) ∷ zeros 63) (sum (canonical same fire) ∷ zeros 63)
    ≡ false
unfolding canonical canonical_heartbeat itoa
not_a_beat = refl
