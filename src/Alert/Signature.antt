-- ===== src/Alert/Signature.antt =====
-- Sign and Verify of alert.go and heartbeat.go over an abstract Ed25519 and base64.
use aleart_hub.Base.{
  ◌≡◌, sym, ◌∙◌, Bool-cases, true, false, inl, inr, some, arith, Text, nat_eq, length,
}
use aleart_hub.Alert.{
  Alert, Heartbeat, Signer, signature_size, canonical, canonical_heartbeat, check_signature, sign,
  verify, sign_heartbeat, verify_heartbeat,
}
use aleart_hub.Alert.Canonical.{IsSignable, SameSigned, KeepsLines, canonical-injective}
use aleart_hub.Alert.Beat.{canonical-ne-canonical_heartbeat}

-- What the code relies on: base64 round trips, and an Ed25519 signature has 64 bytes and is
-- accepted for the message that was signed.
pub record SignerLaws (s : Signer) : Type 0 where
  pub decode-encode : (b : Text) → s.decode (s.encode b) ≡ some b
  pub size : (k : s.PrivateKey) (m : Text) → length (s.sign_bytes k m) ≡ signature_size
  pub accepts :
      (k : s.PrivateKey) (m : Text) → s.verify_bytes (s.public k) m (s.sign_bytes k m) ≡ true

-- The signature of the message `m` is no forgery for `n`: accepted there, `n` is `m` itself.
abbrev pub IsBound : (s : Signer) → s.PrivateKey → Text → Text → Type 0
IsBound s k m n = s.verify_bytes (s.public k) n (s.sign_bytes k m) ≡ true → n ≡ m

module _ (signer : Signer) (laws : SignerLaws signer) where
  open signer use {PrivateKey, public, sign_bytes, verify_bytes, encode}

  check_signature-encode :
      (k : PrivateKey) (m n : Text)
      → check_signature signer (public k) n (encode (sign_bytes k m))
        ≡ verify_bytes (public k) n (sign_bytes k m)
  unfolding check_signature
  check_signature-encode k m n = ground (arith, laws.decode-encode (sign_bytes k m), laws.size k m)

  -- An alert signed with a key verifies under the matching public key.
  pub verify-sign :
      (nfc : Text → Text) (k : PrivateKey) (a : Alert)
      → verify signer nfc (public k) (sign signer nfc k a) ≡ true
  unfolding verify sign canonical
  verify-sign nfc k a =
      check_signature-encode k (canonical nfc a) (canonical nfc a)
      ∙ laws.accepts k (canonical nfc a)

  pub verify_heartbeat-sign_heartbeat :
      (k : PrivateKey) (h : Heartbeat)
      → verify_heartbeat signer (public k) (sign_heartbeat signer k h) ≡ true
  unfolding verify_heartbeat sign_heartbeat canonical_heartbeat
  verify_heartbeat-sign_heartbeat k h =
      check_signature-encode k (canonical_heartbeat h) (canonical_heartbeat h)
      ∙ laws.accepts k (canonical_heartbeat h)

  -- Alerts `a` and `b` have one-line strings before `cancels`, and the signature of `a` is no
  -- forgery for `b`. If that signature is accepted on `b`, the two agree in all thirteen signed
  -- fields, the texts up to the Unicode normalisation `nfc`.
  pub verify_tampered :
      (nfc : Text → Text) (k : PrivateKey) (a b : Alert)
      → KeepsLines nfc
      → IsBound signer k (canonical nfc a) (canonical nfc b)
      → IsSignable a
      → IsSignable b
      → verify signer nfc (public k) (record b { sig = (sign signer nfc k a).sig }) ≡ true
      → SameSigned nfc b a
  unfolding verify sign canonical
  verify_tampered nfc k a b keeps bound ha hb v =
      canonical-injective nfc keeps b a hb ha
        (bound (sym (check_signature-encode k (canonical nfc a) (canonical nfc b)) ∙ v))

  -- The signature of an alert, if it is no forgery, is never accepted on a heartbeat.
  pub verify_heartbeat-sign :
      (nfc : Text → Text) (k : PrivateKey) (a : Alert) (h : Heartbeat)
      → IsBound signer k (canonical nfc a) (canonical_heartbeat h)
      → verify_heartbeat signer (public k) (record h { sig = (sign signer nfc k a).sig }) ≡ false
  unfolding verify_heartbeat sign canonical_heartbeat
  verify_heartbeat-sign nfc k a h bound =
      let m = canonical nfc a in
      let n = canonical_heartbeat h in
      elim (Bool-cases (verify_bytes (public k) n (sign_bytes k m))) [
        | inl accepted ↦ absurd (canonical-ne-canonical_heartbeat nfc a h (sym (bound accepted)))
        | inr refused ↦ check_signature-encode k m n ∙ refused
      ]
