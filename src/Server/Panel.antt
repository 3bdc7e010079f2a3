-- ===== src/Server/Panel.antt =====
-- The publish endpoint (api/api.go, handlePublish).
use aleart_hub.Base.{ℕ, ◌≡◌, Bool, true, false, Option, none, text, arith}
use aleart_hub.Alert.{Alert, Signer, InputError, sign, verify, validate_input}
use aleart_hub.Alert.Signature.{SignerLaws, verify-sign}
use aleart_hub.Alert.Validate.{IsPublishable, validate_input_lem}
use aleart_hub.Server.{
  Server, Outside, Setup, PublishReq, Answer, bad_request, bad_gateway, published, signed,
  panel_alert, handle_publish,
}

module _ (signer : Signer) (laws : SignerLaws signer) (setup : Setup signer) where
  abbrev pub checked : Outside → PublishReq → Option InputError
  checked io req =
      validate_input req.severity req.category req.title req.body (panel_alert io req).action
        (text "panel")

  is_published : Answer → Bool
  is_published (bad_request e) = false
  is_published bad_gateway = false
  is_published (published a) = true

  answered :
      (io : Outside) (req : PublishReq) (org : ℕ) (s : Server) (a : Alert)
      → (handle_publish signer setup io req org s).1 ≡ published a
      → (checked io req ≡ none) × (a ≡ signed signer setup (panel_alert io req))
  unfolding handle_publish
  answered io req org s a h = (ground arith, ground arith)

  publishable :
      (io : Outside) (req : PublishReq)
      → checked io req ≡ none
      → let a = signed signer setup (panel_alert io req) in
        IsPublishable a.severity a.category a.title a.body a.action a.source
  unfolding sign panel_alert
  publishable io req ok =
      (validate_input_lem req.severity req.category req.title req.body (panel_alert io req).action
          (text "panel")).0
        ok

  -- An alert that the endpoint answers with has a known severity and category and texts of one line,
  -- and verifies under the server's public key.
  pub handle_publish_lem :
      (io : Outside) (req : PublishReq) (org : ℕ) (s : Server) (a : Alert)
      → (handle_publish signer setup io req org s).1 ≡ published a
      → IsPublishable a.severity a.category a.title a.body a.action a.source
        × (verify signer setup.nfc (signer.public setup.priv) a ≡ true)
  handle_publish_lem io req org s a h =
      let (ok, e) = answered io req org s a h in
      rw e
        (publishable io req ok, verify-sign signer laws setup.nfc setup.priv (panel_alert io req))
