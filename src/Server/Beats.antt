-- ===== src/Server/Beats.antt =====
-- The heartbeats of a run (api/api.go, RunHeartbeat and selfCheck).
use mathlib.Core.Path.{ap₂}
use aleart_hub.Base.{
  ℕ, ◌+◌, ◌≡◌, refl, ap, ◌∙◌, true, List, [], ◌∷◌, map, All, Option, none, some, Text, arith,
  if◌then◌else◌, ◌==◌, text_eq,
}
use aleart_hub.Alert.{Signer, sign_heartbeat, verify_heartbeat, health_ok, health_degraded}
use aleart_hub.Alert.Signature.{SignerLaws, verify_heartbeat-sign_heartbeat}
use aleart_hub.Server.{Server, Setup, Pulse, beat, run_heartbeat, self_check, note_publish_result}

-- The health that each beat should report: degraded where the store does not answer or the beat
-- before was not published, by the error of that one (empty is none).
abbrev pub verdicts : Text → List Pulse → List Text
verdicts last [] = []
verdicts last (io ∷ ios) =
    (elim io.ping_err [
      | none ↦ if last == [] then health_ok else health_degraded
      | some e ↦ health_degraded
    ])
    ∷ verdicts (elim io.publish_err [ none ↦ [] | some e ↦ e ]) ios

abbrev pub numbers : ℕ → List Pulse → List ℕ
numbers seq [] = []
numbers seq (io ∷ ios) = (seq + 1) ∷ numbers (seq + 1) ios

health_of :
    (ping : Option Text) (s : Server)
    → (self_check ping s).0 ≡ elim ping [
      | none ↦ if s.last_publish_err == [] then health_ok else health_degraded
      | some e ↦ health_degraded
    ]
unfolding self_check
health_of none s = ground arith
health_of (some e) s = refl

noted :
    (e : Option Text) (s : Server)
    → (note_publish_result e s).last_publish_err ≡ elim e [ none ↦ [] | some t ↦ t ]
unfolding note_publish_result
noted none s = refl
noted (some t) s = refl

module _ (signer : Signer) (laws : SignerLaws signer) (setup : Setup signer) where
  abbrev pub IsBeaten : List Pulse → ℕ → Server → Type 0
  IsBeaten ios seq s =
      (map (λ h. h.seq) (run_heartbeat signer setup ios seq s) ≡ numbers seq ios)
      × (map (λ h. h.health) (run_heartbeat signer setup ios seq s)
          ≡ verdicts s.last_publish_err ios)
      × All (λ h. verify_heartbeat signer (signer.public setup.priv) h ≡ true)
          (run_heartbeat signer setup ios seq s)

  -- In a run of heartbeats each verifies under the server's public key, the numbers count up by one,
  -- and the health is degraded exactly where the store does not answer or the publish of the beat
  -- before failed: no other failed publish degrades it.
  pub run_heartbeat_lem : (ios : List Pulse) (seq : ℕ) (s : Server) → IsBeaten ios seq s
  unfolding run_heartbeat beat sign_heartbeat
  run_heartbeat_lem [] seq s = (refl, refl, tt)
  run_heartbeat_lem (io ∷ ios) seq s =
      let (ns, hs, vs) = run_heartbeat_lem ios (seq + 1) (note_publish_result io.publish_err s) in
      (
        ap (λ l. (seq + 1) ∷ l) ns,
        ap₂ (λ t l. t ∷ l) (health_of io.ping_err s)
            (hs ∙ ap (λ t. verdicts t ios) (noted io.publish_err s)),
        (verify_heartbeat-sign_heartbeat signer laws setup.priv _, vs),
      )
