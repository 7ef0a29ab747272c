-- ===== src/Proof/Exchange.antt =====
-- The two machines together: what one party sends, the other party takes.
use instnt_aries_vcx.Base.{
  String, ◌≡◌, Bool, true, none, some, List, ◌∷◌, ok, Returns, Ensures, if◌then◌else◌, arith,
  eq_refl, [],
}
use instnt_aries_vcx.Messages.Parts.{Attachment, ProblemReport}
use instnt_aries_vcx.Messages.Proof.{presentation}
use instnt_aries_vcx.Messages.Aries.{proof_v1}
use instnt_aries_vcx.Anoncreds.Request.{PresentationRequest}
use instnt_aries_vcx.Anoncreds.Selection.{SelectedCredentials}
use instnt_aries_vcx.Proof.Requests.{presentation_request_from_str}
use instnt_aries_vcx.Proof.Verifier.Check.{validate_indy_proof}
use instnt_aries_vcx.Proof.Prover.Build.{generate_indy_proof}
use instnt_aries_vcx.Runtime.{Runtime, Codec}
use instnt_aries_vcx.Util.Report.{Status}
use instnt_aries_vcx.Util.Thread.{is_match, verify_thread_id}
use instnt_aries_vcx.Util.Attach.{AttachmentId, as_ref, make_attach_from_str, get-make_attach}
use instnt_aries_vcx.Proof.Prover.States.{ProverSm, ProverFullState}
use instnt_aries_vcx.Proof.Prover.Machine.{
  from_request, build_presentation_msg, build_presentation, generate_presentation,
  mark_presentation_sent,
}
use instnt_aries_vcx.Proof.Verifier.States.{
  valid, invalid, VerifierSm, PresentationRequestSentState, presentation_request_sent, finished,
  FinishedState, unavailable,
}
use instnt_aries_vcx.Proof.Verifier.Machine.{
  receive_presentation_request_reject, check_presentation, verify_presentation,
}
use instnt_aries_vcx.Proof.Verifier.Queries.{get_verification_status}
use instnt_aries_vcx.Proof.Verifier.Invariant.{IsValid}

-- The end of an exchange whose request was answered by a report: failed with the report, with the
-- request but no presentation, and with no verdict.
abbrev pub refused_request : PresentationRequestSentState → ProblemReport → FinishedState
refused_request s r = record {
  presentation_request = some s.presentation_request;
  presentation = none;
  status = Status.failed r;
  verification_status = unavailable;
}

module _ (R : Runtime) where
  open R use {World, Presentation}

  -- What the prover holds to be sent: a presentation on the verifier's thread, or a problem report
  -- with which the verifier's exchange fails.
  abbrev pub Answers : VerifierSm → PresentationRequestSentState → ProverFullState → Type 0
  Answers v s (ProverFullState.presentation_prepared q) =
      is_match v.thread_id (proof_v1 (presentation q.presentation)) ≡ true
  Answers v s (ProverFullState.presentation_preparation_failed q) =
      receive_presentation_request_reject R v q.problem_report
      ≡ ok (record v { state = finished (refused_request s q.problem_report) })
  Answers v s _ = ⊥

  -- A prover made from the request that a valid verifier has sent works on the verifier's thread.
  -- If its call of `generate_presentation` returns a machine, this holds either a presentation on
  -- the verifier's thread or a problem report that the verifier takes: its exchange then ends,
  -- failed with this report, with the request, no presentation and no verdict.
  pub request_answered :
      (v : VerifierSm) (s : PresentationRequestSentState) (source_id : String)
      (credentials : SelectedCredentials) (attrs : List (String × String)) (w : World)
      → IsValid v
      → v.state ≡ presentation_request_sent s
      → Ensures
          (λ p. (p.thread_id ≡ v.thread_id) × Answers v s p.state)
          (generate_presentation R
            (from_request s.presentation_request source_id)
            credentials
            attrs
            w).0
  unfolding generate_presentation from_request build_presentation_msg verify_thread_id is_match
      receive_presentation_request_reject
  request_answered v s source_id credentials attrs w i at = ground (arith, eq_refl v.thread_id)

  -- What the verifier makes of the presentation that the prover has marked as sent.
  abbrev pub HasVerdict : VerifierSm → World → Bool → ProverSm → Type 0
  HasVerdict v w b p = elim p.state [
    | ProverFullState.presentation_sent q ↦
        Returns (λ v'. get_verification_status v' ≡ (if b then valid else invalid))
          (verify_presentation R v q.presentation w).0
    | _ ↦ ⊥
  ]

  -- From the request of a valid verifier to the verdict: where the wallet makes a proof for the
  -- text that the verifier attached, and the library judges the texts of this proof and of this
  -- request, the prover has a presentation to send, and the verifier's verdict on it is the
  -- library's.
  pub proof_judged :
      (c : Codec R) (v : VerifierSm) (s : PresentationRequestSentState) (source_id : String)
      (credentials : SelectedCredentials) (attrs : List (String × String))
      (request id proof : String) (rest : List Attachment) (parsed : PresentationRequest)
      (made : Presentation) (b : Bool) (w w₁ w₂ w₃ : World)
      → IsValid v
      → v.state ≡ presentation_request_sent s
      → s.presentation_request.content.request_presentations_attach
        ≡ make_attach_from_str R request id ∷ rest
      → presentation_request_from_str R request ≡ ok parsed
      → generate_indy_proof R credentials attrs parsed w ≡ (ok made, w₁)
      → R.presentation_to_string made ≡ ok proof
      → validate_indy_proof R proof request w₂ ≡ (ok b, w₃)
      → Returns
          (λ p. Returns (HasVerdict v w₂ b) (mark_presentation_sent p))
          (generate_presentation R
            (from_request s.presentation_request source_id)
            credentials
            attrs
            w).0
  unfolding generate_presentation build_presentation from_request build_presentation_msg
      mark_presentation_sent verify_presentation check_presentation verify_thread_id is_match
      get_verification_status
  proof_judged c v s source_id credentials attrs request id proof rest parsed made b w w₁ w₂ w₃ i at
        attached parses proves prints judges =
      ground (
        arith,
        get-make_attach R c request id rest,
        get-make_attach R c proof (as_ref AttachmentId.presentation) [],
        eq_refl v.thread_id,
      )
