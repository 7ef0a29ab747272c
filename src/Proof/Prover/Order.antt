-- ===== src/Proof/Prover/Order.antt =====
-- In which order the calls of a successful exchange come.
use instnt_aries_vcx.Base.{◌≡◌, Bool, true, false, Bool-cases, ◌||◌, List, [], ◌∷◌, arith}
use instnt_aries_vcx.Runtime.{Runtime}
use instnt_aries_vcx.Proof.Prover.States.{ProverSm, ProverState, get_state}
use instnt_aries_vcx.Proof.Prover.Machine.{
  mark_presentation_sent, decline_presentation_request, negotiate_presentation,
  receive_presentation_request, receive_presentation_reject, receive_presentation_ack,
  build_presentation_proposal, generate_presentation,
}
use instnt_aries_vcx.Proof.Prover.Run.{
  ProverCall, propose, request, generate, mark_sent, acknowledge, negotiate, call, run, kept,
}

module _ {R : Runtime} where
  -- Some call takes an acknowledgement.
  abbrev pub ack_in : List (ProverCall R) → Bool
  ack_in [] = false
  ack_in (acknowledge _ ∷ cs) = true
  ack_in (_ ∷ cs) = ack_in cs

  -- The presentation is marked as sent, and an acknowledgement comes after it.
  abbrev pub send_then : List (ProverCall R) → Bool
  send_then [] = false
  send_then (mark_sent ∷ cs) = ack_in cs
  send_then (_ ∷ cs) = send_then cs

  -- The request is negotiated, or a presentation is generated and those two come after it.
  abbrev pub settles : List (ProverCall R) → Bool
  settles [] = false
  settles (negotiate ∷ cs) = true
  settles (generate _ _ ∷ cs) = send_then cs || settles cs
  settles (_ ∷ cs) = settles cs

  -- Some request is taken, and is settled after that.
  abbrev pub request_then : List (ProverCall R) → Bool
  request_then [] = false
  request_then (request _ ∷ cs) = settles cs
  request_then (_ ∷ cs) = request_then cs

  -- A presentation is proposed, and those come after it.
  abbrev pub propose_then : List (ProverCall R) → Bool
  propose_then [] = false
  propose_then (propose _ ∷ cs) = request_then cs
  propose_then (_ ∷ cs) = propose_then cs

  -- What the calls have to hold if the exchange is to succeed from a state.
  abbrev pub needed : ProverState → List (ProverCall R) → Bool
  needed ProverState.initial cs = propose_then cs
  needed ProverState.presentation_proposal_sent cs = request_then cs
  needed ProverState.presentation_request_received cs = settles cs
  needed ProverState.presentation_prepared cs = send_then cs
  needed ProverState.presentation_preparation_failed cs = false
  needed ProverState.presentation_sent cs = ack_in cs
  needed ProverState.finished cs = true
  needed ProverState.failed cs = false

  settles-request : (cs : List (ProverCall R)) → request_then cs ≡ true → settles cs ≡ true
  settles-request [] h = h
  settles-request (c ∷ cs) h = ground (arith, settles-request cs)

module _ (R : Runtime) where
  open R use {World}

  needed-call :
      (p : ProverSm) (c : ProverCall R) (w : World) (cs : List (ProverCall R))
      → needed (get_state (kept R p (call R p c w).0)) cs ≡ true
      → needed (get_state p) (c ∷ cs) ≡ true
  unfolding call build_presentation_proposal generate_presentation mark_presentation_sent
      decline_presentation_request negotiate_presentation receive_presentation_request
      receive_presentation_reject receive_presentation_ack
  needed-call p (propose d) w cs e = ground (arith, settles-request cs)
  needed-call p (generate c attrs) w cs e = ground (arith, Bool-cases (settles cs))
  needed-call p _ w cs e = ground arith

  -- An exchange that ends in success had, from the state it started in, all calls that were still
  -- to come, in their order: from the initial state a proposal, a request and after it either a
  -- negotiation or a generated presentation that was then marked as sent and then acknowledged.
  pub prover_success_needs :
      (cs : List (ProverCall R)) (p : ProverSm) (w : World)
      → get_state (run R cs p w).0 ≡ ProverState.finished
      → needed (get_state p) cs ≡ true
  unfolding run
  prover_success_needs [] p w e = ground arith
  prover_success_needs (c ∷ cs) p w e =
      let (r, w') = call R p c w in needed-call p c w cs (prover_success_needs cs (kept R p r) w' e)
