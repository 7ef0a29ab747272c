-- ===== src/Issuance/Issuer/Order.antt =====
-- In which order the calls of a successful exchange come.
use instnt_aries_vcx.Base.{◌≡◌, Bool, true, false, List, [], ◌∷◌, arith}
use instnt_aries_vcx.Runtime.{Runtime}
use instnt_aries_vcx.Issuance.Issuer.States.{IssuerSm, IssuerState, get_state}
use instnt_aries_vcx.Issuance.Issuer.Machine.{
  build_credential_offer_msg, receive_proposal, receive_request, build_credential, receive_ack,
  receive_problem_report,
}
use instnt_aries_vcx.Issuance.Issuer.Run.{
  IssuerCall, set_offer, proposal, request, build, acknowledge, report, call, run, kept,
}

-- Some call closes the exchange: with an acknowledgement, or with a problem report.
abbrev pub close_in : List IssuerCall → Bool
close_in [] = false
close_in (acknowledge _ ∷ cs) = true
close_in (report _ ∷ cs) = true
close_in (_ ∷ cs) = close_in cs

-- Some call builds the credential, and one closes after it.
abbrev pub build_then : List IssuerCall → Bool
build_then [] = false
build_then (build ∷ cs) = close_in cs
build_then (_ ∷ cs) = build_then cs

-- Some request is received, and those two come after it.
abbrev pub request_then : List IssuerCall → Bool
request_then [] = false
request_then (request _ ∷ cs) = build_then cs
request_then (_ ∷ cs) = request_then cs

-- Some offer is set, and those three come after it.
abbrev pub offer_then : List IssuerCall → Bool
offer_then [] = false
offer_then (set_offer _ _ _ _ ∷ cs) = request_then cs
offer_then (_ ∷ cs) = offer_then cs

close-build : (cs : List IssuerCall) → build_then cs ≡ true → close_in cs ≡ true
close-build [] h = h
close-build (c ∷ cs) h = ground (arith, close-build cs)

build-request : (cs : List IssuerCall) → request_then cs ≡ true → build_then cs ≡ true
build-request [] h = h
build-request (c ∷ cs) h = ground (arith, build-request cs, close-build cs)

request-offer : (cs : List IssuerCall) → offer_then cs ≡ true → request_then cs ≡ true
request-offer [] h = h
request-offer (c ∷ cs) h = ground (arith, request-offer cs, build-request cs)

-- What the calls have to hold if the exchange is to succeed from a state.
abbrev pub needed : IssuerState → List IssuerCall → Bool
needed IssuerState.initial cs = offer_then cs
needed IssuerState.proposal_received cs = offer_then cs
needed IssuerState.offer_set cs = request_then cs
needed IssuerState.request_received cs = build_then cs
needed IssuerState.credential_set cs = close_in cs
needed IssuerState.finished cs = true
needed IssuerState.failed cs = false

module _ (R : Runtime) where
  open R use {World}

  needed-call :
      (i : IssuerSm) (c : IssuerCall) (w : World) (cs : List IssuerCall)
      → needed (get_state (kept R i (call R i c w).0)) cs ≡ true
      → needed (get_state i) (c ∷ cs) ≡ true
  unfolding call build_credential_offer_msg receive_proposal receive_request build_credential
      receive_ack receive_problem_report
  needed-call i (set_offer t p c o) w cs e = ground (arith, request-offer cs, build-request cs)
  needed-call i (proposal p) w cs e = ground (arith, request-offer cs)
  needed-call i (request q) w cs e = ground (arith, build-request cs)
  needed-call i build w cs e = ground (arith, close-build cs)
  needed-call i _ w cs e = ground arith

  -- An exchange that ends in success had, from the state it started in, all calls that were still
  -- to come, in their order: from the initial state an offer, a request, the building of the
  -- credential, and an acknowledgement or a problem report.
  pub issuer_success_needs :
      (cs : List IssuerCall) (i : IssuerSm) (w : World)
      → get_state (run R cs i w).0 ≡ IssuerState.finished
      → needed (get_state i) cs ≡ true
  unfolding run
  issuer_success_needs [] i w e = ground arith
  issuer_success_needs (c ∷ cs) i w e =
      let (r, w') = call R i c w in needed-call i c w cs (issuer_success_needs cs (kept R i r) w' e)
