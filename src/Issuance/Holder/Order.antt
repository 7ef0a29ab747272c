-- ===== src/Issuance/Holder/Order.antt =====
-- In which order the calls of a successful exchange come.
use instnt_aries_vcx.Base.{◌≡◌, Bool, true, false, List, [], ◌∷◌, arith}
use instnt_aries_vcx.Runtime.{Runtime}
use instnt_aries_vcx.Issuance.Holder.States.{HolderSm, HolderState, get_state}
use instnt_aries_vcx.Issuance.Holder.Machine.{
  set_proposal, receive_offer, prepare_credential_request, decline_offer, receive_credential,
  receive_problem_report,
}
use instnt_aries_vcx.Issuance.Holder.Run.{
  HolderCall, propose, offer, prepare, credential, call, run, kept,
}

-- Some call takes a credential.
abbrev pub credential_in : List HolderCall → Bool
credential_in [] = false
credential_in (credential _ ∷ cs) = true
credential_in (_ ∷ cs) = credential_in cs

-- Some request is prepared, and a credential is taken after it.
abbrev pub prepare_then : List HolderCall → Bool
prepare_then [] = false
prepare_then (prepare _ ∷ cs) = credential_in cs
prepare_then (_ ∷ cs) = prepare_then cs

-- Some offer is taken, and those two come after it.
abbrev pub offer_then : List HolderCall → Bool
offer_then [] = false
offer_then (offer _ ∷ cs) = prepare_then cs
offer_then (_ ∷ cs) = offer_then cs

-- Some proposal is set, and those three come after it.
abbrev pub propose_then : List HolderCall → Bool
propose_then [] = false
propose_then (propose _ ∷ cs) = offer_then cs
propose_then (_ ∷ cs) = propose_then cs

credential-prepare : (cs : List HolderCall) → prepare_then cs ≡ true → credential_in cs ≡ true
credential-prepare [] h = h
credential-prepare (c ∷ cs) h = ground (arith, credential-prepare cs)

prepare-offer : (cs : List HolderCall) → offer_then cs ≡ true → prepare_then cs ≡ true
prepare-offer [] h = h
prepare-offer (c ∷ cs) h = ground (arith, prepare-offer cs, credential-prepare cs)

offer-propose : (cs : List HolderCall) → propose_then cs ≡ true → offer_then cs ≡ true
offer-propose [] h = h
offer-propose (c ∷ cs) h = ground (arith, offer-propose cs, prepare-offer cs)

-- What the calls have to hold if the exchange is to succeed from a state.
abbrev pub needed : HolderState → List HolderCall → Bool
needed HolderState.initial cs = propose_then cs
needed HolderState.proposal_set cs = offer_then cs
needed HolderState.offer_received cs = prepare_then cs
needed HolderState.request_set cs = credential_in cs
needed HolderState.finished cs = true
needed HolderState.failed cs = false

module _ (R : Runtime) where
  open R use {World}

  needed-call :
      (h : HolderSm) (c : HolderCall) (w : World) (cs : List HolderCall)
      → needed (get_state (kept R h (call R h c w).0)) cs ≡ true
      → needed (get_state h) (c ∷ cs) ≡ true
  unfolding call set_proposal receive_offer prepare_credential_request decline_offer
      receive_credential receive_problem_report
  needed-call h (propose p) w cs e = ground (arith, offer-propose cs, prepare-offer cs)
  needed-call h (offer o) w cs e = ground (arith, prepare-offer cs)
  needed-call h (prepare d) w cs e = ground (arith, credential-prepare cs)
  needed-call h _ w cs e = ground arith

  -- An exchange that ends in success had, from the state it started in, all calls that were still
  -- to come, in their order: from the initial state a proposal, an offer, a prepared request and
  -- a credential.
  pub holder_success_needs :
      (cs : List HolderCall) (h : HolderSm) (w : World)
      → get_state (run R cs h w).0 ≡ HolderState.finished
      → needed (get_state h) cs ≡ true
  unfolding run
  holder_success_needs [] h w e = ground arith
  holder_success_needs (c ∷ cs) h w e =
      let (r, w') = call R h c w in needed-call h c w cs (holder_success_needs cs (kept R h r) w' e)
