-- ===== src/Connection/Generic.antt =====
-- connection/generic: a connection of any state, its thin state, what can be asked of it, and the
-- conversions from and to the connections of one state.
use Prim.Native.String.{◌++◌}
use instnt_aries_vcx.Base.{
  String, Bool, true, false, not, ◌&&◌, ◌≡◌, Option, none, some, ok, ok_or, map_err, and_then,
  first, is_some, arith,
}
use instnt_aries_vcx.Errors.{VcxResult, from_msg, fail, not_ready, invalid_state}
use instnt_aries_vcx.DidDoc.Doc.{AriesDidDoc}
use instnt_aries_vcx.DidDoc.Keys.{recipient_keys, from_diddoc}
use instnt_aries_vcx.Runtime.{Runtime}
use instnt_aries_vcx.Connection.States.{
  AnyInvitation, invitation_id, PairwiseInfo, Inviter, as_inviter, Invitee, as_invitee, Connection,
}
use instnt_aries_vcx.Connection.InviterStates as InviterStates
use instnt_aries_vcx.Connection.InviteeStates as InviteeStates

pub data InviterState : Type 0 where
  initial : InviterStates.Initial → InviterState
  invited : InviterStates.Invited → InviterState
  requested : InviterStates.Requested → InviterState
  completed : InviterStates.Completed → InviterState

pub data InviteeState : Type 0 where
  initial : InviteeStates.Initial → InviteeState
  invited : InviteeStates.Invited → InviteeState
  requested : InviteeStates.Requested → InviteeState
  completed : InviteeStates.Completed → InviteeState

pub data GenericState : Type 0 where
  inviter : InviterState → GenericState
  invitee : InviteeState → GenericState

pub record GenericConnection : Type 0 where
  pub source_id : String
  pub pairwise_info : PairwiseInfo
  pub state : GenericState

pub data State : Type 0 where
  initial invited requested responded completed : State

pub data ThinState : Type 0 where
  invitee inviter : State → ThinState

abbrev pub inviter_stage : InviterState → State
inviter_stage (InviterState.initial _) = State.initial
inviter_stage (InviterState.invited _) = State.invited
inviter_stage (InviterState.requested _) = State.requested
inviter_stage (InviterState.completed _) = State.completed

abbrev pub invitee_stage : InviteeState → State
invitee_stage (InviteeState.initial _) = State.initial
invitee_stage (InviteeState.invited _) = State.invited
invitee_stage (InviteeState.requested _) = State.requested
invitee_stage (InviteeState.completed _) = State.completed

abbrev pub thin : GenericState → ThinState
thin (GenericState.inviter v) = ThinState.inviter (inviter_stage v)
thin (GenericState.invitee v) = ThinState.invitee (invitee_stage v)

-- `GenericConnection::state`
unfoldable pub state : GenericConnection → ThinState
state self = thin self.state

unfoldable pub thread_id : GenericConnection → Option String
thread_id self = elim self.state [
  | GenericState.invitee s ↦ elim s [
    | InviteeState.initial _ ↦ none
    | InviteeState.invited s ↦ some (invitation_id s.invitation)
    | InviteeState.requested s ↦ some s.thread_id
    | InviteeState.completed s ↦ some s.thread_id
  ]
  | GenericState.inviter s ↦ elim s [
    | InviterState.initial _ ↦ none
    | InviterState.invited s ↦ some (invitation_id s.invitation)
    | InviterState.requested s ↦ some s.signed_response.decorators.thread.thid
    | InviterState.completed s ↦ some s.thread_id
  ]
]

unfoldable pub their_did_doc : GenericConnection → Option AriesDidDoc
their_did_doc self = elim self.state [
  | GenericState.invitee s ↦ elim s [
    | InviteeState.initial _ ↦ none
    | InviteeState.invited s ↦ some s.did_doc
    | InviteeState.requested s ↦ some s.did_doc
    | InviteeState.completed s ↦ some s.did_doc
  ]
  | GenericState.inviter s ↦ elim s [
    | InviterState.initial _ ↦ none
    | InviterState.invited _ ↦ none
    | InviterState.requested s ↦ some s.did_doc
    | InviterState.completed s ↦ some s.did_doc
  ]
]

unfoldable pub bootstrap_did_doc : GenericConnection → Option AriesDidDoc
bootstrap_did_doc self = elim self.state [
  | GenericState.inviter _ ↦ none
  | GenericState.invitee s ↦ elim s [
    | InviteeState.initial _ ↦ none
    | InviteeState.invited s ↦ some s.did_doc
    | InviteeState.requested s ↦ some s.did_doc
    | InviteeState.completed s ↦ some s.bootstrap_did_doc
  ]
]

unfoldable pub remote_did : GenericConnection → Option String
remote_did self = elim (their_did_doc self) [ none ↦ none | some d ↦ some d.id ]

unfoldable pub invitation : GenericConnection → Option AnyInvitation
invitation self = elim self.state [
  | GenericState.inviter s ↦ elim s [ InviterState.invited s ↦ some s.invitation | _ ↦ none ]
  | GenericState.invitee s ↦ elim s [ InviteeState.invited s ↦ some s.invitation | _ ↦ none ]
]

-- `From<Connection<I, S>> for GenericConnection`, with the conversion of the state.
abbrev pub from_inviter :
    {S : Type 0} → (S → InviterState) → Connection Inviter S → GenericConnection
from_inviter c self = record {
  source_id = self.source_id;
  pairwise_info = self.pairwise_info;
  state = GenericState.inviter (c self.state);
}

abbrev pub from_invitee :
    {S : Type 0} → (S → InviteeState) → Connection Invitee S → GenericConnection
from_invitee c self = record {
  source_id = self.source_id;
  pairwise_info = self.pairwise_info;
  state = GenericState.invitee (c self.state);
}

-- `try_from_vague_to_concrete!`; the argument is the `Debug` text of a state.
module _ (debug : GenericState → String) where
  abbrev unexpected : {S : Type 0} → GenericState → VcxResult S
  unexpected v = fail invalid_state ("unexpected connection state: " ++ (debug v ++ "!"))

  abbrev pub inviter_initial : InviterState → VcxResult InviterStates.Initial
  inviter_initial (InviterState.initial s) = ok s
  inviter_initial v = unexpected (GenericState.inviter v)

  abbrev pub inviter_invited : InviterState → VcxResult InviterStates.Invited
  inviter_invited (InviterState.invited s) = ok s
  inviter_invited v = unexpected (GenericState.inviter v)

  abbrev pub inviter_requested : InviterState → VcxResult InviterStates.Requested
  inviter_requested (InviterState.requested s) = ok s
  inviter_requested v = unexpected (GenericState.inviter v)

  abbrev pub inviter_completed : InviterState → VcxResult InviterStates.Completed
  inviter_completed (InviterState.completed s) = ok s
  inviter_completed v = unexpected (GenericState.inviter v)

  abbrev pub invitee_initial : InviteeState → VcxResult InviteeStates.Initial
  invitee_initial (InviteeState.initial s) = ok s
  invitee_initial v = unexpected (GenericState.invitee v)

  abbrev pub invitee_invited : InviteeState → VcxResult InviteeStates.Invited
  invitee_invited (InviteeState.invited s) = ok s
  invitee_invited v = unexpected (GenericState.invitee v)

  abbrev pub invitee_requested : InviteeState → VcxResult InviteeStates.Requested
  invitee_requested (InviteeState.requested s) = ok s
  invitee_requested v = unexpected (GenericState.invitee v)

  abbrev pub invitee_completed : InviteeState → VcxResult InviteeStates.Completed
  invitee_completed (InviteeState.completed s) = ok s
  invitee_completed v = unexpected (GenericState.invitee v)

abbrev as_inviter_state : GenericState → VcxResult InviterState
as_inviter_state (GenericState.inviter s) = ok s
as_inviter_state (GenericState.invitee _) =
    fail invalid_state "Expected VagueState::Inviterconnection state, found VagueState::Invitee"

abbrev as_invitee_state : GenericState → VcxResult InviteeState
as_invitee_state (GenericState.invitee s) = ok s
as_invitee_state (GenericState.inviter _) =
    fail invalid_state "Expected VagueState::Inviteeconnection state, found VagueState::Inviter"

module _ {S : Type 0} where
  -- `TryFrom<GenericConnection> for Connection<I, S>`, with the conversion of the state.
  unfoldable pub try_inviter :
      (InviterState → VcxResult S) → GenericConnection → VcxResult (Connection Inviter S)
  try_inviter c value = and_then (as_inviter_state value.state) λ v. and_then (c v) λ s.
      ok (record {
        source_id = value.source_id;
        pairwise_info = value.pairwise_info;
        initiation_type = as_inviter;
        state = s;
      })

  unfoldable pub try_invitee :
      (InviteeState → VcxResult S) → GenericConnection → VcxResult (Connection Invitee S)
  try_invitee c value = and_then (as_invitee_state value.state) λ v. and_then (c v) λ s.
      ok (record {
        source_id = value.source_id;
        pairwise_info = value.pairwise_info;
        initiation_type = as_invitee;
        state = s;
      })

module _ (R : Runtime) where
  unfoldable pub remote_vk : GenericConnection → VcxResult String
  remote_vk self =
      and_then (ok_or (their_did_doc self) (from_msg not_ready "No DidDoc present")) λ did_doc.
        and_then (map_err from_diddoc (recipient_keys R did_doc)) λ keys.
          ok_or (first keys)
            (from_msg not_ready "Can't resolve recipient key from the counterparty diddoc.")

abbrev is_initial : State → Bool
is_initial State.initial = true
is_initial _ = false

abbrev stage_of : ThinState → State
stage_of (ThinState.inviter s) = s
stage_of (ThinState.invitee s) = s

abbrev is_invited : ThinState → Bool
is_invited (ThinState.inviter State.invited) = true
is_invited (ThinState.invitee State.invited) = true
is_invited _ = false

abbrev knows_doc : ThinState → Bool
knows_doc (ThinState.inviter State.initial) = false
knows_doc (ThinState.inviter State.invited) = false
knows_doc (ThinState.invitee State.initial) = false
knows_doc _ = true

abbrev is_invitee : ThinState → Bool
is_invitee (ThinState.invitee _) = true
is_invitee (ThinState.inviter _) = false

-- What can be asked of a connection depends on its thin state alone: it has a thread unless it is
-- initial, an invitation exactly if it is invited, the other party's document from the invitation
-- on (invitee) or from the request on (inviter), and a document from the start only if it is an
-- invitee that has one.
pub generic_queries :
    (g : GenericConnection)
    → (is_some (thread_id g) ≡ not (is_initial (stage_of (state g))))
      × (is_some (invitation g) ≡ is_invited (state g))
      × (is_some (their_did_doc g) ≡ knows_doc (state g))
      × (is_some (remote_did g) ≡ knows_doc (state g))
      × (is_some (bootstrap_did_doc g) ≡ (is_invitee (state g) && knows_doc (state g)))
unfolding thread_id invitation their_did_doc remote_did bootstrap_did_doc state
generic_queries g = ground arith
