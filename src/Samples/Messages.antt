-- ===== src/Samples/Messages.antt =====
-- Messages on the thread "i".
use instnt_aries_vcx.Base.{none, some, [], ◌∷◌}
use instnt_aries_vcx.Messages.Parts.{ProblemReport, AckStatus, thread_of}
use instnt_aries_vcx.Messages.Issuance.{
  CredentialPreviewV1, OfferCredentialV1, ProposeCredentialV1, RequestCredentialV1,
  IssueCredentialV1, AckCredentialV1,
}
use instnt_aries_vcx.Messages.Proof.{
  ProposePresentationV1, RequestPresentationV1, PresentationV1, AckPresentationV1,
}
use instnt_aries_vcx.Util.Attach.{make_attach_from_str}
use instnt_aries_vcx.Util.Report.{problem_report_of}
use instnt_aries_vcx.Samples.World.{sample}

abbrev pub preview : CredentialPreviewV1
preview = record { attributes = [] }

abbrev pub proposal : ProposeCredentialV1
proposal = record {
  id = "i";
  content = record {
    comment = none;
    credential_proposal = preview;
    schema_id = "s";
    cred_def_id = "d";
  };
  decorators = record { thread = none; timing = none };
}

abbrev pub offer : OfferCredentialV1
offer = record {
  id = "i";
  content = record {
    comment = none;
    credential_preview = preview;
    offers_attach = make_attach_from_str sample "o" "a" ∷ [];
  };
  decorators = record { thread = none; timing = none };
}

abbrev pub request : RequestCredentialV1
request = record {
  id = "j";
  content = record { comment = none; requests_attach = make_attach_from_str sample "q" "b" ∷ [] };
  decorators = record { thread = some (thread_of "i"); timing = none };
}

abbrev pub credential : IssueCredentialV1
credential = record {
  id = "k";
  content = record {
    comment = none;
    credentials_attach = make_attach_from_str sample "c" "e" ∷ [];
  };
  decorators = record {
    thread = thread_of "i";
    please_ack = some (record { on = [] });
    timing = none;
  };
}

abbrev pub credential_ack : AckCredentialV1
credential_ack = record {
  id = "l";
  content = record { inner = record { status = AckStatus.accepted } };
  decorators = record { thread = thread_of "i"; timing = none };
}

abbrev pub report : ProblemReport
report = problem_report_of "r" (some "no") "i"

abbrev pub proof_proposal : ProposePresentationV1
proof_proposal = record {
  id = "i";
  content = record {
    comment = none;
    presentation_proposal = record { attributes = []; predicates = [] };
  };
  decorators = record { thread = some (thread_of "t"); timing = none };
}

abbrev pub proof_request : RequestPresentationV1
proof_request = record {
  id = "i";
  content = record {
    comment = none;
    request_presentations_attach = make_attach_from_str sample "r" "a" ∷ [];
  };
  decorators = record { thread = none; timing = none };
}

abbrev pub proof : PresentationV1
proof = record {
  id = "j";
  content = record {
    comment = none;
    presentations_attach = make_attach_from_str sample "p" "b" ∷ [];
  };
  decorators = record { thread = thread_of "i"; please_ack = none; timing = none };
}

abbrev pub proof_ack : AckPresentationV1
proof_ack = record {
  id = "k";
  content = record { inner = record { status = AckStatus.accepted } };
  decorators = record { thread = thread_of "i"; timing = none };
}
