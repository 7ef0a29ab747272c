-- ===== src/Messages/Parts.antt =====
-- aries/messages/src/msg_parts.rs, decorators/*.rs, protocols/report_problem.rs and
-- protocols/notification/ack.rs: what the messages are made of.
use instnt_aries_vcx.Base.{ℕ, String, Option, none, some, List}

pub record MsgParts (C D : Type 0) : Type 0 where
  pub id : String
  pub content : C
  pub decorators : D

pub data ThreadGoalCode : Type 0 where
  aries_vc aries_vc_issue aries_vc_verify aries_vc_revoke aries_rel aries_rel_build : ThreadGoalCode

pub data MaybeKnown (T : Type 0) : Type 0 where
  known : T → MaybeKnown T
  unknown : String → MaybeKnown T

pub record Thread : Type 0 where
  pub thid : String
  pub pthid : Option String
  pub sender_order : Option ℕ
  pub received_orders : Option (List (String × ℕ))
  pub goal_code : Option (MaybeKnown ThreadGoalCode)

-- `Thread::builder().thid(thid).build()`
abbrev pub thread_of : String → Thread
thread_of thid = record {
  thid = thid;
  pthid = none;
  sender_order = none;
  received_orders = none;
  goal_code = none;
}

pub record Timing : Type 0 where
  pub in_time : Option ℕ
  pub out_time : Option ℕ
  pub stale_time : Option ℕ
  pub expires_time : Option ℕ
  pub delay_milli : Option ℕ
  pub wait_until_time : Option ℕ

-- `Timing::builder().out_time(t).build()`
abbrev pub timing_of : ℕ → Timing
timing_of t = record {
  in_time = none;
  out_time = some t;
  stale_time = none;
  expires_time = none;
  delay_milli = none;
  wait_until_time = none;
}

pub data AckOn : Type 0 where
  receipt outcome : AckOn

pub record PleaseAck : Type 0 where
  pub on : List AckOn

pub data AttachmentType : Type 0 where
  base64 : String → AttachmentType
  json : String → AttachmentType
  links : List String → AttachmentType

pub record AttachmentData : Type 0 where
  pub jws : Option (List (String × String))
  pub sha256 : Option String
  pub content : AttachmentType

pub data MimeType : Type 0 where
  json jpg jpeg png pdf plain string aip1 aip2_rfc19 aip2_rfc587 didcomm_v2 : MimeType

pub record Attachment : Type 0 where
  pub id : Option String
  pub description : Option String
  pub filename : Option String
  pub mime_type : Option (MaybeKnown MimeType)
  pub lastmod_time : Option ℕ
  pub byte_count : Option ℕ
  pub payload : AttachmentData

-- `~thread` and `~timing`, of the messages that may stand outside a thread.
pub record OptThreadDecorators : Type 0 where
  pub thread : Option Thread
  pub timing : Option Timing

-- `~l10n`: a locale is its language tag.
pub record FieldLocalization : Type 0 where
  pub code : Option String
  pub locale : Option String
  pub catalogs : Option (List String)
  pub translations : List (String × String)

pub record Description : Type 0 where
  pub translations : List (String × String)
  pub code : String

pub data WhoRetries : Type 0 where
  me you both nobody : WhoRetries

pub data Impact : Type 0 where
  message_content thread connection : Impact

pub data WhereParty : Type 0 where
  me you other : WhereParty

pub record Where : Type 0 where
  pub party : WhereParty
  pub location : String

pub record ProblemReportContent : Type 0 where
  pub description : Description
  pub problem_items : Option (List (List (String × String)))
  pub who_retries : Option WhoRetries
  pub fix_hint : Option String
  pub impact : Option Impact
  pub location : Option Where
  pub noticed_time : Option String
  pub tracking_uri : Option String
  pub escalation_uri : Option String

pub record ProblemReportDecorators : Type 0 where
  pub thread : Option Thread
  pub timing : Option Timing
  pub description_locale : Option FieldLocalization
  pub fix_hint_locale : Option FieldLocalization

abbrev pub ProblemReport : Type 0
ProblemReport = MsgParts ProblemReportContent ProblemReportDecorators

pub data AckStatus : Type 0 where
  accepted pending : AckStatus

pub record AckContent : Type 0 where
  pub status : AckStatus

-- `~thread` is required in an acknowledgement.
pub record AckDecorators : Type 0 where
  pub thread : Thread
  pub timing : Option Timing

abbrev pub Ack : Type 0
Ack = MsgParts AckContent AckDecorators

-- The decorators of a message that answers within a thread and may ask for an acknowledgement.
pub record AnswerDecorators : Type 0 where
  pub thread : Thread
  pub please_ack : Option PleaseAck
  pub timing : Option Timing
