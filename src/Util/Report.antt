-- ===== src/Util/Report.antt =====
-- `Status` of aries/aries_vcx/src/handlers/util.rs, and `build_problem_report_msg` of
-- protocols/common.rs.
use instnt_aries_vcx.Base.{ℕ, String, Option, none, some, [], Effect, unwrap_or}
use instnt_aries_vcx.Messages.Parts.{ProblemReport, thread_of}
use instnt_aries_vcx.Runtime.{Runtime}

pub data Status : Type 0 where
  undefined success : Status
  failed declined : ProblemReport → Status

abbrev pub status_code : Status → ℕ
status_code undefined = 0
status_code success = 1
status_code (failed _) = 2
status_code (declined _) = 3

-- A problem report with the given identifier.
abbrev pub problem_report_of : String → Option String → String → ProblemReport
problem_report_of id comment thread_id = record {
  id = id;
  content = record {
    description = record { translations = []; code = unwrap_or comment "" };
    problem_items = none;
    who_retries = none;
    fix_hint = none;
    impact = none;
    location = none;
    noticed_time = none;
    tracking_uri = none;
    escalation_uri = none;
  };
  decorators = record {
    thread = some (thread_of thread_id);
    timing = none;
    description_locale = none;
    fix_hint_locale = none;
  };
}

module _ (R : Runtime) where
  abbrev pub build_problem_report_msg : Option String → String → Effect R.World ProblemReport
  build_problem_report_msg comment thread_id w =
      let (id, w') = R.new_v4 w in (problem_report_of id comment thread_id, w')
