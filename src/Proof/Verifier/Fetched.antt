-- ===== src/Proof/Verifier/Fetched.antt =====
-- What a verifier asks the ledger for, before it has a presentation judged.
use instnt_aries_vcx.Base.{String, Bool, ◌==◌, holds_text}
use instnt_aries_vcx.Runtime.{Runtime}
use instnt_aries_vcx.Proof.Verifier.Check.{CredInfoVerifier}

abbrev pub has_cred_def : CredInfoVerifier → String → Bool
has_cred_def info i = info.cred_def_id == i

abbrev pub has_schema : CredInfoVerifier → String → Bool
has_schema info i = info.schema_id == i

abbrev pub has_rev_reg : CredInfoVerifier → String → Bool
has_rev_reg info i = holds_text info.rev_reg_id i
