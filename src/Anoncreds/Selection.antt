-- ===== src/Anoncreds/Selection.antt =====
-- cred_selection.rs, and the requested credentials of presentation.rs: what a prover may show, what
-- it has chosen to show, and what the anoncreds library is asked to show.
use instnt_aries_vcx.Base.{ℕ, String, Bool, Option, none, List, Map, insert}
use instnt_aries_vcx.Anoncreds.Request.{NonRevokedInterval}

pub record RetrievedCredentialInfo : Type 0 where
  pub referent : String
  pub attributes : Map String
  pub schema_id : String
  pub cred_def_id : String
  pub rev_reg_id : Option String
  pub cred_rev_id : Option ℕ

pub record RetrievedCredentialForReferent : Type 0 where
  pub cred_info : RetrievedCredentialInfo
  pub interval : Option NonRevokedInterval

pub record RetrievedCredentials : Type 0 where
  pub credentials_by_referent : Map (List RetrievedCredentialForReferent)

pub record SelectedCredentialInfo : Type 0 where
  pub referent : String
  pub schema_id : String
  pub cred_def_id : String
  pub rev_reg_id : Option String
  pub cred_rev_id : Option ℕ
  pub revealed : Option Bool

pub record SelectedCredentialForReferentCredential : Type 0 where
  pub cred_info : SelectedCredentialInfo

pub record SelectedCredentialForReferent : Type 0 where
  pub credential : SelectedCredentialForReferentCredential
  pub tails_dir : Option String

pub record SelectedCredentials : Type 0 where
  pub credential_for_referent : Map SelectedCredentialForReferent

-- `From<RetrievedCredentialForReferent>`
abbrev pub from_retrieved : RetrievedCredentialForReferent → SelectedCredentialForReferentCredential
from_retrieved value = record {
  cred_info = record {
    referent = value.cred_info.referent;
    schema_id = value.cred_info.schema_id;
    cred_def_id = value.cred_info.cred_def_id;
    rev_reg_id = value.cred_info.rev_reg_id;
    cred_rev_id = value.cred_info.cred_rev_id;
    revealed = none;
  };
}

unfoldable pub select_credential_for_referent_from_retrieved :
    SelectedCredentials
    → String
    → RetrievedCredentialForReferent
    → Option String
    → SelectedCredentials
select_credential_for_referent_from_retrieved self referent retrieved_cred with_tails_dir = record {
  credential_for_referent =
      insert referent
        (record { credential = from_retrieved retrieved_cred; tails_dir = with_tails_dir })
        self.credential_for_referent;
}

pub record RequestedAttribute : Type 0 where
  pub cred_id : String
  pub timestamp : Option ℕ
  pub revealed : Bool

pub record RequestedPredicate : Type 0 where
  pub cred_id : String
  pub timestamp : Option ℕ

pub record RequestedCredentials : Type 0 where
  pub self_attested_attributes : Map String
  pub requested_attributes : Map RequestedAttribute
  pub requested_predicates : Map RequestedPredicate
