-- ===== src/Util/Attach.antt =====
-- `get_attach_as_string!` and `make_attach_from_str!` of aries/aries_vcx/src/handlers/util.rs.
use Prim.Native.String.{◌++◌}
use instnt_aries_vcx.Base.{ℕ, String, ◌≡◌, Option, none, some, List, [], ◌∷◌, ok}
use instnt_aries_vcx.Errors.{VcxResult, fail, serialization_error}
use instnt_aries_vcx.Messages.Parts.{Attachment, AttachmentType, known, MimeType}
use instnt_aries_vcx.Runtime.{Runtime, Codec}

-- `AttachmentId` and its `AsRefStr`.
pub data AttachmentId : Type 0 where
  credential_offer credential_request credential presentation_request presentation : AttachmentId

abbrev pub as_ref : AttachmentId → String
as_ref credential_offer = "libindy-cred-offer-0"
as_ref credential_request = "libindy-cred-request-0"
as_ref credential = "libindy-cred-0"
as_ref presentation_request = "libindy-request-presentation-0"
as_ref presentation = "libindy-presentation-0"

module _ (R : Runtime) where
  open R use {base64_encode, base64_decode, as_bytes, from_utf8, debug_attachment}

  abbrev not_base64 : Option Attachment → VcxResult String
  not_base64 attach =
      fail serialization_error
        ("Attachment is not base 64 encoded JSON: " ++ debug_attachment attach)

  -- the three `let .. else` of the macro, each with its early return
  abbrev from_bytes : Option Attachment → Option String → VcxResult String
  from_bytes attach none = not_base64 attach
  from_bytes attach (some text) = ok text

  abbrev from_base64 : Option Attachment → Option (List ℕ) → VcxResult String
  from_base64 attach none = not_base64 attach
  from_base64 attach (some bytes) = from_bytes attach (from_utf8 bytes)

  abbrev from_type : Option Attachment → AttachmentType → VcxResult String
  from_type attach (AttachmentType.base64 encoded) = from_base64 attach (base64_decode encoded)
  from_type attach _ = not_base64 attach

  unfoldable pub get_attach_as_string : List Attachment → VcxResult String
  get_attach_as_string [] = not_base64 none
  get_attach_as_string (a ∷ rest) = from_type (some a) a.payload.content

  unfoldable pub make_attach_from_str : String → String → Attachment
  make_attach_from_str text id = record {
    id = some id;
    description = none;
    filename = none;
    mime_type = some (known MimeType.json);
    lastmod_time = none;
    byte_count = none;
    payload = record {
      jws = none;
      sha256 = none;
      content = AttachmentType.base64 (base64_encode (as_bytes text));
    };
  }

  -- What one party attaches, the other party reads, whatever the attachments behind the first.
  pub get-make_attach :
      (c : Codec R) (text id : String) (rest : List Attachment)
      → get_attach_as_string (make_attach_from_str text id ∷ rest) ≡ ok text
  unfolding get_attach_as_string make_attach_from_str
  get-make_attach c text id rest = rw c.decode-encode (rw c.from_utf8-as_bytes)
