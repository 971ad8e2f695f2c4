-- ===== src/Models/Binding.antt =====
-- `VerificationArtifactBinding` of services/agent/src/ipromise_agent/models.py: its creation and its
-- validators.
--
-- `Digests` holds what the standard library computes: the SHA-256 of bytes, in hexadecimal, and the
-- canonical JSON text of a payload.
use i_promise.Base.{ℕ, ◌≡◌, sym, Bool, ◌&&◌, String, [], ◌∷◌, leb, ◌==◌, string_eq}
use Prim.Native.String
use i_promise.Dict.{Dict, contains}
use i_promise.Lists.{length, all}
use i_promise.Text.{is_hex}
use i_promise.Bytes.{Bytes, encode}
use i_promise.Errors.{Result, ok, value_error, ◌>>◌, guard, >>-eq-ok, ok_injective}
use i_promise.Models.{VerificationArtifactBinding}

-- The `payload`, with the schema version that is always the same.
pub record Payload : Type 0 where
  pub schema_version : String
  pub repository_url : String
  pub base_sha : String
  pub unified_diff_sha256 : String
  pub preimage_hashes : Dict String String
  pub candidate_hashes : Dict String String
  pub build_id : String
  pub build_name : String
  pub log_url : String

pub record Digests : Type 0 where
  pub sha256 : Bytes → String
  pub dumps : Payload → String

-- `_digest`
abbrev pub digest : Digests → Payload → String
digest d payload = d.sha256 (encode (d.dumps payload))

-- `self.model_dump(...)` without the digest
abbrev pub payload_of : VerificationArtifactBinding → Payload
payload_of b = record {
  schema_version = b.schema_version;
  repository_url = b.repository_url;
  base_sha = b.base_sha;
  unified_diff_sha256 = b.unified_diff_sha256;
  preimage_hashes = b.preimage_hashes;
  candidate_hashes = b.candidate_hashes;
  build_id = b.build_id;
  build_name = b.build_name;
  log_url = b.log_url;
}

abbrev pub has_length : ℕ → ℕ → String → Bool
has_length low high text = leb low (String.count text) && leb (String.count text) high

abbrev pub has_size : Dict String String → Bool
has_size hashes = leb 1 (length hashes) && leb (length hashes) 16

-- The constraints of the fields.
unfoldable pub has_valid_fields : VerificationArtifactBinding → Bool
has_valid_fields b =
    b.schema_version == "ipromise.verification-binding.v1"
    && has_length 12 2000 b.repository_url
    && is_hex 40 b.base_sha
    && is_hex 64 b.unified_diff_sha256
    && has_size b.preimage_hashes
    && has_size b.candidate_hashes
    && has_length 1 256 b.build_id
    && has_length 1 1000 b.build_name
    && has_length 12 2000 b.log_url
    && is_hex 64 b.binding_sha256

-- `set(left) == set(right)`
unfoldable pub has_same_paths : Dict String String → Dict String String → Bool
has_same_paths left right =
    all (λ entry. contains entry.0 right) left && all (λ entry. contains entry.0 left) right

-- The loop over the entries of one map.
unfoldable pub check_entries : Dict String String → Result (Unit {0})
check_entries [] = ok tt
check_entries ((path, digest_of_path) ∷ rest) = do
  guard (has_length 1 1000 path) (value_error "Verification binding contains an invalid path")
  guard (is_hex 64 digest_of_path) (value_error "Verification binding contains an invalid SHA-256")
  check_entries rest

-- `validate_binding`, after the constraints of the fields.
unfoldable pub validate_binding : Digests → VerificationArtifactBinding → Result (Unit {0})
unfolding has_valid_fields has_same_paths check_entries
validate_binding d b = do
  guard (has_valid_fields b) (value_error "validation error for VerificationArtifactBinding")
  guard (has_same_paths b.preimage_hashes b.candidate_hashes)
      (value_error "Verification binding file paths do not match")
  check_entries b.preimage_hashes
  check_entries b.candidate_hashes
  guard (b.binding_sha256 == digest d (payload_of b))
      (value_error "Verification artifact binding digest does not match")

abbrev pub binding_of : Digests → Payload → VerificationArtifactBinding
binding_of d payload = record {
  schema_version = payload.schema_version;
  repository_url = payload.repository_url;
  base_sha = payload.base_sha;
  unified_diff_sha256 = payload.unified_diff_sha256;
  preimage_hashes = payload.preimage_hashes;
  candidate_hashes = payload.candidate_hashes;
  build_id = payload.build_id;
  build_name = payload.build_name;
  log_url = payload.log_url;
  binding_sha256 = digest d payload;
}

unfoldable pub create : Digests → Payload → Result VerificationArtifactBinding
unfolding validate_binding
create d payload = validate_binding d (binding_of d payload) >> ok (binding_of d payload)

-- What is created carries the payload and its digest, and is valid.
pub create_lem :
    (d : Digests) (payload : Payload) {b : VerificationArtifactBinding}
    → create d payload ≡ ok b
    → (b ≡ binding_of d payload) × (validate_binding d (binding_of d payload) ≡ ok tt)
unfolding create
create_lem d payload {b} h =
    let (valid, same) =
      >>-eq-ok (validate_binding d (binding_of d payload)) (ok (binding_of d payload)) h in
    let e = ok_injective same in (sym e, valid)
