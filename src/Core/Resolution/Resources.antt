-- ===== src/Core/Resolution/Resources.antt =====
-- The result for one resource: `ResourceResolution` of crates/postproject-core/src/resolution.rs.
-- An identity is a number, a URI is its bytes.
use Prim.Native.String.{String}
use postproject.Base.{
  ℕ, Bool, not, ◌&&◌, ◌||◌, Option, List, [], Result, ok, err, Error, invalid_argument,
  if◌then◌else◌, ltb, leb, ◌==◌, length, is_empty,
}
use postproject.Base.Int.{ℤ}
use postproject.Base.Sorting.{sort, canonical}
use postproject.Core.Text.{Bytes, leb_bytes}
use postproject.Core.Content.Sequence.{max_sequence_exceptions}

-- A confidence, in basis points.
unfoldable pub from_basis_points : ℕ → Result ℕ
from_basis_points value =
    if ltb 10000 value
    then err (record {
      kind = invalid_argument;
      message = "confidence must not exceed 10,000 basis points";
    })
    else ok value

pub data EvidenceKind : Type 0 where
  known_locator_available exact_fingerprint_match full_hash_match : EvidenceKind
  partial_fingerprint_match file_size_match file_name_match : EvidenceKind
  relative_path_similarity media_root_relation media_root_unmapped : EvidenceKind
  media_root_unavailable fingerprint_mismatch conflicting_candidate : EvidenceKind
  discovery_error : EvidenceKind

pub record ResolutionEvidence : Type 0 where
  pub kind : EvidenceKind
  pub detail : Option String

pub record ResolutionCandidate : Type 0 where
  pub uri : Bytes
  pub confidence : ℕ
  pub evidence : List ResolutionEvidence

pub data ResourceResolutionState : Type 0 where
  online_at_known_locator resolved_exact resolved_probable : ResourceResolutionState
  offline ambiguous error : ResourceResolutionState

pub record ResourceResolution : Type 0 where
  pub resource_id : ℕ
  pub state : ResourceResolutionState
  pub candidates : List ResolutionCandidate
  pub evidence : List ResolutionEvidence
  pub missing_frames : List ℤ

-- `(Reverse(confidence), uri)`: the higher confidence first, then the lower URI.
unfoldable pub before_or_same : ResolutionCandidate → ResolutionCandidate → Bool
before_or_same l r =
    ltb r.confidence l.confidence || (r.confidence == l.confidence && leb_bytes l.uri r.uri)

unfoldable pub valid_count : ResourceResolutionState → List ResolutionCandidate → Bool
valid_count online_at_known_locator cs = length cs == 1
valid_count resolved_exact cs = length cs == 1
valid_count resolved_probable cs = length cs == 1
valid_count offline cs = is_empty cs
valid_count error cs = is_empty cs
valid_count ambiguous cs = leb 2 (length cs)

abbrev pub inconsistent_count : Error
inconsistent_count = record {
  kind = invalid_argument;
  message = "candidate count is inconsistent with resource resolution state";
}

unfoldable pub new :
    ℕ
    → ResourceResolutionState
    → List ResolutionCandidate
    → List ResolutionEvidence
    → Result ResourceResolution
new resource_id state candidates evidence =
    let sorted = sort before_or_same candidates in
    if not (valid_count state sorted)
    then err inconsistent_count
    else ok (record {
      resource_id = resource_id;
      state = state;
      candidates = sorted;
      evidence = evidence;
      missing_frames = [];
    })

unfoldable pub with_missing_frames : ResourceResolution → List ℤ → Result ResourceResolution
with_missing_frames self missing_frames =
    if ltb max_sequence_exceptions (length missing_frames)
    then err (record {
      kind = invalid_argument;
      message = "resolution has more missing frames than allowed";
    })
    else ok (record self { missing_frames = canonical missing_frames })
