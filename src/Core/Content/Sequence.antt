-- ===== src/Core/Content/Sequence.antt =====
-- `ImageSequenceDescriptor` of crates/postproject-core/src/content.rs.
use postproject.Base.{
  ℕ, Bool, not, List, Result, ok, err, Error, invalid_argument, if◌then◌else◌, ltb, length, any,
}
use postproject.Base.Int.{ℤ}
use postproject.Base.Sorting.{canonical, eq_ℤ}
use postproject.Core.Time.Rate.{RationalRate}
use postproject.Core.Content.Frames.{FrameRange, contains}
use postproject.Core.Content.Pattern.{ImageSequencePattern}

abbrev pub max_sequence_exceptions : ℕ
max_sequence_exceptions = 100000

pub record ImageSequenceDescriptor : Type 0 where
  pub resource_id : ℕ
  pub pattern : ImageSequencePattern
  pub frames : FrameRange
  pub rate : RationalRate
  pub known_missing_frames : List ℤ

abbrev pub too_many_exceptions : Error
too_many_exceptions = record {
  kind = invalid_argument;
  message = "image sequence has more sparse exceptions than allowed";
}

abbrev pub outside_domain : Error
outside_domain = record {
  kind = invalid_argument;
  message = "missing image-sequence frame is outside the regular frame domain";
}

unfoldable pub new :
    ℕ → ImageSequencePattern → FrameRange → RationalRate → List ℤ → Result ImageSequenceDescriptor
new resource_id pattern frames rate known_missing_frames =
    if ltb max_sequence_exceptions (length known_missing_frames)
    then err too_many_exceptions
    else if any (λ frame. not (contains frames frame)) known_missing_frames
    then err outside_domain
    else ok (record {
      resource_id = resource_id;
      pattern = pattern;
      frames = frames;
      rate = rate;
      known_missing_frames = canonical known_missing_frames;
    })

-- `binary_search(…).is_ok()`, which on the ascending frames is membership.
unfoldable pub is_known_missing : ImageSequenceDescriptor → ℤ → Bool
is_known_missing d frame = any (λ f. eq_ℤ f frame) d.known_missing_frames
