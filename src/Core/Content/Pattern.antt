-- ===== src/Core/Content/Pattern.antt =====
-- `ImageSequencePattern` and `ResourceRole` of crates/postproject-core/src/content.rs.
use postproject.Base.{
  ℕ, zero, suc, ◌+◌, ◌-◌, ◌/◌, ◌%◌, Bool, not, ◌&&◌, ◌||◌, [], ◌∷◌, ◌++◌, Result, ok, err, Error,
  invalid_argument, if◌then◌else◌, ◌==◌, ltb, length, any, all, is_empty,
}
use postproject.Base.Int.{ℤ, pos, negsuc}
use postproject.Core.Text.{Bytes, is_identifier_byte, is_namespaced}

abbrev pub max_sequence_pattern_bytes : ℕ
max_sequence_pattern_bytes = 1024

abbrev pub max_frame_padding : ℕ
max_frame_padding = 32

abbrev pub max_resource_role_bytes : ℕ
max_resource_role_bytes = 128

pub record ImageSequencePattern : Type 0 where
  pub prefix : Bytes
  pub suffix : Bytes
  pub padding : ℕ

-- `/`, `\` and NUL.
abbrev pub invalid_character : ℕ → Bool
invalid_character c = c == 47 || (c == 92 || c == 0)

abbrev pub invalid_pattern : Error
invalid_pattern = record {
  kind = invalid_argument;
  message = "invalid image-sequence filename pattern";
}

unfoldable pub new : Bytes → Bytes → ℕ → Result ImageSequencePattern
new prefix suffix padding =
    if (is_empty prefix && is_empty suffix)
      || (ltb max_sequence_pattern_bytes (length prefix + length suffix)
          || (any invalid_character prefix
              || (any invalid_character suffix || ltb max_frame_padding padding)))
    then err invalid_pattern
    else ok (record { prefix = prefix; suffix = suffix; padding = padding })

-- The decimal digits of a number. Each step divides it by ten, so as much fuel as the number is
-- enough.
unfoldable pub decimal_of : ℕ → ℕ → Bytes
decimal_of zero n = (48 + n) ∷ []
decimal_of (suc fuel) n =
    let rest = decimal_of fuel (n / 10) in
    if ltb n 10 then (48 + n) ∷ [] else rest ++ (48 + n % 10) ∷ []

unfoldable pub zeros : ℕ → Bytes
zeros zero = []
zeros (suc n) = 48 ∷ zeros n

-- `format!("{frame:0width$}")`: the sign, then zeros up to the width, then the digits.
unfoldable pub padded : ℕ → ℤ → Bytes
padded width (pos n) = zeros (width - length (decimal_of n n)) ++ decimal_of n n
padded width (negsuc n) =
    45 ∷ zeros (width - 1 - length (decimal_of (suc n) (suc n))) ++ decimal_of (suc n) (suc n)

unfoldable pub filename : ImageSequencePattern → ℤ → Bytes
filename p frame = p.prefix ++ padded p.padding frame ++ p.suffix

abbrev pub invalid_role : Error
invalid_role = record {
  kind = invalid_argument;
  message = "resource role must be a namespaced identifier";
}

-- `ResourceRole::new`; a role is its text.
unfoldable pub resource_role : Bytes → Result Bytes
resource_role value =
    if ltb max_resource_role_bytes (length value)
      || (not (all is_identifier_byte value) || not (is_namespaced value))
    then err invalid_role
    else ok value
