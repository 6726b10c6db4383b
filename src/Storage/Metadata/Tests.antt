-- ===== src/Storage/Metadata/Tests.antt =====
-- Runs of the codec, and the theorems at concrete inputs.
use postproject.Base.{
  ◌≡◌, ◌⊎◌, refl, inr, true, not, ◌||◌, ◌==◌, [], ◌∷◌, ◌++◌, arith, ok, err, Error, storage, fail,
  ltb, any,
}
use postproject.Base.Int.{pos, negsuc}
use postproject.Core.Text.{Bytes, eq_bytes}
use postproject.Core.Bytes.{be_bytes, number_of}
use postproject.Core.Metadata.Numbers.{DecimalValue, RationalValue, rational_value}
use postproject.Core.Time.Gcd.{greatest_common_divisor}
use postproject.Core.Metadata.Value
use postproject.Core.Metadata.Value.{
  MetadataValue, Values, Fields, nil, cons, end, field, nesting_depth, payload_bytes,
}
use postproject.Core.Metadata.New.{TextTests}
use postproject.Core.Metadata.Valid.{IsValid}
use postproject.Storage.Metadata.Encode.{
  write, write_len, write_length_prefixed, encode_reference, encode_value, encode,
}
use postproject.Storage.Metadata.Decode.{
  read_exact, read_unsigned, read_signed, tag_of, bool_of, decode_tagged, decode_value,
  decode_header, decode,
}
use postproject.Storage.Metadata.Form.{framed, Outcome, encode-framed}
use postproject.Storage.Metadata.RoundTrip.{decode-encode}
use postproject.Storage.Metadata.Refusals.{decode-decided}

-- Tests of ASCII texts.
abbrev ascii : TextTests
ascii = record {
  is_utf8 = λ t. not (any (λ b. not (ltb b 128)) t);
  is_uri = any (λ b. b == 58);
  has_space_or_control = any (λ b. ltb b 33 || (b == 127));
}

-- The name `a:b`.
abbrev name : Bytes
name = 97 ∷ 58 ∷ 98 ∷ []

abbrev five_tenths : DecimalValue
five_tenths = record { coefficient = negsuc 4; scale = 1 }

abbrev half : RationalValue
half = record { numerator = negsuc 0; denominator = 2 }

abbrev sample_values : Values
sample_values = cons (Value.string (104 ∷ 105 ∷ [])) (
    cons (Value.decimal five_tenths)
      (cons (Value.rational half) (cons (Value.reference (Value.asset 7)) nil)))

abbrev sample : MetadataValue
sample = Value.struct (field name (Value.list sample_values) end)

abbrev sample_bytes : Bytes
sample_bytes =
    80 ∷ 80 ∷ 77 ∷ 86 ∷ 1 ∷ 11 ∷ 0 ∷ 0 ∷ 0 ∷ 1 ∷ 0 ∷ 0 ∷ 0 ∷ 3 ∷ 97 ∷ 58 ∷ 98 ∷ 10 ∷ 0 ∷ 0 ∷ 0 ∷ 4
    ∷ 0 ∷ 0 ∷ 0 ∷ 0 ∷ 2 ∷ 104 ∷ 105 ∷ 4 ∷ 255 ∷ 255 ∷ 255 ∷ 255 ∷ 255 ∷ 255 ∷ 255 ∷ 255 ∷ 255 ∷ 255
    ∷ 255 ∷ 255 ∷ 255 ∷ 255 ∷ 255 ∷ 251 ∷ 0 ∷ 0 ∷ 0 ∷ 1 ∷ 9 ∷ 255 ∷ 255 ∷ 255 ∷ 255 ∷ 255 ∷ 255
    ∷ 255 ∷ 255 ∷ 0 ∷ 0 ∷ 0 ∷ 0 ∷ 0 ∷ 0 ∷ 0 ∷ 2 ∷ 12 ∷ 1 ∷ 0 ∷ 0 ∷ 0 ∷ 0 ∷ 0 ∷ 0 ∷ 0 ∷ 0 ∷ 0 ∷ 0 ∷ 0
    ∷ 0 ∷ 0 ∷ 0 ∷ 0 ∷ 7 ∷ []

encode-sample : encode sample ≡ ok sample_bytes
unfolding encode encode_value encode_reference write write_len write_length_prefixed be_bytes
encode-sample = refl

sample-IsValid : IsValid ascii sample
unfolding IsValid nesting_depth payload_bytes greatest_common_divisor
sample-IsValid = (
  record { few = omega arith; shallow = omega arith; light = omega arith },
  (
    record { utf8 = refl; nonempty = omega arith; bounded = omega arith; accepted = refl },
    (
      record { few = omega arith; shallow = omega arith; light = omega arith },
      (
        record { utf8 = refl; bounded = omega arith; no_nul = refl },
        (
          record {
            in_range = refl;
            significant = inr (λ e. absurd (omega (arith, e)));
            bounded = omega arith;
          },
          (
            record { in_range = refl; positive = omega arith; in_u64 = omega arith; lowest = refl },
            (omega arith, tt),
          ),
        ),
      ),
    ),
    tt,
  ),
)

decode-encode_example : decode ascii sample_bytes ≡ ok sample
decode-encode_example = decode-encode ascii sample sample_bytes sample-IsValid encode-sample

encode-framed_example : Outcome (framed ascii sample) (encode sample)
encode-framed_example = encode-framed ascii sample sample-IsValid

-- A boolean.
abbrev stored_true : Bytes
stored_true = 80 ∷ 80 ∷ 77 ∷ 86 ∷ 1 ∷ 5 ∷ 1 ∷ []

decode-decided_example :
    ((v : MetadataValue) × (decode ascii stored_true ≡ ok v) × IsValid ascii v)
    ⊎ ((e : Error) × (decode ascii stored_true ≡ err e) × (e.kind ≡ storage))
decode-decided_example = decode-decided ascii stored_true (
  omega arith,
  (omega arith, (omega arith, (omega arith, (omega arith, (omega arith, (omega arith, tt)))))),
)

decode-true : decode ascii stored_true ≡ ok (Value.bool true)
unfolding decode decode_header decode_value decode_tagged read_unsigned read_exact tag_of bool_of
    number_of eq_bytes
decode-true = refl

decode-trailing :
    decode ascii (stored_true ++ 0 ∷ []) ≡ fail storage "metadata encoding contains trailing bytes"
unfolding decode decode_header decode_value decode_tagged read_unsigned read_exact tag_of bool_of
    number_of eq_bytes
decode-trailing = refl

-- A fraction that is not in lowest terms is accepted, and read in lowest terms.
decode-unreduced :
    decode ascii (80 ∷ 80 ∷ 77 ∷ 86 ∷ 1 ∷ 9 ∷ be_bytes 8 6 ++ be_bytes 8 4)
    ≡ ok (Value.rational (record { numerator = pos 3; denominator = 2 }))
unfolding decode decode_header decode_value decode_tagged read_unsigned read_signed read_exact
    tag_of number_of eq_bytes rational_value greatest_common_divisor be_bytes
decode-unreduced = refl
