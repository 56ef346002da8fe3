-- ===== src/Tests/WireRuns.antt =====
-- The theorems on infrastructure/protowire at a concrete input.
use mathlib.Core.Path.{◌≡◌, refl}
use mathlib.Core.Logic.{◌≢◌}
use codeburn_watcher.Prelude.{ℕ, some, List, [], ◌∷◌, arith, map}
use codeburn_watcher.Wire.{decode_message, done, stuck, read_varint, uvarint_loop}
use codeburn_watcher.Wire.Decode.{decode_message-ne-stuck}
use codeburn_watcher.Wire.RoundTrip.{
  Value, varint, fixed64, bytes, encode_message, field_of, decode_message-encode,
}

abbrev fields : List (ℕ × Value)
fields = (1, varint 300) ∷ (2, bytes (7 ∷ 8 ∷ 9 ∷ [])) ∷ (3, fixed64 1_000_000_007) ∷ []

decode_message-encode_example : decode_message (encode_message fields) ≡ done (map field_of fields)
decode_message-encode_example = decode_message-encode fields (ground arith)

decode_message-ne-stuck_example : decode_message (10 ∷ 200 ∷ 1 ∷ []) ≢ stuck
decode_message-ne-stuck_example = decode_message-ne-stuck (10 ∷ 200 ∷ 1 ∷ [])

-- The length 2 ^ 63.
abbrev long : List ℕ
long = 128 ∷ 128 ∷ 128 ∷ 128 ∷ 128 ∷ 128 ∷ 128 ∷ 128 ∷ 128 ∷ 1 ∷ []

read_tag : read_varint (10 ∷ long) ≡ some (10, long)
unfolding read_varint uvarint_loop
read_tag = refl

read_long : read_varint long ≡ some (9_223_372_036_854_775_808, [])
unfolding read_varint uvarint_loop
read_long = refl
