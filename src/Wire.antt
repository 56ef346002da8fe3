-- ===== src/Wire.antt =====
-- infrastructure/protowire/protowire.go: the decoder of flat protobuf messages. Bytes are numbers below
-- 256, and a position in a buffer is the list of the bytes from there on.
pub mod Decode
pub mod RoundTrip
use codeburn_watcher.Prelude.{
  ℕ, zero, suc, ◌+◌, ◌*◌, ◌/◌, ◌%◌, ◌^◌, Bool, true, false, ◌&&◌, Option, none, some, List, [], ◌∷◌,
  ◌++◌, length, take, drop, if◌then◌else◌, nat_beq, ltb, leb,
}

abbrev pub wire_varint : ℕ
wire_varint = 0

abbrev pub wire_fixed64 : ℕ
wire_fixed64 = 1

abbrev pub wire2 : ℕ
wire2 = 2

abbrev pub wire_fixed32 : ℕ
wire_fixed32 = 5

pub record Field : Type 0 where
  pub number : ℕ
  pub type : ℕ
  pub bytes : List ℕ
  pub int : ℕ

-- binary.Uvarint: byte `i` of a number, of weight `p` = 2 ^ (7 * i), after the bytes that make `x`. The
-- groups do not overlap, so that `|` is a sum; the eleventh byte, and a tenth byte above 1, overflow.
unfoldable pub uvarint_loop : ℕ → ℕ → ℕ → List ℕ → Option (ℕ × List ℕ)
uvarint_loop i p x [] = none
uvarint_loop i p x (b ∷ bs) =
    let more = uvarint_loop (i + 1) (128 * p) (x + b % 128 * p) bs in
    if nat_beq i 10
    then none
    else if ltb b 128
    then (if nat_beq i 9 && ltb 1 b then none else some (x + b * p, bs))
    else more

-- ReadVarint: the number and the bytes behind it; `none` is the error.
unfoldable pub read_varint : List ℕ → Option (ℕ × List ℕ)
unfolding uvarint_loop
read_varint buf = uvarint_loop 0 1 0 buf

-- What DecodeMessage does. `panicked` is the run-time panic of `make` at a length out of range; `stuck` is
-- no behaviour of the code: the model's fuel ran out.
pub data Decoded : Type 0 where
  done : List Field → Decoded
  panicked : Decoded
  stuck : Decoded

-- What a round of the loop does: goes on with a field or with none behind the rest, returns the fields
-- so far, or panics.
pub data Round : Type 0 where
  emit : Field → List ℕ → Round
  skip : List ℕ → Round
  finish : Round
  crash : Round

-- binary.LittleEndian.Uint64
abbrev pub little_endian : List ℕ → ℕ
little_endian [] = 0
little_endian (b ∷ bs) = b + 256 * little_endian bs

abbrev pub varint_field : ℕ → ℕ → Field
varint_field n v = record { number = n; type = wire_varint; bytes = []; int = v }

abbrev pub fixed64_field : ℕ → ℕ → Field
fixed64_field n v = record { number = n; type = wire_fixed64; bytes = []; int = v }

abbrev pub bytes_field : ℕ → List ℕ → Field
bytes_field n l = record { number = n; type = wire2; bytes = l; int = 0 }

-- int(l) > len(buf)-pos on 64-bit integers: from 2 ^ 63 on int(l) is negative, and the test fails.
abbrev pub is_past_end : ℕ → List ℕ → Bool
is_past_end l rest = ltb l (2 ^ 63) && ltb (length rest) l

-- The case of a length-delimited field, behind its length.
unfoldable pub decode_bytes : ℕ → ℕ → List ℕ → Round
decode_bytes n l rest =
    if is_past_end l rest
    then finish
    else if ltb l (2 ^ 63)
    then emit (bytes_field n (take l rest)) (drop l rest)
    else crash

-- The switch on the wire type.
unfoldable pub decode_value : ℕ → ℕ → List ℕ → Round
unfolding decode_bytes
decode_value n wire_type rest =
    if nat_beq wire_type wire_varint
    then elim (read_varint rest) [ none ↦ finish | some (v, rest') ↦ emit (varint_field n v) rest' ]
    else if nat_beq wire_type wire_fixed64
    then (if ltb (length rest) 8
        then finish
        else emit (fixed64_field n (little_endian (take 8 rest))) (drop 8 rest))
    else if nat_beq wire_type wire2
    then elim (read_varint rest) [ none ↦ finish | some (l, rest') ↦ decode_bytes n l rest' ]
    else if nat_beq wire_type wire_fixed32
    then (if ltb (length rest) 4 then finish else skip (drop 4 rest))
    else finish

-- A round of the loop, at a position inside the buffer: uint32(tag >> 3) and int(tag & 0x7).
unfoldable pub decode_round : List ℕ → Round
unfolding decode_value
decode_round buf = elim (read_varint buf) [
  | none ↦ finish
  | some (tag, rest) ↦ decode_value (tag / 8 % 2 ^ 32) (tag % 8) rest
]

unfoldable pub decode_loop : ℕ → List Field → List ℕ → Decoded
decode_loop fuel fields [] = done fields
decode_loop zero fields (b ∷ bs) = stuck
decode_loop (suc fuel) fields (b ∷ bs) = elim (decode_round (b ∷ bs)) [
  | emit f rest ↦ decode_loop fuel (fields ++ (f ∷ [])) rest
  | skip rest ↦ decode_loop fuel fields rest
  | finish ↦ done fields
  | crash ↦ panicked
]

-- Each round takes a byte at least, so that as many rounds as bytes are enough.
unfoldable pub decode_message : List ℕ → Decoded
decode_message buf = decode_loop (length buf) [] buf

-- The lookups: the first field of that number and wire type.
unfoldable pub find_field : ℕ → ℕ → List Field → Option Field
find_field num type [] = none
find_field num type (f ∷ fs) =
    if nat_beq f.number num && nat_beq f.type type then some f else find_field num type fs

unfoldable pub int_field : List Field → ℕ → Option ℕ
unfolding find_field
int_field fields num = elim (find_field num wire_varint fields) [
  | none ↦ none
  | some f ↦ some f.int
]

unfoldable pub str_field : List Field → ℕ → Option (List ℕ)
unfolding find_field
str_field fields num = elim (find_field num wire2 fields) [ none ↦ none | some f ↦ some f.bytes ]

unfoldable pub msg_field : List Field → ℕ → Option (List ℕ)
unfolding find_field
msg_field fields num = elim (find_field num wire2 fields) [ none ↦ none | some f ↦ some f.bytes ]
