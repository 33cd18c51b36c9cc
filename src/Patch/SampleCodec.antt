-- ===== src/Patch/SampleCodec.antt =====
-- An encoding of texts as bytes that keeps what is promised of UTF-8, for the examples.
use zhongshu.Prelude.{
  ℕ, false, [], ◌∷◌, ◌++◌, Option, none, some, if◌then◌else◌, ltb, any, eqb, ◌≡◌, refl, ap, ◌∙◌,
  arith,
}
use zhongshu.Prelude.Codes.{Codes, starts_with}
use zhongshu.Patch.Encoding.{Bytes, Codec, bom, has_zero}

-- The mark is three bytes, other characters from 128 on are two, the others one.
unfoldable pub encode_char : ℕ → Bytes
encode_char c = if eqb c 65279 then bom else if ltb c 128 then c ∷ [] else (200 ∷ c ∷ [])

unfoldable pub encode_all : Codes → Bytes
encode_all [] = []
encode_all (c ∷ s) = encode_char c ++ encode_all s

abbrev pub and_then : ℕ → Option Codes → Option Codes
and_then c none = none
and_then c (some s) = some (c ∷ s)

-- Where in a character the decoder is.
pub data Place : Type 0 where
  at_start in_two in_mark at_end_of_mark : Place

unfoldable pub decode_from : Place → Bytes → Option Codes
decode_from at_start [] = some []
decode_from at_start (b ∷ bytes) =
    let plain = decode_from at_start bytes in
    let two = decode_from in_two bytes in
    let mark = decode_from in_mark bytes in
    if ltb b 128
    then and_then b plain
    else if eqb b 200
    then two
    else if eqb b 239
    then mark
    else none
decode_from in_two [] = none
decode_from in_two (b ∷ bytes) = and_then b (decode_from at_start bytes)
decode_from in_mark [] = none
decode_from in_mark (b ∷ bytes) = decode_from at_end_of_mark bytes
decode_from at_end_of_mark [] = none
decode_from at_end_of_mark (b ∷ bytes) = and_then 65279 (decode_from at_start bytes)

decode_char :
    (c : ℕ) (bytes : Bytes)
    → decode_from at_start (encode_char c ++ bytes) ≡ and_then c (decode_from at_start bytes)
unfolding decode_from encode_char
decode_char c bytes = ground arith

pub decode_all : (s : Codes) → decode_from at_start (encode_all s) ≡ some s
unfolding encode_all decode_from
decode_all [] = refl
decode_all (c ∷ s) =
    unfold encode_all in (decode_char c (encode_all s) ∙ ap (and_then c) (decode_all s))

pub zero_all : (s : Codes) → has_zero (encode_all s) ≡ has_zero s
unfolding encode_all encode_char any
zero_all [] = refl
zero_all (c ∷ s) = ground (arith, zero_all s)

pub no_mark_16 : (s : Codes) → starts_with (encode_all s) (255 ∷ 254 ∷ []) ≡ false
unfolding encode_all encode_char starts_with
no_mark_16 [] = refl
no_mark_16 (c ∷ s) = ground arith

pub mark_all : (s : Codes) → starts_with (encode_all s) bom ≡ starts_with s (65279 ∷ [])
unfolding encode_all encode_char starts_with
mark_all [] = refl
mark_all (c ∷ s) = ground arith

abbrev pub sample_codec : Codec
sample_codec = record {
  from_utf8 = decode_from at_start;
  to_utf8 = encode_all;
  from_utf16 = some;
  to_utf16_bytes = λ s. s;
  from_to_utf8 = decode_all;
  zero_utf8 = zero_all;
  no_bom_16 = no_mark_16;
  bom_utf8 = mark_all;
}
