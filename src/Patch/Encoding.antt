-- ===== src/Patch/Encoding.antt =====
-- zhongshu-core/src/patch/mod.rs: encodings and line endings. UTF-8 and UTF-16 are those of the standard
-- library: its functions are the fields of a record, with what it promises of UTF-8.
use zhongshu.Prelude.{
  ℕ, zero, suc, ◌+◌, ◌-◌, ◌*◌, Bool, false, List, [], ◌∷◌, ◌++◌, Option, none, some, if◌then◌else◌,
  eqb, any, ◌≡◌,
}
use zhongshu.Prelude.Codes.{Codes, starts_with}
use zhongshu.Patch.Types.{
  TextEncoding, utf8, utf8_bom, utf16_le, LineEnding, lf, crlf, mixed, no_ending,
}
use zhongshu.Patch.Replace.{drop, count_matches, replace_text}

abbrev pub Bytes : Type 0
Bytes = List ℕ

abbrev pub has_zero : List ℕ → Bool
has_zero s = any (λ c. eqb c 0) s

abbrev pub bom : Bytes
bom = 239 ∷ 187 ∷ 191 ∷ []

abbrev pub bom_16 : Bytes
bom_16 = 255 ∷ 254 ∷ []

pub record Codec : Type 0 where
  pub from_utf8 : Bytes → Option Codes
  pub to_utf8 : Codes → Bytes
  pub from_utf16 : List ℕ → Option Codes
  -- the units of the text, least significant byte first
  pub to_utf16_bytes : Codes → Bytes
  pub from_to_utf8 : (s : Codes) → from_utf8 (to_utf8 s) ≡ some s
  pub zero_utf8 : (s : Codes) → has_zero (to_utf8 s) ≡ has_zero s
  pub no_bom_16 : (s : Codes) → starts_with (to_utf8 s) bom_16 ≡ false
  pub bom_utf8 : (s : Codes) → starts_with (to_utf8 s) bom ≡ starts_with s (65279 ∷ [])

unfoldable pub detect_encoding : Bytes → TextEncoding
unfolding starts_with
detect_encoding bytes =
    if starts_with bytes bom then utf8_bom else if starts_with bytes bom_16 then utf16_le else utf8

-- The 16-bit units of an even number of bytes.
unfoldable pub units : Bytes → Option (List ℕ)
units [] = some []
units (low ∷ []) = none
units (low ∷ high ∷ bytes) = elim (units bytes) [
  | none ↦ none
  | some us ↦ some ((low + high * 256) ∷ us)
]

unfoldable pub skip_bom_16 : Bytes → Bytes
skip_bom_16 bytes = if starts_with bytes bom_16 then drop 2 bytes else bytes

unfoldable pub decode_text : Codec → Bytes → TextEncoding → Option Codes
decode_text codec bytes utf8 = codec.from_utf8 bytes
decode_text codec bytes utf8_bom = codec.from_utf8 (drop 3 bytes)
decode_text codec bytes utf16_le = elim (units (skip_bom_16 bytes)) [
  | none ↦ none
  | some us ↦ codec.from_utf16 us
]

-- The `match` of `detect`.
unfoldable pub ending_of : ℕ → ℕ → LineEnding
ending_of zero zero = no_ending
ending_of zero (suc n) = lf
ending_of (suc n) zero = crlf
ending_of (suc n) (suc m) = mixed

-- `LineEnding::detect`.
unfoldable pub detect_ending : Codes → LineEnding
detect_ending content =
    let crlfs = count_matches (13 ∷ 10 ∷ []) 0 content in
    ending_of crlfs (count_matches (10 ∷ []) 0 content - crlfs)

-- What `write_text_preserving` makes of the line endings.
unfoldable pub with_endings : LineEnding → Codes → Codes
with_endings crlf content =
    replace_text (10 ∷ []) (13 ∷ 10 ∷ []) 0 (replace_text (13 ∷ 10 ∷ []) (10 ∷ []) 0 content)
with_endings _ content = content

unfoldable pub encode : Codec → TextEncoding → Codes → Bytes
encode codec utf8 content = codec.to_utf8 content
encode codec utf8_bom content = bom ++ codec.to_utf8 content
encode codec utf16_le content = bom_16 ++ codec.to_utf16_bytes content
