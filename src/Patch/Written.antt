-- ===== src/Patch/Written.antt =====
-- What is written is read back.
use zhongshu.Prelude.{
  ℕ, Bool, true, false, [], ◌∷◌, Option, some, ok, ltb, length, any, ◌≡◌, refl, ◌∙◌, arith,
}
use zhongshu.Prelude.Codes.{Codes, starts_with}
use zhongshu.Permission.Paths.{FilePath, path_eq}
use zhongshu.Permission.Entries.{component_eq_self}
use zhongshu.Patch.Types.{TextEncoding, utf8, utf8_bom, utf16_le}
use zhongshu.Patch.Replace.{drop}
use zhongshu.Patch.Encoding.{Codec, has_zero, detect_encoding, decode_text, detect_ending, encode}
use zhongshu.Patch.Endings.{HasEndings, with_endings-HasEndings}
use zhongshu.Patch.Engine.{
  FileSnapshot, PatchPreview, Disk, PatchEngine, put, snapshot_of, read_snapshot, written,
  remember_snapshot, apply_preview,
}

-- The text can be told from binary data, and its encoding from the bytes.
abbrev pub IsPlain : TextEncoding → Codes → Type 0
IsPlain utf8 s = (has_zero s ≡ false) × (starts_with s (65279 ∷ []) ≡ false)
IsPlain utf8_bom s = has_zero s ≡ false
IsPlain utf16_le s = ⊥

module _ (codec : Codec) where
  encode_zero :
      (encoding : TextEncoding) (s : Codes)
      → IsPlain encoding s
      → has_zero (encode codec encoding s) ≡ false
  unfolding encode any
  encode_zero utf8 s h = codec.zero_utf8 s ∙ h.0
  encode_zero utf8_bom s h = codec.zero_utf8 s ∙ h
  encode_zero utf16_le s h = absurd h

  detect-encode :
      (encoding : TextEncoding) (s : Codes)
      → IsPlain encoding s
      → detect_encoding (encode codec encoding s) ≡ encoding
  unfolding encode detect_encoding
  detect-encode utf8 s h = ground (arith, codec.bom_utf8 s, h.1, codec.no_bom_16 s)
  detect-encode utf8_bom s h = unfold starts_with in refl
  detect-encode utf16_le s h = absurd h

  decode-encode :
      (encoding : TextEncoding) (s : Codes)
      → IsPlain encoding s
      → decode_text codec (encode codec encoding s) encoding ≡ some s
  unfolding encode decode_text drop
  decode-encode utf8 s h = codec.from_to_utf8 s
  decode-encode utf8_bom s h = codec.from_to_utf8 s
  decode-encode utf16_le s h = absurd h

path_eq_self : (p : FilePath) → path_eq p p ≡ true
unfolding path_eq
path_eq_self [] = refl
path_eq_self (c ∷ p) = ground (arith, component_eq_self c, path_eq_self p)

module _ (codec : Codec) (components : Codes → FilePath) (is_unc : Codes → Bool) where
  snapshot_of_written :
      (limit : ℕ) (path : FilePath) (encoding : TextEncoding) (s : Codes)
      → IsPlain encoding s
      → ltb limit (length (encode codec encoding s)) ≡ false
      → snapshot_of codec components is_unc limit path (encode codec encoding s)
        ≡ ok (record {
          path = path;
          content = s;
          encoding = encoding;
          line_ending = detect_ending s;
        })
  unfolding snapshot_of
  snapshot_of_written limit path encoding s plain small =
      rw
        (
          small,
          encode_zero codec encoding s plain,
          detect-encode codec encoding s plain,
          decode-encode codec encoding s plain,
        )
        refl

  -- What the file of a preview is read as, where this text is written.
  abbrev pub read_back : PatchPreview → Codes → FileSnapshot
  read_back preview text = record {
    path = preview.path;
    content = text;
    encoding = preview.encoding;
    line_ending = detect_ending text;
  }

  put_self {ℓ} :
      {A : Type ℓ} (path : FilePath) (a : A) (entries : FilePath → Option A)
      → put path a entries path ≡ some a
  unfolding put
  put_self path a entries = rw (path_eq_self path) refl

  reads_after :
      (preview : PatchPreview) (text : Codes) (limit : ℕ) (disk : Disk)
      → HasEndings preview.line_ending preview.updated_content text
      → IsPlain preview.encoding text
      → ltb limit (length (encode codec preview.encoding text)) ≡ false
      → read_snapshot codec components is_unc limit
          (record disk {
            file = put preview.path (written codec components is_unc preview) disk.file;
          })
          preview.path
        ≡ ok (read_back preview text)
  unfolding read_snapshot written
  reads_after preview text limit disk ends plain small =
      rw
        (
          with_endings-HasEndings preview.line_ending preview.updated_content text ends,
          put_self preview.path (encode codec preview.encoding text) disk.file,
        )
        (snapshot_of_written limit preview.path preview.encoding text plain small)

  -- A file that can be written, and that is UTF-8 with or without its mark, and the text of the preview
  -- with its ends of lines as they are to be: for a file that has pairs of a carriage return and a line
  -- feed only, such a pair for each line feed with or without a carriage return before it; for another
  -- file as they are. If this text has no zero character, does not begin with the mark where none is
  -- written, and is not too large, then `apply_preview` answers it, and remembers it as read, with the
  -- encoding of the preview.
  pub apply_preview_reads :
      (preview : PatchPreview) (text : Codes) (engine : PatchEngine) (disk : Disk)
      → HasEndings preview.line_ending preview.updated_content text
      → disk.can_write preview.path ≡ true
      → IsPlain preview.encoding text
      → ltb engine.max_file_bytes (length (encode codec preview.encoding text)) ≡ false
      → ((apply_preview codec components is_unc preview engine disk).0.0
          ≡ ok (read_back preview text))
        × ((apply_preview codec components is_unc preview engine disk).0.1.reads preview.path
            ≡ some (read_back preview text))
  unfolding apply_preview remember_snapshot
  apply_preview_reads preview text engine disk ends may_write plain small =
      rw (may_write, reads_after preview text engine.max_file_bytes disk ends plain small)
        (refl, put_self preview.path (read_back preview text) engine.reads)
