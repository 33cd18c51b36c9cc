-- ===== src/Patch/Replace.antt =====
-- zhongshu-core/src/patch/mod.rs: `apply_replace` and `apply_multi_replace`.
use zhongshu.Prelude.{
  ℕ, zero, suc, not, ◌&&◌, List, [], ◌∷◌, ◌++◌, Result, ok, err, ◌>>=◌, fold_result, length, eqb,
  ltb, if◌then◌else◌,
}
use zhongshu.Prelude.Codes.{Codes, same, starts_with, is_nothing}
use zhongshu.Patch.Types.{
  ReplaceRequest, ReplaceEdit, PatchError, empty_old_text, empty_patch, no_op, text_not_found,
  ambiguous_match,
}

unfoldable pub drop : ℕ → Codes → Codes
drop zero s = s
drop (suc n) [] = []
drop (suc n) (c ∷ s) = drop n s

-- The length of a text, less one: what is left of a match after its first character.
unfoldable pub rest_length : Codes → ℕ
rest_length [] = 0
rest_length (c ∷ p) = length p

-- `matches(p).count()` for a text that is not empty; `skip` characters belong to the last match.
unfoldable pub count_matches : Codes → ℕ → Codes → ℕ
unfolding rest_length
count_matches p skip [] = 0
count_matches p (suc skip) (c ∷ s) = count_matches p skip s
count_matches p zero (c ∷ s) =
    let after = count_matches p (rest_length p) s in
    let other = count_matches p zero s in if starts_with (c ∷ s) p then suc after else other

-- `replace`.
unfoldable pub replace_text : Codes → Codes → ℕ → Codes → Codes
unfolding rest_length
replace_text p r skip [] = []
replace_text p r (suc skip) (c ∷ s) = replace_text p r skip s
replace_text p r zero (c ∷ s) =
    let after = replace_text p r (rest_length p) s in
    let other = replace_text p r zero s in if starts_with (c ∷ s) p then r ++ after else (c ∷ other)

-- `replacen` with the number 1.
unfoldable pub replace_first : Codes → Codes → Codes → Codes
replace_first p r [] = []
replace_first p r (c ∷ s) =
    let other = replace_first p r s in
    if starts_with (c ∷ s) p then r ++ drop (length p) (c ∷ s) else (c ∷ other)

-- A text, unless it is the one that was there.
unfoldable pub changed_text : Codes → Codes → Result PatchError Codes
changed_text content updated = if same updated content then err no_op else ok updated

unfoldable pub replace_matches : Codes → ReplaceRequest → Result PatchError Codes
replace_matches content request =
    let matches = count_matches request.old_text 0 content in
    if eqb matches 0
    then err text_not_found
    else if ltb 1 matches && not request.replace_all
    then err (ambiguous_match matches)
    else changed_text content (
        if request.replace_all
        then replace_text request.old_text request.new_text 0 content
        else replace_first request.old_text request.new_text content)

unfoldable pub apply_replace : Codes → ReplaceRequest → Result PatchError Codes
apply_replace content request =
    if is_nothing request.old_text
    then err empty_old_text
    else if same request.old_text request.new_text
    then err no_op
    else replace_matches content request

abbrev pub edit_request : ReplaceEdit → ReplaceRequest
edit_request edit = record {
  path = [];
  old_text = edit.old_text;
  new_text = edit.new_text;
  replace_all = edit.replace_all;
}

unfoldable pub apply_multi_replace : Codes → List ReplaceEdit → Result PatchError Codes
apply_multi_replace content edits =
    if is_nothing edits
    then err empty_patch
    else (fold_result (λ text edit. apply_replace text (edit_request edit)) content edits
        >>= changed_text content)
