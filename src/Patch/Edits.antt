-- ===== src/Patch/Edits.antt =====
-- What `apply_replace` and `apply_multi_replace` do to a text.
use zhongshu.Prelude.{
  ◌≤◌, true, false, not, ◌&&◌, List, [], ◌∷◌, ok, Result-cases, fold_result, fold_result-first,
  length, eqb, ltb, if◌then◌else◌, ◌≡◌, refl, sym, ap, subst, ◌∙◌, arith, inl, inr, Bool-cases,
}
use zhongshu.Prelude.Codes.{Codes, same, is_nothing, join}
use zhongshu.Patch.Types.{ReplaceRequest, ReplaceEdit}
use zhongshu.Patch.Replace.{
  drop, count_matches, replace_text, replace_first, changed_text, replace_matches, apply_replace,
  edit_request, apply_multi_replace,
}
use zhongshu.Patch.Cuts.{Cuts, pieces_of-Cuts_all}
use zhongshu.Patch.Pieces.{
  pieces_of, join-pieces_of, replace_text-pieces_of, length-pieces_of, replace_first_lem,
}

same_self : (s : Codes) → same s s ≡ true
unfolding same
same_self [] = refl
same_self (c ∷ s) = ground (arith, same_self s)

-- The text is cut at the matches of the old text, of which there is one at least, and only one unless all
-- are to be replaced; it becomes the pieces with the new text between them, and is another text then.
pub record Replaced (request : ReplaceRequest) (content updated : Codes) : Type 0 where
  pub pieces : List Codes
  pub cuts : Cuts request.old_text content pieces
  pub before : content ≡ join request.old_text pieces
  pub after : updated ≡ join request.new_text pieces
  pub some_match : 2 ≤ length pieces
  pub one_match : request.replace_all ≡ false → length pieces ≡ 2
  pub differs : ¬ (updated ≡ content)

changed_text_ok : (content u v : Codes) → changed_text content u ≡ ok v → (u ≡ v) × ¬ (u ≡ content)
unfolding changed_text
changed_text_ok content u v h = elim (Bool-cases (same u content)) [
  | inl e ↦ absurd (ground (arith, h, e))
  | inr e ↦
      (ground (arith, h, e), λ q. ground (arith, e, same_self content, ap (λ t. same t content) q))
]

module _ (request : ReplaceRequest) (content updated : Codes)
    (full : is_nothing request.old_text ≡ false)
    (counts : eqb (count_matches request.old_text 0 content) 0 ≡ false)
    (one : (ltb 1 (count_matches request.old_text 0 content) && not request.replace_all)
      ≡ false) where
  replacement :
      (if request.replace_all
        then replace_text request.old_text request.new_text 0 content
        else replace_first request.old_text request.new_text content)
      ≡ replace_text request.old_text request.new_text 0 content
  replacement = elim (Bool-cases request.replace_all) [
    | inl e ↦ rw e refl
    | inr e ↦ rw e (
        replace_first_lem request.old_text request.new_text content full
          (ground (arith, counts, one, e)))
  ]

  replace_matches-Replaced :
      replace_matches content request ≡ ok updated → Replaced request content updated
  unfolding replace_matches
  replace_matches-Replaced h =
      let old = request.old_text in
      let chosen : Codes =
        if request.replace_all
        then replace_text old request.new_text 0 content
        else replace_first old request.new_text content in
      let done : changed_text content chosen ≡ ok updated = rw (counts, one) at h in
      let (e, differs) = changed_text_ok content chosen updated done in
      let l = length-pieces_of old 0 content in
      record {
        pieces = pieces_of old 0 content;
        cuts = pieces_of-Cuts_all old full content;
        before = sym (join-pieces_of old full 0 content ∙ unfold drop in refl);
        after = sym e ∙ replacement ∙ replace_text-pieces_of old request.new_text 0 content;
        some_match = ground (arith, l, counts);
        one_match = λ once. ground (arith, l, counts, one, once);
        differs = λ q. differs (e ∙ q);
      }

pub apply_replace-Replaced :
    (request : ReplaceRequest) (content updated : Codes)
    → apply_replace content request ≡ ok updated
    → Replaced request content updated
unfolding apply_replace
apply_replace-Replaced request content updated h =
    let matches = count_matches request.old_text 0 content in
    elim (Bool-cases (is_nothing request.old_text)) [
      | inl e ↦ absurd (ground (arith, h, e))
      | inr full ↦ elim (Bool-cases (same request.old_text request.new_text)) [
        | inl e ↦ absurd (ground (arith, h, full, e))
        | inr other ↦
            let g : replace_matches content request ≡ ok updated = rw (full, other) at h in
            elim (Bool-cases (eqb matches 0)) [
              | inl e ↦ absurd (unfold replace_matches in ground (arith, g, e))
              | inr counts ↦ elim (Bool-cases (ltb 1 matches && not request.replace_all)) [
                | inl e ↦ absurd (unfold replace_matches in ground (arith, g, counts, e))
                | inr one ↦ replace_matches-Replaced request content updated full counts one g
              ]
            ]
      ]
    ]

-- One replacement after the other.
pub data EditedBy : List ReplaceEdit → Codes → Codes → Type 0 where
  none_left : {s : Codes} → EditedBy [] s s
  edit_first :
      {edit : ReplaceEdit} {edits : List ReplaceEdit} {s t u : Codes}
      → Replaced (edit_request edit) s t
      → EditedBy edits t u
      → EditedBy (edit ∷ edits) s u

edits-EditedBy :
    (edits : List ReplaceEdit) (content updated : Codes)
    → fold_result (λ text edit. apply_replace text (edit_request edit)) content edits ≡ ok updated
    → EditedBy edits content updated
unfolding fold_result
edits-EditedBy [] content updated h = subst (EditedBy [] content) (ground (arith, h)) none_left
edits-EditedBy (edit ∷ edits) content updated h =
    let (t, e, rest) =
      fold_result-first (λ text edit. apply_replace text (edit_request edit)) content updated edit
        edits h in
    edit_first (apply_replace-Replaced (edit_request edit) content t e)
      (edits-EditedBy edits t updated rest)

-- If `apply_multi_replace` gives a text, then there is an edit, and the edits have been made one after the
-- other. Each cuts the text at the matches of its old text, from the left, without overlaps and so that
-- no piece has a match, and puts its new text between the pieces; there is a match, and there is only
-- one where not all are to be replaced. No edit, nor all of them together, has left the text as it was.
pub apply_multi_replace-EditedBy :
    (content updated : Codes) (edits : List ReplaceEdit)
    → apply_multi_replace content edits ≡ ok updated
    → EditedBy edits content updated × (1 ≤ length edits) × ¬ (updated ≡ content)
unfolding apply_multi_replace
apply_multi_replace-EditedBy content updated [] h = absurd (unfold is_nothing in ground (arith, h))
apply_multi_replace-EditedBy content updated (edit ∷ edits) h =
    elim (Result-cases
      (fold_result (λ text x. apply_replace text (edit_request x)) content (edit ∷ edits))) [
        | inr (e, f) ↦ absurd (unfold is_nothing in ground (arith, h, f))
        | inl (t, f) ↦
            let (e, differs) =
              changed_text_ok content t updated (unfold is_nothing in (rw f at h)) in
            (
              edits-EditedBy (edit ∷ edits) content updated (f ∙ ap ok e),
              omega arith,
              λ q. differs (e ∙ q),
            )
      ]
