-- ===== src/Message/Divergence.antt =====
-- What `append` answers: the first block that has changed.
use zhongshu.Prelude.{
  ℕ, zero, suc, ◌≤◌, true, false, List, [], ◌∷◌, ◌++◌, if◌then◌else◌, length, ◌≡◌, refl, sym, ap,
  ◌∙◌, subst, ◌⊎◌, inl, inr, arith, Bool-cases, holds,
}
use zhongshu.Prelude.Codes.{Codes, trim, is_nothing, drop_spaces, reverse_onto}
use zhongshu.Message.Block.{MessageBlock, MessageBlock-discrete}
use zhongshu.Message.Filter.{feed}
use zhongshu.Message.Stream.{StreamingMessage, find_divergence, min, sync, append_cleaned, append}

-- The blocks below the index are the same, and at the index they differ, or a list ends there.
abbrev pub FirstChange : ℕ → List MessageBlock → List MessageBlock → Type 0
FirstChange zero [] new = Unit
FirstChange zero (b ∷ old) [] = Unit
FirstChange zero (b ∷ old) (c ∷ new) = ¬ (b ≡ c)
FirstChange (suc i) [] new = ⊥
FirstChange (suc i) (b ∷ old) [] = ⊥
FirstChange (suc i) (b ∷ old) (c ∷ new) = (b ≡ c) × FirstChange i old new

find_divergence-FirstChange :
    (old new : List MessageBlock)
    → FirstChange (find_divergence old new) old new × (find_divergence old new ≤ length new)
unfolding find_divergence
find_divergence-FirstChange [] new = (tt, omega arith)
find_divergence-FirstChange (b ∷ old) [] = (tt, omega arith)
find_divergence-FirstChange (b ∷ old) (c ∷ new) =
    elim (MessageBlock-discrete b c)
      as (λ d.
        FirstChange (if holds d then suc (find_divergence old new) else 0) (b ∷ old) (c ∷ new)
        × ((if holds d then suc (find_divergence old new) else 0) ≤ length (c ∷ new))) [
          | yes e ↦ let (f, l) = find_divergence-FirstChange old new in ((e, f), omega (arith, l))
          | no n ↦ (n, omega arith)
        ]

trim_full : (s : Codes) → is_nothing (trim s) ≡ false → is_nothing s ≡ false
unfolding trim is_nothing drop_spaces reverse_onto
trim_full [] h = h
trim_full (c ∷ s) h = refl

append_full : (s t : Codes) → is_nothing t ≡ false → is_nothing (s ++ t) ≡ false
unfolding is_nothing
append_full [] t h = h
append_full (c ∷ s) t h = refl

module _ (lower : ℕ → Codes) (parse : Codes → List MessageBlock) where
  -- Only white space came through, and it is left out; or the text is appended, and the answer is the
  -- first block that differs.
  abbrev pub Appends : Codes → StreamingMessage → ℕ × StreamingMessage → Type 0
  Appends cleaned m result =
      ((is_nothing (trim cleaned) ≡ true)
        × (result.1.buffer ≡ m.buffer)
        × (result.1.blocks ≡ m.blocks)
        × (result.0 ≡ length m.blocks))
      ⊎ ((result.1.buffer ≡ m.buffer ++ cleaned)
          × (result.1.blocks ≡ parse result.1.buffer)
          × FirstChange result.0 m.blocks result.1.blocks)

  sync_full :
      (m : StreamingMessage)
      → is_nothing m.buffer ≡ false
      → ((sync lower parse m).1.blocks ≡ parse m.buffer)
        × ((sync lower parse m).1.buffer ≡ m.buffer)
        × ((sync lower parse m).0 ≡ find_divergence m.blocks (parse m.buffer))
  unfolding sync min
  sync_full m h =
      rw h (refl, refl, ground (arith, (find_divergence-FirstChange m.blocks (parse m.buffer)).1))

  append_cleaned-Appends :
      (cleaned : Codes) (m : StreamingMessage)
      → Appends cleaned m (append_cleaned lower parse cleaned m)
  unfolding append_cleaned
  append_cleaned-Appends cleaned m = elim (Bool-cases (is_nothing (trim cleaned))) [
    | inl e ↦ rw e (inl (refl, refl, refl, refl))
    | inr e ↦
        let next : StreamingMessage = record m { buffer = m.buffer ++ cleaned } in
        let (b, u, i) = sync_full next (append_full m.buffer cleaned (trim_full cleaned e)) in
        let fresh = parse (m.buffer ++ cleaned) in
        let found = find_divergence m.blocks fresh in
        let change = (find_divergence-FirstChange m.blocks fresh).0 in
        rw e (
          inr (
            u,
            b ∙ ap parse (sym u),
            subst (λ k. FirstChange k m.blocks (sync lower parse next).1.blocks) (sym i)
                (subst (λ l. FirstChange found m.blocks l) (sym b) change),
          ))
  ]

  -- A call of `append`. If the filter lets only white space through, buffer and blocks stay as they are,
  -- so that the white space is lost, and the answer is the number of blocks. Else the text is appended,
  -- the blocks are those of the whole buffer, and the answer is the first index at which the blocks
  -- have changed: those below it are as they were, and at it they differ, or one of the lists ends.
  pub append_changes :
      (delta : Codes) (m : StreamingMessage)
      → Appends (feed lower m.pending delta).0 m (append lower parse delta m)
  unfolding append
  append_changes delta m =
      append_cleaned-Appends (feed lower m.pending delta).0
        (record m { pending = (feed lower m.pending delta).1 })
