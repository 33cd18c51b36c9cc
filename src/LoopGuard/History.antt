-- ===== src/LoopGuard/History.antt =====
-- What the guard knows after any calls.
use zhongshu.Prelude.{
  String, ℕ, ◌+◌, ◌≤◌, ◌<◌, Bool, true, false, List, [], ◌∷◌, if◌then◌else◌, length, length-append,
  ◌≡◌, refl, arith,
}
use zhongshu.LoopGuard.Guard.{
  ToolCallFingerprint, ToolLoopState, HarnessAction, block_tool_call, is_same, pop_front, remember,
  count_of_call, count_call, bump, check_duplicate, verdict,
}

abbrev pub is_block : HarnessAction → Bool
is_block (block_tool_call feedback) = true
is_block _ = false

bump_small : (n : ℕ) → n + 1 < 4294967296 → bump n ≡ n + 1
unfolding bump
bump_small n h = omega (arith, h)

is_same_refl : (fp : ToolCallFingerprint) → is_same fp fp ≡ true
unfolding is_same
is_same_refl fp = ground arith

is_same_cong : (a b c : ToolCallFingerprint) → is_same a b ≡ true → is_same a c ≡ is_same b c
unfolding is_same
is_same_cong a b c e = ground (arith, e)

is_same_other : (a b c : ToolCallFingerprint) → is_same b c ≡ true → is_same a c ≡ is_same a b
unfolding is_same
is_same_other a b c e = ground (arith, e)

count_call-eq :
    (fp q : ToolCallFingerprint) (counts : List (ToolCallFingerprint × ℕ))
    → count_of_call q (count_call fp counts)
      ≡ (if is_same fp q then bump (count_of_call q counts) else count_of_call q counts)
unfolding count_of_call count_call
count_call-eq fp q [] = ground arith
count_call-eq fp q (entry ∷ counts) =
    let (c, n) = entry in
    ground (arith, count_call-eq fp q counts, is_same_cong c fp q, is_same_other c fp q)

remember-length :
    (fp : ToolCallFingerprint) (calls : List ToolCallFingerprint)
    → length calls ≤ 20
    → length (remember fp calls) ≤ 20
unfolding remember pop_front
remember-length fp [] h = ground arith
remember-length fp (c ∷ calls) h = ground (arith, h, length-append calls (fp ∷ []))

module _ (show_consecutive show_total : ℕ → String → String) where
  abbrev pub guard : ToolCallFingerprint → ToolLoopState → HarnessAction × ToolLoopState
  guard fp state = check_duplicate show_consecutive show_total fp.tool_name fp.args_hash state

  -- The state after some calls, the latest first.
  pub after : List ToolCallFingerprint → ToolLoopState
  after [] = record { recent_calls = []; counts = [] }
  after (fp ∷ calls) = (guard fp (after calls)).1

  pub occurrences : ToolCallFingerprint → List ToolCallFingerprint → ℕ
  occurrences fp [] = 0
  occurrences fp (c ∷ calls) =
      if is_same c fp then occurrences fp calls + 1 else occurrences fp calls

  occurrences-length :
      (fp : ToolCallFingerprint) (calls : List ToolCallFingerprint)
      → occurrences fp calls ≤ length calls
  unfolding occurrences
  occurrences-length fp [] = omega arith
  occurrences-length fp (c ∷ calls) = ground (arith, occurrences-length fp calls)

  after-counts :
      (fp : ToolCallFingerprint) (calls : List ToolCallFingerprint)
      → length calls < 4294967296
      → count_of_call fp (after calls).counts ≡ occurrences fp calls
  unfolding after occurrences check_duplicate
  after-counts fp [] h = unfold count_of_call in refl
  after-counts fp (c ∷ calls) h = ground (
    arith,
    h,
    count_call-eq c fp (after calls).counts,
    bump_small (occurrences fp calls),
    after-counts fp calls,
    occurrences-length fp calls,
  )

  after-length : (calls : List ToolCallFingerprint) → length (after calls).recent_calls ≤ 20
  unfolding after check_duplicate
  after-length [] = omega arith
  after-length (c ∷ calls) = remember-length c (after calls).recent_calls (after-length calls)

  -- After fewer calls than a `u32` can count, whatever they are: the guard remembers 20 calls at most, and
  -- it blocks every call that has been made four times before.
  pub fifth_call_blocked :
      (fp : ToolCallFingerprint) (calls : List ToolCallFingerprint)
      → length calls + 1 < 4294967296
      → (length (after calls).recent_calls ≤ 20)
        × (4 ≤ occurrences fp calls → is_block (guard fp (after calls)).0 ≡ true)
  unfolding check_duplicate verdict
  fifth_call_blocked fp calls h = (
    after-length calls,
    λ often. ground (
      arith,
      often,
      h,
      is_same_refl fp,
      count_call-eq fp fp (after calls).counts,
      bump_small (occurrences fp calls),
      after-counts fp calls,
      occurrences-length fp calls,
    ),
  )
