-- ===== src/Mlock/Reading.antt =====
-- The two readers of the locked memory in /proc/self/status (crates/duende-mlock/src/unix.rs and
-- crates/duende-platform/src/memory.rs) on the kernel's line for it.
use duende.Prelude.{
  ℕ, ◌*◌, ◌<◌, ◌≡◌, refl, sym, ap, ◌∙◌, true, none, some, List, [], ◌∷◌, ◌++◌, All, ltb, wrap64,
  u64_mod, arith,
}
use mathlib.Core.Path.{subst}
use mathlib.Core.List.{append_assoc}
use duende.Prelude.Text.{
  chars, trim, trim_start, trim_end, strip_prefix, strip_suffix, is_whitespace, split_from,
  split_whitespace, put_word,
}
use duende.Prelude.Text.Splitting.{split_from-word, put_word-word}
use duende.Prelude.Text.Lines.{unlines, IsLine, lines_from-unlines}
use duende.Prelude.Decimal.{to_string, parse, digit_head, parse-to_string}
use duende.Prelude.Text.Trimming.{
  IsBlank, IsDecimal, ink_lem, print-IsDecimal, IsDecimal-IsInk, IsDecimal-Plain, trim_start-blank,
  trim_end-ink, strip_suffix-append, trim-IsInk,
}
use duende.Mlock.System.{System, kilobytes, locked_in, locked_bytes, is_locked}
use duende.Platform.Memory
use duende.Platform.Memory.{second_number, is_memory_locked}

-- The kernel's line: the name, white space, and the number of kilobytes with its unit.
abbrev pub vm_line : List ℕ → ℕ → List ℕ
vm_line blanks kb = chars "VmLck:" ++ (blanks ++ (to_string kb ++ chars " kB"))

vm_value :
    (blanks : List ℕ) (kb : ℕ)
    → strip_prefix (chars "VmLck:") (vm_line blanks kb)
      ≡ some (blanks ++ (to_string kb ++ chars " kB"))
unfolding strip_prefix
vm_value blanks kb = refl

decimal : (kb : ℕ) → IsDecimal (to_string kb)
decimal kb = print-IsDecimal 20 kb

trim-value :
    (blanks : List ℕ) (kb : ℕ)
    → IsBlank blanks
    → trim (blanks ++ (to_string kb ++ chars " kB")) ≡ to_string kb ++ chars " kB"
trim-value blanks kb h =
    let (c, cs, e, low) = digit_head 19 kb in
    let digits : IsDecimal (c ∷ cs) = subst (λ (t : List ℕ). IsDecimal t) e (decimal kb) in
    let started : trim_start (blanks ++ (to_string kb ++ chars " kB"))
        ≡ to_string kb ++ chars " kB" =
      rw e (trim_start-blank blanks c (cs ++ chars " kB") h (ink_lem c digits.0.0 digits.0.1)) in
    let last : to_string kb ++ chars " kB" ≡ (to_string kb ++ chars " k") ++ chars "B" =
      sym (append_assoc (to_string kb) (chars " k") (chars "B")) in
    ap trim_end started
    ∙ ap trim_end last
    ∙ trim_end-ink (to_string kb ++ chars " k") 66 (unfold is_whitespace in refl)
    ∙ sym last

kilobytes-value :
    (kb : ℕ)
    → kb < u64_mod
    → kilobytes (strip_suffix (chars " kB") (to_string kb ++ chars " kB")) ≡ some kb
kilobytes-value kb h =
    let ink = IsDecimal-IsInk (to_string kb) (decimal kb) in
    ap kilobytes (strip_suffix-append (chars "kB") (to_string kb) ink)
    ∙ ap (parse u64_mod) (trim-IsInk (to_string kb) ink)
    ∙ parse-to_string u64_mod kb h (omega arith)

locked_in_found :
    (l rest : List ℕ) (kb : ℕ) (after : List (List ℕ))
    → strip_prefix (chars "VmLck:") l ≡ some rest
    → kilobytes (strip_suffix (chars " kB") (trim rest)) ≡ some kb
    → locked_in (l ∷ after) ≡ wrap64 (kb * 1024)
unfolding locked_in
locked_in_found l rest kb after e k = rw (e, locked_in) (rw k refl)

words_in_found :
    (l rest : List ℕ) (kb : ℕ) (after : List (List ℕ))
    → strip_prefix (chars "VmLck:") l ≡ some rest
    → second_number (split_whitespace l) ≡ some kb
    → Memory.locked_in (l ∷ after) ≡ ltb 0 kb
unfolding Memory.locked_in
words_in_found l rest kb after e k = rw (e, Memory.locked_in) (rw k refl)

locked_in-vm_line :
    (blanks : List ℕ) (kb : ℕ) (after : List (List ℕ))
    → IsBlank blanks
    → kb < u64_mod
    → locked_in (vm_line blanks kb ∷ after) ≡ wrap64 (kb * 1024)
locked_in-vm_line blanks kb after h low =
    locked_in_found (vm_line blanks kb) (blanks ++ (to_string kb ++ chars " kB")) kb after
      (vm_value blanks kb)
      (ap (λ (t : List ℕ). kilobytes (strip_suffix (chars " kB") t)) (trim-value blanks kb h)
        ∙ kilobytes-value kb low)

split_from-blanks :
    (blanks rest : List ℕ) → IsBlank blanks → split_from [] (blanks ++ rest) ≡ split_from [] rest
unfolding split_from
split_from-blanks [] rest h = refl
split_from-blanks (b ∷ bs) rest h = rw (h.0, split_from) (split_from-blanks bs rest h.1)

split_from-gap :
    (begun rest : List ℕ) (b : ℕ)
    → is_whitespace b ≡ true
    → split_from begun (b ∷ rest) ≡ put_word begun (split_from [] rest)
unfolding split_from
split_from-gap begun rest b h = rw (h, split_from) refl

words-vm_line :
    (b : ℕ) (blanks : List ℕ) (kb : ℕ)
    → IsBlank (b ∷ blanks)
    → split_whitespace (vm_line (b ∷ blanks) kb)
      ≡ chars "VmLck:" ∷ to_string kb ∷ split_from [] (chars "kB")
unfolding split_whitespace
words-vm_line b blanks kb h =
    let (c, cs, e, low) = digit_head 19 kb in
    let plain = IsDecimal-Plain (to_string kb) (decimal kb) in
    let number : split_from [] (to_string kb ++ chars " kB")
        ≡ to_string kb ∷ split_from [] (chars "kB") =
      split_from-word [] (to_string kb) (chars " kB") plain
      ∙ split_from-gap (to_string kb) (chars "kB") 32 (unfold is_whitespace in refl)
      ∙ put_word-word (to_string kb) (split_from [] (chars "kB")) (λ empty. cc (sym e ∙ empty)) in
    split_from-word [] (chars "VmLck:") (b ∷ (blanks ++ (to_string kb ++ chars " kB")))
      (unfold is_whitespace in ground arith)
    ∙ split_from-gap (chars "VmLck:") (blanks ++ (to_string kb ++ chars " kB")) b h.0
    ∙ ap (λ (t : List (List ℕ)). chars "VmLck:" ∷ t)
        (split_from-blanks blanks (to_string kb ++ chars " kB") h.1 ∙ number)

words_in-vm_line :
    (b : ℕ) (blanks : List ℕ) (kb : ℕ) (after : List (List ℕ))
    → IsBlank (b ∷ blanks)
    → kb < u64_mod
    → Memory.locked_in (vm_line (b ∷ blanks) kb ∷ after) ≡ ltb 0 kb
words_in-vm_line b blanks kb after h low =
    words_in_found (vm_line (b ∷ blanks) kb) (b ∷ (blanks ++ (to_string kb ++ chars " kB"))) kb
      after (vm_value (b ∷ blanks) kb)
      (ap second_number (words-vm_line b blanks kb h)
        ∙ parse-to_string u64_mod kb low (omega arith))

-- The lines before have another name.
abbrev pub IsOther : List ℕ → Type 0
IsOther l = strip_prefix (chars "VmLck:") l ≡ none

locked_in-skip :
    (before after : List (List ℕ))
    → All IsOther before
    → locked_in (before ++ after) ≡ locked_in after
unfolding locked_in
locked_in-skip [] after h = refl
locked_in-skip (l ∷ ls) after h = rw (h.0, locked_in) (locked_in-skip ls after h.1)

words_in-skip :
    (before after : List (List ℕ))
    → All IsOther before
    → Memory.locked_in (before ++ after) ≡ Memory.locked_in after
unfolding Memory.locked_in
words_in-skip [] after h = refl
words_in-skip (l ∷ ls) after h = rw (h.0, Memory.locked_in) (words_in-skip ls after h.1)

module _ (y : System) where
  -- Where /proc/self/status has lines, and the first of the name VmLck gives a number of kilobytes below
  -- 2^54 after white space, the library's reader gives that number times 1024, and the library and the
  -- platform crate, which reads the words of the line, agree on whether memory is locked: it is
  -- exactly if the number is above 0.
  pub locked_bytes-vm_line :
      (s : y.State) (before after : List (List ℕ)) (b : ℕ) (blanks : List ℕ) (kb : ℕ)
      → y.own_status s ≡ some (unlines (before ++ (vm_line (b ∷ blanks) kb ∷ after)))
      → All IsLine (before ++ (vm_line (b ∷ blanks) kb ∷ after))
      → All IsOther before
      → IsBlank (b ∷ blanks)
      → kb < 18014398509481984
      → (locked_bytes y s ≡ kb * 1024)
        × (is_locked y s ≡ ltb 0 kb)
        × (is_memory_locked y s ≡ ltb 0 kb)
  unfolding locked_bytes is_memory_locked
  locked_bytes-vm_line s before after b blanks kb e h others blank low =
      let lines = before ++ (vm_line (b ∷ blanks) kb ∷ after) in
      let small : wrap64 (kb * 1024) ≡ kb * 1024 = ground arith in
      let bytes : locked_bytes y s ≡ kb * 1024 =
        rw (e, locked_bytes)
          (ap locked_in (lines_from-unlines lines h)
            ∙ locked_in-skip before (vm_line (b ∷ blanks) kb ∷ after) others
            ∙ locked_in-vm_line (b ∷ blanks) kb after blank (omega arith)
            ∙ small) in
      let positive : ltb 0 (kb * 1024) ≡ ltb 0 kb = ground arith in
      (
        bytes,
        ap (ltb 0) bytes ∙ positive,
        rw (e, is_memory_locked)
            (ap Memory.locked_in (lines_from-unlines lines h)
              ∙ words_in-skip before (vm_line (b ∷ blanks) kb ∷ after) others
              ∙ words_in-vm_line b blanks kb after blank (omega arith)),
      )
