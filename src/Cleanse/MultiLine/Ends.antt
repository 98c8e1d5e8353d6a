-- ===== src/Cleanse/MultiLine/Ends.antt =====
-- `RemoveMultiLineComments` against its reference.
use csci.Prelude.{
  ℕ, zero, suc, ◌+◌, ◌<◌, ◌≡◌, refl, ap, ap₂, sym, ◌∙◌, inl, inr, true, false, List, [], ◌∷◌, ◌++◌,
  append_assoc, arith, Text, length, length-append,
}
use csci.Report.{Report}
use csci.Cleanse.MultiLine.{
  opens_comment, closes_comment, find_next_multi_line_comment_start,
  find_next_multi_line_comment_end, remove_multi_line_comments_from_range, remove_from,
  remove_multi_line_comments,
}
use csci.Cleanse.MultiLine.Blanked.{
  blanked, unterminated, NonePasses, blanks, blanked_skip, unterminated_skip, Comment,
  blanked-Comment, blanked_open_end, blanked_none, blanks-snoc, length-blanks, reported,
}
use csci.Cleanse.MultiLine.Rounds.{
  Stops, remove_range-append, search_start, search_end, round_at_end, round_open, round_closed,
  round_finished, round_again,
}

-- What the loop makes of the lines from `rest` on.
abbrev Result : List Text → List Text → List Text × List Report → Type 0
Result done rest out =
    (out.0 ≡ done ++ blanked false rest) × (reported out.1 ≡ unterminated false rest)

-- The rest of the loop, behind a comment that has been blanked out.
abbrev Continues : ℕ → Type 0
Continues fuel =
    (done rest : List Text)
    → length rest < fuel
    → Result done rest (remove_from fuel (done ++ rest) (length done))

module _ (fuel : ℕ) (pre : List Text) (line : Text) (tail : List Text) (n : ℕ)
    (start : find_next_multi_line_comment_start (pre ++ line ∷ tail) n ≡ length pre)
    (opens : opens_comment line ≡ true) where
  open_end-Result :
      (k : ℕ)
      → find_next_multi_line_comment_end (pre ++ line ∷ tail) (length pre) ≡ length pre + k
      → NonePasses closes_comment (line ∷ tail)
      → k ≡ length (line ∷ tail)
      → Result pre (line ∷ tail) (remove_from (suc fuel) (pre ++ line ∷ tail) n)
  open_end-Result k e h q =
      let lines = pre ++ line ∷ tail in
      let (r, f) =
        round_open lines (length pre) (length pre + k)
          (omega (arith, length-append {0} pre (line ∷ tail)))
          (omega (arith, length-append {0} pre (line ∷ tail))) in
      let (b, u) = blanked_open_end line opens tail h in
      let step =
        round_finished fuel lines n (length pre) (length pre + k) start e lines (r ∷ []) f in
      (
        ap (λ (o : List Text × List Report). o.0) step ∙ ap (λ ls. pre ++ ls) (sym b),
        ap (λ (o : List Text × List Report). reported o.1) step ∙ sym u,
      )

  closed-Result :
      (k : ℕ) (body : List Text) (close : Text) (rest : List Text)
      → find_next_multi_line_comment_end (pre ++ line ∷ tail) (length pre) ≡ length pre + k
      → Comment line tail body close rest
      → k ≡ length body
      → length tail < fuel
      → Continues fuel
      → Result pre (line ∷ tail) (remove_from (suc fuel) (pre ++ line ∷ tail) n)
  closed-Result k body close rest e (split, h, c) q lt on =
      let lines = pre ++ line ∷ tail in
      let next = pre ++ blanks (body ++ close ∷ []) in
      let size : length (line ∷ tail) ≡ length body + suc (length rest) =
        ap length split ∙ length-append body (close ∷ rest) in
      let step = round_again fuel lines n (length pre) (length pre + k) start e _ _ (
        round_closed lines (length pre) (length pre + k)
          (omega (arith, length-append {0} pre (line ∷ tail)))
          (omega (arith, length-append {0} pre (line ∷ tail)))) in
      let removed : remove_multi_line_comments_from_range lines (length pre) (length pre + k + 1)
          ≡ next ++ rest =
        ap
          (λ ls.
            remove_multi_line_comments_from_range (pre ++ ls) (length pre) (length pre + k + 1))
          (split ∙ sym (append_assoc body (close ∷ []) rest))
        ∙ (remove_range-append pre (body ++ close ∷ []) rest (length pre) (length pre + k + 1) refl
              (omega (arith, length-append {0} body (close ∷ [])))
            ∙ sym (append_assoc pre (blanks (body ++ close ∷ [])) rest)) in
      let index : length pre + k + 1 ≡ length next = omega (
        arith,
        length-append {0} pre (blanks (body ++ close ∷ [])),
        length-blanks (body ++ close ∷ []),
        length-append {0} body (close ∷ []),
      ) in
      let (b, u) = blanked-Comment line opens tail body close rest (split, h, c) in
      let (r, p) = on next rest (omega arith) in
      let whole = step ∙ ap₂ (remove_from fuel) removed index in
      (
        ap (λ (o : List Text × List Report). o.0) whole
            ∙ (r
                ∙ (append_assoc pre (blanks (body ++ close ∷ [])) (blanked false rest)
                    ∙ ap (λ ls. pre ++ ls) (blanks-snoc body close (blanked false rest) ∙ sym b))),
        ap (λ (o : List Text × List Report). reported o.1) whole ∙ (p ∙ sym u),
      )

  opened-Result :
      length tail < fuel
      → Continues fuel
      → Result pre (line ∷ tail) (remove_from (suc fuel) (pre ++ line ∷ tail) n)
  opened-Result lt on = let (k, e, s) = search_end pre (line ∷ tail) in by_end k e s
    where
      by_end :
          (k : ℕ)
          → find_next_multi_line_comment_end (pre ++ line ∷ tail) (length pre) ≡ length pre + k
          → Stops closes_comment (line ∷ tail) k
          → Result pre (line ∷ tail) (remove_from (suc fuel) (pre ++ line ∷ tail) n)
      by_end k e (inl (h, q)) = open_end-Result k e h q
      by_end k e (inr (body, close, rest, split, h, c, q)) =
          closed-Result k body close rest e (split, h, c) q lt on

none_open-Result :
    (fuel : ℕ) (done rest : List Text) (k : ℕ)
    → find_next_multi_line_comment_start (done ++ rest) (length done) ≡ length done + k
    → NonePasses opens_comment rest
    → k ≡ length rest
    → Result done rest (remove_from (suc fuel) (done ++ rest) (length done))
none_open-Result fuel done rest k e h q =
    let lines = done ++ rest in
    let (b, u) = blanked_none rest h in
    let step =
      round_finished fuel lines (length done) (length done + k) _ e refl lines []
        (round_at_end lines (length done + k) _ (omega (arith, length-append {0} done rest))) in
    (
      ap (λ (o : List Text × List Report). o.0) step ∙ ap (λ ls. done ++ ls) (sym b),
      ap (λ (o : List Text × List Report). reported o.1) step ∙ sym u,
    )

some_open-Result :
    (fuel : ℕ) (done rest skipped : List Text) (line : Text) (tail : List Text) (k : ℕ)
    → find_next_multi_line_comment_start (done ++ rest) (length done) ≡ length done + k
    → rest ≡ skipped ++ line ∷ tail
    → NonePasses opens_comment skipped
    → opens_comment line ≡ true
    → k ≡ length skipped
    → length rest < suc fuel
    → Continues fuel
    → Result done rest (remove_from (suc fuel) (done ++ rest) (length done))
some_open-Result fuel done rest skipped line tail k e split h opens q lt on =
    let pre = done ++ skipped in
    let same : done ++ rest ≡ pre ++ line ∷ tail =
      ap (λ ls. done ++ ls) split ∙ sym (append_assoc done skipped (line ∷ tail)) in
    let start : find_next_multi_line_comment_start (pre ++ line ∷ tail) (length done) ≡ length pre =
      ap (λ ls. find_next_multi_line_comment_start ls (length done)) (sym same)
      ∙ (e ∙ omega (arith, length-append {0} done skipped)) in
    let shorter : length tail < fuel =
      omega (arith, ap length split, length-append {0} skipped (line ∷ tail)) in
    let (b, u) = opened-Result fuel pre line tail (length done) start opens shorter on in
    let moved = ap (λ ls. remove_from (suc fuel) ls (length done)) same in
    (
      ap (λ (o : List Text × List Report). o.0) moved
          ∙ (b
              ∙ (append_assoc done skipped (blanked false (line ∷ tail))
                  ∙ ap (λ ls. done ++ ls)
                      (sym (blanked_skip skipped (line ∷ tail) h)
                        ∙ ap (blanked false) (sym split)))),
      ap (λ (o : List Text × List Report). reported o.1) moved
          ∙ (u
              ∙ (sym (unterminated_skip skipped (line ∷ tail) h)
                  ∙ ap (unterminated false) (sym split))),
    )

remove_from-Result : (fuel : ℕ) → Continues fuel
remove_from-Result zero done rest lt = absurd (omega arith)
remove_from-Result (suc fuel) done rest lt =
    let (k, e, s) = search_start done rest in by_start (remove_from-Result fuel) k e s
  where
    by_start :
        Continues fuel
        → (k : ℕ)
        → find_next_multi_line_comment_start (done ++ rest) (length done) ≡ length done + k
        → Stops opens_comment rest k
        → Result done rest (remove_from (suc fuel) (done ++ rest) (length done))
    by_start on k e (inl (h, q)) = none_open-Result fuel done rest k e h q
    by_start on k e (inr (skipped, line, tail, split, h, opens, q)) =
        some_open-Result fuel done rest skipped line tail k e split h opens q lt on

-- `RemoveMultiLineComments` blanks out exactly the comments that are closed, each from the line that opens
-- it to the first line that closes it, keeps every other line, and reports if and only if a comment is
-- never closed.
pub remove_multi_line_comments_lem :
    (lines : List Text)
    → ((remove_multi_line_comments lines).0 ≡ blanked false lines)
      × (reported (remove_multi_line_comments lines).1 ≡ unterminated false lines)
unfolding remove_multi_line_comments
remove_multi_line_comments_lem lines = remove_from-Result (length lines + 1) [] lines (omega arith)
