-- ===== src/Cleanse/MultiLine/Rounds.antt =====
-- The searches of `RemoveMultiLineComments`, and one round of its loop.
use csci.Prelude.{
  ℕ, zero, suc, ◌+◌, ◌-◌, ◌≤◌, ◌<◌, ◌≡◌, refl, ap, ◌⊎◌, inl, inr, Bool, true, false, List, [], ◌∷◌,
  ◌++◌, arith, Text, text, length, drop, Bool-cases,
}
use csci.Report.{Report}
use csci.Cleanse.MultiLine.{
  opens_comment, closes_comment, find_line, find_next_multi_line_comment_start,
  find_next_multi_line_comment_end, remove_multi_line_comments_from_range, remove_from,
  comment_round, finished, again,
}
-- The lines with every comment that is closed blanked out, from the line that opens it to the first one
-- that closes it; the flag says that such a comment is open. From a comment that is never closed on, the
-- lines stay.
use csci.Cleanse.MultiLine.Blanked.{NonePasses, blanks}

-- Where the search stops: at the end, or at the first line that passes the test.
abbrev pub Stops : (Text → Bool) → List Text → ℕ → Type 0
Stops p lines k =
    (NonePasses p lines × (k ≡ length lines))
    ⊎ ((skipped : List Text) × (line : Text) × (rest : List Text) × (lines ≡ skipped ++ line ∷ rest)
        × NonePasses p skipped
        × (p line ≡ true)
        × (k ≡ length skipped))

pub find_line-Stops :
    (p : Text → Bool) (lines : List Text) (n : ℕ)
    → (k : ℕ) × (find_line p lines n ≡ n + k) × Stops p lines k
unfolding find_line
find_line-Stops p [] n = (0, omega arith, inl (tt, refl))
find_line-Stops p (line ∷ lines) n = elim (Bool-cases (p line)) [
  | inl e ↦ (0, rw (e, find_line) (omega arith), inr ([], line, lines, refl, tt, e, refl))
  | inr e ↦
      let (k, q, s) = find_line-Stops p lines (n + 1) in
      (suc k, rw (e, find_line) (omega arith), later e s)
]
  where
    later : {k : ℕ} → p line ≡ false → Stops p lines k → Stops p (line ∷ lines) (suc k)
    later e (inl (h, q)) = inl ((e, h), ap suc q)
    later e (inr (skipped, l, rest, q, h, t, r)) =
        inr (line ∷ skipped, l, rest, ap (λ ls. line ∷ ls) q, (e, h), t, ap suc r)

pub drop-length : (done rest : List Text) → drop (length done) (done ++ rest) ≡ rest
drop-length [] rest = refl
drop-length (l ∷ done) rest = drop-length done rest

pub remove_range-append :
    (done body rest : List Text) (n m : ℕ)
    → n ≡ length done
    → m ≡ length done + length body
    → remove_multi_line_comments_from_range (done ++ (body ++ rest)) n m
      ≡ done ++ (blanks body ++ rest)
unfolding remove_multi_line_comments_from_range
remove_range-append [] [] [] zero zero p q = refl
remove_range-append [] [] (l ∷ rest) zero zero p q = refl
remove_range-append [] [] rest zero (suc m) p q = absurd (omega arith)
remove_range-append [] (l ∷ body) rest zero zero p q = absurd (omega arith)
remove_range-append [] (l ∷ body) rest zero (suc m) p q =
    ap (λ ls. text "/**/" ∷ ls)
      (remove_range-append [] body rest zero m (omega arith) (omega arith))
remove_range-append [] body rest (suc n) m p q = absurd (omega arith)
remove_range-append (d ∷ done) body rest zero m p q = absurd (omega arith)
remove_range-append (d ∷ done) body rest (suc n) m p q =
    ap (λ ls. d ∷ ls) (remove_range-append done body rest n (m - 1) (omega arith) (omega arith))

module _ (fuel : ℕ) (lines : List Text) (lineix begin end : ℕ)
    (start : find_next_multi_line_comment_start lines lineix ≡ begin)
    (stop : find_next_multi_line_comment_end lines begin ≡ end) where
  pub round_finished :
      (out : List Text) (reports : List Report)
      → comment_round lines begin end ≡ finished out reports
      → remove_from (suc fuel) lines lineix ≡ (out, reports)
  unfolding remove_from
  round_finished out reports e = rw (start, remove_from, stop, e)

  pub round_again :
      (next : List Text) (n : ℕ)
      → comment_round lines begin end ≡ again next n
      → remove_from (suc fuel) lines lineix ≡ remove_from fuel next n
  unfolding remove_from
  round_again next n e = rw (start, remove_from, stop, e)

pub search_start :
    (done rest : List Text)
    → (k : ℕ) × (find_next_multi_line_comment_start (done ++ rest) (length done) ≡ length done + k)
      × Stops opens_comment rest k
unfolding find_next_multi_line_comment_start
search_start done rest =
    rw (drop-length done rest) (find_line-Stops opens_comment rest (length done))

pub search_end :
    (done rest : List Text)
    → (k : ℕ) × (find_next_multi_line_comment_end (done ++ rest) (length done) ≡ length done + k)
      × Stops closes_comment rest k
unfolding find_next_multi_line_comment_end
search_end done rest =
    rw (drop-length done rest) (find_line-Stops closes_comment rest (length done))

module _ (lines : List Text) (begin end : ℕ) where
  pub round_at_end : length lines ≤ begin → comment_round lines begin end ≡ finished lines []
  unfolding comment_round
  round_at_end h = ground arith

  pub round_open :
      begin < length lines
      → length lines ≤ end
      → (r : Report) × (comment_round lines begin end ≡ finished lines (r ∷ []))
  unfolding comment_round
  round_open h k = (
    record {
      linenum = begin + 1;
      category = text "readability/multiline_comment";
      confidence = 5;
      message = text "Could not find end of multi-line comment";
    },
    ground arith,
  )

  pub round_closed :
      begin < length lines
      → end < length lines
      → comment_round lines begin end
        ≡ again (remove_multi_line_comments_from_range lines begin (end + 1)) (end + 1)
  unfolding comment_round
  round_closed h k = ground arith
