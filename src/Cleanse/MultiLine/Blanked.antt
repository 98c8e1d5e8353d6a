-- ===== src/Cleanse/MultiLine/Blanked.antt =====
-- The reference for `RemoveMultiLineComments`: one pass over the lines, with no index in it.
use csci.Prelude.{
  suc, ◌≡◌, refl, ap, ◌∙◌, Bool, true, false, not, List, [], ◌∷◌, ◌++◌, arith, Text, text,
  if◌then◌else◌, length, any, All,
}
use csci.Report.{Report}
use csci.Cleanse.MultiLine.{opens_comment, closes_comment}

-- The lines with every comment that is closed blanked out, from the line that opens it to the first one
-- that closes it; the flag says that such a comment is open. From a comment that is never closed on, the
-- lines stay.

abbrev pub blanked : Bool → List Text → List Text
blanked open_comment [] = []
blanked true (line ∷ lines) = text "/**/" ∷ blanked (not (closes_comment line)) lines
blanked false (line ∷ lines) =
    if opens_comment line
    then (if any closes_comment (line ∷ lines)
        then text "/**/" ∷ blanked (not (closes_comment line)) lines
        else line ∷ lines)
    else line ∷ blanked false lines

-- Some comment is never closed.
abbrev pub unterminated : Bool → List Text → Bool
unterminated open_comment [] = false
unterminated true (line ∷ lines) = unterminated (not (closes_comment line)) lines
unterminated false (line ∷ lines) =
    if opens_comment line
    then (if any closes_comment (line ∷ lines)
        then unterminated (not (closes_comment line)) lines
        else true)
    else unterminated false lines

abbrev pub NonePasses : (Text → Bool) → List Text → Type 0
NonePasses p = All (λ line. p line ≡ false)

pub any-none : (p : Text → Bool) (lines : List Text) → NonePasses p lines → any p lines ≡ false
any-none p [] h = refl
any-none p (line ∷ lines) (e, h) = rw (e, any-none p lines h)

pub any-some :
    (p : Text → Bool) (skipped : List Text) (line : Text) (rest : List Text)
    → p line ≡ true
    → any p (skipped ++ line ∷ rest) ≡ true
any-some p [] line rest e = rw e
any-some p (l ∷ skipped) line rest e = rw (any-some p skipped line rest e) (ground arith)

-- As many blanks as there are lines.
abbrev pub blanks : List Text → List Text
blanks [] = []
blanks (l ∷ lines) = text "/**/" ∷ blanks lines

pub blanked_skip :
    (skipped rest : List Text)
    → NonePasses opens_comment skipped
    → blanked false (skipped ++ rest) ≡ skipped ++ blanked false rest
blanked_skip [] rest h = refl
blanked_skip (l ∷ skipped) rest (e, h) = rw (e, blanked_skip skipped rest h)

pub blanked_body :
    (body : List Text) (line : Text) (rest : List Text)
    → NonePasses closes_comment body
    → closes_comment line ≡ true
    → blanked true (body ++ line ∷ rest) ≡ blanks body ++ text "/**/" ∷ blanked false rest
blanked_body [] line rest h e = rw e
blanked_body (l ∷ body) line rest (q, h) e = rw (q, blanked_body body line rest h e)

pub unterminated_skip :
    (skipped rest : List Text)
    → NonePasses opens_comment skipped
    → unterminated false (skipped ++ rest) ≡ unterminated false rest
unterminated_skip [] rest h = refl
unterminated_skip (l ∷ skipped) rest (e, h) = rw (e, unterminated_skip skipped rest h)

pub unterminated_body :
    (body : List Text) (line : Text) (rest : List Text)
    → NonePasses closes_comment body
    → closes_comment line ≡ true
    → unterminated true (body ++ line ∷ rest) ≡ unterminated false rest
unterminated_body [] line rest h e = rw (e, unterminated)
unterminated_body (l ∷ body) line rest (q, h) e =
    rw (q, unterminated) (unterminated_body body line rest h e)

-- The comment that `line` opens and `close` closes.
abbrev pub Comment : Text → List Text → List Text → Text → List Text → Type 0
Comment line tail body close rest =
    (line ∷ tail ≡ body ++ close ∷ rest)
    × NonePasses closes_comment body
    × (closes_comment close ≡ true)

module _ (line : Text) (opens : opens_comment line ≡ true) where
  pub blanked-Comment :
      (tail body : List Text) (close : Text) (rest : List Text)
      → Comment line tail body close rest
      → (blanked false (line ∷ tail) ≡ blanks body ++ text "/**/" ∷ blanked false rest)
        × (unterminated false (line ∷ tail) ≡ unterminated false rest)
  blanked-Comment tail body close rest (e, h, c) =
      let some_closes : any closes_comment (line ∷ tail) ≡ true =
        ap (any closes_comment) e ∙ any-some closes_comment body close rest c in
      (
        rw (opens, blanked, some_closes) (blanked_from body e h),
        rw (opens, unterminated, some_closes) (unterminated_from body e h),
      )
    where
      blanked_from :
          (body : List Text)
          → line ∷ tail ≡ body ++ close ∷ rest
          → NonePasses closes_comment body
          → text "/**/" ∷ blanked (not (closes_comment line)) tail
            ≡ blanks body ++ text "/**/" ∷ blanked false rest
      blanked_from [] e h =
          let same : line ≡ close = cc in
          let rest_same : tail ≡ rest = cc in rw (same, c, rest_same)
      blanked_from (b ∷ body) e (q, h) =
          let same : line ≡ b = cc in
          let tail_same : tail ≡ body ++ close ∷ rest = cc in
          rw (same, q, tail_same, blanked_body body close rest h c)

      unterminated_from :
          (body : List Text)
          → line ∷ tail ≡ body ++ close ∷ rest
          → NonePasses closes_comment body
          → unterminated (not (closes_comment line)) tail ≡ unterminated false rest
      unterminated_from [] e h =
          let same : line ≡ close = cc in
          let rest_same : tail ≡ rest = cc in rw (same, c, rest_same)
      unterminated_from (b ∷ body) e (q, h) =
          let same : line ≡ b = cc in
          let tail_same : tail ≡ body ++ close ∷ rest = cc in
          rw (same, q, tail_same, unterminated_body body close rest h c)

  pub blanked_open_end :
      (tail : List Text)
      → NonePasses closes_comment (line ∷ tail)
      → (blanked false (line ∷ tail) ≡ line ∷ tail) × (unterminated false (line ∷ tail) ≡ true)
  blanked_open_end tail h =
      let none_closes = any-none closes_comment (line ∷ tail) h in
      (rw (opens, blanked, none_closes), rw (opens, unterminated, none_closes))

-- There is a report.
abbrev pub reported : List Report → Bool
reported [] = false
reported (r ∷ rs) = true

pub blanked_none :
    (lines : List Text)
    → NonePasses opens_comment lines
    → (blanked false lines ≡ lines) × (unterminated false lines ≡ false)
blanked_none [] h = (refl, refl)
blanked_none (l ∷ lines) (e, h) =
    let (b, u) = blanked_none lines h in (rw (e, blanked, b), rw (e, unterminated) u)

pub blanks-snoc :
    (body : List Text) (close : Text) (rest : List Text)
    → blanks (body ++ close ∷ []) ++ rest ≡ blanks body ++ text "/**/" ∷ rest
blanks-snoc [] close rest = refl
blanks-snoc (l ∷ body) close rest = ap (λ ls. text "/**/" ∷ ls) (blanks-snoc body close rest)

pub length-blanks : (lines : List Text) → length (blanks lines) ≡ length lines
length-blanks [] = refl
length-blanks (l ∷ lines) = ap suc (length-blanks lines)
