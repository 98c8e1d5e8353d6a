-- ===== src/IncludeState/Order.antt =====
-- The order that `CheckNextIncludeOrder` enforces over the includes of a section.
use csci.Prelude.{
  ℕ, ◌≤◌, ◌<◌, ◌≡◌, ◌≢◌, refl, ◌↔◌, ◌⊎◌, inl, inr, List, [], ◌∷◌, ◌++◌, none, some, arith, Text,
  text, All,
}
use csci.IncludeState.{
  HeaderType, c_sys_header, cpp_sys_header, likely_my_header, possible_my_header, other_header,
  Section, initial, my_h, c_system, cpp_system, other_h, rank, next_section, IncludeState,
  check_next_include_order,
}

-- A system header behind a section that has to come later.
abbrev pub IsLate : HeaderType → Section → Type 0
IsLate c_sys_header s = rank c_system < rank s
IsLate cpp_sys_header s = rank cpp_system < rank s
IsLate _ s = ⊥

-- The section in which a header of the type stands that is not late.
abbrev pub at_least : HeaderType → ℕ
at_least c_sys_header = 2
at_least cpp_sys_header = 3
at_least likely_my_header = 1
at_least possible_my_header = 1
at_least other_header = 4

next_section-facts :
    (t : HeaderType) (s : Section)
    → (IsLate t s × (next_section t s ≡ none))
      ⊎ ((¬ IsLate t s)
          × ((u : Section) × (next_section t s ≡ some u)
              × (rank s ≤ rank u)
              × (at_least t ≤ rank u)))
next_section-facts c_sys_header initial =
    inr (λ h. omega arith, (c_system, refl, omega arith, omega arith))
next_section-facts c_sys_header my_h =
    inr (λ h. omega arith, (c_system, refl, omega arith, omega arith))
next_section-facts c_sys_header c_system =
    inr (λ h. omega arith, (c_system, refl, omega arith, omega arith))
next_section-facts c_sys_header _ = inl (omega arith, refl)
next_section-facts cpp_sys_header other_h = inl (omega arith, refl)
next_section-facts cpp_sys_header initial =
    inr (λ h. omega arith, (cpp_system, refl, omega arith, omega arith))
next_section-facts cpp_sys_header _ =
    inr (λ h. omega arith, (cpp_system, refl, omega arith, omega arith))
next_section-facts likely_my_header initial = inr (λ h. h, (my_h, refl, omega arith, omega arith))
next_section-facts likely_my_header my_h = inr (λ h. h, (my_h, refl, omega arith, omega arith))
next_section-facts likely_my_header _ = inr (λ h. h, (other_h, refl, omega arith, omega arith))
next_section-facts possible_my_header initial = inr (λ h. h, (my_h, refl, omega arith, omega arith))
next_section-facts possible_my_header my_h = inr (λ h. h, (my_h, refl, omega arith, omega arith))
next_section-facts possible_my_header _ = inr (λ h. h, (other_h, refl, omega arith, omega arith))
next_section-facts other_header initial = inr (λ h. h, (other_h, refl, omega arith, omega arith))
next_section-facts other_header _ = inr (λ h. h, (other_h, refl, omega arith, omega arith))

pub check_next_include_order_lem :
    (t : HeaderType) (s : IncludeState)
    → (((check_next_include_order t s).0 ≢ []) ↔ IsLate t s.section)
      × (rank s.section ≤ rank (check_next_include_order t s).1.section)
      × ((check_next_include_order t s).1.include_list ≡ s.include_list)
      × (IsLate t s.section → (check_next_include_order t s).1.section ≡ s.section)
      × (¬ IsLate t s.section → at_least t ≤ rank (check_next_include_order t s).1.section)
unfolding check_next_include_order text
check_next_include_order_lem t s = elim (next_section-facts t s.section) [
  | inl (late, e) ↦
      rw (e, check_next_include_order)
        ((λ _. late, λ _ q. cc), omega arith, refl, λ _. refl, λ n. absurd (n late))
  | inr (fine, (u, e, up, least)) ↦
      rw (e, check_next_include_order)
        (
          (λ q. absurd (q refl), λ late. absurd (fine late)),
          up,
          refl,
          λ late. absurd (fine late),
          λ _. least,
        )
]

-- The messages for a sequence of includes, one after the other.
abbrev pub messages : List HeaderType → IncludeState → List Text
messages [] s = []
messages (t ∷ ts) s =
    (check_next_include_order t s).0 ∷ messages ts (check_next_include_order t s).1

abbrev pub Silent : List Text → Type 0
Silent = All (λ m. m ≡ [])

-- Every header of the list may stand before one that needs a section of at most `n`.
abbrev pub AllBelow : ℕ → List HeaderType → Type 0
AllBelow n = All (λ t. at_least t ≤ n)

silent_fine :
    (t : HeaderType) (s : IncludeState)
    → (check_next_include_order t s).0 ≡ []
    → ¬ IsLate t s.section
silent_fine t s e late = (check_next_include_order_lem t s).0.1 late e

abbrev pub IsSystem : HeaderType → Type 0
IsSystem c_sys_header = Unit
IsSystem cpp_sys_header = Unit
IsSystem _ = ⊥

late_bound : (t : HeaderType) (s : Section) → IsSystem t → ¬ IsLate t s → rank s ≤ at_least t
late_bound c_sys_header s k h = omega arith
late_bound cpp_sys_header s k h = omega arith
late_bound likely_my_header s k h = absurd k
late_bound possible_my_header s k h = absurd k
late_bound other_header s k h = absurd k

-- If no include of a sequence is reported, then what stands before a C system header is at most a C
-- system header or a header of the file's own, and what stands before a C++ system header is no other
-- header.
pub Silent-order :
    (before : List HeaderType) (t : HeaderType) (after : List HeaderType) (s : IncludeState)
    → IsSystem t
    → Silent (messages (before ++ t ∷ after) s)
    → (rank s.section ≤ at_least t) × AllBelow (at_least t) before
Silent-order [] t after s k (e, _) = (late_bound t s.section k (silent_fine t s e), tt)
Silent-order (u ∷ before) t after s k (e, rest) =
    let (reached, below) = Silent-order before t after (check_next_include_order u s).1 k rest in
    let facts = check_next_include_order_lem u s in
    (omega arith, (omega (arith, facts.4 (silent_fine u s e)), below))
