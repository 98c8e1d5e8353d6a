-- ===== src/FunctionState/Level.antt =====
-- When `_FunctionState.Check` reports, and with what confidence.
use csci.Prelude.{
  ℕ, zero, suc, ◌*◌, ◌/◌, ◌^◌, ◌≤◌, ◌<◌, ◌≡◌, ◌≢◌, refl, ◌↔◌, inl, inr, true, [], arith, Text, ltb,
  min, Bool-cases, ltb→lt, All,
}
use native.Mathlib.Nat.{pow-suc, pow-le-pow_right, le-div_iff_mul-le}
use native.Mathlib.Decide.{dec_le}
use csci.FunctionState.{FunctionState, log2_fuel, log2, base_trigger, error_level, check}

-- The integer logarithm is right when the fuel is at least the number.
log2_fuel-bounds :
    (f n : ℕ) → n ≤ f → 0 < n → (2 ^ log2_fuel f n ≤ n) × (n < 2 ^ suc (log2_fuel f n))
unfolding log2_fuel
log2_fuel-bounds zero n le h = absurd (omega arith)
log2_fuel-bounds (suc f) n le h = elim (Bool-cases (ltb n 2)) [
  | inl e ↦ rw (e, log2_fuel) (ground arith)
  | inr e ↦
      let (low, high) = log2_fuel-bounds f (n / 2) (ground arith) (ground arith) in
      let l = log2_fuel f (n / 2) in
      rw (e, log2_fuel)
        (
          omega (arith, pow-suc 2 l, pow-suc 2 (suc l)),
          omega (arith, pow-suc 2 l, pow-suc 2 (suc l)),
        )
]

base_trigger-pos : (name : Text) → 0 < base_trigger name
unfolding base_trigger
base_trigger-pos name = ground arith

pow_below-log2 : (v n : ℕ) → 2 ^ v ≤ n → v ≤ log2 n
unfolding log2
pow_below-log2 v n h = elim (dec_le v (log2_fuel n n)) [
  | yes p ↦ p
  | no p ↦
      let up : 2 ^ suc (log2_fuel n n) ≤ 2 ^ v = pow-le-pow_right (omega arith) (omega arith) in
      let pos : 0 < 2 ^ v = pow-le-pow_right {n = 2} (omega arith) {i = 0} (omega arith) in
      absurd (omega (arith, (log2_fuel-bounds n n (omega arith) (omega arith)).1))
]

pow_le_quotient : (b v n : ℕ) → 0 < b → b * 2 ^ v < n → 2 ^ v ≤ n / b
pow_le_quotient b v n pos h = (le-div_iff_mul-le pos).1 (omega arith)

level_bounds :
    (v lines base : ℕ)
    → 0 < base
    → base * 2 ^ v < lines
    → (min v 5 ≤ error_level lines base) × (error_level lines base ≤ 5)
unfolding error_level
level_bounds v lines base pos h =
    let reached = pow_below-log2 v (lines / base) (pow_le_quotient base v lines pos h) in
    (ground arith, ground arith)

-- A function is reported exactly if its body is being read and has more lines than its trigger, the
-- base of its kind doubled once for each step of the verbosity. The confidence of a report is at most
-- 5 and never below the verbosity, if that is at most 5, so the verbosity does not hide it.
pub check_lem :
    (v linenum : ℕ) (s : FunctionState)
    → ((check v linenum s ≢ []) ↔ (
        (s.in_a_function ≡ true) × (base_trigger s.current_function * 2 ^ v < s.lines_in_function)))
      × All
          (λ r. (r.linenum ≡ linenum) × (min v 5 ≤ r.confidence) × (r.confidence ≤ 5))
          (check v linenum s)
unfolding check
check_lem v linenum s = elim (Bool-cases s.in_a_function) [
  | inr e ↦ rw e ((λ h. absurd (h refl), λ h. cc), tt)
  | inl e ↦ elim (Bool-cases (ltb (base_trigger s.current_function * 2 ^ v) s.lines_in_function)) [
    | inr q ↦ rw (e, q) ((λ h. absurd (h refl), λ (_, lt). ground arith), tt)
    | inl q ↦
        let lt = ltb→lt _ _ q in
        let base = base_trigger s.current_function in
        let (low, high) =
          level_bounds v s.lines_in_function base (base_trigger-pos s.current_function) lt in
        rw (e, q) ((λ _. (refl, lt), λ _ h. cc), ((refl, low, high), tt))
  ]
]
