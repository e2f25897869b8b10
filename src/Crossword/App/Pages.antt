-- ===== src/Crossword/App/Pages.antt =====
-- The page of a listing that is shown.
use scratchpad.Common.{
  ℕ, ◌+◌, ◌-◌, ◌*◌, ◌/◌, ◌%◌, ◌≤◌, ◌<◌, min, ◌≡◌, subst, sym, ==_iff, Bool-cases, arith, ltb, ◌==◌,
  inl, inr, if-cases, length,
}
use native.Mathlib.Nat.{add-mul, lt-div-mul-add, div-lt_iff_lt-mul, div-mul-le_self, div-add-mod'}
use scratchpad.Crossword.App.{Tab}
use scratchpad.Crossword.App.Listings.{items, page, at_least_one, div_ceil}

at_least_one-pos : (n : ℕ) → 0 < at_least_one n
at_least_one-pos n = if-cases (λ m. 0 < m) (ltb n 1) 1 n (λ _. omega arith) (λ e. ground arith)

lt-at_least_one : (i n : ℕ) → i < n → i < at_least_one n
lt-at_least_one i n h = if-cases (λ m. i < m) (ltb n 1) 1 n (λ e. ground arith) (λ _. h)

-- A place below the count is on a page below the number of pages.
div-lt-div_ceil : (i count len : ℕ) → 0 < len → i < count → i / len < div_ceil count len
div-lt-div_ceil i count len pos h = elim (Bool-cases (count % len == 0)) [
  | inl e ↦ rw e (
      (div-lt_iff_lt-mul pos).1
        (omega (arith, h, (==_iff (count % len) 0).0 e, div-add-mod' count len)))
  | inr e ↦ rw e (
      (div-lt_iff_lt-mul pos).1 (
        subst (λ n. i < n) (sym (add-mul (count / len) 1 len))
          (omega (arith, h, lt-div-mul-add {a = count} pos))))
]

min-le_right : (a b : ℕ) → min a b ≤ b
min-le_right a b = omega arith

min-le_left : (a b : ℕ) → min a b ≤ a
min-le_left a b = omega arith

lt-min : (i a b : ℕ) → i < a → i < b → i < min a b
lt-min i a b h k = omega (arith, h, k)

-- When a selection points at an item, the page shown holds it: the page starts at or before it and ends
-- after it, stays inside the listing, has at most as many items as fit, and is one of the pages counted.
pub page-holds :
    (fit : ℕ) (tab : Tab)
    → tab.selected < length (items tab)
    → let p = page fit tab in
      (p.start ≤ tab.selected)
      × (tab.selected < p.end)
      × (p.end ≤ length (items tab))
      × (p.end ≤ p.start + at_least_one fit)
      × (p.number < p.count)
unfolding page
page-holds fit tab h =
    let len = at_least_one fit in
    let count = length (items tab) in
    let i = tab.selected in
    let same : min i (count - 1) ≡ i = omega (arith, h) in
    rw same (
      div-mul-le_self i len,
      lt-min i (i / len * len + len) count (lt-div-mul-add (at_least_one-pos fit)) h,
      min-le_right (i / len * len + len) count,
      min-le_left (i / len * len + len) count,
      lt-at_least_one (i / len) (div_ceil count len)
          (div-lt-div_ceil i count len (at_least_one-pos fit) h),
    )
