-- ===== src/Application/CommunityRanking/Bounds.antt =====
-- community_ranking.py: how the operations on floats that make up a score keep values within bounds.
use mathlib.Core.Path.{subst}
use native.Mathlib.Nat.{mul-le-mul, le_refl}
use fpl_data_relay.Prelude.{
  ℕ, zero, suc, ◌*◌, ◌≤◌, ◌<◌, ◌≡◌, refl, ap, ◌∙◌, arith, List, [], ◌∷◌, length, All, string_key,
}
use fpl_data_relay.Prelude.Sorting.{before_asym}
use fpl_data_relay.Domain.Community.Double.{
  Double, IsRounded, Within, Capped, total, ◌≼◌, exact_limit,
}
use fpl_data_relay.Application.CommunityRanking.{clamp}

module _ {W : Type 0} ⦃d : Double W⦄ (laws : IsRounded W) where
  open laws use {
    of_int_le, times_le, times_exact, over_le, over_exact, sum_bounds, round4_le, round4_exact,
  }

  pub int_Within : (n top : ℕ) → n ≤ top → top ≤ exact_limit → Within (d.of_int n) top
  int_Within n top h small = (of_int_le 0 n (omega arith) (omega arith), of_int_le n top h small)

  pub clamp-Within : (x : W) → Within (clamp x) 1
  unfolding clamp
  clamp-Within x =
      let zero_one : d.of_int 0 ≼ d.of_int 1 = of_int_le 0 1 (omega arith) (omega arith) in
      ground (
        arith,
        before_asym ⦃key = d.order⦄ x (d.of_int 1),
        before_asym ⦃key = d.order⦄ (d.of_int 0) x,
        before_asym ⦃key = d.order⦄ (d.of_int 0) (d.of_int 1),
        d.order.before_irrefl (d.of_int 0),
        d.order.before_irrefl (d.of_int 1),
      )

  pub round4-Within : (x : W) (top : ℕ) → top ≤ exact_limit → Within x top → Within (d.round4 x) top
  round4-Within x top small (low, high) = (
    subst (λ y. y ≼ d.round4 x) (round4_exact 0 (omega arith)) (round4_le (d.of_int 0) x low),
    subst (λ y. d.round4 x ≼ y) (round4_exact top small) (round4_le x (d.of_int top) high),
  )

  pub times-Within :
      (m top : ℕ) (x : W) → m * top ≤ exact_limit → Within x top → Within (d.times m x) (m * top)
  times-Within m top x small (low, high) =
      let e : d.times m (d.of_int 0) ≡ d.of_int 0 =
        times_exact m 0 (omega arith) ∙ ap d.of_int (omega arith) in
      (
        subst (λ y. y ≼ d.times m x) e (times_le m (d.of_int 0) x low),
        subst (λ y. d.times m x ≼ y) (times_exact m top small) (times_le m x (d.of_int top) high),
      )

  pub over-Within :
      (top n : ℕ) (x : W)
      → 0 < n
      → top * n ≤ exact_limit
      → Within x (top * n)
      → Within (d.over x n) top
  over-Within top n x h small (low, high) =
      let e : d.over (d.of_int 0) n ≡ d.of_int 0 =
        ap (λ k. d.over (d.of_int k) n) (omega arith) ∙ over_exact 0 n h (omega arith) in
      (
        subst (λ y. y ≼ d.over x n) e (over_le n (d.of_int 0) x h low),
        subst (λ y. d.over x n ≼ y) (over_exact top n h small)
            (over_le n x (d.of_int (top * n)) h high),
      )

  -- As many caps of 1 as there are values.
  abbrev ones : ℕ → List ℕ
  ones zero = []
  ones (suc n) = 1 ∷ ones n

  total-ones : (n : ℕ) → total (ones n) ≡ n
  total-ones zero = refl
  total-ones (suc n) = omega (arith, total-ones n)

  Capped-ones : (xs : List W) → All (λ x. Within x 1) xs → Capped xs (ones (length xs))
  Capped-ones [] h = tt
  Capped-ones (x ∷ xs) h = (h.0, Capped-ones xs h.1)

  pub sum-Within :
      (xs : List W)
      → All (λ x. Within x 1) xs
      → length xs ≤ exact_limit
      → Within (d.sum xs) (length xs)
  sum-Within xs h small =
      subst (λ n. Within (d.sum xs) n) (total-ones (length xs))
        (sum_bounds xs (ones (length xs)) (Capped-ones xs h)
          (omega (arith, total-ones (length xs))))

  -- `n * sum(xs) / len(xs)` of values between 0 and 1.
  pub mean-Within :
      (top : ℕ) (x : W) (xs : List W)
      → All (λ y. Within y 1) (x ∷ xs)
      → 0 < top
      → top * length (x ∷ xs) ≤ exact_limit
      → Within (d.over (d.times top (d.sum (x ∷ xs))) (length (x ∷ xs))) top
  mean-Within top x xs h positive small =
      over-Within top (length (x ∷ xs)) (d.times top (d.sum (x ∷ xs))) (omega arith) small (
        times-Within top (length (x ∷ xs)) (d.sum (x ∷ xs)) small
          (sum-Within (x ∷ xs) h (omega (arith, mul-le-mul positive (le_refl (length (x ∷ xs)))))))
