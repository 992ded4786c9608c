-- ===== src/Resource/Shares.antt =====
-- resource.go: the weights of a route's backends, and the shares that NGINX is told.
use notyetanotherenvoybacken.Common.{
  ℕ, String, ◌≡◌, refl, ◌∙◌, ap, ◌+◌, ◌%◌, ◌^◌, ◌≤◌, ◌<◌, List, [], ◌∷◌, ◌++◌, map, sprintf, nat_eq,
  arith,
}
use notyetanotherenvoybacken.Nginx.Directive.{directive, Directives, nil, cons}
use notyetanotherenvoybacken.Resource.Weights.{
  Float64, ValidBackend, default_weight, total_weight, split_directives,
}

-- The sum of the weights, without a bound.
abbrev pub sum_weights : List ValidBackend → ℕ
sum_weights [] = 0
sum_weights (b ∷ bs) = b.weight + sum_weights bs

-- A weight that counts is a positive int32.
pub default_weight-bounds :
    (w : ℕ) → w < 2 ^ 32 → (1 ≤ default_weight w) × (default_weight w < 2 ^ 31)
unfolding default_weight
default_weight-bounds w h = (ground arith, ground arith)

total_weight-from :
    (t : ℕ) (bs : List ValidBackend)
    → t < 2 ^ 32
    → total_weight t bs ≡ (t + sum_weights bs) % 2 ^ 32
unfolding total_weight
total_weight-from t [] h = omega arith
total_weight-from t (b ∷ bs) h =
    total_weight-from ((t + b.weight) % 2 ^ 32) bs (omega arith) ∙ omega arith

-- `totalWeight` is the sum of the weights as an int32: exactly the sum while that is below 2 ^ 31,
-- negative when the sum is from 2 ^ 31 to below 2 ^ 32, and wrapped around from there.
pub total_weight_lem :
    (bs : List ValidBackend)
    → (total_weight 0 bs ≡ sum_weights bs % 2 ^ 32)
      × (sum_weights bs < 2 ^ 31 → total_weight 0 bs ≡ sum_weights bs)
      × (2 ^ 31 ≤ sum_weights bs → sum_weights bs < 2 ^ 32 → 2 ^ 31 ≤ total_weight 0 bs)
total_weight_lem bs =
    let e : total_weight 0 bs ≡ sum_weights bs % 2 ^ 32 =
      total_weight-from 0 bs (omega arith) ∙ omega arith in
    (e, λ h. e ∙ omega arith, λ h k. rw e (omega arith))

-- the names and the arguments of directives, in order
abbrev pub names_of : Directives → List String
names_of nil = []
names_of (cons (directive name args body c) rest) = name ∷ names_of rest

abbrev pub arguments_of : Directives → List (List String)
arguments_of nil = []
arguments_of (cons (directive name args body c) rest) = args ∷ arguments_of rest

abbrev pub but_last : List ValidBackend → List ValidBackend
but_last [] = []
but_last (b ∷ []) = []
but_last (b ∷ c ∷ rest) = b ∷ but_last (c ∷ rest)

module _ (float64 : Float64) where
  -- the percentage of a backend
  abbrev pub percentage : ℕ → ValidBackend → float64.number
  percentage total b =
      float64.times (float64.divided (float64.of_int32 b.weight) (float64.of_int32 total))
        float64.hundred

  -- the sums of the numbers so far
  abbrev pub partial_sums : float64.number → List float64.number → List float64.number
  partial_sums c [] = []
  partial_sums c (p ∷ ps) = float64.plus c p ∷ partial_sums (float64.plus c p) ps

  abbrev pub label : float64.number → String
  label x = sprintf (float64.two_decimals x ∷ "%" ∷ [])

  names-split_directives :
      (total : ℕ) (c : float64.number) (b : ValidBackend) (bs : List ValidBackend)
      → names_of (split_directives float64 total c (b ∷ bs))
        ≡ map label (partial_sums c (map (percentage total) (but_last (b ∷ bs)))) ++ ("*" ∷ [])
  unfolding split_directives
  names-split_directives total c b [] = refl
  names-split_directives total c b (d ∷ bs) =
      ap (◌∷◌ (label (float64.plus c (percentage total b))))
        (names-split_directives total (float64.plus c (percentage total b)) d bs)

  arguments-split_directives :
      (total : ℕ) (c : float64.number) (bs : List ValidBackend)
      → arguments_of (split_directives float64 total c bs) ≡ map (λ b. b.upstream_name ∷ []) bs
  unfolding split_directives
  arguments-split_directives total c [] = refl
  arguments-split_directives total c (b ∷ []) = refl
  arguments-split_directives total c (b ∷ d ∷ bs) =
      ap (◌∷◌ (b.upstream_name ∷ []))
        (arguments-split_directives total (float64.plus c (percentage total b)) (d ∷ bs))

  -- The lines of `split_clients` for one backend or more: a line for each backend, in order, with
  -- its upstream; before the last one each is labelled by the sum of the percentages up to there,
  -- and the last by a star.
  pub split_directives_lem :
      (total : ℕ) (b : ValidBackend) (bs : List ValidBackend)
      → (names_of (split_directives float64 total float64.zero (b ∷ bs))
          ≡ map label (partial_sums float64.zero (map (percentage total) (but_last (b ∷ bs))))
            ++ ("*" ∷ []))
        × (arguments_of (split_directives float64 total float64.zero (b ∷ bs))
            ≡ map (λ d. d.upstream_name ∷ []) (b ∷ bs))
  split_directives_lem total b bs = (
    names-split_directives total float64.zero b bs,
    arguments-split_directives total float64.zero (b ∷ bs),
  )
