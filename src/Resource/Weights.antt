-- ===== src/Resource/Weights.antt =====
-- resource.go: the directives of a route with several backends, `generateWeightedBackendDirectives`.
use notyetanotherenvoybacken.Common.{
  ℕ, String, List, [], ◌∷◌, ◌+◌, ◌^◌, ◌%◌, ◌||◌, leb, sprintf, ◌==◌, if◌then◌else◌, nat_eq,
}
use notyetanotherenvoybacken.Nginx.Directive.{Directives, nil, cons, simple, block}

-- Go's float64, with the operations that the code uses.
pub record Float64 : Type 1 where
  pub number : Type 0
  pub zero : number
  pub hundred : number
  -- `float64(w)` of an int32, given by its 32-bit pattern
  pub of_int32 : ℕ → number
  pub plus : number → number → number
  pub times : number → number → number
  pub divided : number → number → number
  -- `fmt.Sprintf("%.2f", x)`
  pub two_decimals : number → String

-- an element of `validBackends`
pub record ValidBackend : Type 0 where
  pub upstream_name : String
  pub weight : ℕ

-- a weight of 0 or below counts as 1; the negative int32 are the patterns from 2 ^ 31
unfoldable pub default_weight : ℕ → ℕ
default_weight w = if w == 0 || leb (2 ^ 31) w then 1 else w

-- `totalWeight`, an int32, after these backends
unfoldable pub total_weight : ℕ → List ValidBackend → ℕ
total_weight total [] = total
total_weight total (b ∷ bs) = total_weight ((total + b.weight) % 2 ^ 32) bs

module _ (float64 : Float64) where
  abbrev pub next_share : ℕ → float64.number → ValidBackend → float64.number
  next_share total cumulative b = float64.plus cumulative (
      float64.times (float64.divided (float64.of_int32 b.weight) (float64.of_int32 total))
        float64.hundred)

  -- the loop over the backends; the last one gets what is left
  unfoldable pub split_directives : ℕ → float64.number → List ValidBackend → Directives
  split_directives total cumulative [] = nil
  split_directives total cumulative (b ∷ []) = cons (simple "*" (b.upstream_name ∷ [])) nil
  split_directives total cumulative (b ∷ c ∷ rest) =
      let next = next_share total cumulative b in
      cons (simple (sprintf (float64.two_decimals next ∷ "%" ∷ [])) (b.upstream_name ∷ []))
        (split_directives total next (c ∷ rest))

  -- `generateWeightedBackendDirectives`
  unfoldable pub generate_weighted_directives : List ValidBackend → ℕ → Directives
  unfolding split_directives
  generate_weighted_directives backends total =
      cons
        (block "split_clients" ("$request_id" ∷ "$backend_upstream" ∷ [])
          (split_directives total float64.zero backends))
        (cons (simple "proxy_pass" ("http://$backend_upstream" ∷ [])) nil)
