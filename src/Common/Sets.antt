-- ===== src/Common/Sets.antt =====
-- Go's `map[string]struct{}` and `slices.Contains`, over lists of texts.
use Prim.Native.String.{String}
use Prim.Native.Nat.{ℕ, suc}
use mathlib.Core.Path.{◌≡◌, refl, ap}
use mathlib.Core.Bool.{Bool, true, false, Bool-set}
use mathlib.Core.List.{List, [], ◌∷◌, ◌++◌, Mem, Perm, not-mem-nil, mem-cons}
use mathlib.Core.List.Perm
use mathlib.Core.Logic.{◌↔◌, inl, inr, if_pos, if_neg}
use mathlib.Core.Logic.Or
use native.Mathlib.Omega.{arith}
use notyetanotherenvoybacken.Common.Tests.{Bool-cases, string_dec, ◌==◌, if◌then◌else◌, string_eq}

abbrev pub Set : Type 0
Set = List String

module _ {ℓ} {A : Type ℓ} where
  abbrev pub length : List A → ℕ
  length [] = 0
  length (x ∷ xs) = suc (length xs)

module _ {ℓ} {A : Type ℓ} where
  -- `len(xs) == 0`
  abbrev pub is_empty : List A → Bool
  is_empty [] = true
  is_empty (x ∷ xs) = false

unfoldable pub contains : String → Set → Bool
contains k [] = false
contains k (j ∷ s) = if k == j then true else contains k s

-- `s[k] = struct{}{}`
unfoldable pub add : String → Set → Set
add k [] = k ∷ []
add k (j ∷ s) = if k == j then j ∷ s else j ∷ add k s

-- `delete(s, k)`
unfoldable pub remove : String → Set → Set
remove k [] = []
remove k (j ∷ s) = let rest = remove k s in if k == j then rest else j ∷ rest

-- `for k := range from { s[k] = struct{}{} }`
unfoldable pub add_all : List String → Set → Set
add_all [] s = s
add_all (k ∷ ks) s = add_all ks (add k s)

pub contains-add :
    (j k : String) (s : Set) → contains j (add k s) ≡ (if j == k then true else contains j s)
unfolding contains add
contains-add j k [] = ground arith
contains-add j k (_ ∷ s) = ground (arith, contains-add j k s)

pub contains-remove :
    (j k : String) (s : Set) → contains j (remove k s) ≡ (if j == k then false else contains j s)
unfolding contains remove
contains-remove j k [] = ground arith
contains-remove j k (_ ∷ s) = ground (arith, contains-remove j k s)

pub contains-add_all :
    (j : String) (ks : List String) (s : Set)
    → contains j (add_all ks s) ≡ (if contains j ks then true else contains j s)
unfolding contains add_all
contains-add_all j [] s = refl
contains-add_all j (k ∷ ks) s = ground (arith, contains-add_all j ks (add k s), contains-add j k s)

-- The test agrees with the library's membership.
contains_iff : (k : String) (s : Set) → (contains k s ≡ true) ↔ Mem k s
unfolding contains
contains_iff k [] = (λ h. cc, λ m. absurd (not-mem-nil m))
contains_iff k (j ∷ s) = elim (string_dec k j) [
  | yes e ↦ rw (if_pos _ e) (λ h. mem-cons.1 (Or.inl e), λ h. refl)
  | no n ↦ rw (if_neg _ n) (
    λ h. mem-cons.1 (Or.inr ((contains_iff k s).0 h)),
    λ m. Or.elim (Bool-set _ _) (mem-cons.0 m) (λ e. absurd (n e)) (contains_iff k s).1,
  )
]

-- The order of the keys does not matter to the test.
pub contains-perm : (k : String) {s t : Set} → Perm s t → contains k s ≡ contains k t
contains-perm k {s} {t} p = elim (Bool-cases (contains k t)) [
  | inl h ↦ rw h ((contains_iff k s).1 ((Perm.mem_iff p).1 ((contains_iff k t).0 h)))
  | inr h ↦ elim (Bool-cases (contains k s)) [
    | inl q ↦ cc ((contains_iff k t).1 ((Perm.mem_iff p).0 ((contains_iff k s).0 q)))
    | inr q ↦ cc
  ]
]

pub length-snoc {ℓ} : {A : Type ℓ} (xs : List A) (x : A) → length (xs ++ (x ∷ [])) ≡ suc (length xs)
length-snoc [] x = refl
length-snoc (y ∷ ys) x = ap suc (length-snoc ys x)
