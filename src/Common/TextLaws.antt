-- ===== src/Common/TextLaws.antt =====
-- Laws of the text functions.
use Prim.Native.Nat.{ℕ, zero, suc, ◌+◌, ◌-◌, ◌*◌, ◌/◌, ◌%◌, ◌<◌, ◌≤◌}
use Prim.Native.Char.{Char, code}
use Prim.Native.String.{String, [], ◌∷◌, ◌++◌}
use Prim.Native.String.append
use text.Mathlib.TextEquality.{Char-path}
use text.Mathlib.TextLemmas.{append_assoc}
use mathlib.Core.Path.{◌≡◌, refl, sym, ap, ap₂, ◌∙◌}
use mathlib.Core.Logic.{inl, inr}
use mathlib.Core.Bool.{true, false, ◌||◌}
use mathlib.Core.Option.{some}
use native.Mathlib.Omega.{arith}
use notyetanotherenvoybacken.Common.Tests.{◌==◌, nat_eq, ltb, Bool-cases}
use notyetanotherenvoybacken.Common.Text.{
  replace_all, has_char, cut, decimal, decimal_rounds, digit,
}

-- A replacement goes piece by piece.
pub replace_all-append :
    (old : ℕ) (new s t : String)
    → replace_all old new (s ++ t) ≡ replace_all old new s ++ replace_all old new t
unfolding replace_all
replace_all-append old new [] t = simp append.nil
replace_all-append old new (c ∷ s) t = rw (append.cons c s t) (elim (Bool-cases (code c == old)) [
  | inl e ↦
      rw (e, replace_all)
        (rw (replace_all-append old new s t)
          (sym (append_assoc new (replace_all old new s) (replace_all old new t))))
  | inr e ↦
      rw (e, replace_all)
        (rw (replace_all-append old new s t)
          (sym (append.cons c (replace_all old new s) (replace_all old new t))))
])

pub has_char-append : (c : ℕ) (s t : String) → has_char c (s ++ t) ≡ (has_char c s || has_char c t)
unfolding has_char
has_char-append c [] t = simp append.nil
has_char-append c (d ∷ s) t = rw (append.cons d s t) (ground (arith, has_char-append c s t))

same_code : (n : ℕ) → (n == n) ≡ true
same_code n = ground arith

-- Putting the character back undoes a replacement, where the new character did not occur.
pub replace_all_back :
    (old new : Char) (s : String)
    → has_char (code new) s ≡ false
    → replace_all (code new) (old ∷ []) (replace_all (code old) (new ∷ []) s) ≡ s
unfolding replace_all has_char
replace_all_back old new [] h = refl
replace_all_back old new (c ∷ s) h = elim (Bool-cases (code c == code old)) [
  | inl e ↦
      rw (e, append.cons, append.nil)
        (rw (same_code (code new)) (
          rw (append.cons, append.nil)
            (ap₂ ◌∷◌ (sym (Char-path c old (ground arith)))
              (replace_all_back old new s (ground arith)))))
  | inr e ↦ rw e (
      let fresh : (code c == code new) ≡ false = ground arith in
      rw fresh (ap (◌∷◌ c) (replace_all_back old new s (ground arith))))
]

-- The cut finds the separator at the end of a text without it.
pub cut-append :
    (sep : Char) (s t : String)
    → has_char (code sep) s ≡ false
    → cut (code sep) (s ++ (sep ∷ t)) ≡ some (s, t)
unfolding cut has_char
cut-append sep [] t h = rw (append.nil, same_code (code sep))
cut-append sep (c ∷ s) t h =
    let other : (code c == code sep) ≡ false = ground arith in
    rw (append.cons c s (sep ∷ t), other, cut-append sep s t (ground arith))

-- The number that a text of decimal digits stands for.
pub read : ℕ → String → ℕ
read acc [] = acc
read acc (c ∷ s) = read (acc * 10 + (code c - 48)) s

read-append : (acc : ℕ) (s t : String) → read acc (s ++ t) ≡ read (read acc s) t
unfolding read
read-append acc [] t = rw append.nil
read-append acc (c ∷ s) t = rw (append.cons c s t) (read-append (acc * 10 + (code c - 48)) s t)

read-digit : (acc d : ℕ) → d < 10 → read acc (digit d) ≡ acc * 10 + d
unfolding read digit
read-digit acc zero h = omega arith
read-digit acc (suc zero) h = omega arith
read-digit acc (suc (suc zero)) h = omega arith
read-digit acc (suc (suc (suc zero))) h = omega arith
read-digit acc (suc (suc (suc (suc zero)))) h = omega arith
read-digit acc (suc (suc (suc (suc (suc zero))))) h = omega arith
read-digit acc (suc (suc (suc (suc (suc (suc zero)))))) h = omega arith
read-digit acc (suc (suc (suc (suc (suc (suc (suc zero))))))) h = omega arith
read-digit acc (suc (suc (suc (suc (suc (suc (suc (suc zero)))))))) h = omega arith
read-digit acc (suc (suc (suc (suc (suc (suc (suc (suc (suc zero))))))))) h = omega arith
read-digit acc (suc (suc (suc (suc (suc (suc (suc (suc (suc (suc n)))))))))) h = omega arith

read-decimal_rounds : (f n : ℕ) → n ≤ f → read 0 (decimal_rounds f n) ≡ n
unfolding decimal_rounds
read-decimal_rounds zero n h =
    let e : n ≡ 0 = omega arith in rw e (read-digit 0 0 (omega arith) ∙ omega arith)
read-decimal_rounds (suc f) n h = elim (Bool-cases (ltb n 10)) [
  | inl e ↦ rw e (read-digit 0 n (ground arith) ∙ omega arith)
  | inr e ↦
      rw (e, read-append 0 (decimal_rounds f (n / 10)) (digit (n % 10)))
        (rw (read-decimal_rounds f (n / 10) (ground arith))
          (read-digit (n / 10) (n % 10) (omega arith) ∙ ground arith))
]

-- A decimal reads back as its number.
pub read-decimal : (n : ℕ) → read 0 (decimal n) ≡ n
unfolding decimal
read-decimal n = read-decimal_rounds n n (omega arith)

digit-plain : (n c : ℕ) → c < 48 → has_char c (digit n) ≡ false
unfolding digit has_char
digit-plain zero c h = ground arith
digit-plain (suc zero) c h = ground arith
digit-plain (suc (suc zero)) c h = ground arith
digit-plain (suc (suc (suc zero))) c h = ground arith
digit-plain (suc (suc (suc (suc zero)))) c h = ground arith
digit-plain (suc (suc (suc (suc (suc zero))))) c h = ground arith
digit-plain (suc (suc (suc (suc (suc (suc zero)))))) c h = ground arith
digit-plain (suc (suc (suc (suc (suc (suc (suc zero))))))) c h = ground arith
digit-plain (suc (suc (suc (suc (suc (suc (suc (suc zero)))))))) c h = ground arith
digit-plain (suc (suc (suc (suc (suc (suc (suc (suc (suc n))))))))) c h = ground arith

decimal_rounds-plain : (f n c : ℕ) → c < 48 → has_char c (decimal_rounds f n) ≡ false
unfolding decimal_rounds
decimal_rounds-plain zero n c h = digit-plain n c h
decimal_rounds-plain (suc f) n c h = elim (Bool-cases (ltb n 10)) [
  | inl e ↦ rw e (digit-plain n c h)
  | inr e ↦
      rw (e, has_char-append c (decimal_rounds f (n / 10)) (digit (n % 10)))
        (rw (decimal_rounds-plain f (n / 10) c h, digit-plain (n % 10) c h))
]

-- A decimal has no character below the digits.
pub decimal-plain : (n c : ℕ) → c < 48 → has_char c (decimal n) ≡ false
unfolding decimal
decimal-plain n c h = decimal_rounds-plain n n c h
