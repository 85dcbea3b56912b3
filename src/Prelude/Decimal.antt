-- ===== src/Prelude/Decimal.antt =====
-- Decimal numerals: `f"{n}"` and `int(s)` on a run of digits.
use Prim.Native.Nat.{ℕ, zero, suc, ◌+◌, ◌-◌, ◌*◌, ◌/◌, ◌%◌, ◌<◌}
use mathlib.Core.Path.{◌≡◌, refl, ap, ◌∙◌}
use mathlib.Core.Logic.{inl, inr}
use mathlib.Core.Bool.{true, false}
use mathlib.Core.List.{[], ◌∷◌}
use native.Mathlib.Omega.{arith}
use net_ops_bench.Prelude.Tests.{◌==◌, if◌then◌else◌, Bool-cases}
use net_ops_bench.Prelude.Lists.{All}
use net_ops_bench.Prelude.Texts.{Text, is_digit, is_space, is_empty, IsSolid, lower, lower_code}

-- The digits of `n` in front of `acc`; `n` rounds are more than enough.
unfoldable pub show_onto : ℕ → ℕ → Text → Text
show_onto zero n acc = acc
show_onto (suc f) n acc =
    let rest = show_onto f (n / 10) ((48 + n % 10) ∷ acc) in
    if n / 10 == 0 then (48 + n % 10) ∷ acc else rest

unfoldable pub show : ℕ → Text
unfolding show_onto
show n = show_onto (suc n) n []

-- The value of a run of digits, read onto `n`.
unfoldable pub value_from : ℕ → Text → ℕ
value_from n [] = n
value_from n (c ∷ s) = value_from (n * 10 + (c - 48)) s

unfoldable pub int_of : Text → ℕ
unfolding value_from
int_of s = value_from 0 s

abbrev pub AllDigits : Text → Type 0
AllDigits s = All (λ c. is_digit c ≡ true) s

digit-is_digit : (n : ℕ) → is_digit (48 + n % 10) ≡ true
unfolding is_digit
digit-is_digit n = ground arith

value_from-show_onto :
    (f n : ℕ) (acc : Text) → n < f → value_from 0 (show_onto f n acc) ≡ value_from n acc
unfolding value_from show_onto
value_from-show_onto zero n acc h = elim h [ ]
value_from-show_onto (suc f) n acc h = elim (Bool-cases (n / 10 == 0)) [
  | inl done ↦ rw done (ap (λ m. value_from m acc) (ground arith))
  | inr more ↦ rw more (
      value_from-show_onto f (n / 10) ((48 + n % 10) ∷ acc) (ground arith)
      ∙ ap (λ m. value_from m acc) (omega arith))
]

-- A printed number reads back.
pub int_of-show : (n : ℕ) → int_of (show n) ≡ n
unfolding int_of show value_from
int_of-show n = value_from-show_onto (suc n) n [] (omega arith)

show_onto-AllDigits : (f n : ℕ) (acc : Text) → AllDigits acc → AllDigits (show_onto f n acc)
unfolding show_onto
show_onto-AllDigits zero n acc h = h
show_onto-AllDigits (suc f) n acc h = elim (Bool-cases (n / 10 == 0)) [
  | inl done ↦ rw done (digit-is_digit n, h)
  | inr more ↦ rw more (show_onto-AllDigits f (n / 10) _ (digit-is_digit n, h))
]

pub show-AllDigits : (n : ℕ) → AllDigits (show n)
unfolding show
show-AllDigits n = show_onto-AllDigits (suc n) n [] tt

show_onto-cons : (f n d : ℕ) (acc : Text) → is_empty (show_onto f n (d ∷ acc)) ≡ false
unfolding show_onto
show_onto-cons zero n d acc = refl
show_onto-cons (suc f) n d acc = elim (Bool-cases (n / 10 == 0)) [
  | inl done ↦ rw done
  | inr more ↦ rw more (show_onto-cons f (n / 10) _ (d ∷ acc))
]

pub is_empty-show : (n : ℕ) → is_empty (show n) ≡ false
unfolding show show_onto
is_empty-show n = elim (Bool-cases (n / 10 == 0)) [
  | inl done ↦ rw done
  | inr more ↦ rw more (show_onto-cons n (n / 10) (48 + n % 10) [])
]

pub digit-not-space : (c : ℕ) → is_digit c ≡ true → is_space c ≡ false
unfolding is_digit is_space
digit-not-space c h = ground arith

digit-lower_code : (c : ℕ) → is_digit c ≡ true → lower_code c ≡ c
unfolding is_digit lower_code
digit-lower_code c h = ground arith

pub AllDigits-IsSolid : (s : Text) → AllDigits s → IsSolid s
AllDigits-IsSolid [] h = tt
AllDigits-IsSolid (c ∷ s) h = (digit-not-space c h.0, AllDigits-IsSolid s h.1)

pub lower-AllDigits : (s : Text) → AllDigits s → lower s ≡ s
lower-AllDigits [] h = refl
lower-AllDigits (c ∷ s) h = rw (digit-lower_code c h.0, lower-AllDigits s h.1)
