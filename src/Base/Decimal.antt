-- ===== src/Base/Decimal.antt =====
-- `%d` of `fmt.Sprintf` and `strconv.FormatInt`, base ten.
use Prim.Native.Nat.{ℕ, zero, suc, ◌+◌, ◌-◌, ◌*◌, ◌/◌, ◌%◌, ◌<◌}
use mathlib.Core.Path.{◌≡◌, refl, sym, ap, ◌∙◌}
use mathlib.Core.Bool.{false}
use mathlib.Core.List.{[], ◌∷◌}
use native.Mathlib.Omega.{arith}
use zhyvo.Base.Tests.{ltb, ◌==◌, if◌then◌else◌}
use zhyvo.Base.Lists.{any}
use zhyvo.Base.Int.{ℤ, pos, negsuc}
use zhyvo.Base.Text.{Text}

-- The digits of `n` in front of `acc`; `suc n` rounds are enough.
digits : ℕ → ℕ → Text → Text
digits zero n acc = acc
digits (suc f) n acc =
    let rest = digits f (n / 10) ((48 + n % 10) ∷ acc) in if ltb n 10 then (48 + n) ∷ acc else rest

unfoldable pub decimal : ℕ → Text
unfolding digits
decimal n = digits (suc n) n []

unfoldable pub format_int : ℤ → Text
unfolding decimal
format_int (pos n) = decimal n
format_int (negsuc n) = b'-' ∷ decimal (suc n)

-- The number that a text of digits stands for, behind the digits of `v`.
value : ℕ → Text → ℕ
value v [] = v
value v (c ∷ s) = value (v * 10 + (c - 48)) s

value-digits : (f n : ℕ) (acc : Text) → n < f → value 0 (digits f n acc) ≡ value n acc
unfolding value digits
value-digits zero n acc h = absurd (omega arith)
value-digits (suc f) n acc h =
    ground (arith, value-digits f (n / 10) ((48 + n % 10) ∷ acc), ap (λ v. value v acc) (regroup n))
  where
    regroup : (n : ℕ) → n / 10 * 10 + (48 + n % 10 - 48) ≡ n
    regroup n = omega arith

pub decimal_injective : (m n : ℕ) → decimal m ≡ decimal n → m ≡ n
unfolding decimal value
decimal_injective m n h =
    sym (value-digits (suc m) m [] (omega arith))
    ∙ ap (value 0) h
    ∙ value-digits (suc n) n [] (omega arith)

digits_free :
    (k f n : ℕ) (acc : Text)
    → k < 48
    → any (λ c. c == k) acc ≡ false
    → any (λ c. c == k) (digits f n acc) ≡ false
unfolding digits
digits_free k zero n acc h e = e
digits_free k (suc f) n acc h e = ground (arith, digits_free k f (n / 10) ((48 + n % 10) ∷ acc))

-- No digit is a NUL.
pub decimal_free : (n : ℕ) → any (λ c. c == 0) (decimal n) ≡ false
unfolding decimal
decimal_free n = digits_free 0 (suc n) n [] (omega arith) refl
