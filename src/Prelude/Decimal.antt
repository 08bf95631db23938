-- ===== src/Prelude/Decimal.antt =====
-- Decimal digits: what `String(n)` writes for a natural number, and what `Number(s)` reads of digits.
use Prim.Native.Nat.{ℕ, zero, suc, ◌+◌, ◌-◌, ◌*◌, ◌/◌, ◌%◌, ◌<◌}
use mathlib.Core.Path.{◌≡◌, refl}
use mathlib.Core.Bool.{Bool, true, false, ◌&&◌}
use mathlib.Core.List.{[], ◌∷◌}
use mathlib.Core.Logic.{ite, dite}
use mathlib.Core.WellFounded
use mathlib.Core.WellFounded.{Acc, WellFounded, Acc-prop}
use native.Mathlib.Decide.{dec_lt}
use native.Mathlib.Omega.{arith}
use midnight_js.Prelude.Tests.{leb}
use midnight_js.Prelude.Texts.{Text}
use midnight_js.Prelude.Lists.{all, is_empty}

abbrev pub is_digit : ℕ → Bool
is_digit c = leb b'0' c && leb c b'9'

Acc_of_lt : (k n : ℕ) → n < k → Acc ◌<◌ n
Acc_of_lt zero n h = absurd (omega arith)
Acc_of_lt (suc k) n h = Acc.intro n λ m below. Acc_of_lt k m (omega arith)

lt_wf : WellFounded ◌<◌
unfolding Acc_of_lt
lt_wf = record { apply = λ n. Acc_of_lt (suc n) n (omega arith) }

-- The digits of `n` above the last one, before `tail`.
digits_acc : (n : ℕ) → Acc ◌<◌ n → Text → Text
digits_acc n (Acc.intro _ smaller) tail =
    dite (dec_lt 0 n)
      (λ h. digits_acc (n / 10) (smaller (n / 10) (omega arith)) ((b'0' + n % 10) ∷ tail))
      (λ _. tail)

digits : ℕ → Text → Text
unfolding digits_acc lt_wf dec_lt
digits n tail = digits_acc n (lt_wf.apply n) tail

-- `String(n)`
unfoldable pub decimal : ℕ → Text
unfolding digits
decimal n = digits (n / 10) ((b'0' + n % 10) ∷ [])

read_digits : ℕ → Text → ℕ
read_digits n [] = n
read_digits n (c ∷ s) = read_digits (n * 10 + (c - b'0')) s

-- `Number(s)` of a text of digits; of the empty text it is 0.
unfoldable pub number_of_digits : Text → ℕ
unfolding read_digits
number_of_digits s = read_digits 0 s

digits_acc_step :
    (n : ℕ) (w : Acc ◌<◌ n) (v : Acc ◌<◌ (n / 10)) (tail : Text)
    → digits_acc n w tail ≡ ite (dec_lt 0 n) (digits_acc (n / 10) v ((b'0' + n % 10) ∷ tail)) tail
unfolding digits_acc
digits_acc_step n (Acc.intro _ smaller) v tail = λ i.
    dite (dec_lt 0 n)
      (λ h.
        digits_acc (n / 10) (Acc-prop (smaller (n / 10) (omega arith)) v i)
          ((b'0' + n % 10) ∷ tail))
      (λ _. tail)

digits_step :
    (n : ℕ) (tail : Text)
    → digits n tail ≡ ite (dec_lt 0 n) (digits (n / 10) ((b'0' + n % 10) ∷ tail)) tail
unfolding digits
digits_step n tail = digits_acc_step n (lt_wf.apply n) (lt_wf.apply (n / 10)) tail

read_digits-digits : (n : ℕ) (tail : Text) → read_digits 0 (digits n tail) ≡ read_digits n tail
unfolding read_digits
read_digits-digits n =
    WellFounded.induction lt_wf
      {C = λ m. (tail : Text) → read_digits 0 (digits m tail) ≡ read_digits m tail} n
      λ m ih tail. grind (arith, digits_step m tail, ih (m / 10))

all-digits : (n : ℕ) (tail : Text) → all is_digit tail ≡ true → all is_digit (digits n tail) ≡ true
all-digits n =
    WellFounded.induction lt_wf
      {C = λ m. (tail : Text) → all is_digit tail ≡ true → all is_digit (digits m tail) ≡ true} n
      λ m ih tail h. grind (arith, digits_step m tail, ih (m / 10))

-- A number is read back from its digits.
pub number_of_digits-decimal : (n : ℕ) → number_of_digits (decimal n) ≡ n
unfolding decimal number_of_digits read_digits
number_of_digits-decimal n = grind (arith, read_digits-digits (n / 10) ((b'0' + n % 10) ∷ []))

pub decimal-digits : (n : ℕ) → all is_digit (decimal n) ≡ true
unfolding decimal
decimal-digits n = grind (arith, all-digits (n / 10) ((b'0' + n % 10) ∷ []))

is_empty-digits : (n : ℕ) (tail : Text) → is_empty tail ≡ false → is_empty (digits n tail) ≡ false
is_empty-digits n =
    WellFounded.induction lt_wf
      {C = λ m. (tail : Text) → is_empty tail ≡ false → is_empty (digits m tail) ≡ false} n
      λ m ih tail h. grind (arith, digits_step m tail, ih (m / 10))

pub is_empty-decimal : (n : ℕ) → is_empty (decimal n) ≡ false
unfolding decimal
is_empty-decimal n = is_empty-digits (n / 10) ((b'0' + n % 10) ∷ []) refl
