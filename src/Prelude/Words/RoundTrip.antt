-- ===== src/Prelude/Words/RoundTrip.antt =====
-- `int(str(n))` is `n`.
use Prim.Native.Nat.{ℕ, zero, suc, ◌+◌, ◌*◌, ◌/◌, ◌%◌, ◌<◌}
use Prim.Native.Char.{code}
use Prim.Native.String.{String}
use mathlib.Core.Path.{◌≡◌, refl}
use mathlib.Core.Bool.{Bool, true, false}
use mathlib.Core.Option.{some}
use mathlib.Core.Logic.{inl, inr, ◌≢◌}
use native.Mathlib.Omega.{arith}
use kafka_playgroud.Prelude.Tests.{nat_eq, string_eq, ltb, Bool-cases}
use kafka_playgroud.Prelude.Int.{pos}
use kafka_playgroud.Prelude.Words.{
  lstrip, rstrip, strip, digit, digits, str_of, is_digit, read_digits, read_int, int_of, positive,
}

code-digit : (d : ℕ) → d < 10 → code (digit d) ≡ 48 + d
unfolding digit
code-digit zero h = refl
code-digit (suc zero) h = refl
code-digit (suc (suc zero)) h = refl
code-digit (suc (suc (suc zero))) h = refl
code-digit (suc (suc (suc (suc zero)))) h = refl
code-digit (suc (suc (suc (suc (suc zero))))) h = refl
code-digit (suc (suc (suc (suc (suc (suc zero)))))) h = refl
code-digit (suc (suc (suc (suc (suc (suc (suc zero))))))) h = refl
code-digit (suc (suc (suc (suc (suc (suc (suc (suc zero)))))))) h = refl
code-digit (suc (suc (suc (suc (suc (suc (suc (suc (suc zero))))))))) h = refl
code-digit (suc (suc (suc (suc (suc (suc (suc (suc (suc (suc d)))))))))) h = absurd (omega arith)

read_digits-digit :
    (after : Bool) (n d : ℕ) (s : String)
    → d < 10
    → read_digits after n (String.◌∷◌ (digit d) s) ≡ read_digits true (n * 10 + d) s
unfolding read_digits
read_digits-digit after n d s h = ground (arith, code-digit d h)

zero_times : (n : ℕ) → 0 * 10 + n ≡ n
zero_times n = omega arith

split : (n : ℕ) → n / 10 * 10 + n % 10 ≡ n
split n = omega arith

read_digits-digits :
    (fuel : ℕ) (after : Bool) (n : ℕ) (out : String)
    → n < fuel
    → read_digits after 0 (digits fuel n out) ≡ read_digits true n out
unfolding digits
read_digits-digits zero after n out h = elim h [ ]
read_digits-digits (suc fuel) after n out h = elim (Bool-cases (ltb n 10)) [
  | inl small ↦ rw small (rw (read_digits-digit after 0 n out (ground arith)) (rw (zero_times n)))
  | inr large ↦ rw large (
      rw (read_digits-digits fuel after (n / 10) (String.◌∷◌ (digit (n % 10)) out) (ground arith))
        (rw (read_digits-digit true (n / 10) (n % 10) out (omega arith)) (rw (split n))))
]

-- A text of digits only, and not empty.
abbrev AreDigits : String → Type 0
AreDigits String.[] = Unit
AreDigits (String.◌∷◌ c s) = (is_digit (code c) ≡ true) × AreDigits s

is_digit-digit : (d : ℕ) → d < 10 → is_digit (code (digit d)) ≡ true
is_digit-digit d h = ground (arith, code-digit d h)

rstrip-digits : (s : String) → AreDigits s → rstrip s ≡ s
unfolding rstrip
rstrip-digits String.[] h = refl
rstrip-digits (String.◌∷◌ c s) h = rw (rstrip-digits s h.1) (ground arith)

read_int-digits :
    (s : String) → AreDigits s → s ≢ "" → read_int (strip s) ≡ positive (read_digits false 0 s)
unfolding read_int strip lstrip
read_int-digits String.[] h ne = absurd (ne refl)
read_int-digits (String.◌∷◌ c s) h ne = rw (rstrip-digits (String.◌∷◌ c s) h) (ground arith)

digits_ne : (fuel n : ℕ) (out : String) → out ≢ "" → digits fuel n out ≢ ""
unfolding digits
digits_ne zero n out h = h
digits_ne (suc fuel) n out h = elim (Bool-cases (ltb n 10)) [
  | inl small ↦ rw small (λ e. cc)
  | inr large ↦ rw large (digits_ne fuel (n / 10) (String.◌∷◌ (digit (n % 10)) out) (λ e. cc))
]

str_of_ne : (n : ℕ) → str_of n ≢ ""
unfolding str_of digits
str_of_ne n = elim (Bool-cases (ltb n 10)) [
  | inl small ↦ rw small (λ e. cc)
  | inr large ↦ rw large (digits_ne n (n / 10) (String.◌∷◌ (digit (n % 10)) "") (λ e. cc))
]

AreDigits-digits : (fuel n : ℕ) (out : String) → AreDigits out → AreDigits (digits fuel n out)
unfolding digits
AreDigits-digits zero n out h = h
AreDigits-digits (suc fuel) n out h = elim (Bool-cases (ltb n 10)) [
  | inl small ↦ rw small (is_digit-digit n (ground arith), h)
  | inr large ↦ rw large (
      AreDigits-digits fuel (n / 10) (String.◌∷◌ (digit (n % 10)) out)
        (is_digit-digit (n % 10) (omega arith), h))
]

AreDigits-str_of : (n : ℕ) → AreDigits (str_of n)
unfolding str_of
AreDigits-str_of n = AreDigits-digits (suc n) n "" tt

read_digits-str_of : (n : ℕ) → read_digits false 0 (str_of n) ≡ some n
unfolding str_of read_digits
read_digits-str_of n = read_digits-digits (suc n) false n "" (omega arith)

-- The text of a number reads back as that number.
pub int_of-str_of : (n : ℕ) → int_of (str_of n) ≡ some (pos n)
unfolding int_of read_digits
int_of-str_of n =
    rw (read_int-digits (str_of n) (AreDigits-str_of n) (str_of_ne n)) (rw (read_digits-str_of n))
