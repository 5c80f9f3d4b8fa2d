-- ===== src/Central/Decimal.antt =====
-- The numerals of `decimal` (a template string's numbers in
-- src/db/messaging-groups.ts) differ for different numbers.
use Prim.Native.Char.{code}
use Prim.Native.String.{[], ◌∷◌}
use clawie.Prelude.{
  ℕ, zero, suc, ◌+◌, ◌*◌, ◌-◌, ◌/◌, ◌%◌, ◌<◌, String, ◌≡◌, refl, sym, ap, ◌∙◌, arith, if-intro,
  ◌==◌,
}
use clawie.Central.Names.{digit_at, print_decimal, decimal}

-- the number that a numeral denotes, after the digits of `acc`
unfoldable value : ℕ → String → ℕ
value acc [] = acc
value acc (c ∷ s) = value (acc * 10 + (code c - 48)) s

digit-value : (d : ℕ) → d < 10 → code (digit_at "0123456789" d) - 48 ≡ d
digit-value zero h = refl
digit-value (suc zero) h = refl
digit-value (suc (suc zero)) h = refl
digit-value (suc (suc (suc zero))) h = refl
digit-value (suc (suc (suc (suc zero)))) h = refl
digit-value (suc (suc (suc (suc (suc zero))))) h = refl
digit-value (suc (suc (suc (suc (suc (suc zero)))))) h = refl
digit-value (suc (suc (suc (suc (suc (suc (suc zero))))))) h = refl
digit-value (suc (suc (suc (suc (suc (suc (suc (suc zero)))))))) h = refl
digit-value (suc (suc (suc (suc (suc (suc (suc (suc (suc zero))))))))) h = refl
digit-value (suc (suc (suc (suc (suc (suc (suc (suc (suc (suc d)))))))))) h =
    absurd (omega (arith, h))

print_decimal-value :
    (fuel n : ℕ) (rest : String) → n < fuel → value 0 (print_decimal fuel n rest) ≡ value n rest
unfolding value print_decimal
print_decimal-value zero n rest h = absurd (omega (arith, h))
print_decimal-value (suc fuel) n rest h =
    let digit : ℕ = code (digit_at "0123456789" (n % 10)) - 48 in
    let same : digit ≡ n % 10 = digit-value (n % 10) (omega arith) in
    if-intro (λ (s : String). value 0 s ≡ value n rest) (n / 10 == 0)
      (λ small.
        let zero_above : n / 10 ≡ 0 = ground (arith, small) in
        ap (λ k. value k rest) (omega (arith, same, zero_above)))
      (λ large.
        let above : (n / 10 ≡ 0 → ⊥) = λ e. ground (arith, large, e) in
        print_decimal-value fuel (n / 10) (digit_at "0123456789" (n % 10) ∷ rest)
          (omega (arith, h, above))
        ∙ ap (λ k. value k rest) (omega (arith, same)))

pub decimal-injective : (m n : ℕ) → decimal m ≡ decimal n → m ≡ n
unfolding decimal value
decimal-injective m n e =
    sym (print_decimal-value (suc m) m "" (omega arith))
    ∙ (ap (value 0) e ∙ print_decimal-value (suc n) n "" (omega arith))
