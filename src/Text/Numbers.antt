-- ===== src/Text/Numbers.antt =====
-- Lemmas on the decimal printing and parsing of unsigned integers.
use Prim.Native.Char.{code}
use k8s_power_management.Base.{
  ℕ, zero, suc, ◌+◌, ◌-◌, ◌*◌, ◌/◌, ◌%◌, ◌<◌, String, ◌≡◌, ◌∙◌, refl, sym, ap, ok, arith, inl, inr,
  Bool-cases, ltb,
}
use k8s_power_management.Text.{parse_digits, parse_uint, decimal, decimal_onto, digit}

code-digit : (n : ℕ) → n < 10 → code (digit n) ≡ n + 48
code-digit zero h = refl
code-digit (suc zero) h = refl
code-digit (suc (suc zero)) h = refl
code-digit (suc (suc (suc zero))) h = refl
code-digit (suc (suc (suc (suc zero)))) h = refl
code-digit (suc (suc (suc (suc (suc zero))))) h = refl
code-digit (suc (suc (suc (suc (suc (suc zero)))))) h = refl
code-digit (suc (suc (suc (suc (suc (suc (suc zero))))))) h = refl
code-digit (suc (suc (suc (suc (suc (suc (suc (suc zero)))))))) h = refl
code-digit (suc (suc (suc (suc (suc (suc (suc (suc (suc zero))))))))) h = refl
code-digit (suc (suc (suc (suc (suc (suc (suc (suc (suc (suc n)))))))))) h = absurd (omega arith)

parse_digits-empty : (limit n : ℕ) → parse_digits limit n "" ≡ ok n
unfolding parse_digits
parse_digits-empty limit n = refl

pub parse_digits-lt-limit :
    (limit acc : ℕ) (s : String) (n : ℕ) → acc < limit → parse_digits limit acc s ≡ ok n → n < limit
unfolding parse_digits
parse_digits-lt-limit limit acc String.[] n h e = ground arith
parse_digits-lt-limit limit acc (String.◌∷◌ c s) n h e =
    ground (arith, parse_digits-lt-limit limit (acc * 10 + (code c - 48)) s n)

-- A number that is parsed fits its type.
pub parse_uint-lt-limit :
    (limit : ℕ) (s : String) (n : ℕ) → 0 < limit → parse_uint limit s ≡ ok n → n < limit
unfolding parse_uint
parse_uint-lt-limit limit String.[] n h e = ground arith
parse_uint-lt-limit limit (String.◌∷◌ c s) n h e = ground (
  arith,
  parse_digits-lt-limit limit 0 s n,
  parse_digits-lt-limit limit (0 * 10 + (code c - 48)) s n,
)

-- Reading one printed digit.
parse_digits-digit :
    (limit acc d : ℕ) (s : String)
    → d < 10
    → acc * 10 + d < limit
    → parse_digits limit acc (String.◌∷◌ (digit d) s) ≡ parse_digits limit (acc * 10 + d) s
unfolding parse_digits
parse_digits-digit limit acc d s h b =
    let same : acc * 10 + (code (digit d) - 48) ≡ acc * 10 + d = omega (arith, code-digit d h) in
    rw same (ground (arith, code-digit d h))

parse_digits-decimal_onto :
    (limit fuel n : ℕ) (acc : String)
    → n < fuel
    → n < limit
    → parse_digits limit 0 (decimal_onto fuel n acc) ≡ parse_digits limit n acc
unfolding decimal_onto
parse_digits-decimal_onto limit zero n acc h b = absurd (omega arith)
parse_digits-decimal_onto limit (suc fuel) n acc h b = ground (
  arith,
  parse_digits-digit limit 0 n acc,
  parse_digits-decimal_onto limit fuel (n / 10) (String.◌∷◌ (digit (n % 10)) acc),
  parse_digits-digit limit (n / 10) (n % 10) acc,
)

decimal_onto-digit :
    (fuel n : ℕ) (acc : String)
    → n < fuel
    → (d : ℕ) × (rest : String) × (d < 10) × (decimal_onto fuel n acc ≡ String.◌∷◌ (digit d) rest)
unfolding decimal_onto
decimal_onto-digit zero n acc h = absurd (omega arith)
decimal_onto-digit (suc fuel) n acc h = elim (Bool-cases (ltb n 10)) [
  | inl small ↦ (n, acc, ground arith, rw small)
  | inr large ↦
      let (d, rest, p, e) =
        decimal_onto-digit fuel (n / 10) (String.◌∷◌ (digit (n % 10)) acc) (ground arith) in
      (d, rest, p, rw large e)
]

-- A text that begins with a digit has no sign to skip.
parse_uint-digit :
    (limit d : ℕ) (s : String)
    → d < 10
    → parse_uint limit (String.◌∷◌ (digit d) s) ≡ parse_digits limit 0 (String.◌∷◌ (digit d) s)
unfolding parse_uint
parse_uint-digit limit d s h = ground (arith, code-digit d h)

-- What `Display` prints of a number, `from_str` reads back.
pub parse_uint-decimal : (limit n : ℕ) → n < limit → parse_uint limit (decimal n) ≡ ok n
unfolding decimal
parse_uint-decimal limit n h =
    let (d, rest, p, e) = decimal_onto-digit (suc n) n "" (omega arith) in
    ap (parse_uint limit) e
    ∙ parse_uint-digit limit d rest p
    ∙ ap (parse_digits limit 0) (sym e)
    ∙ parse_digits-decimal_onto limit (suc n) n "" (omega arith) h
    ∙ parse_digits-empty limit n
