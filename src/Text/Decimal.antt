-- ===== src/Text/Decimal.antt =====
-- strconv.FormatUint(n, 10) and strconv.ParseUint(s, 10, 64). Twenty digits hold every uint64.
use Prim.Native.Char.{Char, code}
use Prim.Native.String.{String, []}
use native.Mathlib.Nat.{pow-suc}
use harnessing.Prelude.{
  ℕ, zero, suc, ◌+◌, ◌-◌, ◌*◌, ◌/◌, ◌%◌, ◌^◌, ◌<◌, Option, none, some, ◌≡◌, refl, ◌∙◌, arith, ltb,
  leb, ◌||◌, if◌then◌else◌, Bool-cases, inl, inr,
}

abbrev pub u64_mod : ℕ
u64_mod = 18446744073709551616

abbrev pub digit : ℕ → Char
digit zero = "0"
digit (suc zero) = "1"
digit (suc (suc zero)) = "2"
digit (suc (suc (suc zero))) = "3"
digit (suc (suc (suc (suc zero)))) = "4"
digit (suc (suc (suc (suc (suc zero))))) = "5"
digit (suc (suc (suc (suc (suc (suc zero)))))) = "6"
digit (suc (suc (suc (suc (suc (suc (suc zero))))))) = "7"
digit (suc (suc (suc (suc (suc (suc (suc (suc zero)))))))) = "8"
digit _ = "9"

format_digits : ℕ → ℕ → String → String
format_digits zero n out = out
format_digits (suc k) n out =
    let rest = format_digits k (n / 10) (String.◌∷◌ (digit (n % 10)) out) in
    if ltb n 10 then String.◌∷◌ (digit n) out else rest

unfoldable pub format_uint : ℕ → String
unfolding format_digits
format_uint n = format_digits 20 n []

parse_digits : String → ℕ → Option ℕ
parse_digits [] n = some n
parse_digits (String.◌∷◌ c s) n =
    let rest = parse_digits s (n * 10 + (code c - 48)) in
    if ltb (code c) 48 || ltb 57 (code c)
    then none
    else if leb u64_mod (n * 10 + (code c - 48))
    then none
    else rest

unfoldable pub parse_uint : String → Option ℕ
unfolding parse_digits
parse_uint [] = none
parse_uint (String.◌∷◌ c s) = parse_digits (String.◌∷◌ c s) 0

code-digit : (d : ℕ) → d < 10 → code (digit d) ≡ 48 + d
code-digit zero h = refl
code-digit (suc zero) h = refl
code-digit (suc (suc zero)) h = refl
code-digit (suc (suc (suc zero))) h = refl
code-digit (suc (suc (suc (suc zero)))) h = refl
code-digit (suc (suc (suc (suc (suc zero))))) h = refl
code-digit (suc (suc (suc (suc (suc (suc zero)))))) h = refl
code-digit (suc (suc (suc (suc (suc (suc (suc zero))))))) h = refl
code-digit (suc (suc (suc (suc (suc (suc (suc (suc zero)))))))) h = refl
code-digit (suc (suc (suc (suc (suc (suc (suc (suc (suc zero))))))))) h = refl
code-digit (suc (suc (suc (suc (suc (suc (suc (suc (suc (suc d)))))))))) h = absurd (omega arith)

-- One digit more.
parse-digit :
    (m d n : ℕ) (out : String)
    → d < 10
    → m * 10 + d ≡ n
    → n < u64_mod
    → parse_digits (String.◌∷◌ (digit d) out) m ≡ parse_digits out n
unfolding parse_digits
parse-digit m d n out hd e hn =
    let v : m * 10 + (code (digit d) - 48) ≡ n = omega (arith, code-digit d hd) in
    rw v (ground (arith, code-digit d hd))

parse-format_digits :
    (k n : ℕ) (out : String)
    → n < 10 ^ k
    → n < u64_mod
    → parse_digits (format_digits k n out) 0 ≡ parse_digits out n
unfolding format_digits
parse-format_digits zero n out h u = let z : n ≡ 0 = omega arith in rw z
parse-format_digits (suc k) n out h u = elim (Bool-cases (ltb n 10)) [
  | inl c ↦ rw c (parse-digit 0 n n out (ground arith) (omega arith) u)
  | inr c ↦ rw c (
      parse-format_digits k (n / 10) (String.◌∷◌ (digit (n % 10)) out) (omega (arith, pow-suc 10 k))
        (omega arith)
      ∙ parse-digit (n / 10) (n % 10) n out (omega arith) (omega arith) u)
]

-- A text that has a first character is parsed digit by digit.
parse_uint-format_digits :
    (k n : ℕ) (c : Char) (out : String)
    → parse_uint (format_digits k n (String.◌∷◌ c out))
      ≡ parse_digits (format_digits k n (String.◌∷◌ c out)) 0
unfolding format_digits parse_uint
parse_uint-format_digits zero n c out = refl
parse_uint-format_digits (suc k) n c out = elim (Bool-cases (ltb n 10)) [
  | inl e ↦ rw e
  | inr e ↦ rw e (parse_uint-format_digits k (n / 10) (digit (n % 10)) (String.◌∷◌ c out))
]

parse_uint-format_uint_digits :
    (n : ℕ) → parse_uint (format_uint n) ≡ parse_digits (format_uint n) 0
unfolding format_uint parse_uint
parse_uint-format_uint_digits n = elim (Bool-cases (ltb n 10)) [
  | inl e ↦ rw e
  | inr e ↦ rw e (parse_uint-format_digits 19 (n / 10) (digit (n % 10)) [])
]

-- A printed uint64 parses back to itself.
pub parse_uint-format_uint : (n : ℕ) → n < u64_mod → parse_uint (format_uint n) ≡ some n
unfolding format_uint
parse_uint-format_uint n u =
    parse_uint-format_uint_digits n
    ∙ parse-format_digits 20 n [] (omega arith) u
    ∙ unfold parse_digits in refl
