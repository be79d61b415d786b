-- ===== src/MemoryDao/Decimal.antt =====
-- Decimal numbers of 64 bits in texts, as `u64` prints and parses them.
use nebula_id.Prelude.{
  ℕ, zero, suc, ◌+◌, ◌-◌, ◌*◌, ◌/◌, ◌%◌, ◌^◌, ◌≤◌, ◌<◌, ◌≡◌, refl, ◌∙◌, arith, Bool-cases, inl, inr,
  ◌&&◌, [], ◌∷◌, Option, none, some, if◌then◌else◌, ltb, leb, ◌==◌,
}
use nebula_id.MemoryDao.Glob.{Text}

-- The digits of `n`, at most so many, before `rest`.
unfoldable pub digits : ℕ → ℕ → Text → Text
digits zero n rest = rest
digits (suc most) n rest =
    let longer = digits most (n / 10) ((48 + n % 10) ∷ rest) in
    if ltb n 10 then (48 + n) ∷ rest else longer

-- `to_string`; 2 ^ 64 has twenty digits.
unfoldable pub to_string : ℕ → Text
to_string n = digits 20 n []

unfoldable pub parse_digits : ℕ → Text → Option ℕ
parse_digits v [] = some v
parse_digits v (c ∷ cs) =
    let rest = parse_digits (v * 10 + (c - 48)) cs in
    if leb 48 c && ltb c 58 && ltb (v * 10 + (c - 48)) (2 ^ 64) then rest else none

unfoldable pub parse_unsigned : Text → Option ℕ
parse_unsigned [] = none
parse_unsigned (c ∷ cs) = parse_digits 0 (c ∷ cs)

-- `parse`: a plus sign may stand in front, and a text without digits or past 64 bits is no number.
unfoldable pub parse : Text → Option ℕ
parse [] = none
parse (c ∷ cs) = if c == 43 then parse_unsigned cs else parse_unsigned (c ∷ cs)

-- Numbers with so many digits are below this.
unfoldable pub limit : ℕ → ℕ
limit zero = 1
limit (suc most) = 10 * limit most

parse_digit :
    (v d n : ℕ) (cs : Text)
    → d < 10
    → v * 10 + d ≡ n
    → n < 2 ^ 64
    → parse_digits v ((48 + d) ∷ cs) ≡ parse_digits n cs
unfolding parse_digits
parse_digit v d n cs low value small =
    let next : v * 10 + (48 + d - 48) ≡ n = omega (arith, value) in rw next (ground arith)

parse_digits-digits :
    (most n : ℕ) (rest : Text)
    → n < limit most
    → n < 2 ^ 64
    → parse_digits 0 (digits most n rest) ≡ parse_digits n rest
unfolding digits limit
parse_digits-digits zero n rest few small =
    let none_left : n ≡ 0 = omega (arith, few) in rw none_left refl
parse_digits-digits (suc most) n rest few small = elim (Bool-cases (ltb n 10)) [
  | inl last ↦ rw last (parse_digit 0 n n rest (ground arith) (omega arith) small)
  | inr more ↦ rw more (
      parse_digits-digits most (n / 10) ((48 + n % 10) ∷ rest) (omega (arith, few))
        (omega (arith, small))
      ∙ parse_digit (n / 10) (n % 10) n rest (omega arith) (omega arith) small)
]

-- The text begins with a digit.
abbrev Begun : Text → Type 0
Begun [] = ⊥
Begun (c ∷ cs) = 48 ≤ c

digits-Begun : (most n : ℕ) (rest : Text) → Begun rest → Begun (digits most n rest)
unfolding digits
digits-Begun zero n rest begun = begun
digits-Begun (suc most) n rest begun = elim (Bool-cases (ltb n 10)) [
  | inl last ↦ rw last (omega arith)
  | inr more ↦ rw more (digits-Begun most (n / 10) ((48 + n % 10) ∷ rest) (omega arith))
]

to_string-Begun : (n : ℕ) → Begun (to_string n)
unfolding to_string digits
to_string-Begun n = elim (Bool-cases (ltb n 10)) [
  | inl last ↦ rw last (omega arith)
  | inr more ↦ rw more (digits-Begun 19 (n / 10) ((48 + n % 10) ∷ []) (omega arith))
]

parse-Begun : (cs : Text) → Begun cs → parse cs ≡ parse_digits 0 cs
unfolding parse parse_unsigned
parse-Begun [] begun = absurd begun
parse-Begun (c ∷ cs) begun = ground arith

-- A printed number is parsed back.
pub parse-to_string : (n : ℕ) → n < 2 ^ 64 → parse (to_string n) ≡ some n
unfolding to_string limit parse_digits
parse-to_string n small =
    parse-Begun (to_string n) (to_string-Begun n)
    ∙ parse_digits-digits 20 n [] (omega (arith, small)) small
