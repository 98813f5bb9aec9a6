-- ===== src/Receipt/Digests/Hex.antt =====
-- The words of server/receipt.js:193-205: 64 hexadecimal digits each.
use monadguard.Base.{
  ℕ, suc, zero, ◌+◌, ◌-◌, ◌*◌, ◌/◌, ◌%◌, ◌^◌, ◌<◌, ◌≤◌, ◌≡◌, ◌∙◌, refl, ap, [], ◌∷◌, ◌++◌, Text,
  length, replicate, ltb, if◌then◌else◌, length-append, length-replicate, arith, Bool-cases, inl,
  inr, ltb→lt, lt→ltb,
}
use monadguard.Receipt.Digests.{pad, hex_digit, hex_digits, to_hex}

-- The number that hexadecimal digits stand for, after `n`.
abbrev pub digit_value : ℕ → ℕ
digit_value c = if ltb c 58 then c - 48 else c - 87

unfoldable pub read_hex : ℕ → Text → ℕ
read_hex n [] = n
read_hex n (c ∷ s) = read_hex (n * 16 + digit_value c) s

unfoldable pub hex_value : Text → ℕ
unfolding read_hex
hex_value s = read_hex 0 s

pub digit_value-hex_digit : (n : ℕ) → n < 16 → digit_value (hex_digit n) ≡ n
unfolding hex_digit
digit_value-hex_digit n h = ground arith

read_hex-hex_digits :
    (fuel n : ℕ) (rest : Text) → n < fuel → read_hex 0 (hex_digits fuel n rest) ≡ read_hex n rest
unfolding read_hex hex_digits
read_hex-hex_digits zero n rest h = absurd (omega arith)
read_hex-hex_digits (suc fuel) n rest h = elim (Bool-cases (ltb n 16)) [
  | inl e ↦
      rw e (ap (λ k. read_hex k rest) (omega (arith, digit_value-hex_digit n (ltb→lt n 16 e))))
  | inr e ↦ rw e (
      read_hex-hex_digits fuel (n / 16) (hex_digit (n % 16) ∷ rest) (ground (arith, e))
      ∙ ap (λ k. read_hex k rest)
          (ap (λ d. n / 16 * 16 + d) (digit_value-hex_digit (n % 16) (omega arith)) ∙ omega arith))
]

-- Enough fuel: the digits are those of the number.
hex_value-to_hex : (n : ℕ) → hex_value (to_hex n) ≡ n
unfolding hex_value to_hex read_hex
hex_value-to_hex n = read_hex-hex_digits (suc n) n [] (omega arith)

read_hex-zeros : (k : ℕ) (s : Text) → read_hex 0 (replicate k b'0' ++ s) ≡ read_hex 0 s
unfolding read_hex
read_hex-zeros zero s = refl
read_hex-zeros (suc k) s = read_hex-zeros k s

pub hex_value-pad : (n : ℕ) → hex_value (pad (to_hex n)) ≡ n
unfolding hex_value pad
hex_value-pad n = read_hex-zeros (64 - length (to_hex n)) (to_hex n) ∙ hex_value-to_hex n

length-hex_digits :
    (fuel n w : ℕ) (rest : Text)
    → n < 16 ^ suc w
    → length (hex_digits fuel n rest) ≤ suc w + length rest
unfolding hex_digits
length-hex_digits zero n w rest h = omega arith
length-hex_digits (suc fuel) n zero rest h = rw (lt→ltb n 16 (omega arith)) (omega arith)
length-hex_digits (suc fuel) n (suc w) rest h = elim (Bool-cases (ltb n 16)) [
  | inl e ↦ rw e (omega arith)
  | inr e ↦ rw e (
      let k = length-hex_digits fuel (n / 16) w (hex_digit (n % 16) ∷ rest) (omega arith) in
      omega arith)
]

pub length-pad : (digits : Text) → length digits ≤ 64 → length (pad digits) ≡ 64
unfolding pad
length-pad digits h = omega (
  arith,
  length-append (replicate (64 - length digits) b'0') digits,
  length-replicate {A = ℕ} (64 - length digits) b'0',
)

abbrev pub IsWord : ℕ → Text → Type 0
IsWord n t = (hex_value t ≡ n) × (length t ≡ 64)

pub pad-IsWord : (n : ℕ) → n < 16 ^ 64 → IsWord n (pad (to_hex n))
unfolding to_hex
pad-IsWord n h =
    (hex_value-pad n, length-pad (to_hex n) (omega (arith, length-hex_digits (suc n) n 63 [] h)))
