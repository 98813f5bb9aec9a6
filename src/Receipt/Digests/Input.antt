-- ===== src/Receipt/Digests/Input.antt =====
-- server/receipt.js:203-205: the 160 bytes that the precompile reads.
use mathlib.Core.List.{append-nil}
use monadguard.Base.{
  ℕ, suc, zero, ◌+◌, ◌-◌, ◌*◌, ◌≤◌, ◌≡◌, ◌∙◌, sym, refl, ap, List, [], ◌∷◌, ◌++◌, Text, lit, length,
  drop, take, length-append, arith, ◌^◌, ◌<◌,
}
use monadguard.Receipt.Digests.{pad, strip, to_hex, sign_digest, precompile_input, without_prefix}
use monadguard.Receipt.Digests.Hex.{hex_value, pad-IsWord, length-pad}

-- The word at place `i` of an input that begins with `0x`.
abbrev pub word : ℕ → Text → Text
word i input = take 64 (drop (2 + 64 * i) input)

length-drop : (n : ℕ) (s : Text) → length (drop n s) ≡ length s - n
length-drop zero s = omega arith
length-drop (suc n) [] = omega arith
length-drop (suc n) (c ∷ s) = omega (arith, length-drop n s)

take-append : (s t : Text) → take (length s) (s ++ t) ≡ s
take-append [] [] = refl
take-append [] (c ∷ t) = refl
take-append (c ∷ s) t = ap (λ r. c ∷ r) (take-append s t)

drop-append : (n : ℕ) (s t : Text) → drop (length s + n) (s ++ t) ≡ drop n t
drop-append n [] t = ap (λ k. drop k t) (omega arith)
drop-append n (c ∷ s) t =
    let e : suc (length s) + n ≡ suc (length s + n) = omega arith in
    ap (λ k. drop k (c ∷ s ++ t)) e ∙ drop-append n s t

first_word : (s t : Text) → length s ≡ 64 → take 64 (s ++ t) ≡ s
first_word s t h = ap (λ n. take n (s ++ t)) (sym h) ∙ take-append s t

skip_word : (n : ℕ) (s t : Text) → length s ≡ 64 → drop (64 + n) (s ++ t) ≡ drop n t
skip_word n s t h = ap (λ k. drop (k + n) (s ++ t)) (sym h) ∙ drop-append n s t

last_word : (s : Text) → length s ≡ 64 → take 64 s ≡ s
last_word s h = ap (λ t. take 64 t) (sym (append-nil s)) ∙ first_word s [] h

five_words :
    (a b c d e : Text)
    → length a ≡ 64
    → length b ≡ 64
    → length c ≡ 64
    → length d ≡ 64
    → length e ≡ 64
    → let input = lit "0x" ++ (a ++ (b ++ (c ++ (d ++ e)))) in
      (length input ≡ 322)
      × (word 0 input ≡ a)
      × (word 1 input ≡ b)
      × (word 2 input ≡ c)
      × (word 3 input ≡ d)
      × (word 4 input ≡ e)
five_words a b c d e ha hb hc hd he = (
  omega (
    arith,
    length-append a (b ++ (c ++ (d ++ e))),
    length-append b (c ++ (d ++ e)),
    length-append c (d ++ e),
    length-append d e,
  ),
  first_word a _ ha,
  ap (take 64) (skip_word 0 a _ ha) ∙ first_word b _ hb,
  ap (take 64) (skip_word 64 a _ ha ∙ skip_word 0 b _ hb) ∙ first_word c _ hc,
  ap (take 64) (skip_word 128 a _ ha ∙ skip_word 64 b _ hb ∙ skip_word 0 c _ hc)
      ∙ first_word d _ hd,
  ap (take 64)
        (skip_word 192 a _ ha ∙ skip_word 128 b _ hb ∙ skip_word 64 c _ hc ∙ skip_word 0 d _ hd)
      ∙ last_word e he,
)

pad-full : (t : Text) → length t ≡ 64 → pad t ≡ t
unfolding pad
pad-full t h = rw h refl

-- What a signature over a digest says, and where the contract's precompile reads it.
pub record IsInput (input digest x y : Text) (r s : ℕ) : Type 0 where
  pub is_160_bytes : length input ≡ 2 + 2 * 160
  pub is_digest : word 0 input ≡ strip digest
  pub is_r : hex_value (word 1 input) ≡ r
  pub is_s : hex_value (word 2 input) ≡ s
  pub is_x : word 3 input ≡ strip x
  pub is_y : word 4 input ≡ strip y

abbrev pub IsHexWord : Text → Type 0
IsHexWord t = length t ≤ 66

length-strip : (t : Text) → IsHexWord t → length (strip t) ≡ 64
unfolding strip
length-strip t h = length-pad (drop 2 t) (omega (arith, length-drop 2 t))

-- For a digest and the halves of a key of 66 characters at most, and a signature whose halves are
-- below 2^256, precompileInput of what signDigest gives has exactly 160 bytes, in which the five
-- words are the digest, the two halves of the signature as numbers, and the key.
pub sign_digest-IsInput :
    (hex_to_bytes : Text → List ℕ) (sign : List ℕ → Text → ℕ × ℕ) (digest secret x y : Text)
    (r s : ℕ)
    → sign (hex_to_bytes (without_prefix digest)) secret ≡ (r, s)
    → r < 16 ^ 64
    → s < 16 ^ 64
    → IsHexWord digest
    → IsHexWord x
    → IsHexWord y
    → IsInput
        (precompile_input digest (sign_digest hex_to_bytes sign digest secret) x y)
        digest
        x
        y
        r
        s
unfolding precompile_input strip sign_digest
sign_digest-IsInput hex_to_bytes sign digest secret x y r s e hr hs hd hx hy =
    let (vr, lr) = pad-IsWord r hr in
    let (vs, ls) = pad-IsWord s hs in
    let (n, d, wr, ws, wx, wy) =
      five_words (strip digest) (pad (to_hex r)) (pad (to_hex s)) (strip x) (strip y)
        (length-strip digest hd) lr ls (length-strip x hx) (length-strip y hy) in
    rw (e, pad-full (pad (to_hex r)) lr, pad-full (pad (to_hex s)) ls)
      (record {
        is_160_bytes = n;
        is_digest = d;
        is_r = ap hex_value wr ∙ vr;
        is_s = ap hex_value ws ∙ vs;
        is_x = wx;
        is_y = wy;
      })
