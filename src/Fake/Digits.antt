-- ===== src/Fake/Digits.antt =====
-- Numbers in text, as `std::to_string` and the format `%016llx` print them, and back.
use msgq.Base.{
  lt→ltb, zero, suc, ◌+◌, ◌-◌, ◌*◌, ◌/◌, ◌%◌, ◌^◌, ◌≤◌, ◌<◌, ◌≡◌, refl, sym, ap, ◌∙◌, ◌≢◌, ◌⊎◌, inl,
  inr, List, [], ◌∷◌, ◌++◌, arith, length, length-append, ltb, if◌then◌else◌, Bool-cases, ℕ,
}

-- `std::to_string` of a number of at most `f + 1` digits
unfoldable pub decimal_from : ℕ → ℕ → List ℕ
decimal_from zero n = (48 + n % 10) ∷ []
decimal_from (suc f) n =
    let rest = decimal_from f (n / 10) in
    if ltb n 10 then (48 + n) ∷ [] else rest ++ (48 + n % 10) ∷ []

-- of a 64-bit number
abbrev pub decimal : ℕ → List ℕ
decimal n = decimal_from 19 n

unfoldable pub hex_digit : ℕ → ℕ
hex_digit d = if ltb d 10 then 48 + d else 87 + d

-- `k` hexadecimal digits
unfoldable pub hex : ℕ → ℕ → List ℕ
hex zero v = []
hex (suc k) v = hex k (v / 16) ++ hex_digit (v % 16) ∷ []

-- the number that digits to a base stand for
of_digits : ℕ → (ℕ → ℕ) → ℕ → List ℕ → ℕ
of_digits base value acc [] = acc
of_digits base value acc (x ∷ xs) = of_digits base value (acc * base + value x) xs

of_digits-append :
    (base : ℕ) (value : ℕ → ℕ) (acc : ℕ) (xs : List ℕ) (x : ℕ)
    → of_digits base value acc (xs ++ x ∷ []) ≡ of_digits base value acc xs * base + value x
unfolding of_digits
of_digits-append base value acc [] x = refl
of_digits-append base value acc (y ∷ xs) x = of_digits-append base value (acc * base + value y) xs x

abbrev decimal_value : ℕ → ℕ
decimal_value x = x - 48

hex_value : ℕ → ℕ
hex_value x = if ltb x 58 then x - 48 else x - 87

hex_value-hex_digit : (d : ℕ) → d < 16 → hex_value (hex_digit d) ≡ d
unfolding hex_value hex_digit
hex_value-hex_digit d h = ground arith

-- `b ^ (k + 1)`
abbrev pub power : ℕ → ℕ → ℕ
power b zero = b
power b (suc k) = b * power b k

of_decimal : (f n : ℕ) → n < power 10 f → of_digits 10 decimal_value 0 (decimal_from f n) ≡ n
unfolding decimal_from of_digits
of_decimal zero n h = omega arith
of_decimal (suc f) n h = elim (Bool-cases (ltb n 10)) [
  | inl short ↦ rw short (omega arith)
  | inr long ↦ rw long (
      of_digits-append 10 decimal_value 0 (decimal_from f (n / 10)) (48 + n % 10)
      ∙ omega (arith, of_decimal f (n / 10) (omega (arith, h))))
]

of_hex : (k v : ℕ) → v < power 16 k → of_digits 16 hex_value 0 (hex (suc k) v) ≡ v
unfolding hex of_digits
of_hex zero v h = omega (arith, h, hex_value-hex_digit (v % 16) (omega arith))
of_hex (suc k) v h =
    of_digits-append 16 hex_value 0 (hex (suc k) (v / 16)) (hex_digit (v % 16))
    ∙ omega
        (arith, of_hex k (v / 16) (omega (arith, h)), hex_value-hex_digit (v % 16) (omega arith))

-- Different numbers are printed differently.
pub decimal-injective : (m n : ℕ) → m < 2 ^ 64 → n < 2 ^ 64 → decimal m ≡ decimal n → m ≡ n
decimal-injective m n hm hn e =
    sym (of_decimal 19 m (omega (arith, hm)))
    ∙ ap (of_digits 10 decimal_value 0) e
    ∙ of_decimal 19 n (omega (arith, hn))

pub hex-injective : (m n : ℕ) → m < 2 ^ 64 → n < 2 ^ 64 → hex 16 m ≡ hex 16 n → m ≡ n
hex-injective m n hm hn e =
    sym (of_hex 15 m (omega (arith, hm)))
    ∙ ap (of_digits 16 hex_value 0) e
    ∙ of_hex 15 n (omega (arith, hn))

pub length-hex : (k v : ℕ) → length (hex k v) ≡ k
unfolding hex
length-hex zero v = refl
length-hex (suc k) v =
    omega (arith, length-append (hex k (v / 16)) (hex_digit (v % 16) ∷ []), length-hex k (v / 16))

-- A number has no more digits than its size allows.
pub length-decimal_from : (f k n : ℕ) → n < power 10 k → length (decimal_from f n) ≤ k + 1
unfolding decimal_from
length-decimal_from zero k n h = omega arith
length-decimal_from (suc f) zero n h = rw (lt→ltb n 10 h) (omega arith)
length-decimal_from (suc f) (suc k) n h = elim (Bool-cases (ltb n 10)) [
  | inl short ↦ rw short (omega arith)
  | inr long ↦ rw long (
      omega (
        arith,
        length-append (decimal_from f (n / 10)) ((48 + n % 10) ∷ []),
        length-decimal_from f k (n / 10) (omega (arith, h)),
      ))
]

-- No digit is one of these bytes.
abbrev pub Free : ℕ → List ℕ → Type 0
Free sep [] = Unit
Free sep (x ∷ xs) = (x ≢ sep) × Free sep xs

Free-append : (sep : ℕ) (xs ys : List ℕ) → Free sep xs → Free sep ys → Free sep (xs ++ ys)
Free-append sep [] ys f g = g
Free-append sep (x ∷ xs) ys (apart, f) g = (apart, Free-append sep xs ys f g)

pub decimal_from-Free : (sep f n : ℕ) → ((sep < 48) ⊎ (57 < sep)) → Free sep (decimal_from f n)
unfolding decimal_from
decimal_from-Free sep zero n h = (λ e. ground (arith, h, e), tt)
decimal_from-Free sep (suc f) n h = elim (Bool-cases (ltb n 10)) [
  | inl short ↦ rw short (λ e. ground (arith, h, e, short), tt)
  | inr long ↦ rw long (
      Free-append sep (decimal_from f (n / 10)) _ (decimal_from-Free sep f (n / 10) h)
        (λ e. ground (arith, h, e), tt))
]

-- A text is cut at the first of these bytes.
pub cut_at :
    (sep : ℕ) (xs ys us vs : List ℕ)
    → Free sep xs
    → Free sep us
    → xs ++ sep ∷ ys ≡ us ++ sep ∷ vs
    → (xs ≡ us) × (ys ≡ vs)
cut_at sep [] ys [] vs f g e = (refl, cc)
cut_at sep [] ys (u ∷ us) vs f g e = absurd (g.0 (cc))
cut_at sep (x ∷ xs) ys [] vs f g e = absurd (f.0 (cc))
cut_at sep (x ∷ xs) ys (u ∷ us) vs f g e =
    let (rest, more) = cut_at sep xs ys us vs f.1 g.1 (cc) in (cc, more)
