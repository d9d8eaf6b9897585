-- ===== src/Str/Numbers/RoundTrip.antt =====
-- src/string.c: `atoi` reads what `itoa` writes.
use edge_os.Prelude.{
  pick, ℕ, zero, suc, ◌≡◌, refl, sym, ap, ◌∙◌, ◌≢◌, ◌+◌, ◌-◌, ◌*◌, ◌/◌, ◌%◌, ◌≤◌, ◌<◌, List, [],
  ◌∷◌, arith, ◌==◌,
}
use edge_os.Prelude.Int.{ℤ, pos, negsuc}
use edge_os.Str.Chars.{isspace}
use edge_os.Str.Numbers.{
  wrap, to_int, minus, minus_int, digit_char, digits, digits_fuel, turned, uint_text, itoa,
  skip_spaces, read_digits, read_signed, atoi,
}

-- the digits of a list, the last first
abbrev value : List ℕ → ℕ
value [] = 0
value (c ∷ cs) = (c - 48) + 10 * value cs

abbrev AllDigits : List ℕ → Type 0
AllDigits [] = Unit {0}
AllDigits (c ∷ cs) = (48 ≤ c) × (c ≤ 57) × AllDigits cs

abbrev tens : ℕ → ℕ
tens zero = 1
tens (suc n) = 10 * tens n

digits-AllDigits : (fuel u : ℕ) → AllDigits (digits fuel 10 u)
unfolding digits
digits-AllDigits zero u = tt
digits-AllDigits (suc fuel) u =
    pick AllDigits (u == 0) _ _ (λ z. tt)
      (λ nz. (ground arith, ground arith, digits-AllDigits fuel (u / 10)))

digit_value : (r : ℕ) → r < 10 → digit_char r - 48 ≡ r
digit_value r h = ground arith

-- enough fuel: the number has at most that many digits
value-digits : (fuel u : ℕ) → u < tens fuel → value (digits fuel 10 u) ≡ u
unfolding digits
value-digits zero u h = omega arith
value-digits (suc fuel) u h =
    pick (λ z. value z ≡ u) (u == 0) _ _ (λ z. ground arith)
      (λ nz.
        let rest = value-digits fuel (u / 10) (omega arith) in
        let d = digit_value (u % 10) (omega arith) in omega arith)

read_digits-turned :
    (cs acc : List ℕ)
    → AllDigits cs
    → value cs < 4294967296
    → read_digits 0 (turned cs acc) ≡ read_digits (value cs) acc
unfolding read_digits
read_digits-turned [] acc d small = refl
read_digits-turned (c ∷ cs) acc d small =
    read_digits-turned cs (c ∷ acc) d.2 (omega arith) ∙ ground arith

uint-read : (u : ℕ) → u < 4294967296 → read_digits 0 (uint_text 10 u) ≡ u
unfolding uint_text
uint-read u h =
    pick (λ z. read_digits 0 z ≡ u) (u == 0) _ _ (λ z. unfold read_digits in ground arith)
      (λ nz.
        let v = value-digits digits_fuel u (omega arith) in
        read_digits-turned (digits digits_fuel 10 u) [] (digits-AllDigits digits_fuel u)
          (omega arith)
        ∙ unfold read_digits in v)

-- the text of a number starts with a digit
abbrev StartsWithDigit : List ℕ → Type 0
StartsWithDigit [] = ⊥
StartsWithDigit (c ∷ cs) = (48 ≤ c) × (c ≤ 57)

turned-StartsWithDigit :
    (cs acc : List ℕ) → AllDigits cs → StartsWithDigit acc → StartsWithDigit (turned cs acc)
turned-StartsWithDigit [] acc d h = h
turned-StartsWithDigit (c ∷ cs) acc d h = turned-StartsWithDigit cs (c ∷ acc) d.2 (d.0, d.1)

turned-start : (cs : List ℕ) → AllDigits cs → cs ≢ [] → StartsWithDigit (turned cs [])
turned-start [] d ne = ne refl
turned-start (c ∷ cs) d ne = turned-StartsWithDigit cs (c ∷ []) d.2 (d.0, d.1)

uint-StartsWithDigit : (u : ℕ) → u < 4294967296 → StartsWithDigit (uint_text 10 u)
unfolding uint_text
uint-StartsWithDigit u h =
    pick StartsWithDigit (u == 0) _ _ (λ z. (omega arith, omega arith))
      (λ nz. turned-start (digits digits_fuel 10 u) (digits-AllDigits digits_fuel u) λ e.
        let v = value-digits digits_fuel u (omega arith) in
        let z : 0 ≡ u = ap value (sym e) ∙ v in ground arith)

read-start : (s : List ℕ) → StartsWithDigit s → atoi s ≡ to_int (read_digits 0 s)
unfolding atoi skip_spaces isspace read_signed
read-start [] h = absurd h
read-start (c ∷ cs) h = ground arith

minus-read : (cs : List ℕ) → atoi (minus ∷ cs) ≡ minus_int (read_digits 0 cs)
unfolding atoi skip_spaces isspace read_signed
minus-read cs = refl

to_int-small : (n : ℕ) → n < 2147483648 → to_int n ≡ pos n
to_int-small n h = ground arith

minus_int-small : (n : ℕ) → n < 2147483647 → minus_int (n + 1) ≡ negsuc n
minus_int-small n h =
    let w : wrap (4294967296 - (n + 1)) ≡ 4294967295 - n = omega arith in
    ap to_int w ∙ big (4294967295 - n) (omega arith) ∙ ap negsuc (omega arith)
  where
    big : (m : ℕ) → 2147483648 ≤ m → to_int m ≡ negsuc (4294967295 - m)
    big m h = ground arith

-- the values of an `int`, without the least one
abbrev pub InInt : ℤ → Type 0
InInt (pos n) = n < 2147483648
InInt (negsuc n) = n < 2147483647

-- For every `int` but the least one, `atoi` reads what `itoa` writes in base ten as the number.
pub atoi-itoa : (d : ℤ) → InInt d → atoi (itoa 100 d) ≡ d
unfolding itoa
atoi-itoa (pos n) h =
    let same : wrap n ≡ n = omega arith in
    ap (λ u. atoi (uint_text 10 u)) same
    ∙ read-start (uint_text 10 n) (uint-StartsWithDigit n (omega arith))
    ∙ ap to_int (uint-read n (omega arith))
    ∙ to_int-small n h
atoi-itoa (negsuc n) h =
    let same : wrap (n + 1) ≡ n + 1 = omega arith in
    ap (λ u. atoi (minus ∷ uint_text 10 u)) same
    ∙ minus-read (uint_text 10 (n + 1))
    ∙ ap minus_int (uint-read (n + 1) (omega arith))
    ∙ minus_int-small n h
