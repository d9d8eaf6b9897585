-- ===== src/Str/Chars/Compare.antt =====
-- src/string.c: what the comparisons decide, and what the search finds.
use mathlib.Core.Bool.{false≢true}
use edge_os.Prelude.{
  pick, length, ℕ, suc, ◌≡◌, refl, sym, ap, ◌∙◌, ◌≢◌, ◌↔◌, Option, none, some, List, [], ◌∷◌, ◌++◌,
  arith, ◌==◌, if◌then◌else◌, ℕ_discrete, true, not,
}
use edge_os.Prelude.Int.{ℤ, pos, ◌==ℤ◌, ==ℤ→eq}
use edge_os.Str.Mem.{byte_diff}
use edge_os.Str.Chars.{strlen, strcmp, strncmp, strstr, strstr_from, first_char, rest_chars}

strcmp_same : (s : List ℕ) → strcmp s s ≡ 0
unfolding strcmp
strcmp_same [] = refl
strcmp_same (a ∷ s) = ground (arith, strcmp_same s)

strcmp-eq : (s t : List ℕ) → strcmp s t ≡ 0 → s ≡ t
unfolding strcmp
strcmp-eq [] [] e = refl
strcmp-eq [] (b ∷ t) e = absurd (omega arith)
strcmp-eq (a ∷ s) [] e = absurd (omega arith)
strcmp-eq (a ∷ s) (b ∷ t) e = elim (ℕ_discrete a b) [
  | yes q ↦ rw q (ap (λ z. b ∷ z) (strcmp-eq s t (ground arith)))
  | no ne ↦ absurd (ground arith)
]

-- `strcmp` gives 0 for the same string twice, and for no other two.
pub strcmp_iff : (s t : List ℕ) → (strcmp s t ≡ 0) ↔ (s ≡ t)
strcmp_iff s t = (strcmp-eq s t, λ e. rw e (strcmp_same t))

-- a string has no NUL before its end
abbrev pub NoNul : List ℕ → Type 0
NoNul [] = Unit {0}
NoNul (c ∷ cs) = (c ≢ 0) × NoNul cs

byte_diff-ne : (a b : ℕ) → a ≢ b → byte_diff a b ≢ pos 0
byte_diff-ne a b ne e = ground arith

differ : (a b : ℕ) (x y : ℤ) → a ≢ b → (if not (a == b) then x else y) ≡ x
differ a b x y ne = ground arith

agree : (a b : ℕ) (x y : ℤ) → a ≡ b → (if not (a == b) then x else y) ≡ y
agree a b x y e = ground arith

not_nul : (a : ℕ) (x y : ℤ) → a ≢ 0 → (if a == 0 then x else y) ≡ y
not_nul a x y ne = ground arith

strncmp-differ : (s t : List ℕ) (c : ℕ) → first_char s ≢ first_char t → strncmp s t (suc c) ≢ pos 0
unfolding strncmp
strncmp-differ s t c ne e =
    byte_diff-ne (first_char s) (first_char t) ne
      (sym (differ (first_char s) (first_char t) _ _ ne) ∙ e)

strncmp-agree :
    (s t : List ℕ) (c : ℕ)
    → first_char s ≡ first_char t
    → first_char s ≢ 0
    → strncmp s t (suc c) ≡ strncmp (rest_chars s) (rest_chars t) c
unfolding strncmp
strncmp-agree s t c e ne = agree (first_char s) (first_char t) _ _ e ∙ not_nul (first_char s) _ _ ne

-- a comparison of as many characters as the second string has
prefix :
    (s t : List ℕ) → NoNul t → strncmp s t (strlen t) ≡ pos 0 → (post : List ℕ) × (s ≡ t ++ post)
unfolding strlen
prefix s [] n e = (s, refl)
prefix [] (b ∷ t) n e = absurd (strncmp-differ [] (b ∷ t) (strlen t) (λ z. n.0 (sym z)) e)
prefix (a ∷ s) (b ∷ t) n e = elim (ℕ_discrete a b) [
  | yes q ↦
      let (post, r) =
        prefix s t n.1
          (sym (strncmp-agree (a ∷ s) (b ∷ t) (strlen t) q (λ z. n.0 (sym q ∙ z))) ∙ e) in
      (post, ap (λ z. z ∷ s) q ∙ ap (λ z. b ∷ z) r)
  | no ne ↦ absurd (strncmp-differ (a ∷ s) (b ∷ t) (strlen t) ne e)
]

prefix_conv : (t post : List ℕ) → NoNul t → strncmp (t ++ post) t (strlen t) ≡ pos 0
unfolding strlen
prefix_conv [] post n = unfold strncmp in refl
prefix_conv (b ∷ t) post n =
    strncmp-agree (b ∷ (t ++ post)) (b ∷ t) (strlen t) refl n.0 ∙ prefix_conv t post n.1

==ℤ_pos : (x : ℤ) → x ≡ pos 0 → (x ==ℤ pos 0) ≡ true
==ℤ_pos x e = rw e refl

-- `text` is `pre`, then the string that is looked for, then `post`
abbrev pub Occurs : List ℕ → List ℕ → Type 0
Occurs text str = (pre : List ℕ) × (post : List ℕ) × (text ≡ pre ++ (str ++ post))

-- what the search says, right and complete
abbrev pub Finds : List ℕ → List ℕ → Option (List ℕ) → Type 0
Finds text str none = Occurs text str → ⊥
Finds text str (some r) =
    ((pre : List ℕ) × (text ≡ pre ++ r)) × ((post : List ℕ) × (r ≡ str ++ post))

nil-ne-cons : (c : ℕ) (xs : List ℕ) → [] ≡ c ∷ xs → ⊥
nil-ne-cons c xs e = omega (arith, ap length e)

not_later :
    (sc : ℕ) (rest str : List ℕ)
    → ((post : List ℕ) → sc ∷ rest ≡ str ++ post → ⊥)
    → (Occurs rest str → ⊥)
    → Occurs (sc ∷ rest) str
    → ⊥
not_later sc rest str here f ([], post, e) = here post e
not_later sc rest str here f (x ∷ pre, post, e) = f (pre, post, ap rest_chars e)

-- the answer for a text from the answer for its rest
later-Finds :
    (sc : ℕ) (rest str : List ℕ) (o : Option (List ℕ))
    → ((post : List ℕ) → sc ∷ rest ≡ str ++ post → ⊥)
    → Finds rest str o
    → Finds (sc ∷ rest) str o
later-Finds sc rest str none here f = not_later sc rest str here f
later-Finds sc rest str (some r) here f = ((sc ∷ f.0.0, ap (λ z. sc ∷ z) f.0.1), f.1)

no_text : (c : ℕ) (str : List ℕ) → Occurs [] (c ∷ str) → ⊥
no_text c str ([], post, e) = nil-ne-cons c (str ++ post) e
no_text c str (x ∷ pre, post, e) = nil-ne-cons x (pre ++ ((c ∷ str) ++ post)) e

strstr_from-Finds :
    (c : ℕ) (str text : List ℕ) → NoNul str → Finds text (c ∷ str) (strstr_from c str text)
unfolding strstr_from
strstr_from-Finds c str [] n = no_text c str
strstr_from-Finds c str (sc ∷ rest) n =
    let later = strstr_from-Finds c str rest n in
    pick (Finds (sc ∷ rest) (c ∷ str)) (not (sc == c)) _ _
      (λ differs.
        let ne : sc ≢ c = ground arith in
        later-Finds sc rest (c ∷ str) (strstr_from c str rest) (λ post e. ne (ap first_char e))
          later)
      (λ same.
        let q : sc ≡ c = ground arith in
        pick (Finds (sc ∷ rest) (c ∷ str)) (strncmp rest str (strlen str) ==ℤ pos 0) _ _
          (λ hit.
            let (post, r) =
              prefix rest str n (==ℤ→eq (strncmp rest str (strlen str)) (pos 0) hit) in
            (([], refl), (post, ap (λ z. z ∷ rest) q ∙ ap (λ z. c ∷ z) r)))
          (λ miss.
            later-Finds sc rest (c ∷ str) (strstr_from c str rest)
              (λ post e. false≢true (
                sym miss
                ∙ ==ℤ_pos _ (
                    ap (λ z. strncmp z str (strlen str)) (ap rest_chars e)
                    ∙ prefix_conv str post n)))
              later))

-- `strstr` gives the rest of the text from a place on where the string stands, and NULL only
-- where the string stands nowhere in the text.
pub strstr-Finds : (text str : List ℕ) → NoNul str → Finds text str (strstr text str)
unfolding strstr
strstr-Finds text [] n = (([], refl), (text, refl))
strstr-Finds text (c ∷ str) n = strstr_from-Finds c str text n.1
