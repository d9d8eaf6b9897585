-- ===== src/Vfs/Paths/Absolute.antt =====
-- src/vfs/vfs.c: what `normalize_path` gives.
use edge_os.Prelude.{
  pick, ℕ, zero, suc, false, ◌+◌, ◌-◌, ◌≤◌, ◌<◌, ◌≡◌, refl, ap, none, some, List, [], ◌∷◌, arith,
  ◌==◌, ltb, ◌&&◌, length, ◌++◌, ◌∙◌,
}
use edge_os.Str.Chars.{first_char, strcmp}
use edge_os.Str.Numbers.{turned}
use edge_os.Vfs.Paths.{
  slash, dot, skip_slashes, name_of, behind_name, back_to_slash, go_up, push_slash, push_chars,
  add_name, normalize_from, out_text, in_tmp, path_text, Normalized, overruns, unfinished, normal,
  normalize_text, normalize_path, vfs_path_max,
}

-- the buffer holds a text that starts with a slash
abbrev Rooted : List ℕ → Type 0
Rooted [] = ⊥
Rooted (c ∷ []) = c ≡ slash
Rooted (c ∷ d ∷ o) = Rooted (d ∷ o)

-- and that fits
abbrev Good : List ℕ → Type 0
Good o = Rooted o × (length o < vfs_path_max)

Rooted-cons : (c : ℕ) (o : List ℕ) → Rooted o → Rooted (c ∷ o)
Rooted-cons c [] r = absurd r
Rooted-cons c (d ∷ o) r = r

back_to_slash-Good : (o : List ℕ) → Good o → Good (back_to_slash o)
unfolding back_to_slash
back_to_slash-Good [] g = g
back_to_slash-Good (c ∷ []) g = pick Good (c == slash) _ _ (λ e. g) (λ e. absurd (ground arith))
back_to_slash-Good (c ∷ d ∷ o) g =
    pick Good (c == slash) _ _ (λ e. g) (λ e. back_to_slash-Good (d ∷ o) (g.0, omega arith))

go_up-Good : (o : List ℕ) → Good o → Good (go_up o)
unfolding go_up
go_up-Good [] g = absurd (g.0)
go_up-Good (c ∷ []) g = g
go_up-Good (c ∷ d ∷ o) g =
    pick Good (ltb 1 (length (c ∷ d ∷ o))) _ _ (λ e. back_to_slash-Good (d ∷ o) (g.0, omega arith))
      (λ e. g)

push_slash-Good : (o : List ℕ) → Good o → Good (push_slash o)
unfolding push_slash
push_slash-Good o g =
    pick Good (ltb 1 (length o) && ltb (length o) (vfs_path_max - 1)) (slash ∷ o) o
      (λ e. (Rooted-cons slash o g.0, ground arith)) (λ e. g)

push_chars-Good : (name o : List ℕ) → Good o → Good (push_chars name o)
unfolding push_chars
push_chars-Good [] o g = g
push_chars-Good (c ∷ name) o g =
    pick Good (ltb (length o) (vfs_path_max - 1)) _ _
      (λ e. push_chars-Good name (c ∷ o) (Rooted-cons c o g.0, ground arith)) (λ e. g)

add_name-Good : (o name : List ℕ) → Good o → Good (add_name o name)
unfolding add_name
add_name-Good o name g =
    pick Good (strcmp name (dot ∷ []) == 0) _ _ (λ e. g)
      (λ e.
        pick Good (strcmp name (dot ∷ dot ∷ []) == 0) _ _ (λ e. go_up-Good o g)
          (λ e. push_chars-Good name (push_slash o) (push_slash-Good o g)))

behind_name-length : (cs : List ℕ) → length (behind_name cs) ≤ length cs
unfolding behind_name
behind_name-length [] = omega arith
behind_name-length (c ∷ cs) =
    let rest = behind_name-length cs in
    pick (λ (z : List ℕ). length z ≤ suc (length cs)) (c == slash) _ _ (λ e. omega arith)
      (λ e. omega arith)

-- a turn of the loop leaves a shorter text
shorter :
    (text : List ℕ)
    → (first_char (skip_slashes text) == 0) ≡ false
    → length (behind_name (skip_slashes text)) < length text
unfolding skip_slashes behind_name
shorter [] h = absurd (ground arith)
shorter (c ∷ cs) h =
    pick (λ z. (first_char z == 0) ≡ false → length (behind_name z) < suc (length cs)) (c == slash)
      _ _ (λ e h'. let rest = shorter cs h' in omega arith)
      (λ e h'.
        let rest = behind_name-length cs in
        pick (λ (z : List ℕ). length z < suc (length cs)) (c == slash) _ _
          (λ e'. absurd (ground arith)) (λ e'. omega arith))
      h

normalize_from-Good :
    (fuel : ℕ) (text o : List ℕ)
    → length text < fuel
    → Good o
    → (o' : List ℕ) × (normalize_from fuel text o ≡ some o') × Good o'
unfolding normalize_from
normalize_from-Good zero text o h g = absurd (omega arith)
normalize_from-Good (suc fuel) text o h g =
    pick (λ z. (o' : List ℕ) × (z ≡ some o') × Good o') (first_char (skip_slashes text) == 0) _ _
      (λ e. (o, refl, g))
      (λ e.
        let less = shorter text e in
        normalize_from-Good fuel _ _ (omega arith)
          (add_name-Good o (name_of (skip_slashes text)) g))

first-turned : (o acc : List ℕ) → Rooted o → first_char (turned o acc) ≡ slash
first-turned [] acc r = absurd r
first-turned (c ∷ []) acc r = r
first-turned (c ∷ d ∷ o) acc r = first-turned (d ∷ o) (c ∷ acc) r

length-turned : (o acc : List ℕ) → length (turned o acc) ≡ length o + length acc
length-turned [] acc = omega arith
length-turned (c ∷ o) acc = omega (arith, length-turned o (c ∷ acc))

out_text-Good :
    (o : List ℕ) → Good o → (first_char (out_text o) ≡ slash) × (length (out_text o) < vfs_path_max)
out_text-Good [] g = absurd (g.0)
out_text-Good (c ∷ o) g =
    let n = length-turned (c ∷ o) [] in (first-turned (c ∷ o) [] g.0, omega (arith, g.1))

normalize_text-absolute :
    (text : List ℕ)
    → (out : List ℕ) × (normalize_text text ≡ normal out)
      × (first_char out ≡ slash)
      × (length out < vfs_path_max)
unfolding normalize_text
normalize_text-absolute text =
    let (o, e, g) =
      normalize_from-Good (length text + 1) text (slash ∷ []) (omega arith) (refl, omega arith) in
    let good = out_text-Good o g in
    (
      out_text o,
      ap (λ z. elim z as (λ x. Normalized) [ none ↦ unfinished | some o ↦ normal (out_text o) ]) e,
      good.0,
      good.1,
    )

length-++ : (xs ys : List ℕ) → length (xs ++ ys) ≡ length xs + length ys
length-++ [] ys = omega arith
length-++ (x ∷ xs) ys = omega (arith, length-++ xs ys)

text_fits :
    (cwd path : List ℕ)
    → length cwd + length path + 1 < vfs_path_max
    → (text : List ℕ) × (path_text cwd path ≡ some text)
unfolding path_text in_tmp
text_fits cwd [] h = (cwd, ground arith)
text_fits cwd (c ∷ path) h =
    pick (λ z. (text : List ℕ) × (z ≡ some text)) (c == slash) _ _ (λ e. (c ∷ path, ground arith))
      (λ e.
        pick (λ z. (text : List ℕ) × (z ≡ some text)) (strcmp cwd (slash ∷ []) == 0) _ _
          (λ e. (cwd ++ (c ∷ path), ground (arith, length-++ cwd (c ∷ path))))
          (λ e. (cwd ++ (slash ∷ c ∷ path), ground (arith, length-++ cwd (slash ∷ c ∷ path)))))

-- Where the current directory and the path have fewer than 255 characters together, so that the
-- text with its slash and its NUL fits the buffer in which it is put together, `normalize_path` ends
-- within its fuel, and what it gives starts with a slash and is shorter than the buffer for a path.
pub normalize_path-absolute :
    (cwd path : List ℕ)
    → length cwd + length path + 1 < vfs_path_max
    → (out : List ℕ) × (normalize_path cwd path ≡ normal out)
      × (first_char out ≡ slash)
      × (length out < vfs_path_max)
unfolding normalize_path
normalize_path-absolute cwd path h =
    let (text, e) = text_fits cwd path h in
    let (out, same, rooted, short) = normalize_text-absolute text in
    (
      out,
      ap (λ z. elim z as (λ x. Normalized) [ none ↦ overruns | some text ↦ normalize_text text ]) e
          ∙ same,
      rooted,
      short,
    )
