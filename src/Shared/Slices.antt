-- ===== src/Shared/Slices.antt =====
-- Parts of arrays, measured by native numbers.
use Prim.Native.Nat.{ℕ, zero, suc, ◌+◌, ◌-◌, ◌<◌, ◌≤◌}
use mathlib.Core.Path.{◌≡◌, refl, ap, ◌∙◌}
use mathlib.Core.List.{List, [], ◌∷◌, ◌++◌}
use native.Mathlib.Omega.{arith}
use my_nachos.Shared.Lists.{length, get_or, length-append}

module _ {ℓ} {A : Type ℓ} where
  abbrev pub take : ℕ → List A → List A
  take zero xs = []
  take (suc n) [] = []
  take (suc n) (x ∷ xs) = x ∷ take n xs

  abbrev pub drop : ℕ → List A → List A
  drop zero xs = xs
  drop (suc n) [] = []
  drop (suc n) (x ∷ xs) = drop n xs

  -- `bcopy(from, &to[at], ...)` of all of `from`.
  abbrev pub copy_into : List A → ℕ → List A → List A
  copy_into to at from = take at to ++ (from ++ drop (at + length from) to)

  pub length-take : (n : ℕ) (xs : List A) → n ≤ length xs → length (take n xs) ≡ n
  length-take zero xs h = refl
  length-take (suc n) [] h = absurd (omega arith)
  length-take (suc n) (x ∷ xs) h = ap suc (length-take n xs (omega arith))

  pub length-drop : (n : ℕ) (xs : List A) → length (drop n xs) ≡ length xs - n
  length-drop zero xs = omega arith
  length-drop (suc n) [] = omega arith
  length-drop (suc n) (x ∷ xs) = omega (arith, length-drop n xs)

  pub get_or-take :
      (n : ℕ) (xs : List A) (i : ℕ) (d : A) → i < n → get_or (take n xs) i d ≡ get_or xs i d
  get_or-take zero xs i d h = absurd (omega arith)
  get_or-take (suc n) [] i d h = refl
  get_or-take (suc n) (x ∷ xs) zero d h = refl
  get_or-take (suc n) (x ∷ xs) (suc i) d h = get_or-take n xs i d (omega arith)

  pub get_or-drop :
      (n : ℕ) (xs : List A) (i : ℕ) (d : A) → get_or (drop n xs) i d ≡ get_or xs (n + i) d
  get_or-drop zero xs i d = ap (λ k. get_or xs k d) {x = i} {y = 0 + i} (omega arith)
  get_or-drop (suc n) [] i d = refl
  get_or-drop (suc n) (x ∷ xs) i d =
      get_or-drop n xs i d
      ∙ ap (λ k. get_or (x ∷ xs) k d) {x = suc (n + i)} {y = suc n + i} (omega arith)

  pub get_or-append_left :
      (xs ys : List A) (i : ℕ) (d : A) → i < length xs → get_or (xs ++ ys) i d ≡ get_or xs i d
  get_or-append_left [] ys i d h = absurd (omega arith)
  get_or-append_left (x ∷ xs) ys zero d h = refl
  get_or-append_left (x ∷ xs) ys (suc i) d h = get_or-append_left xs ys i d (omega arith)

  pub get_or-append_right :
      (xs ys : List A) (i : ℕ) (d : A) → get_or (xs ++ ys) (length xs + i) d ≡ get_or ys i d
  get_or-append_right [] ys i d = ap (λ k. get_or ys k d) {x = 0 + i} {y = i} (omega arith)
  get_or-append_right (x ∷ xs) ys i d =
      ap (λ k. get_or (x ∷ xs ++ ys) k d) {x = suc (length xs) + i} {y = suc (length xs + i)}
        (omega arith)
      ∙ get_or-append_right xs ys i d

  module _ (to : List A) (at : ℕ) (from : List A) (d : A) where
    pub length-copy_into : at + length from ≤ length to → length (copy_into to at from) ≡ length to
    length-copy_into h = omega (
      arith,
      length-append (take at to) (from ++ drop (at + length from) to),
      length-append from (drop (at + length from) to),
      length-take at to,
      length-drop (at + length from) to,
    )

    pub get_or-copy_into_before :
        (p : ℕ) → at ≤ length to → p < at → get_or (copy_into to at from) p d ≡ get_or to p d
    get_or-copy_into_before p h lt =
        get_or-append_left (take at to) (from ++ drop (at + length from) to) p d
          (omega (arith, length-take at to))
        ∙ get_or-take at to p d lt

    get_or-copy_into_behind :
        (p : ℕ)
        → at ≤ length to
        → get_or (copy_into to at from) (at + p) d ≡ get_or (from ++ drop (at + length from) to) p d
    get_or-copy_into_behind p h =
        ap (λ k. get_or (copy_into to at from) k d) {x = at + p} {y = length (take at to) + p}
          (omega (arith, length-take at to))
        ∙ get_or-append_right (take at to) (from ++ drop (at + length from) to) p d

    pub get_or-copy_into_in :
        (p : ℕ)
        → at ≤ length to
        → p < length from
        → get_or (copy_into to at from) (at + p) d ≡ get_or from p d
    get_or-copy_into_in p h lt =
        get_or-copy_into_behind p h ∙ get_or-append_left from (drop (at + length from) to) p d lt

    pub get_or-copy_into_after :
        (p : ℕ)
        → at ≤ length to
        → at + length from ≤ p
        → get_or (copy_into to at from) p d ≡ get_or to p d
    get_or-copy_into_after p h le =
        let k : ℕ = p - at - length from in
        ap (λ q. get_or (copy_into to at from) q d) {x = p} {y = at + (length from + k)}
          (omega arith)
        ∙ get_or-copy_into_behind (length from + k) h
        ∙ get_or-append_right from (drop (at + length from) to) k d
        ∙ get_or-drop (at + length from) to k d
        ∙ ap (λ q. get_or to q d) {x = at + length from + k} {y = p} (omega arith)
