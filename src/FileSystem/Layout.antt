-- ===== src/FileSystem/Layout.antt =====
-- The memory layout of what code/filesys/ and code/userprog/bitmap.cc write to the disk as bytes:
-- 4-byte integers with the low byte first, and DirectoryEntry of directory.h, a `bool` of one byte,
-- an integer, and the name, each at a multiple of its alignment. Padding is written as zeros.
use my_nachos.Shared.{
  ℕ, zero, suc, ◌+◌, ◌*◌, ◌/◌, ◌%◌, ◌^◌, ◌<◌, ◌≡◌, refl, ap, ◌∙◌, Bool, true, false, not, List, [],
  ◌∷◌, ◌++◌, ◌==◌, if◌then◌else◌, length, get_or, drop, length-append, arith,
}
use mathlib.Core.List.{append_assoc}
use my_nachos.BitMap.WordRange.{AreWords}
use my_nachos.Directory.{DirectoryEntry}
use my_nachos.Directory.Entries.{IsEntry, AreEntries}

-- An integer as its four bytes, and back.
abbrev pub word_bytes : ℕ → List ℕ
word_bytes w = w % 256 ∷ w / 256 % 256 ∷ w / 65_536 % 256 ∷ w / 16_777_216 ∷ []

abbrev pub word_at : List ℕ → ℕ → ℕ
word_at b i =
    get_or b i 0
    + get_or b (i + 1) 0 * 256
    + get_or b (i + 2) 0 * 65_536
    + get_or b (i + 3) 0 * 16_777_216

-- An array of integers.
unfoldable pub encode_words : List ℕ → List ℕ
encode_words [] = []
encode_words (w ∷ ws) = word_bytes w ++ encode_words ws

unfoldable pub decode_words : ℕ → List ℕ → List ℕ
decode_words zero b = []
decode_words (suc n) b = word_at b 0 ∷ decode_words n (drop 4 b)

-- The first `n` of some bytes, with zeros behind if there are fewer.
unfoldable pub fit : ℕ → List ℕ → List ℕ
fit zero b = []
fit (suc n) [] = 0 ∷ fit n []
fit (suc n) (c ∷ cs) = c ∷ fit n cs

abbrev pub entry_size : ℕ
entry_size = 20

unfoldable pub entry_bytes : DirectoryEntry → List ℕ
unfolding fit
entry_bytes e =
    (if e.in_use then 1 else 0) ∷ 0 ∷ 0 ∷ 0 ∷ word_bytes e.sector ++ fit 10 e.name ++ (0 ∷ 0 ∷ [])

unfoldable pub entry_at : List ℕ → DirectoryEntry
unfolding fit
entry_at b = record {
  in_use = not (get_or b 0 0 == 0);
  sector = word_at b 4;
  name = fit 10 (drop 8 b);
}

-- The table of a directory.
unfoldable pub encode_entries : List DirectoryEntry → List ℕ
encode_entries [] = []
encode_entries (e ∷ es) = entry_bytes e ++ encode_entries es

unfoldable pub decode_entries : ℕ → List ℕ → List DirectoryEntry
decode_entries zero b = []
decode_entries (suc n) b = entry_at b ∷ decode_entries n (drop entry_size b)

pub word_at-word_bytes :
    (w : ℕ)
    → w < 2 ^ 32
    → w % 256 + w / 256 % 256 * 256 + w / 65_536 % 256 * 65_536 + w / 16_777_216 * 16_777_216 ≡ w
word_at-word_bytes w h = omega arith

pub length-encode_words : (ws : List ℕ) → length (encode_words ws) ≡ length ws * 4
unfolding encode_words
length-encode_words [] = refl
length-encode_words (w ∷ ws) = omega (arith, length-encode_words ws)

-- Integers and entries come back as they were written.
pub decode_words-encode_words :
    (ws : List ℕ) → AreWords ws → decode_words (length ws) (encode_words ws) ≡ ws
unfolding encode_words decode_words
decode_words-encode_words [] h = refl
decode_words-encode_words (w ∷ ws) h =
    ap (λ v. v ∷ decode_words (length ws) (encode_words ws)) (word_at-word_bytes w h.0)
    ∙ ap (λ vs. w ∷ vs) (decode_words-encode_words ws h.1)

length-fit : (n : ℕ) (b : List ℕ) → length (fit n b) ≡ n
unfolding fit
length-fit zero b = refl
length-fit (suc n) [] = ap suc (length-fit n [])
length-fit (suc n) (c ∷ cs) = ap suc (length-fit n cs)

fit-append : (n : ℕ) (b rest : List ℕ) → length b ≡ n → fit n (fit n b ++ rest) ≡ b
unfolding fit
fit-append zero [] rest h = refl
fit-append zero (c ∷ cs) rest h = absurd (omega (arith, h))
fit-append (suc n) [] rest h = absurd (omega (arith, h))
fit-append (suc n) (c ∷ cs) rest h = ap (λ b. c ∷ b) (fit-append n cs rest (omega (arith, h)))

pub length-entry_bytes : (e : DirectoryEntry) → length (entry_bytes e) ≡ entry_size
unfolding entry_bytes
length-entry_bytes e =
    omega (arith, length-append (fit 10 e.name) (0 ∷ 0 ∷ []), length-fit 10 e.name)

drop-append : (n : ℕ) (b rest : List ℕ) → length b ≡ n → drop n (b ++ rest) ≡ rest
drop-append zero [] rest h = refl
drop-append zero (c ∷ cs) rest h = absurd (omega (arith, h))
drop-append (suc n) [] rest h = absurd (omega (arith, h))
drop-append (suc n) (c ∷ cs) rest h = drop-append n cs rest (omega (arith, h))

name-fit :
    (name rest : List ℕ) → length name ≡ 10 → fit 10 ((fit 10 name ++ (0 ∷ 0 ∷ [])) ++ rest) ≡ name
name-fit name rest h =
    ap (fit 10) (append_assoc (fit 10 name) (0 ∷ 0 ∷ []) rest) ∙ fit-append 10 name (0 ∷ 0 ∷ rest) h

in_use-byte : (b : Bool) → not ((if b then 1 else 0) == 0) ≡ b
in_use-byte true = refl
in_use-byte false = refl

entry_at-entry_bytes :
    (e : DirectoryEntry) (rest : List ℕ) → IsEntry e → entry_at (entry_bytes e ++ rest) ≡ e
unfolding entry_at entry_bytes
entry_at-entry_bytes e rest h =
    ap
      (λ b. record {
        in_use = b;
        sector = word_at (entry_bytes e ++ rest) 4;
        name = fit 10 ((fit 10 e.name ++ (0 ∷ 0 ∷ [])) ++ rest);
      })
      (in_use-byte e.in_use)
    ∙ ap
        (λ w. record {
          in_use = e.in_use;
          sector = w;
          name = fit 10 ((fit 10 e.name ++ (0 ∷ 0 ∷ [])) ++ rest);
        })
        (word_at-word_bytes e.sector h.0)
    ∙ ap (λ n. record { in_use = e.in_use; sector = e.sector; name = n }) (name-fit e.name rest h.1)

pub length-encode_entries :
    (es : List DirectoryEntry) → length (encode_entries es) ≡ length es * entry_size
unfolding encode_entries
length-encode_entries [] = refl
length-encode_entries (e ∷ es) = omega (
  arith,
  length-append (entry_bytes e) (encode_entries es),
  length-entry_bytes e,
  length-encode_entries es,
)

pub decode_entries-encode_entries :
    (es : List DirectoryEntry) → AreEntries es → decode_entries (length es) (encode_entries es) ≡ es
unfolding encode_entries decode_entries
decode_entries-encode_entries [] h = refl
decode_entries-encode_entries (e ∷ es) h =
    ap (λ v. v ∷ decode_entries (length es) (drop entry_size (entry_bytes e ++ encode_entries es)))
      (entry_at-entry_bytes e (encode_entries es) h.0)
    ∙ ap (λ b. e ∷ decode_entries (length es) b)
        (drop-append entry_size (entry_bytes e) (encode_entries es) (length-entry_bytes e))
    ∙ ap (λ vs. e ∷ vs) (decode_entries-encode_entries es h.1)
