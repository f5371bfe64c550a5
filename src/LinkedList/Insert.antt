-- ===== src/LinkedList/Insert.antt =====
-- List::SortedInsert (code/threads/list.cc) as an insertion into the sequence that the list stands for.
use my_nachos.Shared.{
  ℕ, zero, suc, ◌<◌, ◌≡◌, ◌≢◌, refl, true, false, ◌||◌, none, some, List, [], ◌∷◌, ◌++◌, ◌==◌,
  if◌then◌else◌, length, Result, ok, ◌>>=◌, Option, arith, ◌∙◌, ap, Bool-cases, inl, inr,
}
use my_nachos.Machine.Words.{signed_lt}
use my_nachos.LinkedList.{null, Store, write, set_next, insert_from}
use my_nachos.LinkedList.Chain.{
  Cell, element, first_at, last_at, has_at, IsChain, load-some, null-false, set_next-some,
  write_self, write_ne, IsChain-write,
}

-- Before the first cell with a greater key.
unfoldable pub insert_cell : Cell → List Cell → List Cell
insert_cell new [] = new ∷ []
insert_cell new (c ∷ cs) =
    let rest = insert_cell new cs in if signed_lt new.key c.key then new ∷ c ∷ cs else c ∷ rest

has_at-insert_cell :
    (a : ℕ) (new : Cell) (cs : List Cell)
    → has_at a (insert_cell new cs) ≡ ((a == new.at) || has_at a cs)
unfolding insert_cell
has_at-insert_cell a new [] = refl
has_at-insert_cell a new (c ∷ cs) = ground (arith, has_at-insert_cell a new cs)

pub length-insert_cell :
    (new : Cell) (cs : List Cell) → length (insert_cell new cs) ≡ suc (length cs)
unfolding insert_cell
length-insert_cell new [] = refl
length-insert_cell new (c ∷ cs) = ground (arith, length-insert_cell new cs)

-- How the loop at the cell `c` ends, where `cs` are the cells behind it.
pub data Inserted (h : Store) (new c : Cell) (cs : List Cell) : Result (Option Store) → Type 0 where
  at_end : insert_cell new cs ≡ cs ++ (new ∷ []) → Inserted h new c cs (ok none)
  linked :
      (g : Store)
      → IsChain g (c ∷ insert_cell new cs)
      → last_at c.at (insert_cell new cs) ≡ last_at c.at cs
      → ((b : ℕ) → b ≢ new.at → has_at b (c ∷ cs) ≡ false → g b ≡ h b)
      → Inserted h new c cs (ok (some g))

module _ (h : Store) (new : Cell) (nn : new.at ≢ null)
    (here : h new.at ≡ some (element new 0)) where
  -- The element is linked between `c` and `d`.
  link_between :
      (c d : Cell) (ds : List Cell)
      → has_at new.at (c ∷ d ∷ ds) ≡ false
      → IsChain h (c ∷ d ∷ ds)
      → signed_lt new.key d.key ≡ true
      → Inserted h new c
          (d ∷ ds)
          (do h' ← set_next h new.at d.at; h'' ← set_next h' c.at new.at; ok (some h''))
  unfolding insert_cell
  link_between c d ds out (n, s, o, ch) before =
      let h' : Store = write h new.at (some (element new d.at)) in
      let s' : h' c.at ≡ some (element c d.at) =
        write_ne h new.at c.at (some (element new d.at)) (λ e. ground arith) ∙ s in
      let h'' : Store = write h' c.at (some (element c new.at)) in
      rw
        (
          set_next-some h new.at d.at (element new 0) nn here,
          set_next-some h' c.at new.at (element c d.at) n s',
        )
        (linked h''
          (rw before (
            n,
            write_self h' c.at (some (element c new.at)),
            ground arith,
            (
              nn,
              write_ne h' c.at new.at (some (element c new.at)) (λ e. ground arith)
                  ∙ write_self h new.at (some (element new d.at)),
              ground arith,
              IsChain-write h' c.at (some (element c new.at)) (d ∷ ds) o
                  (IsChain-write h new.at (some (element new d.at)) (d ∷ ds) (ground arith) ch),
            ),
          ))
          (rw before refl)
          (λ b i j.
            write_ne h' c.at b (some (element c new.at)) (λ e. ground arith)
            ∙ write_ne h new.at b (some (element new d.at)) i))

  -- The loop goes on to the next cell.
  Inserted-cons :
      (c d : Cell) (ds : List Cell) {r : Result (Option Store)}
      → c.at ≢ null
      → h c.at ≡ some (element c d.at)
      → has_at new.at (c ∷ d ∷ ds) ≡ false
      → has_at c.at (d ∷ ds) ≡ false
      → signed_lt new.key d.key ≡ false
      → Inserted h new d ds r
      → Inserted h new c (d ∷ ds) r
  unfolding insert_cell
  Inserted-cons c d ds n s out o after (at_end e) = at_end (rw after (ap (λ xs. d ∷ xs) e))
  Inserted-cons c d ds n s out o after (linked g ch e same) =
      linked g
        (rw after (
          n,
          same c.at (λ e. ground arith) o ∙ s,
          ground (arith, has_at-insert_cell c.at new ds),
          ch,
        ))
        (rw after e) (λ b i j. same b i (ground arith))

  pub insert_from-Inserted :
      (n : ℕ) (c : Cell) (cs : List Cell)
      → length cs < n
      → has_at new.at (c ∷ cs) ≡ false
      → IsChain h (c ∷ cs)
      → Inserted h new c cs (insert_from n new.at new.key c.at h)
  unfolding insert_from insert_cell
  insert_from-Inserted zero c cs fuel out ch = absurd (omega arith)
  insert_from-Inserted (suc n) c [] fuel out (m, s, o, ch) =
      rw (load-some h c.at (element c 0) m s) (at_end refl)
  insert_from-Inserted (suc n) c (d ∷ ds) fuel out (m, s, o, (k, t, p, ch)) =
      rw
        (
          load-some h c.at (element c d.at) m s,
          load-some h d.at (element d (first_at ds)) k t,
          null-false d.at k,
        )
        (elim (Bool-cases (signed_lt new.key d.key)) [
          | inl before ↦ rw before (link_between c d ds out (m, s, o, (k, t, p, ch)) before)
          | inr after ↦ rw after (
              Inserted-cons c d ds m s out o after
                (insert_from-Inserted n d ds (omega arith) (ground arith) (k, t, p, ch)))
        ])
