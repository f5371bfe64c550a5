-- ===== src/LinkedList/Remove.antt =====
-- List::Remove of a given item (code/threads/list.cc) on the sequence.
use my_nachos.Shared.{
  ℕ, zero, suc, ◌<◌, ◌≤◌, ◌%◌, ◌^◌, ◌≡◌, ◌≢◌, refl, Bool, true, false, ◌||◌, none, some, List, [],
  ◌∷◌, ◌==◌, if◌then◌else◌, length, Result, ok, stop, Stop, ◌>>=◌, ◌>>◌, assert, arith, ◌∙◌, ap,
  sym, subst, Bool-cases, inl, inr,
}
use my_nachos.LinkedList.{
  null, ListElement, Store, ListObject, write, set_next, minus_one, Removed, remove, remove_from,
  remove_item,
}
use my_nachos.LinkedList.Chain.{
  Cell, element, first_at, last_at, has_at, IsChain, Stands, has_at-tail, ne-has_at, load-some,
  null-false, set_next-some, write_self, write_ne, IsChain-write,
}
use my_nachos.LinkedList.Links.{load-null, load-first}
use my_nachos.LinkedList.Queue.{Takes, takes, sorted_remove-Takes, count-tail}

unfoldable pub has_item : ℕ → List Cell → Bool
has_item item [] = false
has_item item (c ∷ cs) = (item == c.item) || has_item item cs

-- The cells without the first that holds the item.
unfoldable pub erase : ℕ → List Cell → List Cell
erase item [] = []
erase item (c ∷ cs) = if item == c.item then cs else c ∷ erase item cs

has_at-erase :
    (a item : ℕ) (cs : List Cell) → has_at a cs ≡ false → has_at a (erase item cs) ≡ false
unfolding erase
has_at-erase a item [] out = refl
has_at-erase a item (c ∷ cs) out = ground (arith, has_at-erase a item cs)

length-erase :
    (item : ℕ) (cs : List Cell) → has_item item cs ≡ true → length cs ≡ suc (length (erase item cs))
unfolding erase has_item
length-erase item [] h = absurd (cc)
length-erase item (c ∷ cs) h = ground (arith, length-erase item cs)

-- How the loop that has passed the cell `c` ends, where `cs` are the cells behind it.
data Unlinked (h : Store) (item : ℕ) (c : Cell) (cs : List Cell) : Result (Store × ℕ) → Type 0 where
  missing : has_item item cs ≡ false → Unlinked h item c cs (stop Stop.assert_failed)
  unlinked :
      (g : Store) (last : ℕ)
      → has_item item cs ≡ true
      → IsChain g (c ∷ erase item cs)
      → last ≡ last_at c.at (erase item cs)
      → ((b : ℕ) → has_at b (c ∷ cs) ≡ false → g b ≡ h b)
      → Unlinked h item c cs (ok (g, last))

module _ (h : Store) (item : ℕ) where
  unlink_behind :
      (c d : Cell) (ds : List Cell) (last : ℕ)
      → last ≡ last_at d.at ds
      → IsChain h (c ∷ d ∷ ds)
      → (item == d.item) ≡ true
      → Unlinked h item c (d ∷ ds) (do
        h' ← set_next h c.at (first_at ds)
        ok (write h' d.at none, if first_at ds == null then c.at else last))
  unfolding erase has_item
  unlink_behind c d ds last le (n, s, o, (k, t, p, ch)) hit =
      let v : ListElement = element c (first_at ds) in
      let h' : Store = write h c.at (some v) in
      rw (set_next-some h c.at (first_at ds) (element c d.at) n s) (
        unlinked (write h' d.at none) _ (ground arith)
          (rw hit (
            n,
            write_ne h' d.at c.at none (ne-has_at c.at d ds o) ∙ write_self h c.at (some v),
            has_at-tail c.at d ds o,
            IsChain-write h' d.at none ds p
                (IsChain-write h c.at (some v) ds (has_at-tail c.at d ds o) ch),
          ))
          (rw hit (new_last ds le ch))
          (λ b i.
            write_ne h' d.at b none (ne-has_at b d ds (has_at-tail b c (d ∷ ds) i))
            ∙ write_ne h c.at b (some v) (ne-has_at b c (d ∷ ds) i)))
    where
      new_last :
          (ds : List Cell)
          → last ≡ last_at d.at ds
          → IsChain h ds
          → (if first_at ds == null then c.at else last) ≡ last_at c.at ds
      new_last [] le ch = refl
      new_last (e ∷ es) le ch = rw (null-false e.at ch.0) le

  Unlinked-cons :
      (c d : Cell) (ds : List Cell) {r : Result (Store × ℕ)}
      → c.at ≢ null
      → h c.at ≡ some (element c d.at)
      → has_at c.at (d ∷ ds) ≡ false
      → (item == d.item) ≡ false
      → Unlinked h item d ds r
      → Unlinked h item c (d ∷ ds) r
  unfolding erase has_item
  Unlinked-cons c d ds n s o miss (missing e) = missing (ground arith)
  Unlinked-cons c d ds n s o miss (unlinked g last e ch le same) =
      unlinked g last (ground arith)
        (rw miss (n, same c.at o ∙ s, ground (arith, has_at-erase c.at item ds), ch)) (rw miss le)
        (λ b i. same b (ground arith))

  remove_from-Unlinked :
      (n : ℕ) (c : Cell) (cs : List Cell) (last : ℕ)
      → length cs < n
      → last ≡ last_at c.at cs
      → IsChain h (c ∷ cs)
      → Unlinked h item c cs (remove_from n item c.at (first_at cs) h last)
  unfolding remove_from has_item
  remove_from-Unlinked zero c cs last fuel le ch = absurd (omega arith)
  remove_from-Unlinked (suc n) c [] last fuel le ch = missing refl
  remove_from-Unlinked (suc n) c (d ∷ ds) last fuel le (m, s, o, (k, t, p, ch)) =
      rw (null-false d.at k, load-some h d.at (element d (first_at ds)) k t)
        (elim (Bool-cases (item == d.item)) [
          | inl hit ↦ rw hit (unlink_behind c d ds last le (m, s, o, (k, t, p, ch)) hit)
          | inr miss ↦ rw miss (
              Unlinked-cons c d ds m s o miss
                (remove_from-Unlinked n d ds last (omega arith) le (k, t, p, ch)))
        ])

-- What Remove(item) comes to: a read through NULL on the empty list, a failed assertion if no cell
-- holds the item, and otherwise the list without the first cell that does.
pub data Removes (h : Store) (item : ℕ) : List Cell → Result (Store × ListObject) → Type 0 where
  nothing : Removes h item [] (stop Stop.bad_pointer)
  not_there :
      (c : Cell) (cs : List Cell)
      → has_item item (c ∷ cs) ≡ false
      → Removes h item (c ∷ cs) (stop Stop.assert_failed)
  gone :
      (c : Cell) (cs : List Cell) (g : Store) (l : ListObject)
      → has_item item (c ∷ cs) ≡ true
      → Stands g l (erase item (c ∷ cs))
      → ((b : ℕ) → has_at b (c ∷ cs) ≡ false → g b ≡ h b)
      → Removes h item (c ∷ cs) (ok (g, l))

Takes-Removes :
    (h : Store) (item : ℕ) (c : Cell) (cs : List Cell) {r : Result Removed}
    → (item == c.item) ≡ true
    → Takes h none c cs r
    → Removes h item (c ∷ cs) (do r ← r; assert (item == r.thing); ok (r.store, r.list))
unfolding has_item erase
Takes-Removes h item c cs hit (takes g l st freed same) =
    rw hit (gone c cs g l (ground arith) (rw hit st) (λ b i. same b (ne-has_at b c cs i)))

Unlinked-Removes :
    (h : Store) (item : ℕ) (l : ListObject) (c : Cell) (cs : List Cell) {r : Result (Store × ℕ)}
    → Stands h l (c ∷ cs)
    → (item == c.item) ≡ false
    → Unlinked h item c cs r
    → Removes h item
        (c ∷ cs)
        (r >>= λ r. ok (r.0, record l { last = r.1; num_in_list = minus_one l.num_in_list }))
unfolding has_item erase
Unlinked-Removes h item l c cs st miss (missing e) = not_there c cs (ground arith)
Unlinked-Removes h item l c cs st miss (unlinked g last e ch le same) =
    gone c cs g (record l { last = last; num_in_list = minus_one l.num_in_list }) (ground arith)
      (rw miss (record {
        first = st.first;
        last = le;
        count = count-tail h l (length cs) st.count ∙ ap (λ n. n % 2 ^ 32) (length-erase item cs e);
        chain = ch;
      }))
      same

pub remove_item-Removes :
    (rounds item : ℕ) (h : Store) (l : ListObject) (cs : List Cell)
    → Stands h l cs
    → length cs ≤ rounds
    → Removes h item cs (remove_item rounds item h l)
unfolding remove_item remove
remove_item-Removes rounds item h l [] st fuel = rw (load-null h l st) nothing
remove_item-Removes rounds item h l (c ∷ cs) st fuel =
    let scan : Unlinked h item c cs (remove_from rounds item l.first (first_at cs) h l.last) =
      subst (λ p. Unlinked h item c cs (remove_from rounds item p (first_at cs) h l.last))
        (sym st.first)
        (remove_from-Unlinked h item rounds c cs l.last (omega arith) st.last st.chain) in
    rw (load-first h h l c cs st st.chain) (elim (Bool-cases (item == c.item)) [
      | inl hit ↦ rw hit (Takes-Removes h item c cs hit (sorted_remove-Takes none h l c cs st))
      | inr miss ↦ rw miss (Unlinked-Removes h item l c cs st miss scan)
    ])
