-- ===== src/LinkedList/Queue.antt =====
-- List::Append, Prepend and SortedRemove (code/threads/list.cc) on the sequence.
use my_nachos.Shared.{
  ℕ, suc, ◌%◌, ◌^◌, ◌≡◌, ◌≢◌, refl, true, false, none, List, [], ◌∷◌, ◌++◌, ◌==◌, if◌then◌else◌,
  length, Result, ok, Option, arith, ◌∙◌, ap, sym,
}
use my_nachos.LinkedList.{
  null, Store, ListObject, write, new_element, minus_one, append, prepend, Removed, sorted_remove,
  put_key,
}
use my_nachos.LinkedList.Chain.{
  Cell, cell, first_at, last_at, has_at, Stands, IsFresh, has_at-tail, write_self, write_ne,
  IsChain-write,
}
use my_nachos.LinkedList.Links.{
  Becomes, link_only-Becomes, link_front-Becomes, link_back-Becomes, is_empty-nil, is_empty-cons,
  load-first,
}

pub append-Becomes :
    (fresh item : ℕ) (h : Store) (l : ListObject) (cs : List Cell)
    → Stands h l cs
    → IsFresh h fresh
    → Becomes h fresh cs (cs ++ (cell fresh item 0 ∷ [])) (append fresh item h l)
unfolding append new_element
append-Becomes fresh item h l [] st fr =
    rw (is_empty-nil h l st) (link_only-Becomes h l (cell fresh item 0) st fr)
append-Becomes fresh item h l (c ∷ cs) st fr =
    rw (is_empty-cons h l c cs st) (link_back-Becomes h l (cell fresh item 0) c cs st fr)

pub prepend-Becomes :
    (fresh item : ℕ) (h : Store) (l : ListObject) (cs : List Cell)
    → Stands h l cs
    → IsFresh h fresh
    → Becomes h fresh cs (cell fresh item 0 ∷ cs) (prepend fresh item h l)
unfolding prepend new_element
prepend-Becomes fresh item h l [] st fr =
    rw (is_empty-nil h l st) (link_only-Becomes h l (cell fresh item 0) st fr)
prepend-Becomes fresh item h l (c ∷ cs) st fr =
    rw (is_empty-cons h l c cs st) (link_front-Becomes h l (cell fresh item 0) c cs st fr)

ne-last_at :
    (a : ℕ) (d : Cell) (ds : List Cell) → has_at a (d ∷ ds) ≡ false → (a == last_at d.at ds) ≡ false
ne-last_at a d [] out = ground arith
ne-last_at a d (e ∷ es) out = ne-last_at a e es (has_at-tail a d (e ∷ es) out)

minus_one-suc : (n : ℕ) → minus_one (suc n % 2 ^ 32) ≡ n % 2 ^ 32
minus_one-suc n = omega arith

pub count-tail :
    (h : Store) (l : ListObject) (n : ℕ)
    → l.num_in_list ≡ suc n % 2 ^ 32
    → minus_one l.num_in_list ≡ n % 2 ^ 32
count-tail h l n e = ap minus_one e ∙ minus_one-suc n

pub sorted_remove-nil :
    (key_at : Option ℕ) (h : Store) (l : ListObject)
    → Stands h l []
    → sorted_remove key_at h l ≡ ok (record { thing = null; key_at = key_at; store = h; list = l })
unfolding sorted_remove
sorted_remove-nil key_at h l st = rw (is_empty-nil h l st) refl

-- What SortedRemove comes to on a list that is not empty.
pub data Takes (h : Store) (key_at : Option ℕ) (c : Cell) (cs : List Cell)
    : Result Removed → Type 0 where
  takes :
      (g : Store) (l : ListObject)
      → Stands g l cs
      → g c.at ≡ none
      → ((b : ℕ) → b ≢ c.at → g b ≡ h b)
      → Takes h key_at c cs
          (ok (record { thing = c.item; key_at = put_key key_at c.key; store = g; list = l }))

tail-Stands :
    (h : Store) (l : ListObject) (c : Cell) (cs : List Cell)
    → Stands h l (c ∷ cs)
    → Stands
        (write h l.first none)
        (if l.first == l.last
          then record { first = null; last = null; num_in_list = minus_one l.num_in_list }
          else record l { first = first_at cs; num_in_list = minus_one l.num_in_list })
        cs
tail-Stands h l c [] st =
    let e : (l.first == l.last) ≡ true = ground (arith, st.first, st.last) in
    rw e (record { first = refl; last = refl; count = count-tail h l 0 st.count; chain = tt })
tail-Stands h l c (d ∷ ds) st =
    let e : (l.first == l.last) ≡ false =
      ap (λ a. a == l.last) st.first
      ∙ ap (λ a. c.at == a) st.last
      ∙ ne-last_at c.at d ds st.chain.2 in
    rw (e, st.first)
      (record {
        first = refl;
        last = st.last;
        count = count-tail h l (length (d ∷ ds)) st.count;
        chain = IsChain-write h c.at none (d ∷ ds) st.chain.2 st.chain.3;
      })

pub sorted_remove-Takes :
    (key_at : Option ℕ) (h : Store) (l : ListObject) (c : Cell) (cs : List Cell)
    → Stands h l (c ∷ cs)
    → Takes h key_at c cs (sorted_remove key_at h l)
unfolding sorted_remove
sorted_remove-Takes key_at h l c cs st =
    rw (is_empty-cons h l c cs st, load-first h h l c cs st st.chain)
      (takes (write h l.first none) _ (tail-Stands h l c cs st)
        (ap (write h l.first none) (sym st.first) ∙ write_self h l.first none)
        (λ b i. write_ne h l.first b none (λ e. i (e ∙ st.first))))
