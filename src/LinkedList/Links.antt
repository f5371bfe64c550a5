-- ===== src/LinkedList/Links.antt =====
-- The three ways in which code/threads/list.cc links an element in, as insertions into the sequence.
use my_nachos.Shared.{
  ℕ, ◌≡◌, refl, true, false, some, List, [], ◌∷◌, ◌++◌, Result, ok, stop, Stop, arith, ◌∙◌, ap, sym,
  length-append,
}
use my_nachos.LinkedList.{
  Store, ListObject, write, load, plus_one, link_front, link_back, link_only, is_empty,
}
use my_nachos.LinkedList.Chain.{
  Cell, element, first_at, last_at, has_at, IsChain, Stands, IsFresh, Spares, load-some, null-false,
  set_next-some, write_self, write_ne, IsChain-write, has_at-unused, link_back-IsChain,
}

-- What an operation on the list comes to: it succeeds, the list stands for `cs'` behind it, and no
-- address but those of `cs` and `a` has changed.
pub data Becomes (h : Store) (a : ℕ) (cs cs' : List Cell)
    : Result (Store × ListObject) → Type 0 where
  becomes :
      (g : Store) (l : ListObject)
      → Stands g l cs'
      → Spares h g a cs
      → Becomes h a cs cs' (ok (g, l))

last_at-append : (a : ℕ) (new : Cell) (cs : List Cell) → last_at a (cs ++ (new ∷ [])) ≡ new.at
last_at-append a new [] = refl
last_at-append a new (c ∷ cs) = last_at-append c.at new cs

pub is_empty-nil : (h : Store) (l : ListObject) → Stands h l [] → is_empty l ≡ true
unfolding is_empty
is_empty-nil h l st = ground (arith, st.first)

pub is_empty-cons :
    (h : Store) (l : ListObject) (c : Cell) (cs : List Cell)
    → Stands h l (c ∷ cs)
    → is_empty l ≡ false
unfolding is_empty
is_empty-cons h l c cs st = ground (arith, st.first, null-false c.at st.chain.0)

pub load-null :
    (h : Store) (l : ListObject) → Stands h l [] → load h l.first ≡ stop Stop.bad_pointer
unfolding load
load-null h l st = rw st.first refl

pub load-first :
    (h g : Store) (l : ListObject) (c : Cell) (cs : List Cell)
    → Stands h l (c ∷ cs)
    → IsChain g (c ∷ cs)
    → load g l.first ≡ ok (element c (first_at cs))
load-first h g l c cs st (n, s, o, ch) =
    ap (load g) st.first ∙ load-some g c.at (element c (first_at cs)) n s

pub IsFresh-write :
    (h : Store) (l : ListObject) (new : Cell) (cs : List Cell)
    → Stands h l cs
    → IsFresh h new.at
    → (has_at new.at cs ≡ false) × IsChain (write h new.at (some (element new 0))) cs
IsFresh-write h l new cs st fr =
    let out = has_at-unused h new.at cs fr.unused st.chain in
    (out, IsChain-write h new.at (some (element new 0)) cs out st.chain)

pub link_back-Becomes :
    (h : Store) (l : ListObject) (new c : Cell) (cs : List Cell)
    → Stands h l (c ∷ cs)
    → IsFresh h new.at
    → Becomes h new.at
        (c ∷ cs)
        (c ∷ cs ++ (new ∷ []))
        (link_back new.at (write h new.at (some (element new 0))) l)
unfolding link_back
link_back-Becomes h l new c cs st fr =
    let (out, ch) = IsFresh-write h l new (c ∷ cs) st fr in
    let (g, step, ch', same) =
      link_back-IsChain (write h new.at (some (element new 0))) new c cs fr.not_null
        (write_self h new.at (some (element new 0))) out ch in
    rw (st.last, step)
      (becomes g (record l { last = new.at; num_in_list = plus_one l.num_in_list })
        (record {
          first = st.first;
          last = sym (last_at-append c.at new cs);
          count = ground (arith, st.count, length-append cs (new ∷ []));
          chain = ch';
        })
        (λ b i j. same b j ∙ write_ne h new.at b (some (element new 0)) i))

pub link_front-Becomes :
    (h : Store) (l : ListObject) (new c : Cell) (cs : List Cell)
    → Stands h l (c ∷ cs)
    → IsFresh h new.at
    → Becomes h new.at
        (c ∷ cs)
        (new ∷ c ∷ cs)
        (link_front new.at (write h new.at (some (element new 0))) l)
unfolding link_front
link_front-Becomes h l new c cs st fr =
    let (out, ch) = IsFresh-write h l new (c ∷ cs) st fr in
    let h' : Store = write h new.at (some (element new 0)) in
    let e : some (record (element new 0) { next = l.first }) ≡ some (element new c.at) =
      ap (λ p. some (record (element new 0) { next = p })) st.first in
    rw
      (set_next-some h' new.at l.first (element new 0) fr.not_null
        (write_self h new.at (some (element new 0))))
      (becomes (write h' new.at (some (record (element new 0) { next = l.first })))
        (record l { first = new.at; num_in_list = plus_one l.num_in_list })
        (record {
          first = refl;
          last = st.last;
          count = ground (arith, st.count);
          chain = (
            fr.not_null,
            write_self h' new.at (some (record (element new 0) { next = l.first })) ∙ e,
            out,
            IsChain-write h' new.at (some (record (element new 0) { next = l.first })) (c ∷ cs) out
                ch,
          );
        })
        (λ b i j.
          write_ne h' new.at b (some (record (element new 0) { next = l.first })) i
          ∙ write_ne h new.at b (some (element new 0)) i))

pub link_only-Becomes :
    (h : Store) (l : ListObject) (new : Cell)
    → Stands h l []
    → IsFresh h new.at
    → Becomes h new.at []
        (new ∷ [])
        (ok (write h new.at (some (element new 0)), link_only new.at l))
unfolding link_only
link_only-Becomes h l new st fr =
    becomes (write h new.at (some (element new 0))) (link_only new.at l)
      (record {
        first = refl;
        last = refl;
        count = ground (arith, st.count);
        chain = (fr.not_null, write_self h new.at (some (element new 0)), refl, tt);
      })
      (λ b i j. write_ne h new.at b (some (element new 0)) i)
