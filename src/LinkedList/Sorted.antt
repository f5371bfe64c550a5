-- ===== src/LinkedList/Sorted.antt =====
-- List::SortedInsert (code/threads/list.cc) on a sorted list: where the new element comes to stand.
use my_nachos.Shared.{
  ℕ, ◌≤◌, ◌≡◌, refl, true, false, none, some, List, [], ◌∷◌, ◌++◌, length, Result, ok, ◌>>=◌,
  Option, arith, ◌∙◌, ap, sym, subst, Bool-cases, inl, inr,
}
use my_nachos.Shared.{ltb}
use my_nachos.Machine.Words.{signed_lt}
use my_nachos.LinkedList.{
  Store, ListObject, write, new_element, plus_one, insert_from, sorted_insert, link_back,
}
use my_nachos.LinkedList.Chain.{Cell, cell, element, Stands, IsFresh, Spares, write_self, write_ne}
use my_nachos.LinkedList.Insert.{
  insert_cell, length-insert_cell, Inserted, at_end, linked, insert_from-Inserted,
}
use my_nachos.LinkedList.Links.{
  Becomes, becomes, IsFresh-write, link_only-Becomes, link_front-Becomes, link_back-Becomes,
  is_empty-nil, is_empty-cons, load-first,
}

Inserted-Becomes :
    (h : Store) (l : ListObject) (new c : Cell) (cs : List Cell) {r : Result (Option Store)}
    → Stands h l (c ∷ cs)
    → IsFresh h new.at
    → Inserted (write h new.at (some (element new 0))) new c cs r
    → Becomes h new.at (c ∷ cs) (c ∷ insert_cell new cs) (
        r >>= λ r. elim r [
          | none ↦ link_back new.at (write h new.at (some (element new 0))) l
          | some h'' ↦ ok (h'', record l { num_in_list = plus_one l.num_in_list })
        ])
Inserted-Becomes h l new c cs st fr (at_end e) = rw e (link_back-Becomes h l new c cs st fr)
Inserted-Becomes h l new c cs st fr (linked g ch e same) =
    becomes g (record l { num_in_list = plus_one l.num_in_list })
      (record {
        first = st.first;
        last = st.last ∙ sym e;
        count = ground (arith, st.count, length-insert_cell new cs);
        chain = ch;
      })
      (λ b i j. same b i j ∙ write_ne h new.at b (some (element new 0)) i)

pub sorted_insert-Becomes :
    (rounds fresh item key : ℕ) (h : Store) (l : ListObject) (cs : List Cell)
    → Stands h l cs
    → IsFresh h fresh
    → length cs ≤ rounds
    → Becomes h fresh cs
        (insert_cell (cell fresh item key) cs)
        (sorted_insert rounds fresh item key h l)
unfolding sorted_insert new_element insert_cell
sorted_insert-Becomes rounds fresh item key h l [] st fr fuel =
    rw (is_empty-nil h l st) (link_only-Becomes h l (cell fresh item key) st fr)
sorted_insert-Becomes rounds fresh item key h l (c ∷ cs) st fr fuel =
    let new : Cell = cell fresh item key in
    let h' : Store = write h fresh (some (element new 0)) in
    let (out, ch) = IsFresh-write h l new (c ∷ cs) st fr in
    let scan : Inserted h' new c cs (insert_from rounds fresh key l.first h') =
      subst (λ p. Inserted h' new c cs (insert_from rounds fresh key p h')) (sym st.first)
        (insert_from-Inserted h' new fr.not_null (write_self h fresh (some (element new 0))) rounds
          c cs (omega arith) out ch) in
    rw (is_empty-cons h l c cs st, load-first h h' l c cs st ch)
      (elim (Bool-cases (signed_lt key c.key)) [
        | inl before ↦ rw before (link_front-Becomes h l new c cs st fr)
        | inr after ↦ rw after (Inserted-Becomes h l new c cs st fr scan)
      ])

-- No cell's key comes before `key`, and `key` comes before every cell's.
abbrev pub AllLow : List Cell → ℕ → Type 0
AllLow [] key = Unit {0}
AllLow (c ∷ cs) key = (signed_lt key c.key ≡ false) × AllLow cs key

abbrev pub AllHigh : List Cell → ℕ → Type 0
AllHigh [] key = Unit {0}
AllHigh (c ∷ cs) key = (signed_lt key c.key ≡ true) × AllHigh cs key

abbrev pub NoneLess : List Cell → ℕ → Type 0
NoneLess [] key = Unit {0}
NoneLess (c ∷ cs) key = (signed_lt c.key key ≡ false) × NoneLess cs key

abbrev pub IsSorted : List Cell → Type 0
IsSorted [] = Unit {0}
IsSorted (c ∷ cs) = NoneLess cs c.key × IsSorted cs

-- The parts of `cs` between which `new` stands.
record Splits (new : Cell) (cs cs' : List Cell) : Type 0 where
  before : List Cell
  after : List Cell
  old : cs ≡ before ++ after
  now : cs' ≡ before ++ (new ∷ after)
  low : AllLow before new.key
  high : AllHigh after new.key

ltb_trans : (x y z : ℕ) → ltb x y ≡ true → ltb z y ≡ false → ltb x z ≡ true
ltb_trans x y z p q = ground arith

ltb_asymm : (x y : ℕ) → ltb x y ≡ true → ltb y x ≡ false
ltb_asymm x y p = ground arith

signed_lt_trans : (a b c : ℕ) → signed_lt a b ≡ true → signed_lt c b ≡ false → signed_lt a c ≡ true
unfolding signed_lt
signed_lt_trans a b c = ltb_trans _ _ _

signed_lt_asymm : (a b : ℕ) → signed_lt a b ≡ true → signed_lt b a ≡ false
unfolding signed_lt
signed_lt_asymm a b = ltb_asymm _ _

NoneLess-AllHigh : (key : ℕ) (cs : List Cell) → AllHigh cs key → NoneLess cs key
NoneLess-AllHigh key [] high = tt
NoneLess-AllHigh key (c ∷ cs) high =
    (signed_lt_asymm key c.key high.0, NoneLess-AllHigh key cs high.1)

NoneLess-insert_cell :
    (key : ℕ) (new : Cell) (cs : List Cell)
    → signed_lt new.key key ≡ false
    → NoneLess cs key
    → NoneLess (insert_cell new cs) key
unfolding insert_cell
NoneLess-insert_cell key new [] ge s = (ge, tt)
NoneLess-insert_cell key new (c ∷ cs) ge s = elim (Bool-cases (signed_lt new.key c.key)) [
  | inl lt ↦ rw lt (ge, s)
  | inr gt ↦ rw gt (s.0, NoneLess-insert_cell key new cs ge s.1)
]

AllHigh-NoneLess : (a b : ℕ) (cs : List Cell) → signed_lt a b ≡ true → NoneLess cs b → AllHigh cs a
AllHigh-NoneLess a b [] lt s = tt
AllHigh-NoneLess a b (c ∷ cs) lt s =
    (signed_lt_trans a b c.key lt s.0, AllHigh-NoneLess a b cs lt s.1)

insert_cell-Splits :
    (new : Cell) (cs : List Cell) → IsSorted cs → Splits new cs (insert_cell new cs)
unfolding insert_cell
insert_cell-Splits new [] s = record {
  before = [];
  after = [];
  old = refl;
  now = refl;
  low = tt;
  high = tt;
}
insert_cell-Splits new (c ∷ cs) s = elim (Bool-cases (signed_lt new.key c.key)) [
  | inl lt ↦ rw lt (record {
    before = [];
    after = c ∷ cs;
    old = refl;
    now = refl;
    low = tt;
    high = (lt, AllHigh-NoneLess new.key c.key cs lt s.0);
  })
  | inr ge ↦
      let rest = insert_cell-Splits new cs s.1 in
      rw ge (record {
        before = c ∷ rest.before;
        after = rest.after;
        old = ap (λ xs. c ∷ xs) rest.old;
        now = ap (λ xs. c ∷ xs) rest.now;
        low = (ge, rest.low);
        high = rest.high;
      })
]

insert_cell-IsSorted : (new : Cell) (cs : List Cell) → IsSorted cs → IsSorted (insert_cell new cs)
unfolding insert_cell
insert_cell-IsSorted new [] s = (tt, tt)
insert_cell-IsSorted new (c ∷ cs) s = elim (Bool-cases (signed_lt new.key c.key)) [
  | inl lt ↦ rw lt (
    (
      signed_lt_asymm new.key c.key lt,
      NoneLess-AllHigh new.key cs (AllHigh-NoneLess new.key c.key cs lt s.0),
    ),
    s,
  )
  | inr ge ↦ rw ge (NoneLess-insert_cell c.key new cs ge s.0, insert_cell-IsSorted new cs s.1)
]

-- What SortedInsert comes to on a sorted list: it succeeds, and `new` stands behind all cells whose
-- keys are not greater and before all cells whose keys are.
pub record Places (h : Store) (new : Cell) (cs : List Cell) (r : Result (Store × ListObject))
    : Type 0 where
  store : Store
  list : ListObject
  before : List Cell
  after : List Cell
  returns : r ≡ ok (store, list)
  old : cs ≡ before ++ after
  now : Stands store list (before ++ (new ∷ after))
  sorted : IsSorted (before ++ (new ∷ after))
  low : AllLow before new.key
  high : AllHigh after new.key
  spares : Spares h store new.at cs

Becomes-Places :
    (h : Store) (new : Cell) (cs : List Cell) (r : Result (Store × ListObject))
    → IsSorted cs
    → Becomes h new.at cs (insert_cell new cs) r
    → Places h new cs r
Becomes-Places h new cs r s (becomes g l st sp) =
    let parts = insert_cell-Splits new cs s in
    record {
      store = g;
      list = l;
      before = parts.before;
      after = parts.after;
      returns = refl;
      old = parts.old;
      now = subst (Stands g l) parts.now st;
      sorted = subst IsSorted parts.now (insert_cell-IsSorted new cs s);
      low = parts.low;
      high = parts.high;
      spares = sp;
    }

-- On a list that stands for a sequence sorted by key, with an unused address and at least as many
-- rounds as elements, SortedInsert succeeds, the list stays sorted, the new element stands behind
-- all elements whose keys are not greater and before all whose keys are, and no other address of
-- the store outside the list has changed.
pub sorted_insert-Places :
    (rounds fresh item key : ℕ) (h : Store) (l : ListObject) (cs : List Cell)
    → Stands h l cs
    → IsFresh h fresh
    → length cs ≤ rounds
    → IsSorted cs
    → Places h (cell fresh item key) cs (sorted_insert rounds fresh item key h l)
sorted_insert-Places rounds fresh item key h l cs st fr fuel s =
    Becomes-Places h (cell fresh item key) cs (sorted_insert rounds fresh item key h l) s
      (sorted_insert-Becomes rounds fresh item key h l cs st fr fuel)
