-- ===== src/LinkedList/Refine.antt =====
-- The operations of code/threads/list.cc against what a list promises: a sequence of items with keys,
-- without addresses.
use my_nachos.Shared.{
  ℕ, ◌≤◌, ◌≡◌, refl, true, false, none, some, List, [], ◌∷◌, ◌++◌, ◌==◌, if◌then◌else◌, length,
  Result, ok, stop, Stop, ◌>>=◌, Option, ◌∙◌, ap, sym, subst, Bool-cases, inl, inr,
}
use my_nachos.Machine.Words.{signed_lt}
use my_nachos.LinkedList.{
  null, Store, ListObject, append, prepend, Removed, sorted_remove, put_key, remove_item,
  sorted_insert,
}
use my_nachos.LinkedList.Chain.{Cell, cell, Stands, IsFresh}
use my_nachos.LinkedList.Links.{Becomes, becomes}
use my_nachos.LinkedList.Insert.{insert_cell}
use my_nachos.LinkedList.Queue.{
  Takes, takes, sorted_remove-Takes, sorted_remove-nil, append-Becomes, prepend-Becomes,
}
use my_nachos.LinkedList.Remove.{
  has_item, erase, Removes, nothing, not_there, gone, remove_item-Removes,
}
use my_nachos.LinkedList.Sorted.{sorted_insert-Becomes}

-- A call; the insertions carry the address of the new element.
pub data ListCall : Type 0 where
  append_call prepend_call : (fresh item : ℕ) → ListCall
  insert_call : (fresh item key : ℕ) → ListCall
  take_call : (key_at : Option ℕ) → ListCall
  remove_call : (item : ℕ) → ListCall

-- The item and the key location that a call gives back, where it gives any.
abbrev pub Reply : Type 0
Reply = Option (ℕ × Option ℕ)

silent : Result (Store × ListObject) → Result (Reply × Store × ListObject)
silent r = r >>= λ s. ok (none, s.0, s.1)

unfoldable pub call : ℕ → ListCall → Store → ListObject → Result (Reply × Store × ListObject)
unfolding silent
call rounds (append_call fresh item) h l = silent (append fresh item h l)
call rounds (prepend_call fresh item) h l = silent (prepend fresh item h l)
call rounds (insert_call fresh item key) h l = silent (sorted_insert rounds fresh item key h l)
call rounds (take_call key_at) h l =
    sorted_remove key_at h l >>= λ r. ok (some (r.thing, r.key_at), r.store, r.list)
call rounds (remove_call item) h l = silent (remove_item rounds item h l)

-- The abstract list: items with their keys.
pub record Entry : Type 0 where
  pub item : ℕ
  pub key : ℕ

abbrev entry : ℕ → ℕ → Entry
entry item key = record { item = item; key = key }

abbrev pub entries : List Cell → List Entry
entries [] = []
entries (c ∷ cs) = entry c.item c.key ∷ entries cs

insert_entry : Entry → List Entry → List Entry
insert_entry new [] = new ∷ []
insert_entry new (e ∷ es) =
    let rest = insert_entry new es in if signed_lt new.key e.key then new ∷ e ∷ es else e ∷ rest

drop_entry : ℕ → List Entry → Option (List Entry)
drop_entry item [] = none
drop_entry item (e ∷ es) =
    let rest = drop_entry item es in
    if item == e.item then some es else elim rest [ none ↦ none | some es' ↦ some (e ∷ es') ]

removal : Option (List Entry) → Result (Reply × List Entry)
removal none = stop Stop.assert_failed
removal (some es) = ok (none, es)

unfoldable pub promised : ListCall → List Entry → Result (Reply × List Entry)
unfolding insert_entry drop_entry removal
promised (append_call fresh item) es = ok (none, es ++ (entry item 0 ∷ []))
promised (prepend_call fresh item) es = ok (none, entry item 0 ∷ es)
promised (insert_call fresh item key) es = ok (none, insert_entry (entry item key) es)
promised (take_call key_at) [] = ok (some (null, key_at), [])
promised (take_call key_at) (e ∷ es) = ok (some (e.item, put_key key_at e.key), es)
promised (remove_call item) [] = stop Stop.bad_pointer
promised (remove_call item) (e ∷ es) = removal (drop_entry item (e ∷ es))

-- The address that an insertion takes is one that `new` can return.
abbrev pub MayCall : ListCall → Store → Type 0
MayCall (append_call fresh item) h = IsFresh h fresh
MayCall (prepend_call fresh item) h = IsFresh h fresh
MayCall (insert_call fresh item key) h = IsFresh h fresh
MayCall (take_call key_at) h = Unit {0}
MayCall (remove_call item) h = Unit {0}

-- Both stop, or both give the same reply and the list stands for the promised entries again.
pub data Refines : Result (Reply × Store × ListObject) → Result (Reply × List Entry) → Type 0 where
  both_stop : (e : Stop) → Refines (stop e) (stop e)
  both_return :
      (reply : Reply) (g : Store) (l : ListObject) (cs : List Cell) {es : List Entry}
      → Stands g l cs
      → es ≡ entries cs
      → Refines (ok (reply, g, l)) (ok (reply, es))

entries-append : (cs ds : List Cell) → entries (cs ++ ds) ≡ entries cs ++ entries ds
entries-append [] ds = refl
entries-append (c ∷ cs) ds = ap (λ es. entry c.item c.key ∷ es) (entries-append cs ds)

insert_entry-entries :
    (new : Cell) (cs : List Cell)
    → insert_entry (entry new.item new.key) (entries cs) ≡ entries (insert_cell new cs)
unfolding insert_entry insert_cell
insert_entry-entries new [] = refl
insert_entry-entries new (c ∷ cs) = elim (Bool-cases (signed_lt new.key c.key)) [
  | inl lt ↦ rw lt refl
  | inr ge ↦ rw ge (ap (λ es. entry c.item c.key ∷ es) (insert_entry-entries new cs))
]

drop_entry-entries :
    (item : ℕ) (cs : List Cell)
    → drop_entry item (entries cs)
      ≡ (if has_item item cs then some (entries (erase item cs)) else none)
unfolding drop_entry has_item erase
drop_entry-entries item [] = refl
drop_entry-entries item (c ∷ cs) = elim (Bool-cases (item == c.item)) [
  | inl hit ↦ rw hit refl
  | inr miss ↦
      rw (miss, drop_entry-entries item cs)
        (elim (Bool-cases (has_item item cs)) [
          | inl there ↦ rw there refl
          | inr absent ↦ rw absent refl
        ])
]

drop_entry-missing :
    (item : ℕ) (cs : List Cell) → has_item item cs ≡ false → drop_entry item (entries cs) ≡ none
drop_entry-missing item cs e = drop_entry-entries item cs ∙ rw e refl

drop_entry-found :
    (item : ℕ) (cs : List Cell)
    → has_item item cs ≡ true
    → drop_entry item (entries cs) ≡ some (entries (erase item cs))
drop_entry-found item cs e = drop_entry-entries item cs ∙ rw e refl

Becomes-Refines :
    (h : Store) (a : ℕ) (cs cs' : List Cell) {es : List Entry} {r : Result (Store × ListObject)}
    → es ≡ entries cs'
    → Becomes h a cs cs' r
    → Refines (silent r) (ok (none, es))
unfolding silent
Becomes-Refines h a cs cs' e (becomes g l st sp) = both_return none g l cs' st e

Takes-Refines :
    (h : Store) (key_at : Option ℕ) (c : Cell) (cs : List Cell) {r : Result Removed}
    → Takes h key_at c cs r
    → Refines
        (r >>= λ r. ok (some (r.thing, r.key_at), r.store, r.list))
        (promised (take_call key_at) (entries (c ∷ cs)))
unfolding promised
Takes-Refines h key_at c cs (takes g l st freed same) =
    both_return (some (c.item, put_key key_at c.key)) g l cs st refl

Removes-Refines :
    (h : Store) (item : ℕ) (cs : List Cell) {r : Result (Store × ListObject)}
    → Removes h item cs r
    → Refines (silent r) (promised (remove_call item) (entries cs))
unfolding silent promised removal
Removes-Refines h item _ nothing = both_stop Stop.bad_pointer
Removes-Refines h item _ (not_there c cs e) =
    subst (λ o. Refines (stop Stop.assert_failed) (removal o))
      (sym (drop_entry-missing item (c ∷ cs) e)) (both_stop Stop.assert_failed)
Removes-Refines h item _ (gone c cs g l e st same) =
    subst (λ o. Refines (ok (none, g, l)) (removal o)) (sym (drop_entry-found item (c ∷ cs) e))
      (both_return none g l (erase item (c ∷ cs)) st refl)

-- On a list that stands for a sequence of elements in the store, with an unused address for a new
-- element and at least as many rounds as elements, every call of Append, Prepend, SortedInsert,
-- SortedRemove and Remove(item) does what the abstract list promises: both stop in the same way,
-- or both give the same reply and the list stands for the promised sequence of items and keys.
pub call-Refines :
    (rounds : ℕ) (c : ListCall) (h : Store) (l : ListObject) (cs : List Cell)
    → Stands h l cs
    → MayCall c h
    → length cs ≤ rounds
    → Refines (call rounds c h l) (promised c (entries cs))
unfolding call promised
call-Refines rounds (append_call fresh item) h l cs st fr fuel =
    Becomes-Refines h fresh cs (cs ++ (cell fresh item 0 ∷ []))
      (sym (entries-append cs (cell fresh item 0 ∷ []))) (append-Becomes fresh item h l cs st fr)
call-Refines rounds (prepend_call fresh item) h l cs st fr fuel =
    Becomes-Refines h fresh cs (cell fresh item 0 ∷ cs) refl
      (prepend-Becomes fresh item h l cs st fr)
call-Refines rounds (insert_call fresh item key) h l cs st fr fuel =
    Becomes-Refines h fresh cs (insert_cell (cell fresh item key) cs)
      (insert_entry-entries (cell fresh item key) cs)
      (sorted_insert-Becomes rounds fresh item key h l cs st fr fuel)
call-Refines rounds (take_call key_at) h l [] st fr fuel =
    rw (sorted_remove-nil key_at h l st) (both_return (some (null, key_at)) h l [] st refl)
call-Refines rounds (take_call key_at) h l (c ∷ cs) st fr fuel =
    Takes-Refines h key_at c cs (sorted_remove-Takes key_at h l c cs st)
call-Refines rounds (remove_call item) h l cs st fr fuel =
    Removes-Refines h item cs (remove_item-Removes rounds item h l cs st fuel)
