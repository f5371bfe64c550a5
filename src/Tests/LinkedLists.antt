-- ===== src/Tests/LinkedLists.antt =====
-- Runs of code/threads/list.cc.
use my_nachos.Shared.{
  Result, Option, stop, ◌≡◌, refl, none, some, [], ◌∷◌, ok, arith, if◌then◌else◌, ◌==◌, List,
}
use my_nachos.LinkedList.{
  Store, ListObject, ListElement, append, sorted_insert, sorted_remove, remove_item, delete_list,
  mapcar,
}
use my_nachos.LinkedList.Chain.{Cell, cell, Stands, IsFresh}
use my_nachos.LinkedList.Refine.{remove_call, call, promised, Refines, entries, call-Refines}
use my_nachos.LinkedList.Sorted.{IsSorted, Places, sorted_insert-Places}

-- The items 7 and 8 with the keys 10 and 30, at the addresses 100 and 200.
abbrev store : Store
store a =
    if a == 100
    then some (record { item = 7; key = 10; next = 200 })
    else if a == 200
    then some (record { item = 8; key = 30; next = 0 })
    else none

abbrev two : ListObject
two = record { first = 100; last = 200; num_in_list = 2 }

abbrev cells : List Cell
cells = cell 100 7 10 ∷ cell 200 8 30 ∷ []

two-Stands : Stands store two cells
two-Stands = record {
  first = refl;
  last = refl;
  count = refl;
  chain = ((λ e. omega (arith, e)), refl, refl, ((λ e. omega (arith, e)), refl, refl, tt));
}

unused-IsFresh : IsFresh store 300
unused-IsFresh = record { not_null = λ e. omega (arith, e); unused = refl }

cells-IsSorted : IsSorted cells
unfolding my_nachos.Machine.Words.signed_lt
cells-IsSorted = ((refl, tt), (tt, tt))

sorted_insert-Places_example :
    Places store (cell 300 9 20) cells (sorted_insert 5 300 9 20 store two)
sorted_insert-Places_example =
    sorted_insert-Places 5 300 9 20 store two cells two-Stands unused-IsFresh (omega arith)
      cells-IsSorted

call-Refines_example :
    Refines (call 5 (remove_call 8) store two) (promised (remove_call 8) (entries cells))
call-Refines_example = call-Refines 5 (remove_call 8) store two cells two-Stands tt (omega arith)

-- Mapcar with a function that collects the items.
mapcar_run : mapcar (λ item items. ok (item ∷ items)) 5 store two [] ≡ ok (8 ∷ 7 ∷ [])
unfolding mapcar my_nachos.LinkedList.mapcar_from my_nachos.LinkedList.load
mapcar_run = refl

-- The destructor takes both elements off.
list_left : Result (Store × ListObject) → Option ListObject
list_left (ok s) = some s.1
list_left (stop e) = none

delete_list_run :
    list_left (delete_list 5 store two) ≡ some (record { first = 0; last = 0; num_in_list = 0 })
unfolding delete_list my_nachos.LinkedList.remove my_nachos.LinkedList.sorted_remove
    my_nachos.LinkedList.is_empty my_nachos.LinkedList.load my_nachos.LinkedList.write list_left
delete_list_run = refl
