-- ===== src/LinkedList.antt =====
-- code/threads/list.cc and list.h: the singly linked list, at the level of its pointers. The store
-- holds the ListElements by their address; `fresh` is the address that `new` returns.
pub mod Chain
pub mod Insert
pub mod Links
pub mod Queue
pub mod Refine
pub mod Remove
pub mod Sorted
use my_nachos.Shared.{
  ℕ, zero, suc, ◌+◌, ◌-◌, ◌%◌, ◌^◌, Bool, true, false, Option, none, some, ◌==◌, if◌then◌else◌,
  Result, ok, stop, Stop, ◌>>=◌, ◌>>◌, assert, or_stop,
}
use my_nachos.Machine.Words.{signed_lt}

abbrev pub null : ℕ
null = 0

-- `item` is a pointer to anything; `key` is the 32-bit pattern of an integer.
pub record ListElement : Type 0 where
  pub item : ℕ
  pub key : ℕ
  pub next : ℕ

abbrev pub Store : Type 0
Store = ℕ → Option ListElement

-- The object of class `List`; `num_in_list` is the pattern of an integer.
pub record ListObject : Type 0 where
  pub first : ℕ
  pub last : ℕ
  pub num_in_list : ℕ

unfoldable pub write : Store → ℕ → Option ListElement → Store
write h p c a = if a == p then c else h a

-- `*p`, which needs an element at `p`.
unfoldable pub load : Store → ℕ → Result ListElement
load h p = if p == null then stop Stop.bad_pointer else or_stop (h p) Stop.bad_pointer

-- `p->next = q`.
unfoldable pub set_next : Store → ℕ → ℕ → Result Store
set_next h p q = do e ← load h p; ok (write h p (some (record e { next = q })))

-- The constructor of ListElement, and its place in the store.
unfoldable pub new_element : ℕ → ℕ → ListElement
new_element item sort_key = record { item = item; key = sort_key; next = null }

unfoldable pub new_list : ListObject
new_list = record { first = null; last = null; num_in_list = 0 }

abbrev pub plus_one : ℕ → ℕ
plus_one n = (n + 1) % 2 ^ 32

abbrev pub minus_one : ℕ → ℕ
minus_one n = (n + (2 ^ 32 - 1)) % 2 ^ 32

unfoldable pub is_empty : ListObject → Bool
is_empty l = l.first == null

-- The list with its only element, the element in front of all others, and the element behind them:
-- the three ways in which the insertions below link an element in.
unfoldable pub link_only : ℕ → ListObject → ListObject
link_only fresh l = record { first = fresh; last = fresh; num_in_list = plus_one l.num_in_list }

unfoldable pub link_front : ℕ → Store → ListObject → Result (Store × ListObject)
link_front fresh h l = do
  h' ← set_next h fresh l.first
  ok (h', record l { first = fresh; num_in_list = plus_one l.num_in_list })

unfoldable pub link_back : ℕ → Store → ListObject → Result (Store × ListObject)
link_back fresh h l = do
  h' ← set_next h l.last fresh
  ok (h', record l { last = fresh; num_in_list = plus_one l.num_in_list })

unfoldable pub append : ℕ → ℕ → Store → ListObject → Result (Store × ListObject)
append fresh item h l =
    let h' : Store = write h fresh (some (new_element item 0)) in
    if is_empty l then ok (h', link_only fresh l) else link_back fresh h' l

unfoldable pub prepend : ℕ → ℕ → Store → ListObject → Result (Store × ListObject)
prepend fresh item h l =
    let h' : Store = write h fresh (some (new_element item 0)) in
    if is_empty l then ok (h', link_only fresh l) else link_front fresh h' l

-- The `for` loop of SortedInsert at `ptr`, with the rounds left: the store in which the element is
-- linked before the first later one, or nothing if the loop comes to the last element.
pub insert_from : ℕ → ℕ → ℕ → ℕ → Store → Result (Option Store)
insert_from zero fresh sort_key ptr h = stop Stop.no_rounds
insert_from (suc n) fresh sort_key ptr h = load h ptr >>= λ e.
    let later = insert_from n fresh sort_key e.next h in
    if e.next == null
    then ok none
    else load h e.next >>= λ f.
        if signed_lt sort_key f.key
        then (do h' ← set_next h fresh e.next; h'' ← set_next h' ptr fresh; ok (some h''))
        else later

unfoldable pub sorted_insert : ℕ → ℕ → ℕ → ℕ → Store → ListObject → Result (Store × ListObject)
unfolding insert_from
sorted_insert rounds fresh item sort_key h l =
    let h' : Store = write h fresh (some (new_element item sort_key)) in
    if is_empty l
    then ok (h', link_only fresh l)
    else load h' l.first >>= λ e.
        if signed_lt sort_key e.key
        then link_front fresh h' l
        else insert_from rounds fresh sort_key l.first h' >>= λ r. elim r [
          | none ↦ link_back fresh h' l
          | some h'' ↦ ok (h'', record l { num_in_list = plus_one l.num_in_list })
        ]

-- What SortedRemove returns: `thing`, and `*keyPtr` if the pointer is not NULL.
pub record Removed : Type 0 where
  pub thing : ℕ
  pub key_at : Option ℕ
  pub store : Store
  pub list : ListObject

abbrev put_key : Option ℕ → ℕ → Option ℕ
put_key none k = none
put_key (some _) k = some k

-- `key_at` is `*keyPtr`, or nothing for NULL.
unfoldable pub sorted_remove : Option ℕ → Store → ListObject → Result Removed
sorted_remove key_at h l =
    if is_empty l
    then ok (record { thing = null; key_at = key_at; store = h; list = l })
    else load h l.first >>= λ e.
        let fewer = minus_one l.num_in_list in
        ok (record {
          thing = e.item;
          key_at = put_key key_at e.key;
          store = write h l.first none;
          list =
              if l.first == l.last
              then record { first = null; last = null; num_in_list = fewer }
              else record l { first = e.next; num_in_list = fewer };
        })

unfoldable pub remove : Store → ListObject → Result Removed
remove h l = sorted_remove none h l

-- The destructor, `while (Remove() != NULL)`, with the rounds left.
unfoldable pub delete_list : ℕ → Store → ListObject → Result (Store × ListObject)
delete_list zero h l = stop Stop.no_rounds
delete_list (suc n) h l = remove h l >>= λ r.
    let rest = delete_list n r.store r.list in
    if r.thing == null then ok (r.store, r.list) else rest

-- The `for` loop of Remove(item) at `ptr`, with the rounds left: the store without the element, and
-- `last`. Where the loop ends at NULL, the assertion behind it fails.
pub remove_from : ℕ → ℕ → ℕ → ℕ → Store → ℕ → Result (Store × ℕ)
remove_from zero item prev ptr h last = stop Stop.no_rounds
remove_from (suc n) item prev ptr h last =
    if ptr == null
    then stop Stop.assert_failed
    else load h ptr >>= λ e.
        let later = remove_from n item ptr e.next h last in
        if item == e.item
        then (do
          h' ← set_next h prev e.next
          ok (write h' ptr none, if e.next == null then prev else last))
        else later

unfoldable pub remove_item : ℕ → ℕ → Store → ListObject → Result (Store × ListObject)
unfolding remove_from
remove_item rounds item h l = load h l.first >>= λ e.
    if item == e.item
    then (do r ← remove h l; assert (item == r.thing); ok (r.store, r.list))
    else remove_from rounds item l.first e.next h l.last >>= λ r.
        ok (r.0, record l { last = r.1; num_in_list = minus_one l.num_in_list })

-- Mapcar at `ptr`, with the rounds left. What `func` does is a parameter: it changes the world, and
-- here it leaves the list as it is.
unfoldable pub mapcar_from : {W : Type 0} → (ℕ → W → Result W) → ℕ → ℕ → Store → W → Result W
mapcar_from func zero ptr h w = stop Stop.no_rounds
mapcar_from func (suc n) ptr h w =
    if ptr == null
    then ok w
    else load h ptr >>= λ e. func e.item w >>= λ w'. mapcar_from func n e.next h w'

unfoldable pub mapcar : {W : Type 0} → (ℕ → W → Result W) → ℕ → Store → ListObject → W → Result W
unfolding mapcar_from
mapcar func rounds h l w = mapcar_from func rounds l.first h w
