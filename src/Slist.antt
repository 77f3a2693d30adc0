-- ===== src/Slist.antt =====
-- rtos_apps/slist.h: singly linked lists. The memory gives the `next` of the node at each address; the
-- head is a node too, whose `next` is its `first`, as the code reads it in `slist_del`. Loops run on fuel.
pub mod Chain
pub mod Refine
mod Tests
use rtos_apps.Base.{
  ℕ, zero, suc, Bool, true, false, Option, none, some, List, [], ◌∷◌, Memory, store, ◌==◌,
  if◌then◌else◌, not,
}

abbrev pub null : ℕ
null = 0

unfoldable pub slist_head_init : Memory ℕ → ℕ → Memory ℕ
unfolding store
slist_head_init m head = store m head null

unfoldable pub slist_add_head : Memory ℕ → ℕ → ℕ → Memory ℕ
unfolding store
slist_add_head m head entry = store (store m entry (m head)) head entry

-- The loop of `slist_add_tail` from `node` on; `none` is the end of the fuel.
unfoldable pub last_node : ℕ → Memory ℕ → ℕ → Option ℕ
last_node zero m node = none
last_node (suc fuel) m node =
    let rest = last_node fuel m (m node) in if m node == null then some node else rest

unfoldable pub slist_add_tail : ℕ → Memory ℕ → ℕ → ℕ → Option (Memory ℕ)
unfolding last_node store
slist_add_tail fuel m head entry =
    let last = last_node fuel m (m head) in
    if m head == null
    then some (store (store m head entry) entry null)
    else elim last [ none ↦ none | some node ↦ some (store (store m node entry) entry null) ]

-- The loop of `slist_del` from `prev` on.
unfoldable pub del_from : ℕ → Memory ℕ → ℕ → ℕ → Option (Memory ℕ)
unfolding store
del_from zero m prev entry = none
del_from (suc fuel) m prev entry =
    let rest = del_from fuel m (m prev) entry in
    if prev == null
    then some m
    else if m prev == entry
    then some (store (store m prev (m entry)) entry null)
    else rest

unfoldable pub slist_del : ℕ → Memory ℕ → ℕ → ℕ → Option (Memory ℕ)
unfolding del_from
slist_del fuel m head entry = del_from fuel m head entry

-- The entries that `slist_for_each` visits from `entry` on.
unfoldable pub visit : ℕ → Memory ℕ → ℕ → Option (List ℕ)
visit zero m entry = none
visit (suc fuel) m entry =
    let rest = visit fuel m (m entry) in
    if entry == null then some [] else elim rest [ none ↦ none | some es ↦ some (entry ∷ es) ]

unfoldable pub slist_for_each : ℕ → Memory ℕ → ℕ → Option (List ℕ)
unfolding visit
slist_for_each fuel m head = visit fuel m (m head)

unfoldable pub slist_empty : Memory ℕ → ℕ → Bool
slist_empty m head = m head == null
