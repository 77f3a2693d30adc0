-- ===== src/Slist/Tests.antt =====
-- A list of two nodes at the addresses 20 and 30 behind the head at 10, and the theorems at it.
use rtos_apps.Base.{ℕ, ◌≡◌, refl, arith, some, [], ◌∷◌, Memory, ◌==◌, if◌then◌else◌}
use rtos_apps.Slist.{slist_add_head, slist_add_tail, slist_del, slist_for_each}
use rtos_apps.Slist.Chain.{IsSlist, remove}
use rtos_apps.Slist.Refine.{add_head-IsSlist, add_tail-IsSlist, del-IsSlist, for_each_lem}

abbrev nodes : Memory ℕ
nodes a = if a == 10 then 20 else if a == 20 then 30 else 0

nodes-IsSlist : IsSlist nodes 10 (20 ∷ 30 ∷ [])
nodes-IsSlist = record {
  head_ne = λ e. ground arith;
  chain = (refl, (λ e. ground arith), (refl, (λ e. ground arith), refl));
  distinct =
      (((λ e. ground arith), ((λ e. ground arith), tt)), (((λ e. ground arith), tt), (tt, tt)));
}

add_head-IsSlist_run : IsSlist (slist_add_head nodes 10 40) 10 (40 ∷ 20 ∷ 30 ∷ [])
add_head-IsSlist_run =
    add_head-IsSlist nodes 10 40 (20 ∷ 30 ∷ []) nodes-IsSlist (λ e. ground arith)
      (λ e. ground arith) ((λ e. ground arith), ((λ e. ground arith), tt))

add_tail-IsSlist_run :
    (m' : Memory ℕ) × (slist_add_tail 3 nodes 10 40 ≡ some m') × IsSlist m' 10 (20 ∷ 30 ∷ 40 ∷ [])
add_tail-IsSlist_run =
    add_tail-IsSlist 3 nodes 10 40 (20 ∷ 30 ∷ []) (omega arith) nodes-IsSlist (λ e. ground arith)
      (λ e. ground arith) ((λ e. ground arith), ((λ e. ground arith), tt))

del-IsSlist_example :
    (m' : Memory ℕ) × (slist_del 4 nodes 10 20 ≡ some m') × IsSlist m' 10 (remove 20 (20 ∷ 30 ∷ []))
del-IsSlist_example =
    del-IsSlist 4 nodes 10 20 (20 ∷ 30 ∷ []) (omega arith) nodes-IsSlist (λ e. ground arith)
      (λ e. ground arith)

for_each_lem_example : slist_for_each 3 nodes 10 ≡ some (20 ∷ 30 ∷ [])
for_each_lem_example = for_each_lem 3 nodes 10 (20 ∷ 30 ∷ []) (omega arith) nodes-IsSlist
