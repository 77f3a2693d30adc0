-- ===== src/Slist/Refine.antt =====
-- The operations of rtos_apps/slist.h, and those of lists.
use rtos_apps.Base.{
  ℕ, zero, suc, ◌+◌, ◌≤◌, ◌<◌, ◌≡◌, ◌≢◌, ◌∙◌, refl, sym, ap, arith, some, List, [], ◌∷◌, ◌++◌,
  Memory, store, store_self, store_ne, length, ==_refl, ==_ne, ℕ_discrete, subst,
}
use rtos_apps.Slist.{
  null, slist_add_head, slist_add_tail, last_node, del_from, slist_del, visit, slist_for_each,
}
use rtos_apps.Slist.Chain.{
  Chain, NotIn, AllDistinct, IsSlist, remove, Chain-move, store_twice, NotIn-remove,
  AllDistinct-remove, AllDistinct-snoc,
}

-- A new head holds no node, and a node added at the head comes in front of the others.
pub add_head-IsSlist :
    (m : Memory ℕ) (head e : ℕ) (es : List ℕ)
    → IsSlist m head es
    → e ≢ null
    → e ≢ head
    → NotIn e es
    → IsSlist (slist_add_head m head e) head (e ∷ es)
unfolding slist_add_head
add_head-IsSlist m head e es s e_ne ne notin = record {
  head_ne = s.head_ne;
  chain = (
    store_self (store m e (m head)) head e,
    e_ne,
    Chain-move m (slist_add_head m head e) head e es
        (store_ne (store m e (m head)) e ne ∙ store_self m e (m head))
        (store_twice m e (m head) head e es notin s.distinct.0) s.chain,
  );
  distinct = ((λ i. ne (sym i), s.distinct.0), (notin, s.distinct.1));
}

-- What the loop of the deletion makes of the nodes `es` behind `p`.
abbrev Deleted : ℕ → Memory ℕ → ℕ → ℕ → List ℕ → Type 0
Deleted fuel m p entry es =
    (m' : Memory ℕ) × (del_from fuel m p entry ≡ some m')
    × Chain m' p (remove entry es)
    × ((x : ℕ) → x ≢ entry → NotIn x (p ∷ es) → m' x ≡ m x)

del_here :
    (fuel : ℕ) (m : Memory ℕ) (p e : ℕ) (es : List ℕ)
    → p ≢ null
    → Chain m p (e ∷ es)
    → AllDistinct (p ∷ e ∷ es)
    → Deleted (suc fuel) m p e (e ∷ es)
unfolding del_from remove
del_here fuel m p e es p_ne c d = (
  store (store m p (m e)) e null,
  rw (==_ne p null p_ne, c.0, ==_refl e) refl,
  rw (==_refl e) (
      Chain-move m (store (store m p (m e)) e null) e p es
        (store_ne (store m p (m e)) null d.0.0 ∙ store_self m p (m e))
        (store_twice m p (m e) e null es d.0.1 d.1.0) c.2),
  λ x other out. store_ne (store m p (m e)) null other ∙ store_ne m (m e) out.0,
)

del_from_lem :
    (fuel : ℕ) (m : Memory ℕ) (p entry : ℕ) (es : List ℕ)
    → length es + 2 ≤ fuel
    → p ≢ null
    → entry ≢ null
    → p ≢ entry
    → Chain m p es
    → AllDistinct (p ∷ es)
    → Deleted fuel m p entry es
unfolding del_from remove
del_from_lem zero m p entry es enough p_ne e_ne ne c d = absurd (omega arith)
del_from_lem (suc zero) m p entry es enough p_ne e_ne ne c d = absurd (omega arith)
del_from_lem (suc (suc fuel)) m p entry [] enough p_ne e_ne ne c d = (
  m,
  rw (==_ne p null p_ne, c, ==_ne null entry (λ i. e_ne (sym i))) refl,
  c,
  λ x other out. refl,
)
del_from_lem (suc (suc fuel)) m p entry (e ∷ es) enough p_ne e_ne ne c d =
    elim (ℕ_discrete e entry) [
      | yes i ↦
          subst (λ entry. Deleted (suc (suc fuel)) m p entry (e ∷ es)) i
            (del_here (suc fuel) m p e es p_ne c d)
      | no i ↦
          let ih = del_from_lem (suc fuel) m e entry es (omega arith) c.1 e_ne i c.2 d.1 in
          (
            ih.0,
            rw (==_ne p null p_ne, c.0, ==_ne e entry i) ih.1,
            rw (==_ne e entry i) (ih.3 p ne d.0 ∙ c.0, c.1, ih.2),
            λ x other out. ih.3 x other out.1,
          )
    ]

-- With fuel for each node and two rounds more, the deletion ends, takes the entry out of the list and
-- leaves the others in order; an entry that is not there changes nothing.
pub del-IsSlist :
    (fuel : ℕ) (m : Memory ℕ) (head entry : ℕ) (es : List ℕ)
    → length es + 2 ≤ fuel
    → IsSlist m head es
    → entry ≢ null
    → entry ≢ head
    → (m' : Memory ℕ) × (slist_del fuel m head entry ≡ some m') × IsSlist m' head (remove entry es)
unfolding slist_del
del-IsSlist fuel m head entry es enough s e_ne ne =
    let r =
      del_from_lem fuel m head entry es enough s.head_ne e_ne (λ i. ne (sym i)) s.chain
        s.distinct in
    (
      r.0,
      r.1,
      record {
        head_ne = s.head_ne;
        chain = r.2;
        distinct =
            (NotIn-remove head entry es s.distinct.0, AllDistinct-remove entry es s.distinct.1);
      },
    )

visit_lem :
    (fuel : ℕ) (m : Memory ℕ) (p : ℕ) (es : List ℕ)
    → length es < fuel
    → Chain m p es
    → visit fuel m (m p) ≡ some es
unfolding visit
visit_lem zero m p es enough c = absurd (omega arith)
visit_lem (suc fuel) m p [] enough c = rw c refl
visit_lem (suc fuel) m p (e ∷ es) enough c =
    rw (c.0, ==_ne e null c.1, visit_lem fuel m e es (omega arith) c.2)
      (ap (λ x. some (x ∷ es)) c.0)

-- A walk over the list ends, and visits its entries in order.
pub for_each_lem :
    (fuel : ℕ) (m : Memory ℕ) (head : ℕ) (es : List ℕ)
    → length es < fuel
    → IsSlist m head es
    → slist_for_each fuel m head ≡ some es
unfolding slist_for_each
for_each_lem fuel m head es enough s = visit_lem fuel m head es enough s.chain

-- The last node behind `p`, and what the two writes at the end make of the nodes.
tail_lem :
    (fuel : ℕ) (m : Memory ℕ) (p entry : ℕ) (es : List ℕ)
    → length es < fuel
    → entry ≢ null
    → Chain m p es
    → AllDistinct (p ∷ es)
    → NotIn entry (p ∷ es)
    → (l : ℕ) × (last_node fuel m p ≡ some l)
      × Chain (store (store m l entry) entry null) p (es ++ entry ∷ [])
      × ((x : ℕ) → NotIn x (p ∷ es) → x ≢ l)
unfolding last_node
tail_lem zero m p entry es enough e_ne c d out = absurd (omega arith)
tail_lem (suc fuel) m p entry [] enough e_ne c d out = (
  p,
  rw (c) refl,
  (
    store_ne (store m p entry) null (λ i. out.0 (sym i)) ∙ store_self m p entry,
    e_ne,
    store_self (store m p entry) entry null,
  ),
  λ x other. other.0,
)
tail_lem (suc fuel) m p entry (e ∷ es) enough e_ne c d out =
    let ih = tail_lem fuel m e entry es (omega arith) e_ne c.2 d.1 out.1 in
    (
      ih.0,
      rw (c.0, ==_ne e null c.1) ih.1,
      (
        store_ne (store m ih.0 entry) null (λ i. out.0 (sym i))
            ∙ store_ne m entry (ih.3 p d.0)
            ∙ c.0,
        c.1,
        ih.2,
      ),
      λ x other. ih.3 x other.1,
    )

-- A node added at the tail comes behind the others, with fuel for each node and one round more.
pub add_tail-IsSlist :
    (fuel : ℕ) (m : Memory ℕ) (head e : ℕ) (es : List ℕ)
    → length es < fuel
    → IsSlist m head es
    → e ≢ null
    → e ≢ head
    → NotIn e es
    → (m' : Memory ℕ) × (slist_add_tail fuel m head e ≡ some m') × IsSlist m' head (es ++ e ∷ [])
unfolding slist_add_tail
add_tail-IsSlist fuel m head e [] enough s e_ne ne out = (
  store (store m head e) e null,
  rw (s.chain) refl,
  record {
    head_ne = s.head_ne;
    chain = (
      store_ne (store m head e) null (λ i. ne (sym i)) ∙ store_self m head e,
      e_ne,
      store_self (store m head e) e null,
    );
    distinct = AllDistinct-snoc (head ∷ []) e s.distinct ((λ i. ne i), tt);
  },
)
add_tail-IsSlist fuel m head e (d ∷ ds) enough s e_ne ne out =
    let t = tail_lem fuel m d e ds (omega arith) e_ne s.chain.2 s.distinct.1 out in
    (
      store (store m t.0 e) e null,
      rw (s.chain.0, ==_ne d null s.chain.1, t.1) refl,
      record {
        head_ne = s.head_ne;
        chain = (
          store_ne (store m t.0 e) null (λ i. ne (sym i))
              ∙ store_ne m e (t.3 head s.distinct.0)
              ∙ s.chain.0,
          s.chain.1,
          t.2,
        );
        distinct = AllDistinct-snoc (head ∷ d ∷ ds) e s.distinct (ne, out);
      },
    )
