-- ===== src/Slist/Chain.antt =====
-- The list that the nodes of rtos_apps/slist.h represent.
use rtos_apps.Base.{
  ℕ, ◌≡◌, ◌≢◌, ◌∙◌, sym, List, [], ◌∷◌, ◌++◌, Memory, store, store_self, store_ne, All, ◌==◌,
  if◌then◌else◌, if_cases,
}
use rtos_apps.Slist.{null}

-- From the node `p` on come the nodes `es`.
abbrev pub Chain : Memory ℕ → ℕ → List ℕ → Type 0
Chain m p [] = m p ≡ null
Chain m p (e ∷ es) = (m p ≡ e) × (e ≢ null) × Chain m e es

abbrev pub NotIn : ℕ → List ℕ → Type 0
NotIn x es = All (λ e. x ≢ e) es

abbrev pub AllDistinct : List ℕ → Type 0
AllDistinct [] = Unit
AllDistinct (e ∷ es) = NotIn e es × AllDistinct es

-- The head at `head` holds the list `es`.
pub record IsSlist (m : Memory ℕ) (head : ℕ) (es : List ℕ) : Type 0 where
  pub head_ne : head ≢ null
  pub chain : Chain m head es
  pub distinct : AllDistinct (head ∷ es)

unfoldable pub remove : ℕ → List ℕ → List ℕ
remove x [] = []
remove x (e ∷ es) = if e == x then es else e ∷ remove x es

-- A write elsewhere keeps a chain.
pub Chain-store :
    (m : Memory ℕ) (a v p : ℕ) (es : List ℕ)
    → a ≢ p
    → NotIn a es
    → Chain m p es
    → Chain (store m a v) p es
Chain-store m a v p [] ne notin c = store_ne m v (λ e. ne (sym e)) ∙ c
Chain-store m a v p (e ∷ es) ne notin c =
    (store_ne m v (λ e. ne (sym e)) ∙ c.0, c.1, Chain-store m a v e es notin.0 notin.1 c.2)

-- A write of the end cuts the chain.
pub Chain-store_self : (m : Memory ℕ) (a : ℕ) → Chain (store m a null) a []
Chain-store_self m a = store_self m a null

-- A chain whose nodes keep their links, from another node with the same link.
pub Chain-move :
    (m m' : Memory ℕ) (p q : ℕ) (es : List ℕ)
    → m' q ≡ m p
    → All (λ x. m' x ≡ m x) es
    → Chain m p es
    → Chain m' q es
Chain-move m m' p q [] link same c = link ∙ c
Chain-move m m' p q (e ∷ es) link same c =
    (link ∙ c.0, c.1, Chain-move m m' e e es same.0 same.1 c.2)

-- Two writes keep the links of the other nodes.
pub store_twice :
    (m : Memory ℕ) (a v b w : ℕ) (es : List ℕ)
    → NotIn a es
    → NotIn b es
    → All (λ x. store (store m a v) b w x ≡ m x) es
store_twice m a v b w [] h g = tt
store_twice m a v b w (e ∷ es) h g = (
  store_ne (store m a v) w (λ i. g.0 (sym i)) ∙ store_ne m v (λ i. h.0 (sym i)),
  store_twice m a v b w es h.1 g.1,
)

pub NotIn-remove : (x y : ℕ) (es : List ℕ) → NotIn x es → NotIn x (remove y es)
unfolding remove
NotIn-remove x y [] h = tt
NotIn-remove x y (e ∷ es) h =
    if_cases (NotIn x) (e == y) (λ i. h.1) (λ i. (h.0, NotIn-remove x y es h.1))

pub AllDistinct-remove : (y : ℕ) (es : List ℕ) → AllDistinct es → AllDistinct (remove y es)
unfolding remove
AllDistinct-remove y [] h = tt
AllDistinct-remove y (e ∷ es) h =
    if_cases AllDistinct (e == y) (λ i. h.1)
      (λ i. (NotIn-remove e y es h.0, AllDistinct-remove y es h.1))

NotIn-snoc : (x e : ℕ) (es : List ℕ) → NotIn x es → x ≢ e → NotIn x (es ++ e ∷ [])
NotIn-snoc x e [] h ne = (ne, tt)
NotIn-snoc x e (d ∷ ds) h ne = (h.0, NotIn-snoc x e ds h.1 ne)

pub AllDistinct-snoc :
    (es : List ℕ) (e : ℕ) → AllDistinct es → NotIn e es → AllDistinct (es ++ e ∷ [])
AllDistinct-snoc [] e h out = (tt, tt)
AllDistinct-snoc (d ∷ ds) e h out =
    (NotIn-snoc d e ds h.0 (λ i. out.0 (sym i)), AllDistinct-snoc ds e h.1 out.1)
