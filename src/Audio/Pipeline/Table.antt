-- ===== src/Audio/Pipeline/Table.antt =====
-- The pipelines at run time: the table of pipelines, and the searches for elements and for shared
-- buffers (the functions `audio_pipeline_table_*`, `audio_pipeline_element_find` and
-- `audio_pipeline_shared_buffer_find`). A pointer to a pipeline is its address.
pub mod Search
use rtos_apps.Base.{
  ℕ, zero, suc, ◌+◌, ◌≡◌, ◌≢◌, ◌↔◌, inl, inr, ◌<◌, ◌≤◌, ◌∙◌, refl, sym, ap, ap₂, arith, Bool, ◌&&◌,
  Option, none, some, List, [], ◌∷◌, ◌++◌, length, get_elem?, get_elem?-set_self, get_elem?-set_ne,
  set, ==_ne, ◌-◌, map, ◌==◌, ==_refl, dec_lt, Bool-cases, leb, if◌then◌else◌, All, Option-cases,
}
use rtos_apps.Audio.Buffer.{AudioBuffer}
use mathlib.Core.Option.{some-injective}
use rtos_apps.Audio.Pipeline.Config.{has_flag, audio_buffer_flag_shared}

abbrev pub audio_pipeline_max_pipelines : ℕ
audio_pipeline_max_pipelines = 4

-- `struct audio_element`, less its operations and private data.
pub record Element : Type 0 where
  pub type : ℕ
  pub sample_rate : ℕ
  pub period : ℕ
  pub element_id : ℕ

pub record Pipeline : Type 0 where
  pub stage : List (List Element)
  pub buffer : List AudioBuffer

-- `pipeline_table`, NULL being `none`.
abbrev pub Table : Type 0
Table = List (Option ℕ)

-- `none` is the result -1.
unfoldable pub table_add : ℕ → Table → Option Table
table_add p [] = none
table_add p (none ∷ t) = some (some p ∷ t)
table_add p (some q ∷ t) = elim (table_add p t) [ none ↦ none | some t' ↦ some (some q ∷ t') ]

abbrev pub del_entry : ℕ → Option ℕ → Option ℕ
del_entry p none = none
del_entry p (some q) = if q == p then none else some q

unfoldable pub table_del : ℕ → Table → Table
table_del p t = map (del_entry p) t

unfoldable pub table_find : Table → ℕ → Option ℕ
table_find t id =
    if leb audio_pipeline_max_pipelines id
    then none
    else (elim (get_elem? t id) [ none ↦ none | some p ↦ p ])

-- The loop over the elements of a stage ends with the element, or with the count of those of the type.
pub data Scan : Type 0 where
  found : Element → Scan
  passed : ℕ → Scan

unfoldable pub scan_elements : ℕ → ℕ → ℕ → List Element → Scan
scan_elements type id n [] = passed n
scan_elements type id n (e ∷ es) =
    let rest = scan_elements type id (if e.type == type then n + 1 else n) es in
    if e.type == type && n == id then found e else rest

unfoldable pub scan_stages : ℕ → ℕ → ℕ → List (List Element) → Option Element
unfolding scan_elements
scan_stages type id n [] = none
scan_stages type id n (es ∷ ss) = elim (scan_elements type id n es) [
  | found e ↦ some e
  | passed k ↦ scan_stages type id k ss
]

unfoldable pub element_find : Pipeline → ℕ → ℕ → Option Element
unfolding scan_stages
element_find p type id = scan_stages type id 0 p.stage

abbrev pub is_shared : ℕ → AudioBuffer → Bool
is_shared id b = has_flag b.flags audio_buffer_flag_shared && b.shared_id == id

unfoldable pub find_shared : ℕ → List AudioBuffer → Option AudioBuffer
find_shared id [] = none
find_shared id (b ∷ bs) = let rest = find_shared id bs in if is_shared id b then some b else rest

-- The loop ends at the first free entry of the table.
unfoldable pub shared_buffer_find : (ℕ → Pipeline) → Table → ℕ → Option AudioBuffer
unfolding find_shared
shared_buffer_find heap [] id = none
shared_buffer_find heap (none ∷ t) id = none
shared_buffer_find heap (some p ∷ t) id = elim (find_shared id (heap p).buffer) [
  | none ↦ shared_buffer_find heap t id
  | some b ↦ some b
]

-- The elements of a type, in the order of the stages.
abbrev pub of_type : ℕ → List Element → List Element
of_type type [] = []
of_type type (e ∷ es) = if e.type == type then e ∷ of_type type es else of_type type es

abbrev pub all_elements : List (List Element) → List Element
all_elements [] = []
all_elements (es ∷ ss) = es ++ all_elements ss

-- The entry is not in the table.
abbrev pub IsAbsent : ℕ → Table → Type 0
IsAbsent p t = All (λ e. e ≢ some p) t

-- Registering fails exactly when no entry is free.
pub table_add-none : (p : ℕ) (t : Table) → (table_add p t ≡ none) ↔ All (λ e. e ≢ none) t
unfolding table_add
table_add-none p [] = (λ h. tt, λ h. refl)
table_add-none p (none ∷ t) = (λ h. cc, λ h. absurd (h.0 refl))
table_add-none p (some q ∷ t) = (
  λ h. (λ e. cc, (table_add-none p t).0 (ground arith)),
  λ h. ground (arith, (table_add-none p t).1 h.1),
)

-- The entry that a pipeline goes to was free.
add_at :
    (p : ℕ) (t : Table) {t' : Table}
    → table_add p t ≡ some t'
    → (i : ℕ) × (get_elem? t i ≡ some none) × (t' ≡ set t i (some p))
unfolding table_add
add_at p [] e = cc
add_at p (none ∷ t) {t'} e = (0, refl, sym (some-injective _ _ e))
add_at p (some q ∷ t) {t'} e = elim (Option-cases (table_add p t)) [
  | inl no_room ↦ ground (arith, no_room)
  | inr (u, eq) ↦ let (i, free, put) = add_at p t eq in (suc i, free, ground (arith, put, eq))
]

del_absent : (p : ℕ) (t : Table) → IsAbsent p t → table_del p t ≡ t
unfolding table_del
del_absent p [] a = refl
del_absent p (none ∷ t) a = ap (◌∷◌ none) (del_absent p t a.1)
del_absent p (some q ∷ t) a =
    ap₂ ◌∷◌ (rw (==_ne q p λ e. a.0 (ap {B = Option ℕ} some e)) refl) (del_absent p t a.1)

del_set :
    (p : ℕ) (t : Table) (i : ℕ)
    → IsAbsent p t
    → get_elem? t i ≡ some none
    → table_del p (set t i (some p)) ≡ t
unfolding table_del
del_set p [] i a e = cc
del_set p (x ∷ t) zero a e =
    ap₂ ◌∷◌ (rw (==_refl p) (sym (some-injective _ _ e))) (del_absent p t a.1)
del_set p (none ∷ t) (suc i) a e = ap (◌∷◌ none) (del_set p t i a.1 e)
del_set p (some q ∷ t) (suc i) a e =
    ap₂ ◌∷◌ (rw (==_ne q p λ e. a.0 (ap {B = Option ℕ} some e)) refl) (del_set p t i a.1 e)

-- Taking out a pipeline that was just registered gives the table back.
pub table_del-add :
    (p : ℕ) (t : Table) {t' : Table} → IsAbsent p t → table_add p t ≡ some t' → table_del p t' ≡ t
table_del-add p t {t'} a e = let (i, free, put) = add_at p t e in rw put (del_set p t i a free)

length-get : {A : Type 0} (xs : List A) (i : ℕ) {x : A} → get_elem? xs i ≡ some x → i < length xs
length-get [] i e = cc
length-get (x ∷ xs) zero e = omega arith
length-get (x ∷ xs) (suc i) e = omega (arith, length-get xs i e)

-- A pipeline that is registered is found under the index of an entry that was free, and the
-- other entries stay.
pub table_find-add :
    (p : ℕ) (t : Table) {t' : Table}
    → length t ≡ audio_pipeline_max_pipelines
    → table_add p t ≡ some t'
    → (i : ℕ) × (table_find t' i ≡ some p)
      × (table_find t i ≡ none)
      × ((j : ℕ) → j ≢ i → table_find t' j ≡ table_find t j)
unfolding table_find
table_find-add p t {t'} len e =
    let (i, free, put) = add_at p t e in
    (
      i,
      ground
          (arith, put, get_elem?-set_self t i (some p) (length-get t i free), length-get t i free),
      ground (arith, free),
      λ j ne. rw (put, get_elem?-set_ne t (some p) (λ (eq : i ≡ j). ne (sym eq))) refl,
    )

-- After the pipeline in the first entry has gone, no shared buffer is found, also if a pipeline of a
-- later entry has one: the search ends at the free entry.
pub shared_buffer_find-del :
    (heap : ℕ → Pipeline) (p : ℕ) (t : Table) (id : ℕ)
    → shared_buffer_find heap (table_del p (some p ∷ t)) id ≡ none
unfolding shared_buffer_find table_del
shared_buffer_find-del heap p t id = rw (==_refl p) refl
