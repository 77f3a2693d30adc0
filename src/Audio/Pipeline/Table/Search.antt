-- ===== src/Audio/Pipeline/Table/Search.antt =====
-- The search for an element by its type and id, `audio_pipeline_element_find`.
use rtos_apps.Base.{
  ℕ, zero, suc, ◌+◌, ◌≡◌, inl, inr, ◌<◌, ◌≤◌, ◌∙◌, refl, sym, ap, arith, some, List, [], ◌∷◌, ◌++◌,
  length, get_elem?, ◌-◌, ◌==◌, dec_lt, Bool-cases,
}
use rtos_apps.Audio.Pipeline.Table.{
  Element, Pipeline, found, passed, scan_elements, scan_stages, element_find, of_type, all_elements,
}

-- The loop over one stage ends at the element of the type that is `d` further on, if there is one, and
-- otherwise with the count of all of them.
scan_found :
    (type id n d : ℕ) (es : List Element) {x : Element}
    → id ≡ n + d
    → get_elem? (of_type type es) d ≡ some x
    → scan_elements type id n es ≡ found x
unfolding scan_elements
scan_found type id n d [] eq h = cc
scan_found type id n zero (e ∷ es) {x} eq h = ground (arith, scan_found type id n 0 es {x = x} eq)
scan_found type id n (suc d) (e ∷ es) {x} eq h = ground (
  arith,
  scan_found type id (n + 1) d es {x = x} (omega arith),
  scan_found type id n (suc d) es {x = x} eq,
)

scan_passed :
    (type id n : ℕ) (es : List Element)
    → n + length (of_type type es) ≤ id
    → scan_elements type id n es ≡ passed (n + length (of_type type es))
unfolding scan_elements
scan_passed type id n [] h = ap passed (omega arith)
scan_passed type id n (e ∷ es) h = elim (Bool-cases (e.type == type)) [
  | inl hit ↦ ground (arith, hit, scan_passed type id (n + 1) es)
  | inr miss ↦ ground (arith, miss, scan_passed type id n es)
]

get-append_left :
    {A : Type 0} (xs ys : List A) (i : ℕ) → i < length xs → get_elem? (xs ++ ys) i ≡ get_elem? xs i
get-append_left [] ys i h = absurd (omega arith)
get-append_left (x ∷ xs) ys zero h = refl
get-append_left (x ∷ xs) ys (suc i) h = get-append_left xs ys i (omega arith)

get-append_right :
    {A : Type 0} (xs ys : List A) (i : ℕ) → get_elem? (xs ++ ys) (length xs + i) ≡ get_elem? ys i
get-append_right [] ys i = ap (get_elem? ys) (omega arith)
get-append_right (x ∷ xs) ys i =
    let e : suc (length xs) + i ≡ suc (length xs + i) = omega arith in
    rw e (get-append_right xs ys i)

get_some : {A : Type 0} (xs : List A) (i : ℕ) → i < length xs → (x : A) × (get_elem? xs i ≡ some x)
get_some [] i h = absurd (omega arith)
get_some (x ∷ xs) zero h = (x, refl)
get_some (x ∷ xs) (suc i) h = get_some xs i (omega arith)

of_type-append :
    (type : ℕ) (xs ys : List Element) → of_type type (xs ++ ys) ≡ of_type type xs ++ of_type type ys
of_type-append type [] ys = refl
of_type-append type (x ∷ xs) ys = ground (arith, of_type-append type xs ys)

scan_stages_lem :
    (type id : ℕ) (ss : List (List Element)) (n d : ℕ)
    → id ≡ n + d
    → scan_stages type id n ss ≡ get_elem? (of_type type (all_elements ss)) d
unfolding scan_stages
scan_stages_lem type id [] n d e = refl
scan_stages_lem type id (es ∷ ss) n d e =
    rw of_type-append (elim (dec_lt d (length (of_type type es))) [
      | yes here ↦
          let (x, at) = get_some (of_type type es) d here in
          rw
            (
              scan_found type id n d es e at,
              scan_stages,
              get-append_left (of_type type es) _ d here,
              at,
            )
            refl
      | no past ↦
          let k = d - length (of_type type es) in
          let split : d ≡ length (of_type type es) + k = omega arith in
          rw (scan_passed type id n es (omega arith), scan_stages)
            (scan_stages_lem type id ss (n + length (of_type type es)) k (omega arith)
              ∙ sym (
                  ap (get_elem? (of_type type es ++ of_type type (all_elements ss))) split
                  ∙ get-append_right (of_type type es) (of_type type (all_elements ss)) k))
    ])

-- The search by type and id gives the id-th element of that type in the order of the stages, if there
-- is one.
pub element_find_lem :
    (p : Pipeline) (type id : ℕ)
    → element_find p type id ≡ get_elem? (of_type type (all_elements p.stage)) id
unfolding element_find
element_find_lem p type id = scan_stages_lem type id p.stage 0 id (omega arith)
