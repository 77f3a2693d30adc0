-- ===== src/Tsn/Scenario/Rounds.antt =====
-- What a scenario of tsn/motor/scenarios.c goes through.
use rtos_apps.Base.{
  ℕ, zero, suc, ◌+◌, ◌*◌, ◌/◌, ◌%◌, ◌^◌, ◌<◌, ◌≡◌, ◌≢◌, ◌⊎◌, ◌∙◌, inl, inr, refl, sym, arith, Bool,
  true, ◌&&◌, Option, none, some, List, [], ◌∷◌, length, get_elem?, All, ltb, ◌==◌, ==_ne,
  if◌then◌else◌, subst, ap,
}
use mathlib.Core.Option.{some-injective}
use native.Mathlib.Nat.{mod-eq_of_lt, mod-lt, mod-add-mod}
use rtos_apps.Tsn.Scenario.Blocks.{ScenarioBlock, blocks_0, blocks_0_rev, blocks_test}
use rtos_apps.Tsn.Scenario.Interlaced.{blocks_2}
use rtos_apps.Tsn.Scenario.{
  ScenarioCtx, app_period_250_us, get_scenario_block, next_block_scenario, blocks_of, scenario_init,
  load, load_from, load_read,
}

-- A table that is not empty and short enough for the iterator, whose delays are scaled without a wrap.
abbrev fits : List ScenarioBlock → Bool
fits [] = true
fits (b ∷ bs) = ltb (b.after_delay * app_period_250_us) (2 ^ 32) && fits bs

abbrev pub Fits : List ScenarioBlock → Type 0
Fits bs =
    (0 < length bs)
    × (length bs < 2 ^ 16)
    × All (λ b. b.after_delay * app_period_250_us < 2 ^ 32) bs

fits_all :
    (bs : List ScenarioBlock)
    → fits bs ≡ true
    → All (λ b. b.after_delay * app_period_250_us < 2 ^ 32) bs
fits_all [] h = tt
fits_all (b ∷ bs) h = (ground arith, fits_all bs (ground arith))

-- What holds of the four tables holds of the table of each scenario.
table_cases {κ} :
    (P : ℕ → List ScenarioBlock → Type κ)
    → P 0 blocks_0
    → P 1 blocks_0_rev
    → P 2 blocks_2
    → P 3 blocks_test
    → (id : ℕ) → (id ≡ 0) ⊎ (id ≡ 1) ⊎ (id ≡ 2) ⊎ (id ≡ 3)
    → (bs : List ScenarioBlock) × (blocks_of id ≡ some bs) × P id bs
unfolding blocks_of
table_cases P a b c d id (inl e) = rw e (blocks_0, refl, a)
table_cases P a b c d id (inr (inl e)) = rw e (blocks_0_rev, refl, b)
table_cases P a b c d id (inr (inr (inl e))) = rw e (blocks_2, refl, c)
table_cases P a b c d id (inr (inr (inr e))) = rw e (blocks_test, refl, d)

tables_fit : (id : ℕ) → id < 4 → (bs : List ScenarioBlock) × (blocks_of id ≡ some bs) × Fits bs
tables_fit id lt =
    table_cases (λ id bs. Fits bs) (omega arith, omega arith, fits_all blocks_0 refl)
      (omega arith, omega arith, fits_all blocks_0_rev refl)
      (omega arith, omega arith, fits_all blocks_2 refl)
      (omega arith, omega arith, fits_all blocks_test refl) id (ground arith)

in_table :
    (bs : List ScenarioBlock) (i : ℕ)
    → i < length bs
    → (b : ScenarioBlock) × (get_elem? bs i ≡ some b)
in_table [] i lt = absurd (omega arith)
in_table (b ∷ bs) zero lt = (b, refl)
in_table (b ∷ bs) (suc i) lt = in_table bs i (omega arith)

in_table_All :
    (P : ScenarioBlock → Type 0) (bs : List ScenarioBlock) (i : ℕ) (b : ScenarioBlock)
    → All P bs
    → get_elem? bs i ≡ some b
    → P b
in_table_All P [] i b h e = ground arith
in_table_All P (d ∷ ds) zero b h e = subst P (some-injective d b e) h.0
in_table_All P (d ∷ ds) (suc i) b h e = in_table_All P ds i b h.1 e

-- `k` calls of `next_block_scenario` in a row.
pub turns : ℕ → ScenarioCtx → Option ScenarioCtx
turns zero ctx = some ctx
turns (suc k) ctx = elim (turns k ctx) [ none ↦ none | some c ↦ next_block_scenario c ]

-- The scenario over the table `bs` stands at the block of the turn `k`.
record StandsAt (bs : List ScenarioBlock) (period k : ℕ) (c : ScenarioCtx) : Type 0 where
  table : c.blocks ≡ some bs
  size : c.scenario_size ≡ length bs
  iterator : c.blocks_iterator ≡ k % length bs
  app_period : c.app_period_ns ≡ period

next_mod : (k n : ℕ) → 0 < n → n < 2 ^ 16 → (k % n + 1) % 2 ^ 16 % n ≡ suc k % n
next_mod k n pos_n lt =
    let m = mod-lt k pos_n in
    let small : k % n + 1 < 2 ^ 16 = omega arith in
    rw (mod-eq_of_lt small) (mod-add-mod k n 1 ∙ ap (λ x. x % n) (omega arith))

next_lem :
    (bs : List ScenarioBlock) (period k : ℕ) (c : ScenarioCtx)
    → Fits bs
    → StandsAt bs period k c
    → (c' : ScenarioCtx) × (next_block_scenario c ≡ some c') × StandsAt bs period (suc k) c'
unfolding next_block_scenario
next_lem bs period k c f s =
    let some_size : c.scenario_size ≢ 0 = λ e. omega (arith, e, s.size, f.0) in
    (
      record c { blocks_iterator = (c.blocks_iterator + 1) % 2 ^ 16 % c.scenario_size },
      rw (==_ne c.scenario_size 0 some_size) refl,
      record {
        table = s.table;
        size = s.size;
        iterator = rw (s.size, s.iterator) (next_mod k (length bs) f.0 f.1);
        app_period = s.app_period;
      },
    )

turns_lem :
    (bs : List ScenarioBlock) (period k : ℕ) (ctx : ScenarioCtx)
    → Fits bs
    → StandsAt bs period 0 ctx
    → (c : ScenarioCtx) × (turns k ctx ≡ some c) × StandsAt bs period k c
unfolding turns
turns_lem bs period zero ctx f s = (ctx, refl, s)
turns_lem bs period (suc k) ctx f s =
    let ih = turns_lem bs period k ctx f s in
    let n = next_lem bs period k ih.0 f ih.2 in (n.0, rw ih.1 n.1, n.2)

-- What the block `b` sets, with its delay in cycles of `period` ns.
pub record Loads (b : ScenarioBlock) (period : ℕ) (c : ScenarioCtx) : Type 0 where
  pub loads_pos : c.pos_target ≡ b.pos_target
  pub loads_speed : c.speed_max ≡ b.speed_max
  pub loads_delay : c.after_delay ≡ b.after_delay * app_period_250_us / period

get_loads :
    (bs : List ScenarioBlock) (b : ScenarioBlock) (c : ScenarioCtx)
    → c.blocks ≡ some bs
    → get_elem? bs c.blocks_iterator ≡ some b
    → c.app_period_ns ≢ 0
    → get_scenario_block c ≡ some (load b c)
unfolding get_scenario_block
get_loads bs b c h e ne =
    ap (λ o. load_from o c) h
    ∙ ap (λ o. load_read o c) e
    ∙ ap (λ t. if t then none else some (load b c)) (==_ne c.app_period_ns 0 ne)

get_lem :
    (bs : List ScenarioBlock) (period k : ℕ) (c : ScenarioCtx)
    → Fits bs
    → 0 < period
    → StandsAt bs period k c
    → (b : ScenarioBlock) × (c' : ScenarioCtx) × (get_elem? bs (k % length bs) ≡ some b)
      × (get_scenario_block c ≡ some c')
      × Loads b period c'
get_lem bs period k c f per s =
    let m = in_table bs (k % length bs) (mod-lt k f.0) in
    let fit =
      in_table_All (λ b. b.after_delay * app_period_250_us < 2 ^ 32) bs (k % length bs) m.0 f.2
        m.1 in
    let ne : c.app_period_ns ≢ 0 = λ e. omega (arith, e, s.app_period, per) in
    let e : get_elem? bs c.blocks_iterator ≡ some m.0 = rw s.iterator m.1 in
    (
      m.0,
      load m.0 c,
      m.1,
      get_loads bs m.0 c s.table e ne,
      record {
        loads_pos = refl;
        loads_speed = refl;
        loads_delay = rw (s.app_period, mod-eq_of_lt fit) refl;
      },
    )

-- A scenario that exists goes round its table for ever: after `k` turns the block loaded is the one with the
-- number `k` modulo the table's size, no access or division fails, and the delay is scaled without a wrap.
pub turns_load :
    (ctx : ScenarioCtx) (id period k : ℕ)
    → id < 4
    → 0 < period
    → (bs : List ScenarioBlock) × (b : ScenarioBlock) × (c c' : ScenarioCtx) × (blocks_of id
        ≡ some bs)
      × (get_elem? bs (k % length bs) ≡ some b)
      × (turns k (scenario_init ctx id period).0 ≡ some c)
      × (get_scenario_block c ≡ some c')
      × Loads b period c'
unfolding scenario_init
turns_load ctx id period k lt per =
    let t = tables_fit id lt in
    let s : StandsAt t.0 period 0 (scenario_init ctx id period).0 =
      rw (scenario_init, t.1)
        (record {
          table = refl;
          size = refl;
          iterator = sym (mod-eq_of_lt t.2.0);
          app_period = refl;
        }) in
    let c = turns_lem t.0 period k (scenario_init ctx id period).0 t.2 s in
    let g = get_lem t.0 period k c.0 t.2 per c.2 in (t.0, g.0, c.0, g.1, t.1, g.2, c.1, g.3, g.4)

-- The places of the blocks without a speed.
abbrev pub resting : ℕ → List ScenarioBlock → List ℕ
resting i [] = []
resting i (b ∷ bs) = if b.speed_max == 0 then i ∷ resting (i + 1) bs else resting (i + 1) bs

-- All blocks of the scenarios have a speed limit above 0, except that of the number 5 of the test, which its
-- table leaves out.
pub blocks_have_speed :
    (id : ℕ)
    → id < 4
    → (bs : List ScenarioBlock) × (blocks_of id ≡ some bs)
      × (resting 0 bs ≡ (if id == 3 then 5 ∷ [] else []))
blocks_have_speed id lt =
    table_cases (λ id bs. resting 0 bs ≡ (if id == 3 then 5 ∷ [] else [])) refl refl refl refl id
      (ground arith)
