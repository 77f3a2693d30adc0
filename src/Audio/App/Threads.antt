-- ===== src/Audio/App/Threads.antt =====
-- audio/audio.c: the threads of the audio application, their set-up with its error paths, and the end of
-- a thread. The results of the calls are inputs, for each thread.
use rtos_apps.Base.{
  ℕ, ◌+◌, ◌≡◌, refl, arith, Bool, true, false, List, [], ◌∷◌, All, if◌then◌else◌, if_cases,
}

-- What a data thread holds.
pub record DataThreadRes : Type 0 where
  pub sem : Bool
  pub mqueue : Bool
  pub thread : Bool

-- The results of the calls for a data thread.
pub record ThreadCalls : Type 0 where
  pub mutex_inits : Bool
  pub sem_inits : Bool
  pub mqueue_allocs : Bool
  pub creates : Bool

unfoldable pub audio_thread_init : ThreadCalls → DataThreadRes → DataThreadRes × Bool
audio_thread_init c t =
    if c.mutex_inits
    then (if c.sem_inits
        then (if c.mqueue_allocs
            then (if c.creates
                then (record { sem = true; mqueue = true; thread = true }, true)
                else (record t { sem = false; mqueue = false }, false))
            else (record t { sem = false }, false))
        else (t, false))
    else (t, false)

unfoldable pub audio_thread_exit : DataThreadRes → DataThreadRes
audio_thread_exit t = record { sem = false; mqueue = false; thread = false }

-- The loop over the threads, and the loop that ends those of the threads in front of the failure, which
-- the recursion does on its way back.
unfoldable pub init_threads : (ℕ → ThreadCalls) → ℕ → List DataThreadRes → List DataThreadRes × Bool
unfolding audio_thread_init audio_thread_exit
init_threads c i [] = ([], true)
init_threads c i (t ∷ ts) =
    let r = audio_thread_init (c i) t in
    let rest = init_threads c (i + 1) ts in
    if r.1
    then (if rest.1 then (r.0 ∷ rest.0, true) else (audio_thread_exit r.0 ∷ rest.0, false))
    else (r.0 ∷ ts, false)

-- The context, whether it is allocated, with its data threads and whether the control thread runs.
pub record AudioApp : Type 0 where
  pub allocated : Bool
  pub threads : List DataThreadRes
  pub ctrl : Bool

pub record InitCalls : Type 0 where
  pub allocates : Bool
  pub reset_mutex_inits : Bool
  pub data_threads : ℕ → ThreadCalls
  pub creates_ctrl : Bool

-- `none_yet` are the data threads of the cleared context.
unfoldable pub rtos_apps_audio_init : InitCalls → List DataThreadRes → AudioApp × Bool
unfolding init_threads
rtos_apps_audio_init c none_yet =
    let ts = init_threads c.data_threads 0 none_yet in
    if c.allocates
    then (if c.reset_mutex_inits
        then (if ts.1
            then (if c.creates_ctrl
                then (record { allocated = true; threads = ts.0; ctrl = true }, true)
                else (record { allocated = false; threads = ts.0; ctrl = false }, false))
            else (record { allocated = false; threads = ts.0; ctrl = false }, false))
        else (record { allocated = false; threads = none_yet; ctrl = false }, false))
    else (record { allocated = false; threads = none_yet; ctrl = false }, false)

abbrev pub IsIdle : DataThreadRes → Type 0
IsIdle t = (t.sem ≡ false) × (t.mqueue ≡ false) × (t.thread ≡ false)

abbrev pub IsRunning : DataThreadRes → Type 0
IsRunning t = (t.sem ≡ true) × (t.mqueue ≡ true) × (t.thread ≡ true)

thread_init_lem :
    (c : ThreadCalls) (t : DataThreadRes)
    → IsIdle t
    → ((audio_thread_init c t).1 ≡ true → IsRunning (audio_thread_init c t).0)
      × ((audio_thread_init c t).1 ≡ false → IsIdle (audio_thread_init c t).0)
unfolding audio_thread_init
thread_init_lem c t h = ground arith

thread_exit-IsIdle : (t : DataThreadRes) → IsIdle (audio_thread_exit t)
unfolding audio_thread_exit
thread_exit-IsIdle t = (refl, refl, refl)

-- All run after a success, none after a failure.
abbrev Inits : List DataThreadRes × Bool → Type 0
Inits r = (r.1 ≡ true → All IsRunning r.0) × (r.1 ≡ false → All IsIdle r.0)

init_threads_lem :
    (c : ℕ → ThreadCalls) (i : ℕ) (ts : List DataThreadRes)
    → All IsIdle ts
    → Inits (init_threads c i ts)
unfolding init_threads
init_threads_lem c i [] h = (λ e. tt, λ e. tt)
init_threads_lem c i (t ∷ ts) h =
    let l = thread_init_lem (c i) t h.0 in
    let ih = init_threads_lem c (i + 1) ts h.1 in
    if_cases Inits (audio_thread_init (c i) t).1
      (λ e.
        if_cases Inits (init_threads c (i + 1) ts).1
          (λ e'. ((λ f. (l.0 e, ih.0 e')), λ f. ground arith))
          (λ e'. (
            (λ f. ground arith),
            λ f. (thread_exit-IsIdle (audio_thread_init (c i) t).0, ih.1 e'),
          )))
      (λ e. ((λ f. ground arith), λ f. (l.1 e, h.1)))

abbrev Leaves : InitCalls → AudioApp × Bool → Type 0
Leaves c r =
    (r.1 ≡ true → (r.0.allocated ≡ true) × (r.0.ctrl ≡ true) × All IsRunning r.0.threads)
    × (r.1 ≡ false → c.creates_ctrl ≡ true → (r.0.allocated ≡ false) × All IsIdle r.0.threads)

-- A set-up that succeeds has all threads running; one that fails frees the context and ends all threads, if
-- the creation of the control thread is not what failed.
pub audio_init_lem :
    (c : InitCalls) (none_yet : List DataThreadRes)
    → All IsIdle none_yet
    → let r = rtos_apps_audio_init c none_yet in
      (r.1 ≡ true → (r.0.allocated ≡ true) × (r.0.ctrl ≡ true) × All IsRunning r.0.threads)
      × (r.1 ≡ false → c.creates_ctrl ≡ true → (r.0.allocated ≡ false) × All IsIdle r.0.threads)
unfolding rtos_apps_audio_init
audio_init_lem c none_yet h =
    let ts : List DataThreadRes × Bool = init_threads c.data_threads 0 none_yet in
    let l = init_threads_lem c.data_threads 0 none_yet h in
    let early : Leaves c (record { allocated = false; threads = none_yet; ctrl = false }, false) =
      ((λ f. ground arith), λ f g. (refl, h)) in
    if_cases (Leaves c) c.allocates
      (λ e.
        if_cases (Leaves c) c.reset_mutex_inits
          (λ e'.
            if_cases (Leaves c) ts.1
              (λ e''.
                if_cases (Leaves c) c.creates_ctrl
                  (λ k. ((λ f. (refl, refl, l.0 e'')), λ f. ground arith))
                  (λ k. ((λ f. ground arith), λ f g. ground arith)))
              (λ e''. ((λ f. ground arith), λ f g. (refl, l.1 e''))))
          (λ e'. early))
      (λ e. early)

-- A failure of the control thread's creation frees the context while the data threads run on it.
pub ctrl_failure_leaks :
    (c : InitCalls) (none_yet : List DataThreadRes)
    → All IsIdle none_yet
    → c.allocates ≡ true
    → c.reset_mutex_inits ≡ true
    → (init_threads c.data_threads 0 none_yet).1 ≡ true
    → c.creates_ctrl ≡ false
    → ((rtos_apps_audio_init c none_yet).0.allocated ≡ false)
      × All IsRunning (rtos_apps_audio_init c none_yet).0.threads
unfolding rtos_apps_audio_init
ctrl_failure_leaks c none_yet h a m t k =
    let l = init_threads_lem c.data_threads 0 none_yet h in rw (a, m, t, k) (refl, l.0 t)
