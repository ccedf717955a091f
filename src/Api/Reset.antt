-- ===== src/Api/Reset.antt =====
-- `gctl_lcm_reset` of src/api/routes.c: every thread is stopped and every session freed.
use pcmm_policy_server.Base.{
  ℕ, zero, suc, ◌+◌, ◌^◌, ◌≤◌, ◌≡◌, refl, sym, ap, ◌∙◌, Bool, true, false, ◌&&◌, ◌||◌, Option, some,
  List, [], ◌∷◌, ◌++◌, map, arith, ◌==◌, ne→==, ltb, if◌then◌else◌, get_elem?, get_elem?-of_drop,
  length, length-append, drop, append_assoc,
}
use pcmm_policy_server.Base.Fault.{◌>>=◌}
use pcmm_policy_server.Lcm.{Client, Lcm, store}
use pcmm_policy_server.Lcm.Table.{Holds}
use pcmm_policy_server.Api.{Shared}
use pcmm_policy_server.Api.Admission.{IsRegistered}

-- What is done to the threads and the sessions, by thread, socket and pointer.
pub data Effect : Type 0 where
  die : ℕ → Effect
  join : ℕ → Effect
  sock_close : ℕ → Effect
  free : ℕ → Effect

-- `ps_free` of src/ps.c calls `sock_close` whatever the socket is.
abbrev pub ps_free : ℕ → Client → List Effect
ps_free sock ps = sock_close sock ∷ free ps.pointer ∷ []

-- What is done for one session with the thread `id`; `sock <= 0` in `int`.
unfoldable pub kill : ℕ → Client → ℕ → List Effect
kill id ps sock =
    die ps.pointer
    ∷ join id
    ∷ ((if ltb 0 sock && ltb sock (2 ^ 31) then sock_close sock ∷ [] else []) ++ ps_free sock ps)

-- One call of `sock_close`, or two, before what follows.
abbrev pub closings : Bool → ℕ → List Effect → List Effect
closings true sock rest = sock_close sock ∷ sock_close sock ∷ rest
closings false sock rest = sock_close sock ∷ rest

module _ (socket : Client → ℕ) where
  -- The loop from session `i` on, with `left` sessions to free.
  unfoldable pub kill_all : ℕ → ℕ → Lcm → List ℕ → Option (List ℕ × List Effect)
  kill_all zero i lcm threads = some (threads, [])
  kill_all (suc left) i lcm threads = do
    id ← get_elem? threads i
    slot ← get_elem? lcm.clients i
    ps ← slot
    threads' ← store i 0 threads
    (threads'', effects) ← kill_all left (i + 1) lcm threads'
    some (threads'', kill id ps (socket ps) ++ effects)

  -- The results of `pthread_mutex_lock`, `pthread_mutex_init` and the second lock come first.
  unfoldable pub gctl_lcm_reset : ℕ → ℕ → ℕ → Shared → Option (Shared × List Effect)
  gctl_lcm_reset lock init again shared =
      if lock == 0 || (init == 0 && again == 0)
      then if shared.lcm.count == 0
        then some (shared, [])
        else (kill_all shared.lcm.count 0 shared.lcm shared.threads >>= λ (threads, effects).
            some (record { lcm = record (shared.lcm) { count = 0 }; threads = threads }, effects))
      else some (shared, [])

  -- What is to be done for sessions and their threads, in order: the session is told to end, its thread
  -- is joined, its socket is closed, and the session is freed. A positive socket is closed twice.
  abbrev pub kills : List Client → List ℕ → List Effect
  kills [] ids = []
  kills (c ∷ cs) [] = []
  kills (c ∷ cs) (id ∷ ids) =
      die c.pointer
      ∷ join id
      ∷ (closings (ltb 0 (socket c) && ltb (socket c) (2 ^ 31)) (socket c)
          (free c.pointer ∷ kills cs ids))

-- The first `n` threads are cleared.
abbrev pub without : ℕ → List ℕ → List ℕ
without zero ids = ids
without (suc n) [] = []
without (suc n) (id ∷ ids) = 0 ∷ without n ids

store-front :
    {A : Type 0} (done : List A) (a b : A) (rest : List A)
    → store (length done) b (done ++ (a ∷ rest)) ≡ some (done ++ (b ∷ rest))
unfolding store
store-front [] a b rest = refl
store-front (x ∷ done) a b rest = rw (store-front done a b rest) refl

get_elem?-front :
    {A : Type 0} (done : List A) (a : A) (rest : List A)
    → get_elem? (done ++ (a ∷ rest)) (length done) ≡ some a
get_elem?-front [] a rest = refl
get_elem?-front (x ∷ done) a rest = get_elem?-front done a rest

length-without : (n : ℕ) (ids : List ℕ) → length (without n ids) ≡ length ids
length-without zero ids = refl
length-without (suc n) [] = refl
length-without (suc n) (id ∷ ids) = ap suc (length-without n ids)

kill-closings :
    (id : ℕ) (c : Client) (sock : ℕ) (rest : List Effect)
    → kill id c sock ++ rest
      ≡ die c.pointer
        ∷ join id
        ∷ closings (ltb 0 sock && ltb sock (2 ^ 31)) sock (free c.pointer ∷ rest)
unfolding kill
kill-closings id c sock rest = by_sign (ltb 0 sock && ltb sock (2 ^ 31))
  where
    by_sign :
        (test : Bool)
        → (die c.pointer
              ∷ join id
              ∷ ((if test then sock_close sock ∷ [] else []) ++ ps_free sock c))
            ++ rest
          ≡ die c.pointer ∷ join id ∷ closings test sock (free c.pointer ∷ rest)
    by_sign true = refl
    by_sign false = refl

module _ (socket : Client → ℕ) where
  same_result :
      {ids ids' : List ℕ} {effects : List Effect}
      → ids ≡ ids'
      → ◌≡◌ {A = Option (List ℕ × List Effect)} (some (ids, effects)) (some (ids', effects))
  same_result e = cc

  kill_all-kills :
      (cs : List Client) (done ids : List ℕ) (lcm : Lcm) (rest : List (Option Client))
      → drop (length done) lcm.clients ≡ map some cs ++ rest
      → length cs ≤ length ids
      → kill_all socket (length cs) (length done) lcm (done ++ ids)
        ≡ some (done ++ without (length cs) ids, kills socket cs ids)
  unfolding kill_all
  kill_all-kills [] done [] lcm rest e fits = refl
  kill_all-kills [] done (id ∷ ids) lcm rest e fits = refl
  kill_all-kills (c ∷ cs) done [] lcm rest e fits = absurd (omega arith)
  kill_all-kills (c ∷ cs) done (id ∷ ids) lcm rest e fits =
      let (here, next) =
        get_elem?-of_drop lcm.clients (length done) (some c) (map some cs ++ rest) e in
      let past : length (done ++ (0 ∷ [])) ≡ length done + 1 = length-append done (0 ∷ []) in
      let later : kill_all socket (length cs) (length done + 1) lcm (done ++ (0 ∷ ids))
          ≡ some (done ++ (0 ∷ without (length cs) ids), kills socket cs ids) =
        ap (λ k. kill_all socket (length cs) k lcm (done ++ (0 ∷ ids))) (sym past)
        ∙ (ap (kill_all socket (length cs) (length (done ++ (0 ∷ []))) lcm)
              (sym (append_assoc done (0 ∷ []) ids))
            ∙ (kill_all-kills cs (done ++ (0 ∷ [])) ids lcm rest
                  (ap (λ k. drop k lcm.clients) past ∙ next) (omega arith)
                ∙ same_result (append_assoc done (0 ∷ []) (without (length cs) ids)))) in
      rw (get_elem?-front done id ids, here, store-front done id 0 ids, later)
        (ap (λ effects. some (done ++ (0 ∷ without (length cs) ids), effects))
          (kill-closings id c (socket c) (kills socket cs ids)))

  -- The locks can be taken: for each session in order, it is told to end, its thread is joined, its
  -- socket is closed, twice if it is positive and else once, and the session is freed. The manager is empty
  -- then, with the same limit, and the threads of the sessions are cleared.
  pub gctl_lcm_reset-IsRegistered :
      (init again : ℕ) (shared : Shared) (cs : List Client)
      → IsRegistered shared cs
      → (shared' : Shared) × (gctl_lcm_reset socket 0 init again shared
          ≡ some (shared', kills socket cs shared.threads))
        × IsRegistered shared' []
        × (shared'.lcm.maxpep ≡ shared.lcm.maxpep)
        × (shared'.threads ≡ without (length cs) shared.threads)
  unfolding gctl_lcm_reset
  gctl_lcm_reset-IsRegistered init again shared [] (holds, _, places) =
      (shared, rw (holds.counted) refl, (holds, record {}, places), refl, refl)
  gctl_lcm_reset-IsRegistered init again shared (c ∷ cs) (holds, _, places) = (
    record {
      lcm = record (shared.lcm) { count = 0 };
      threads = without (length (c ∷ cs)) shared.threads;
    },
    rw
        (
          holds.counted,
          ne→== (length (c ∷ cs)) 0 (omega arith),
          kill_all-kills (c ∷ cs) [] shared.threads
              (record (shared.lcm) { count = length (c ∷ cs) }) holds.rest holds.slots
              (omega (arith, holds.counted, holds.bounded, holds.capped)),
        )
        refl,
    (emptied, record {}, length-without (length (c ∷ cs)) shared.threads ∙ places),
    refl,
    refl,
  )
    where
      emptied : Holds (record (shared.lcm) { count = 0 }) []
      emptied = record {
        rest = shared.lcm.clients;
        slots = refl;
        counted = refl;
        room = holds.room;
        bounded = omega arith;
        capped = holds.capped;
      }
