-- ===== src/Kernel/Process/Schedule.antt =====
-- Which process schedule of kernel.cc (lab4-TheCarton-main) picks, and that it picks one.
use mathlib.Core.Option.{some_inj}
use native.Mathlib.Nat.{mod-eq_of_lt, mod_self, mod-lt}
use systems_projects.Base.{
  ℕ, zero, suc, ◌+◌, ◌-◌, ◌%◌, ◌<◌, ◌≤◌, ◌≡◌, refl, sym, ap, ◌∙◌, true, false, none, some, ltb,
  if◌then◌else◌, get_elem?, length, arith, Bool-cases, inl, inr, get_elem?-lt, get_elem?-total,
}
use systems_projects.Kernel.Pages.{Machine}
use systems_projects.Kernel.Process.{
  is_runnable, Proc, Kernel, Outcome, running, out_of_bounds, with_proc, run, schedule_from,
  schedule,
}

-- The process `d` places behind `pid`, round the table.
unfoldable pub turn : (nproc d pid : ℕ) → ℕ
turn n zero pid = pid
turn n (suc d) pid = turn n d ((pid + 1) % n)

turn_add : (n d e pid : ℕ) → turn n (d + e) pid ≡ turn n e (turn n d pid)
unfolding turn
turn_add n zero e pid =
    let none_of_it : 0 + e ≡ e = omega arith in ap (λ x. turn n x pid) none_of_it
turn_add n (suc d) e pid =
    let first : suc d + e ≡ suc (d + e) = omega arith in
    ap (λ x. turn n x pid) first ∙ turn_add n d e ((pid + 1) % n)

turn_below : (n d pid : ℕ) → pid + d < n → turn n d pid ≡ pid + d
unfolding turn
turn_below n zero pid h = omega arith
turn_below n (suc d) pid h =
    let e : (pid + 1) % n ≡ pid + 1 = mod-eq_of_lt (omega (arith, h)) in
    rw e (turn_below n d (pid + 1) (omega (arith, h)) ∙ omega arith)

-- Behind the last process comes the first one.
turn_wrap : (n i : ℕ) → i < n → turn n (suc i) (n - 1) ≡ i
unfolding turn
turn_wrap n i low =
    let e : n - 1 + 1 ≡ n = omega (arith, low) in
    ap (λ x. turn n i (x % n)) e
    ∙ ap (turn n i) (mod_self n)
    ∙ turn_below n i 0 (omega (arith, low))
    ∙ omega arith

-- Every process has its turn.
turn_reaches : (n pid i : ℕ) → pid < n → i < n → (d : ℕ) × (d < n) × (turn n (suc d) pid ≡ i)
turn_reaches n pid i low low' = elim (Bool-cases (ltb pid i)) [
  | inl ahead ↦
      let up : pid < i = ground (arith, ahead) in
      (
        i - pid - 1,
        omega (arith, up, low'),
        ap (λ x. turn n x pid) (omega (arith, up))
            ∙ turn_below n (i - pid) pid (omega (arith, up, low'))
            ∙ omega (arith, up),
      )
  | inr round ↦
      let down : i ≤ pid = ground (arith, round) in
      let k = n - 1 - pid in
      (
        k + i,
        omega (arith, low, down),
        ap (λ x. turn n x pid) (omega arith)
            ∙ turn_add n k (suc i) pid
            ∙ ap (turn n (suc i)) (turn_below n k pid (omega (arith, low)) ∙ omega (arith, low))
            ∙ turn_wrap n i low',
      )
]

-- The state of a process.
abbrev pub CanRun : Kernel → ℕ → Type 0
CanRun k i = (p : Proc) × (get_elem? k.ptable i ≡ some p) × (is_runnable p.state ≡ true)

-- The first process behind `pid` that can run is `d + 1` places on.
pub record IsNext (n : ℕ) (k : Kernel) (pid d : ℕ) : Type 0 where
  pub can_run : CanRun k (turn n (suc d) pid)
  pub before : (e : ℕ) → e < d → CanRun k (turn n (suc e) pid) → ⊥

with_proc-found :
    (k : Kernel) (i : ℕ) (p : Proc) (f : Proc → Outcome)
    → get_elem? k.ptable i ≡ some p
    → with_proc k i f ≡ f p
with_proc-found k i p f e =
    ap (λ o. elim o as (λ _. Outcome) [ none ↦ out_of_bounds | some q ↦ f q ]) e

schedule_step :
    (n : ℕ) (k : Kernel) (r pid : ℕ) (p : Proc)
    → get_elem? k.ptable ((pid + 1) % n) ≡ some p
    → schedule_from n k (suc r) pid
      ≡ (if is_runnable p.state then run k ((pid + 1) % n) else schedule_from n k r ((pid + 1) % n))
unfolding schedule_from
schedule_step n k r pid p e = with_proc-found k ((pid + 1) % n) p _ e

run_lem :
    (k : Kernel) (i : ℕ) (p : Proc)
    → get_elem? k.ptable i ≡ some p
    → is_runnable p.state ≡ true
    → run k i ≡ running (record k { current = i })
unfolding run
run_lem k i p e runs = with_proc-found k i p _ e ∙ rw runs refl

schedule_run :
    (n : ℕ) (k : Kernel) (r pid : ℕ) (p : Proc)
    → get_elem? k.ptable ((pid + 1) % n) ≡ some p
    → is_runnable p.state ≡ true
    → schedule_from n k (suc r) pid ≡ running (record k { current = (pid + 1) % n })
schedule_run n k r pid p e runs =
    schedule_step n k r pid p e ∙ rw runs (run_lem k ((pid + 1) % n) p e runs)

schedule_wait :
    (n : ℕ) (k : Kernel) (r pid : ℕ) (p : Proc)
    → get_elem? k.ptable ((pid + 1) % n) ≡ some p
    → is_runnable p.state ≡ false
    → schedule_from n k (suc r) pid ≡ schedule_from n k r ((pid + 1) % n)
schedule_wait n k r pid p e waits = schedule_step n k r pid p e ∙ rw waits refl

not_here :
    (k : Kernel) (i : ℕ) (p : Proc)
    → get_elem? k.ptable i ≡ some p
    → is_runnable p.state ≡ false
    → CanRun k i
    → ⊥
not_here k i p found waits (q, found', runs) =
    let same : p ≡ q = some_inj.0 (sym found ∙ found') in
    let runs' : is_runnable p.state ≡ true = rw same runs in ground (arith, waits, runs')

no_earlier :
    (n : ℕ) (k : Kernel) (pid e e' : ℕ) (p : Proc)
    → get_elem? k.ptable ((pid + 1) % n) ≡ some p
    → is_runnable p.state ≡ false
    → IsNext n k ((pid + 1) % n) e
    → e' < suc e
    → CanRun k (turn n (suc e') pid)
    → ⊥
unfolding turn
no_earlier n k pid e zero p found waits is_next lt can =
    not_here k ((pid + 1) % n) p found waits can
no_earlier n k pid e (suc e') p found waits is_next lt can =
    is_next.before e' (omega (arith, lt)) can

-- The process in the next place cannot run, so the loop goes on.
later :
    (n : ℕ) (k : Kernel) (r pid d : ℕ) (p : Proc)
    → length k.ptable ≡ n
    → (pid + 1) % n < n
    → d < suc r
    → get_elem? k.ptable ((pid + 1) % n) ≡ some p
    → is_runnable p.state ≡ false
    → CanRun k (turn n (suc d) pid)
    → ((d' : ℕ)
        → d' < r
        → CanRun k (turn n (suc d') ((pid + 1) % n))
        → (e : ℕ) × (e ≤ d')
          × IsNext n k ((pid + 1) % n) e
          × (schedule_from n k r ((pid + 1) % n)
              ≡ running (record k { current = turn n (suc e) ((pid + 1) % n) })))
    → (e : ℕ) × (e ≤ d)
      × IsNext n k pid e
      × (schedule_from n k (suc r) pid ≡ running (record k { current = turn n (suc e) pid }))
unfolding turn
later n k r pid zero p all low enough found waits can again =
    absurd (not_here k ((pid + 1) % n) p found waits can)
later n k r pid (suc d) p all low enough found waits can again =
    let (e, le, is_next, run_it) = again d (omega (arith, enough)) can in
    (
      suc e,
      omega (arith, le),
      record {
        can_run = is_next.can_run;
        before = λ e' lt can'. no_earlier n k pid e e' p found waits is_next lt can';
      },
      schedule_wait n k r pid p found waits ∙ run_it,
    )

schedule_from-IsNext :
    (n : ℕ) (k : Kernel) (rounds pid d : ℕ)
    → length k.ptable ≡ n
    → pid < n
    → d < rounds
    → CanRun k (turn n (suc d) pid)
    → (e : ℕ) × (e ≤ d)
      × IsNext n k pid e
      × (schedule_from n k rounds pid ≡ running (record k { current = turn n (suc e) pid }))
unfolding turn
schedule_from-IsNext n k zero pid d all low enough can = absurd (omega (arith, enough))
schedule_from-IsNext n k (suc r) pid d all low enough can =
    let next = (pid + 1) % n in
    let low' : next < n = mod-lt (pid + 1) (omega (arith, low)) in
    let (p, found) = get_elem?-total k.ptable next (rw all low') in
    elim (Bool-cases (is_runnable p.state)) [
      | inl runs ↦ (
        0,
        omega arith,
        record { can_run = (p, found, runs); before = λ e lt. absurd (omega (arith, lt)) },
        schedule_run n k r pid p found runs,
      )
      | inr waits ↦
          later n k r pid d p all low' enough found waits can
            (λ d' enough' can'. schedule_from-IsNext n k r next d' all low' enough' can')
    ]

-- schedule finds a process: if any process of the table can run, the one that runs next is the first
-- that can, from the place behind the current process on, round the table.
pub schedule-IsNext :
    (m : Machine) (k : Kernel) (p : Proc) (i : ℕ)
    → length k.ptable ≡ m.nproc
    → get_elem? k.ptable k.current ≡ some p
    → p.pid ≡ k.current
    → CanRun k i
    → (d : ℕ) × (d < m.nproc)
      × IsNext m.nproc k k.current d
      × (schedule m k ≡ running (record k { current = turn m.nproc (suc d) k.current }))
unfolding schedule
schedule-IsNext m k p i all found numbered can =
    let low : k.current < m.nproc = rw (sym all) (get_elem?-lt k.ptable k.current found) in
    let low' : i < m.nproc = rw (sym all) (get_elem?-lt k.ptable i can.1) in
    let (d, below, there) = turn_reaches m.nproc k.current i low low' in
    let (e, le, is_next, eq) =
      schedule_from-IsNext m.nproc k m.nproc k.current d all low below (rw there can) in
    (
      e,
      omega (arith, le, below),
      is_next,
      with_proc-found k k.current p _ found ∙ ap (schedule_from m.nproc k m.nproc) numbered ∙ eq,
    )
