-- ===== src/Process/Distinct.antt =====
-- Two processes of kernel/process.c never have one pid.
pub mod Exit
use cat_os_micro_kernel.Common.{
  ℕ, zero, suc, ◌+◌, ◌≤◌, ◌<◌, ◌≡◌, ◌≢◌, ◌⊎◌, refl, sym, ◌∙◌, ap, subst, Bool, true, false, ◌&&◌,
  arith, ◌==◌, ==-refl, ==-ne, not, if◌then◌else◌, update, none, some, Bool-cases, Option-cases,
  inl, inr, eq_of_==, ne_of_==,
}
use cat_os_micro_kernel.Common.Search.{first, first-IsFirst, first-none}
use cat_os_micro_kernel.Memory.{Memory, alloc_pages}
use cat_os_micro_kernel.Memory.Paging.{map_kernel, create_page_directory}
use cat_os_micro_kernel.Types.{Pcb, max_processes, created, terminated, cleared}
use cat_os_micro_kernel.Scheduler
use cat_os_micro_kernel.Scheduler.{Flow, returned, switched}
use cat_os_micro_kernel.Scheduler.Pids.{remove_process-SamePids}
use cat_os_micro_kernel.Kernel.{Kernel}
use cat_os_micro_kernel.Process.{
  pcb, set_pcb, with_memory, cleanup, create_user_stack, create_stacks, create_in, create_internal,
  allocate_pid, map_run, release_slot, exit_rest, exit_process, kill, find,
}
use cat_os_micro_kernel.Process.Pids.{IsFree, holds, allocate_pid-IsFree}

-- The processes in use have pids from 1 to 63, and no two of them have the same.
pub record IsDistinct (k : Kernel) : Type 0 where
  pub hint : k.pid_hint ≤ max_processes
  pub valid :
      (i : ℕ)
      → i < max_processes
      → k.process_used i ≡ true
      → ((pcb (suc i) k).pid ≢ 0) × ((pcb (suc i) k).pid < max_processes)
  pub distinct :
      (i j : ℕ)
      → i < max_processes
      → j < max_processes
      → k.process_used i ≡ true
      → k.process_used j ≡ true
      → (pcb (suc i) k).pid ≡ (pcb (suc j) k).pid
      → i ≡ j

-- What a step of the creation in a slot does: it may put the slot in use and give it the pid.
record IsStep (slot pid : ℕ) (k k' : Kernel) : Type 0 where
  same_hint : k'.pid_hint ≡ k.pid_hint
  pid_slot : (pcb (suc slot) k').pid ≡ pid
  pids : (i : ℕ) → i ≢ slot → (pcb (suc i) k').pid ≡ (pcb (suc i) k).pid
  used : (i : ℕ) → i ≢ slot → k'.process_used i ≡ k.process_used i

module _ (slot pid : ℕ) where
  IsStep-trans : (a b c : Kernel) → IsStep slot pid a b → IsStep slot pid b c → IsStep slot pid a c
  IsStep-trans a b c s t = record {
    same_hint = t.same_hint ∙ s.same_hint;
    pid_slot = t.pid_slot;
    pids = λ i ne. t.pids i ne ∙ s.pids i ne;
    used = λ i ne. t.used i ne ∙ s.used i ne;
  }

  -- Writing the pcb of the slot, with the memory changed.
  set_pcb-IsStep :
      (b : Pcb) (m : Memory) (k : Kernel)
      → b.pid ≡ pid
      → IsStep slot pid k (set_pcb (suc slot) b (with_memory m k))
  set_pcb-IsStep b m k e = record {
    same_hint = refl;
    pid_slot = ground (arith, e);
    pids = λ i ne. ground arith;
    used = λ i ne. refl;
  }

  memory-IsStep :
      (m : Memory) (k : Kernel) → (pcb (suc slot) k).pid ≡ pid → IsStep slot pid k (with_memory m k)
  memory-IsStep m k e = record {
    same_hint = refl;
    pid_slot = e;
    pids = λ i ne. refl;
    used = λ i ne. refl;
  }

  use-IsStep :
      (k : Kernel)
      → (pcb (suc slot) k).pid ≡ pid
      → IsStep slot pid k (record k { process_used = update k.process_used slot true })
  use-IsStep k e = record {
    same_hint = refl;
    pid_slot = e;
    pids = λ i ne. refl;
    used = λ i ne. ground arith;
  }

  cleanup-IsStep :
      (p : ℕ) (k : Kernel) → (pcb (suc slot) k).pid ≡ pid → IsStep slot pid k (cleanup p k)
  unfolding cleanup
  cleanup-IsStep p k e = elim (Bool-cases (p == 0)) [
    | inl z ↦ rw z (memory-IsStep k.memory k e)
    | inr nz ↦ rw nz (memory-IsStep _ k e)
  ]

  create_user_stack-IsStep :
      (k : Kernel)
      → (pcb (suc slot) k).pid ≡ pid
      → IsStep slot pid k (create_user_stack slot (suc slot) k).1
  unfolding create_user_stack
  create_user_stack-IsStep k e =
      let stack = (alloc_pages 4 k.memory).0 in
      let m = (alloc_pages 4 k.memory).1 in
      let k1 =
        set_pcb (suc slot) (record (pcb (suc slot) k) { user_stack = stack }) (with_memory m k) in
      let s1 = set_pcb-IsStep (record (pcb (suc slot) k) { user_stack = stack }) m k e in
      elim (Bool-cases (stack == 0)) [
        | inl none_left ↦
            rw (none_left, create_user_stack)
              (IsStep-trans k k1 _ s1 (cleanup-IsStep (suc slot) k1 s1.pid_slot))
        | inr there ↦
            let m2 = map_run 4 (pcb (suc slot) k1).page_directory stack 0x07 k1.memory in
            let k2 = with_memory m2 k1 in
            let s2 = memory-IsStep m2 k1 s1.pid_slot in
            rw (there, create_user_stack)
              (IsStep-trans k k1 _ s1 (IsStep-trans k1 k2 _ s2 (use-IsStep k2 s2.pid_slot)))
      ]

  create_stacks-IsStep :
      (is_user : Bool) (k : Kernel)
      → (pcb (suc slot) k).pid ≡ pid
      → IsStep slot pid k (create_stacks is_user slot (suc slot) k).1
  unfolding create_stacks
  create_stacks-IsStep is_user k e =
      let stack = (alloc_pages 2 k.memory).0 in
      let m = (alloc_pages 2 k.memory).1 in
      let k1 =
        set_pcb (suc slot) (record (pcb (suc slot) k) { kernel_stack = stack }) (with_memory m k) in
      let s1 = set_pcb-IsStep (record (pcb (suc slot) k) { kernel_stack = stack }) m k e in
      elim (Bool-cases (stack == 0)) [
        | inl none_left ↦
            rw (none_left, create_stacks)
              (IsStep-trans k k1 _ s1 (cleanup-IsStep (suc slot) k1 s1.pid_slot))
        | inr there ↦
            let m2 = map_run 2 (pcb (suc slot) k1).page_directory stack 0x03 k1.memory in
            let k2 = with_memory m2 k1 in
            let s2 = memory-IsStep m2 k1 s1.pid_slot in
            let s12 = IsStep-trans k k1 k2 s1 s2 in
            rw (there, create_stacks)
              (elim (Bool-cases is_user) [
                | inl user ↦
                    rw user (IsStep-trans k k2 _ s12 (create_user_stack-IsStep k2 s2.pid_slot))
                | inr kernel ↦ rw kernel (IsStep-trans k k2 _ s12 (use-IsStep k2 s2.pid_slot))
              ])
      ]

  create_in-IsStep :
      (parent_pid : ℕ) (is_user : Bool) (k : Kernel)
      → IsStep slot pid k (create_in parent_pid is_user slot pid k).1
  unfolding create_in
  create_in-IsStep parent_pid is_user k =
      let dir = (create_page_directory k.memory).0 in
      let m = (create_page_directory k.memory).1 in
      let b = record cleared {
        pid = pid;
        parent_pid = parent_pid;
        state = created;
        priority = 5;
        is_user = is_user;
        page_directory = dir;
      } in
      let k1 = set_pcb (suc slot) b (with_memory m k) in
      let s1 = set_pcb-IsStep b m k refl in
      elim (Bool-cases (dir == 0)) [
        | inl none_left ↦ rw (none_left, create_in) s1
        | inr there ↦
            let k2 = with_memory (map_kernel dir k1.memory) k1 in
            let s2 = memory-IsStep (map_kernel dir k1.memory) k1 s1.pid_slot in
            rw (there, create_in)
              (IsStep-trans k k1 _ s1
                (IsStep-trans k1 k2 _ s2 (create_stacks-IsStep is_user k2 s2.pid_slot)))
      ]

-- A slot that was not in use gets a pid that no process has.
IsStep-IsDistinct :
    (slot pid : ℕ) (k k' : Kernel)
    → IsDistinct k
    → k.process_used slot ≡ false
    → pid ≢ 0
    → pid < max_processes
    → IsFree pid k
    → IsStep slot pid k k'
    → k'.pid_hint ≤ max_processes
    → IsDistinct k'
IsStep-IsDistinct slot pid k k' h unused ne lt free s hint = record {
  hint = hint;
  valid = λ i li ui. elim (Bool-cases (i == slot)) [
    | inl here ↦
        let e : (pcb (suc i) k').pid ≡ pid =
          subst (λ j. (pcb (suc j) k').pid ≡ pid) (sym (eq_of_== i slot here)) s.pid_slot in
        (λ z. ne (sym e ∙ z), omega (arith, e, lt))
    | inr there ↦
        let apart = ne_of_== i slot there in
        let old = h.valid i li (sym (s.used i apart) ∙ ui) in
        let e = s.pids i apart in (λ z. old.0 (sym e ∙ z), omega (arith, e, old.1))
  ];
  distinct = λ i j li lj ui uj e. elim (Bool-cases (i == slot)) [
    | inl here ↦ elim (Bool-cases (j == slot)) [
      | inl here' ↦ eq_of_== i slot here ∙ sym (eq_of_== j slot here')
      | inr there' ↦ absurd (clash i j lj uj (eq_of_== i slot here) (ne_of_== j slot there') e)
    ]
    | inr there ↦ elim (Bool-cases (j == slot)) [
      | inl here' ↦ absurd (clash j i li ui (eq_of_== j slot here') (ne_of_== i slot there) (sym e))
      | inr there' ↦
          let ai = ne_of_== i slot there in
          let aj = ne_of_== j slot there' in
          h.distinct i j li lj (sym (s.used i ai) ∙ ui) (sym (s.used j aj) ∙ uj)
            (sym (s.pids i ai) ∙ e ∙ s.pids j aj)
    ]
  ];
}
  where
    clash :
        (i j : ℕ)
        → j < max_processes
        → k'.process_used j ≡ true
        → i ≡ slot
        → j ≢ slot
        → (pcb (suc i) k').pid ≡ (pcb (suc j) k').pid
        → ⊥
    clash i j lj uj here apart e =
        let of_i : (pcb (suc i) k').pid ≡ pid =
          subst (λ j. (pcb (suc j) k').pid ≡ pid) (sym here) s.pid_slot in
        let of_j : (pcb (suc j) k).pid ≡ pid = sym (s.pids j apart) ∙ sym e ∙ of_i in
        let uj' : k.process_used j ≡ true = sym (s.used j apart) ∙ uj in
        let held : holds k pid j ≡ true = rw (uj', of_j) (==-refl pid) in
        cc (sym (free j lj) ∙ held)

create_in-IsDistinct :
    (parent_pid : ℕ) (is_user : Bool) (slot pid : ℕ) (k k1 : Kernel)
    → IsDistinct k
    → k.process_used slot ≡ false
    → pid ≢ 0
    → pid < max_processes
    → IsFree pid k
    → k1 ≡ record k { pid_hint = pid + 1 }
    → IsDistinct (create_in parent_pid is_user slot pid k1).1
create_in-IsDistinct parent_pid is_user slot pid k k1 h unused ne lt free e =
    let k0 = record k { pid_hint = pid + 1 } in
    let s = create_in-IsStep slot pid parent_pid is_user k0 in
    let h0 : IsDistinct k0 = record {
      hint = omega arith;
      valid = h.valid;
      distinct = h.distinct;
    } in
    subst (λ c. IsDistinct (create_in parent_pid is_user slot pid c).1) (sym e)
      (IsStep-IsDistinct slot pid k0 _ h0 unused ne lt free s (omega (arith, s.same_hint)))

pub create_internal-IsDistinct :
    (parent_pid : ℕ) (is_user : Bool) (k : Kernel)
    → IsDistinct k
    → IsDistinct (create_internal parent_pid is_user k).1
unfolding create_internal
create_internal-IsDistinct parent_pid is_user k h =
    elim (Option-cases (first max_processes 0 (λ i. not (k.process_used i)))) [
      | inl full ↦ rw (full, create_internal) h
      | inr (slot, e) ↦
          let f = first-IsFirst max_processes 0 (λ i. not (k.process_used i)) e in
          let unused : k.process_used slot ≡ false = ground (arith, f.hit) in
          let pid = (allocate_pid k).0 in
          let k1 = (allocate_pid k).1 in
          rw (e, create_internal)
            (elim (allocate_pid-IsFree k h.hint) [
              | inl (ne, lt, free, same) ↦
                  rw (==-ne pid 0 ne)
                    (create_in-IsDistinct parent_pid is_user slot pid k k1 h unused ne lt free same)
              | inr (none_left, same, all_used) ↦
                  let z : (pid == 0) ≡ true = ground (arith, none_left) in
                  rw z (subst (λ c. IsDistinct c) (sym same) h)
            ])
    ]
