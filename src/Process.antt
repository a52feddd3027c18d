-- ===== src/Process.antt =====
-- kernel/process.c and kernel/process.h: processes, forking, exit and wait. A structure is named by its
-- address, and 0 is NULL. The answers of `slab_alloc`, `pmm_alloc` and `thread_create` are arguments.
-- The current process and thread are arguments too. The list `threads` of a process is left out, which
-- nothing goes through, and so are file descriptors. An operation is one step.
pub mod Create
pub mod Table
pub mod Fork
pub mod Wait
mod Tests
use emergence_kernel.Slab.{SlabCache, cache_create, erase}
use emergence_kernel.Slab.Steps.{hold}
use emergence_kernel.Vm.{Vm}
use emergence_kernel.Vm
use emergence_kernel.Prelude.{
  ◌%◌, ◌^◌, ℕ, zero, suc, ◌+◌, ◌-◌, Bool, true, false, not, ◌&&◌, ◌||◌, Option, none, some, List,
  [], ◌∷◌, ◌++◌, take, ltb, leb, ◌==◌, if◌then◌else◌, update, ℤ, pos, negsuc, minus_one, increment,
  decrement,
}

-- `process_state_t`
pub data State : Type 0 where
  created : State
  running : State
  sleeping : State
  zombie : State
  dead : State

-- `struct process`, less its links and file descriptors
pub record Process : Type 0 where
  pub pid : ℤ
  pub ppid : ℤ
  pub state : State
  pub exit_status : ℤ
  pub name : List ℕ
  pub parent : ℕ
  pub children : List ℕ
  pub thread_count : ℤ
  pub main_thread : ℕ
  pub vm : ℕ
  pub waiter : ℕ

-- The fields of `thread_t` that processes use
pub record Thread : Type 0 where
  pub process : ℕ
  pub space : ℕ
  pub is_ready : Bool

-- The structures by address, the list of all processes, the next PID as a word of 32 bits, the process structures in use, the
-- address spaces, and the threads given to the scheduler, in order
pub record Kernel : Type 0 where
  pub processes : ℕ → Process
  pub threads : ℕ → Thread
  pub process_list : List ℕ
  pub next_pid : ℕ
  pub live : List ℕ
  pub vm : Vm
  pub queued : List ℕ

-- PID_MAX
abbrev pub pid_max : ℕ
pid_max = 32768

abbrev pub set_process : Kernel → ℕ → Process → Kernel
set_process k p process = record k { processes = update k.processes p process }

-- What `process_alloc_pid` returns for the `int` that `next_pid` holds, a word of 32 bits
abbrev pub pid_value : ℕ → ℤ
pid_value n =
    if ltb n (2 ^ 31) then (if leb pid_max n then minus_one else pos n) else negsuc (2 ^ 32 - 1 - n)

-- `process_alloc_pid`. `next_pid++` wraps around.
unfoldable pub alloc_pid : Kernel → ℤ × Kernel
alloc_pid k = (pid_value k.next_pid, record k { next_pid = (k.next_pid + 1) % 2 ^ 32 })

-- "unknown"
abbrev pub unknown : List ℕ
unknown = 117 ∷ 110 ∷ 107 ∷ 110 ∷ 111 ∷ 119 ∷ 110 ∷ []

-- The first 31 characters of the name
unfoldable pub name_of : Option (List ℕ) → List ℕ
name_of none = unknown
name_of (some name) = take 31 name

abbrev pub new_process : ℤ → Option (List ℕ) → Process
new_process pid name = record {
  pid = pid;
  ppid = pos 0;
  state = created;
  exit_status = pos 0;
  name = name_of name;
  parent = 0;
  children = [];
  thread_count = pos 0;
  main_thread = 0;
  vm = 0;
  waiter = 0;
}

abbrev pub is_negative : ℤ → Bool
is_negative (pos n) = false
is_negative (negsuc n) = true

-- `process_create`, with the answer of `slab_alloc`
unfoldable pub create : Kernel → Option (List ℕ) → ℕ → ℕ × Kernel
create k name p =
    let numbered = alloc_pid k in
    let k' = numbered.1 in
    if p == 0
    then (0, k)
    else if is_negative numbered.0
    then (0, record k' { live = erase p (hold p k'.live) })
    else (
      p,
      record k' {
        live = hold p k'.live;
        processes = update k'.processes p (new_process numbered.0 name);
        process_list = k'.process_list ++ (p ∷ []);
      },
    )

-- "init"
abbrev pub init_name : List ℕ
init_name = 105 ∷ 110 ∷ 105 ∷ 116 ∷ []

-- `process_init` on the cache of processes, with the answer of `slab_alloc`: `sizeof(process_t)` is over
-- 4096, so that the cache is made for 512 bytes.
unfoldable pub init : SlabCache → Kernel → ℕ → SlabCache × Kernel
init cache k p =
    let cached = cache_create cache 512 in
    let k' = record k { process_list = [] } in
    let r = create k' (some init_name) p in
    if not (Vm.is_ok cached.0) then (cached.1, k') else if r.0 == 0 then (cached.1, r.1) else (
      cached.1,
      record (set_process r.1 r.0 (record (r.1.processes r.0) { pid = pos 1 })) { next_pid = 2 },
    )

-- The test of two `int`
abbrev pub same_int : ℤ → ℤ → Bool
same_int (pos a) (pos b) = a == b
same_int (negsuc a) (negsuc b) = a == b
same_int (pos a) (negsuc b) = false
same_int (negsuc a) (pos b) = false

-- The loop of `process_get_by_pid`
unfoldable pub by_pid : (ℕ → Process) → List ℕ → ℤ → ℕ
by_pid processes [] pid = 0
by_pid processes (p ∷ rest) pid =
    let other = by_pid processes rest pid in if same_int (processes p).pid pid then p else other

-- `process_get_by_pid`
unfoldable pub get_by_pid : Kernel → ℤ → ℕ
get_by_pid k pid = by_pid k.processes k.process_list pid

-- `process_add_thread`
unfoldable pub add_thread : Kernel → ℕ → ℕ → Kernel
add_thread k p t =
    let process = k.processes p in
    if (p == 0) || (t == 0) then k else record k {
      threads = update k.threads t (record (k.threads t) { process = p; space = process.vm });
      processes = update k.processes p (record process {
        thread_count = increment process.thread_count;
        main_thread = if process.main_thread == 0 then t else process.main_thread;
      });
    }

-- `waiter->state = THREAD_READY` and `scheduler_add_thread`
abbrev pub make_ready : Kernel → ℕ → Kernel
make_ready k t = record k {
  threads = update k.threads t (record (k.threads t) { is_ready = true });
  queued = k.queued ++ (t ∷ []);
}

-- The thread that waits in the parent, if there is one, is woken.
unfoldable pub wake_parent : Kernel → ℕ → Kernel
wake_parent k parent =
    let waiter = (k.processes parent).waiter in
    if (parent == 0) || (waiter == 0)
    then k
    else make_ready (set_process k parent (record (k.processes parent) { waiter = 0 })) waiter

abbrev pub is_dead : State → Bool
is_dead dead = true
is_dead other = false

abbrev pub is_zombie : State → Bool
is_zombie zombie = true
is_zombie other = false

-- The process with one thread less
abbrev pub less_thread : Process → ℕ → Process
less_thread process t = record process {
  thread_count = decrement process.thread_count;
  main_thread = if process.main_thread == t then 0 else process.main_thread;
}

-- `process_remove_thread`
unfoldable pub remove_thread : Kernel → ℕ → ℕ → Kernel
remove_thread k p t =
    let process = less_thread (k.processes p) t in
    let k' = record k { threads = update k.threads t (record (k.threads t) { process = 0 }) } in
    if (p == 0) || (t == 0)
    then k
    else if same_int process.thread_count (pos 0) && not (is_dead process.state)
    then wake_parent (set_process k' p (record process { state = zombie })) process.parent
    else set_process k' p process

-- The answers of the allocators to `process_fork`: the clone's structure, table and regions, the child's
-- structure and its thread
pub record Answers : Type 0 where
  pub space : ℕ
  pub page : ℕ
  pub regions : List ℕ
  pub process : ℕ
  pub thread : ℕ

-- The child under its parent, with its address space
abbrev pub adopt : Kernel → ℕ → ℕ → ℕ → Kernel
adopt k parent child space =
    let k' = set_process k child (record (k.processes child) {
      parent = parent;
      ppid = (k.processes parent).pid;
      vm = space;
      state = created;
    }) in
    set_process k' parent
      (record (k'.processes parent) { children = (k'.processes parent).children ++ (child ∷ []) })

-- The end of `process_fork`, with the child's thread
unfoldable pub start_child : Kernel → ℕ → ℕ → ℕ → Kernel
start_child k child space t =
    let k1 = record k {
      threads = update k.threads t (record (k.threads t) { process = child; space = space });
    } in
    let k2 = add_thread k1 child t in
    make_ready (set_process k2 child (record (k2.processes child) { state = running })) t

-- After `process_create` of the child
unfoldable pub fork_created : ℕ → ℕ → ℕ → ℕ × Kernel → ℕ × Kernel
fork_created parent space t (child, k) =
    let k' = adopt k parent child space in
    if child == 0
    then (0, record k { vm = Vm.destroy k.vm space })
    else if t == 0
    then (0, record k' { vm = Vm.destroy k'.vm space; live = erase child k'.live })
    else (child, start_child k' child space t)

-- After `vm_clone_address_space`
unfoldable pub fork_cloned : Kernel → ℕ → Answers → ℕ × Vm → ℕ × Kernel
fork_cloned k parent answers (space, vm) =
    let k' = record k { vm = vm } in
    if space == 0
    then (0, k')
    else fork_created parent space answers.thread
        (create k' (some (k.processes parent).name) answers.process)

-- `process_fork` of a current process and thread that are not NULL
unfoldable pub fork : (ℕ → ℕ) → Kernel → ℕ → Answers → ℕ × Kernel
fork master k parent answers =
    fork_cloned k parent answers
      (Vm.clone master k.vm (k.processes parent).vm answers.space answers.page answers.regions)

-- `process_exit`, before `thread_exit`
unfoldable pub exit : Kernel → ℕ → ℤ → Kernel
exit k p code = set_process k p (record (k.processes p) { exit_status = code; state = zombie })

-- `process_reap`
unfoldable pub reap : Kernel → ℕ → Kernel
reap k p =
    let space = (k.processes p).vm in
    let k' =
      set_process (record k { vm = Vm.destroy k.vm space }) p (record (k.processes p) { vm = 0 }) in
    if p == 0 then k else record (if space == 0 then k else k') {
      process_list = erase p k.process_list;
      live = erase p k.live;
    }

-- The child waited for, `pid` -1 for any, has exited.
abbrev pub is_awaited : Process → ℤ → Bool
is_awaited child pid = (same_int pid minus_one || same_int child.pid pid) && is_zombie child.state

-- The loop of `process_wait`: the first child that is awaited, or 0
unfoldable pub first_awaited : (ℕ → Process) → List ℕ → ℤ → ℕ
first_awaited processes [] pid = 0
first_awaited processes (child ∷ rest) pid =
    let other = first_awaited processes rest pid in
    if is_awaited (processes child) pid then child else other

-- What `process_wait` returns: the PID or -1, the status where one is written, and the state
abbrev pub WaitResult : Type 0
WaitResult = ℤ × Option ℤ × Kernel

-- The child found is taken from its parent and reaped.
unfoldable pub wait_found : Kernel → ℕ → ℕ → WaitResult
wait_found k current child =
    let k' =
      set_process k current
        (record (k.processes current) { children = erase child (k.processes current).children }) in
    if child == 0
    then (minus_one, none, k)
    else ((k.processes child).pid, some (k.processes child).exit_status, reap k' child)

-- `process_wait` with a status pointer that is not NULL
unfoldable pub wait : Kernel → ℕ → ℤ → WaitResult
wait k current pid =
    wait_found k current (first_awaited k.processes (k.processes current).children pid)
