-- ===== src/Kernel/Ipc.antt =====
-- Message passing between processes (grass/ipc.c). A `struct process*` is an index of `proc_set`.
pub mod Send
pub mod Recv
pub mod Stuck
use egos_upstream.Base.{
  ◌>>=◌, ℕ, Bool, not, ◌&&◌, ◌||◌, Option, none, some, ◌==◌, if◌then◌else◌, update, find_from,
}
use egos_upstream.Kernel.State.{
  max_nprocess, gpid_all, is_unused, sys_recv, sys_send, pending, done, Procs, mmu_translate,
  Kernel, call, put, syscall_msg_len, memcpy,
}
use egos_upstream.Kernel.Process.{proc_set_runnable}

-- The message goes into the receiver's process control block, and the sender's system call is done in
-- the sender's own memory.
unfoldable pub deliver : ℕ → ℕ → Kernel → Kernel
deliver i sender k =
    let s = k.proc_set sender in
    let dst = k.proc_set i in
    let k' =
      put i
        (record dst {
          syscall = record dst.syscall {
            status = done;
            sender = s.pid;
            content = memcpy dst.syscall.content s.syscall.content syscall_msg_len;
          };
        })
        k in
    record (call (mmu_translate s.pid) k') {
      user = update k.user s.pid (record (k.user s.pid) { status = done });
    }

-- The body of the loop of `proc_try_send`, at the first entry that is the receiver.
unfoldable pub try_send_at : ℕ → ℕ → Kernel → Kernel
unfolding deliver
try_send_at i sender k =
    let s = k.proc_set sender in
    let dst = k.proc_set i in
    if not ((dst.syscall.type == sys_recv) && (dst.syscall.status == pending))
    then k
    else if not ((dst.syscall.sender == gpid_all) || (dst.syscall.sender == s.pid))
    then k
    else deliver i sender k

-- Is this entry the process that `sender` sends to?
abbrev pub is_dst : Procs → ℕ → ℕ → Bool
is_dst procs sender i =
    ((procs i).pid == (procs sender).syscall.receiver) && not (is_unused (procs i).status)

unfoldable pub proc_try_send : ℕ → Kernel → Option Kernel
unfolding try_send_at
proc_try_send sender k = do
  i ← find_from max_nprocess 0 (is_dst k.proc_set sender)
  some (try_send_at i sender k)

unfoldable pub proc_try_recv : ℕ → Kernel → Kernel
unfolding proc_set_runnable
proc_try_recv receiver k =
    let r = k.proc_set receiver in
    let copied = record (call (mmu_translate r.pid) k) { user = update k.user r.pid r.syscall } in
    let woken = proc_set_runnable r.syscall.sender (proc_set_runnable r.pid copied) in
    let k' = call (mmu_translate r.pid) woken in
    if r.syscall.status == pending
    then k
    else record k' { user = update k'.user r.pid (record (k'.user r.pid) { status = done }) }

unfoldable pub proc_try_syscall : ℕ → Kernel → Option Kernel
unfolding proc_try_send proc_try_recv
proc_try_syscall i k =
    let type = (k.proc_set i).syscall.type in
    if type == sys_recv
    then some (proc_try_recv i k)
    else if type == sys_send
    then proc_try_send i k
    else none
