-- ===== src/Sched/Wakeup.antt =====
-- kernel/src/sched/scheduler.c and wait.c: one thread, as the processor that runs it, the
-- processors that wake it and those that look for a thread to run see it. Every atomic access of
-- its state is one step, in any order. A push to the run queue of a processor is one step, since
-- it is made with that queue's lock held. The thread does not end.
pub mod Runs
pub mod Queued
use evalyn_os.Base.{ℕ, zero, suc, ◌+◌, ◌≡◌, ◌≢◌, ◌⊎◌}

-- `thread_state_t`, without the states of a thread that ends and of the idle thread
pub data ThreadState : Type 0 where
  running : ThreadState
  runable : ThreadState
  blocking : ThreadState
  blocked : ThreadState

-- Where the thread stands: on a processor, at the points of the `schedule_finalize` that leaves it,
-- on none, or taken from a queue by the `schedule_finalize` that goes to it.
pub data Place : Type 0 where
  on_cpu : Place
  leaving : Place  -- in `schedule_finalize`, before the load of `prev->state`
  requeueing : Place  -- the load gave THREAD_RUNNING
  committing : Place  -- the load gave THREAD_BLOCKING or THREAD_RUNABLE
  pushing : Place  -- before `llist_push_back`
  off_cpu : Place
  arriving : Place  -- before the store of THREAD_RUNNING

-- The thread, the times that it is in a run queue, and the wakers that found it blocked and have
-- not put it into a queue yet.
pub record Thread : Type 0 where
  pub state : ThreadState
  pub place : Place
  pub queued : ℕ
  pub pending : ℕ

-- `wait_impl`, before it calls `schedule`
pub data Waiting (s : Thread) : Thread → Type 0 where
  set_blocking : s.place ≡ on_cpu → Waiting s (record s { state = blocking })
  condition_met : s.place ≡ on_cpu → Waiting s (record s { state = running })

-- `sched_wakeup_n_threads` and `sched_handle_timeouts`, once they have taken the thread from their list
pub data Waking (s : Thread) : Thread → Type 0 where
  wake_blocked :
      s.state ≡ blocked → Waking s (record s { state = runable; pending = s.pending + 1 })
  wake_other : s.state ≢ blocked → Waking s (record s { state = runable })
  enqueue : {k : ℕ} → s.pending ≡ suc k → Waking s (record s { pending = k; queued = s.queued + 1 })

pub data Step (s : Thread) : Thread → Type 0 where
  waits : {t : Thread} → Waiting s t → Step s t
  wakes : {t : Thread} → Waking s t → Step s t
  -- `schedule`, for the thread that runs, whoever calls it
  schedule : s.place ≡ on_cpu → Step s (record s { place = leaving })
  -- `schedule_finalize`, for `prev`
  load_running : s.place ≡ leaving → s.state ≡ running → Step s (record s { place = requeueing })
  load_blocking :
      s.place ≡ leaving
      → (s.state ≡ blocking) ⊎ (s.state ≡ runable)
      → Step s (record s { place = committing })
  store_runable : s.place ≡ requeueing → Step s (record s { state = runable; place = pushing })
  commit_blocked :
      s.place ≡ committing
      → s.state ≡ blocking
      → Step s (record s { state = blocked; place = off_cpu })
  commit_failed : s.place ≡ committing → s.state ≢ blocking → Step s (record s { place = pushing })
  push_back : s.place ≡ pushing → Step s (record s { queued = s.queued + 1; place = off_cpu })
  -- `schedule` and `schedule_finalize`, for `next`
  pop_front : {k : ℕ} → s.queued ≡ suc k → Step s (record s { queued = k; place = arriving })
  store_running : s.place ≡ arriving → Step s (record s { state = running; place = on_cpu })

-- A new thread, which `enqueue_thread` has put into a queue.
abbrev pub created : Thread
created = record { state = runable; place = off_cpu; queued = 1; pending = 0 }

pub data Steps (s : Thread) : Thread → Type 0 where
  done : Steps s s
  after : {t u : Thread} → Steps s t → Step t u → Steps s u
