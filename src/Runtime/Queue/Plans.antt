-- ===== src/Runtime/Queue/Plans.antt =====
-- packages/runtime/src/queue.ts: which write lists its operations make, and how one write changes where files stand.
use qev_platform.Base.{ℕ, String, ◌≡◌, Bool, ◌||◌, none, some, List, is_some}
use qev_platform.Runtime.Queue.{
  DurableQueue, EnqueueOptions, new_job, enqueue_writes, init_writes, next_file, claim_writes,
  complete_writes, fail_writes, replay_writes,
}
use qev_platform.Runtime.Queue.Files.{
  QueueJob, Folder, in_pending, in_processing, in_done, in_dead, Disk, Write, file, file_name,
}

-- The writes that one operation makes from a state of the queue, its identifier fresh for enqueue.
pub data Works (iso : ℕ → String) (cut : String → String) (q : DurableQueue)
    : List Write → Type 0 where
  enqueues :
      (id now : String) (opts : EnqueueOptions)
      → ((f : Folder) → file f (file_name id) q.disk ≡ none)
      → Works iso cut q (enqueue_writes q (new_job id now opts))
  claims :
      (now name : String) (job : QueueJob)
      → next_file now q.disk ≡ some (name, job)
      → Works iso cut q (claim_writes now name job)
  completes : (id now : String) → Works iso cut q (complete_writes id now q.disk)
  fails :
      (id : String) (now : ℕ) (error : String)
      → Works iso cut q (fail_writes iso cut id now error q.disk)
  replays : (id now : String) → Works iso cut q (replay_writes id now q.disk)

-- Those, and the renames that a restart makes.
pub data Planned (iso : ℕ → String) (cut : String → String) (q : DurableQueue)
    : List Write → Type 0 where
  works : {ws : List Write} → Works iso cut q ws → Planned iso cut q ws
  recovers : Planned iso cut q (init_writes q.disk)

-- Some directory holds the file.
unfoldable pub stored : String → Disk → Bool
stored n d =
    is_some (file in_pending n d)
    || is_some (file in_processing n d)
    || is_some (file in_done n d)
    || is_some (file in_dead n d)
