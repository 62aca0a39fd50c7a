-- ===== src/Runtime/Queue/Files.antt =====
-- packages/runtime/src/queue.ts: the directories of the disk queue, and the writes that its operations make.
use qev_platform.Base.{
  ℕ, String, ◌≡◌, refl, Bool, true, false, ◌&&◌, Option, none, some, List, [], ◌∷◌, ◌==◌, ◌∙◌, ◌<>◌,
  if◌then◌else◌, Assoc, lookup, insert, erase, lookup-insert, lookup-erase,
}
use qev_platform.Json.{Json}

pub data QueueJobStatus : Type 0 where
  pending processing done dead duplicate : QueueJobStatus

pub record QueueJob : Type 0 where
  pub id : String
  pub idempotency_key : String
  pub created_at : String
  pub updated_at : String
  pub attempts : ℕ
  pub max_attempts : ℕ
  pub status : QueueJobStatus
  pub kind : String
  pub payload : Json
  pub last_error : Option String
  pub next_attempt_at : Option String

pub data Folder : Type 0 where
  in_pending in_processing in_done in_dead : Folder

-- `index` is meta/idempotency.json, which may be missing.
pub record Disk : Type 0 where
  pub pending_dir : Assoc QueueJob
  pub processing_dir : Assoc QueueJob
  pub done_dir : Assoc QueueJob
  pub dead_dir : Assoc QueueJob
  pub index : Option (Assoc String)

abbrev pub dir : Disk → Folder → Assoc QueueJob
dir d in_pending = d.pending_dir
dir d in_processing = d.processing_dir
dir d in_done = d.done_dir
dir d in_dead = d.dead_dir

abbrev pub set_dir : Disk → Folder → Assoc QueueJob → Disk
set_dir d in_pending m = record d { pending_dir = m }
set_dir d in_processing m = record d { processing_dir = m }
set_dir d in_done m = record d { done_dir = m }
set_dir d in_dead m = record d { dead_dir = m }

abbrev pub file_name : String → String
file_name id = id <> ".json"

unfoldable pub file : Folder → String → Disk → Option QueueJob
file f n d = lookup n (dir d f)

-- writeFile, unlink, and the write of the index. A rename is a `put` and a `remove` at once.
pub data Write : Type 0 where
  put : Folder → String → QueueJob → Write
  remove : Folder → String → Write
  rename : Folder → Folder → String → QueueJob → Write
  save_index : Assoc String → Write

unfoldable pub run_write : Write → Disk → Disk
run_write (put f n j) d = set_dir d f (insert n j (dir d f))
run_write (remove f n) d = set_dir d f (erase n (dir d f))
run_write (rename f g n j) d =
    let freed = set_dir d f (erase n (dir d f)) in set_dir freed g (insert n j (dir freed g))
run_write (save_index m) d = record d { index = some m }

unfoldable pub run_writes : List Write → Disk → Disk
unfolding run_write
run_writes [] d = d
run_writes (w ∷ ws) d = run_writes ws (run_write w d)

abbrev pub same_folder : Folder → Folder → Bool
same_folder in_pending in_pending = true
same_folder in_processing in_processing = true
same_folder in_done in_done = true
same_folder in_dead in_dead = true
same_folder _ _ = false

pub file-put :
    (f g : Folder) (n m : String) (j : QueueJob) (d : Disk)
    → file g m (run_write (put f n j) d)
      ≡ (if same_folder f g && n == m then some j else file g m d)
unfolding file run_write
file-put in_pending in_pending n m j d = simp lookup-insert
file-put in_processing in_processing n m j d = simp lookup-insert
file-put in_done in_done n m j d = simp lookup-insert
file-put in_dead in_dead n m j d = simp lookup-insert
file-put _ _ n m j d = refl

pub file-remove :
    (f g : Folder) (n m : String) (d : Disk)
    → file g m (run_write (remove f n) d) ≡ (if same_folder f g && n == m then none else file g m d)
unfolding file run_write
file-remove in_pending in_pending n m d = simp lookup-erase
file-remove in_processing in_processing n m d = simp lookup-erase
file-remove in_done in_done n m d = simp lookup-erase
file-remove in_dead in_dead n m d = simp lookup-erase
file-remove _ _ n m d = refl

pub file-save_index :
    (g : Folder) (m : String) (x : Assoc String) (d : Disk)
    → file g m (run_write (save_index x) d) ≡ file g m d
unfolding file run_write
file-save_index in_pending m x d = refl
file-save_index _ m x d = refl

-- Where files stand after a job is written to one directory and then removed from another.
pub file-move :
    (f g h : Folder) (n m : String) (j : QueueJob) (d : Disk)
    → file h m (run_writes (put g n j ∷ remove f n ∷ []) d) ≡ (
        if same_folder f h && n == m
        then none
        else if same_folder g h && n == m
        then some j
        else file h m d)
unfolding run_writes
file-move f g h n m j d = file-remove f h n m (run_write (put g n j) d) ∙ simp file-put
