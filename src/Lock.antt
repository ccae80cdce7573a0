-- ===== src/Lock.antt =====
-- src/utils/process_lock.py: a lock directory, the owner that its owner.json names, and who may take
-- it. Times are seconds. One call of `acquire_process_lock` is modelled with no other process between
-- its own file operations. What the operating system and the clock say is an argument.
pub mod Excludes
use quant_data_center_cn.Prelude.{
  ℕ, zero, suc, ◌+◌, String, Option, none, some, Bool, true, false, not, ◌&&◌, if◌then◌else◌, ◌==◌,
  string_eq, leb, ℤ, pos, negsuc,
}

-- The fields of owner.json that the code reads. `started_at` is none where `fromisoformat` reads no time,
-- and `pid` none where `int` reads no number.
pub record Owner : Type 0 where
  pub hostname : Option String
  pub started_at : Option ℕ
  pub pid : Option ℤ

-- There is no directory, or there is one whose owner.json names an owner, or cannot be read.
pub data LockDir : Type 0 where
  free : LockDir
  held : Option Owner → LockDir

pub data Warning : Type 0 where
  owner_unreadable no_valid_started_at owner_exceeded no_valid_pid owner_not_alive : Warning

-- The process that asks: its host, its pid, the time, and `is_pid_alive` on its host.
pub record Asker : Type 0 where
  pub host : String
  pub pid : ℤ
  pub now : ℕ
  pub alive : ℤ → Bool

-- `str(owner.get("hostname") or "")`, and whether it names another host.
unfoldable pub other_host : Asker → Option String → Bool
other_host asker none = false
other_host asker (some host) = not (host == "") && not (host == asker.host)

-- `_owner_pid`
unfoldable pub owner_pid : Option ℤ → Option ℤ
owner_pid none = none
owner_pid (some (pos zero)) = none
owner_pid (some (pos (suc n))) = some (pos (suc n))
owner_pid (some (negsuc n)) = none

-- `is_pid_alive`: a number that is not positive is no process.
unfoldable pub is_pid_alive : Asker → ℤ → Bool
is_pid_alive asker (pos zero) = false
is_pid_alive asker (pos (suc n)) = asker.alive (pos (suc n))
is_pid_alive asker (negsuc n) = false

unfoldable pub inspect_pid : Asker → Option ℤ → Option Warning
unfolding is_pid_alive
inspect_pid asker none = some no_valid_pid
inspect_pid asker (some pid) = if is_pid_alive asker pid then none else some owner_not_alive

unfoldable pub inspect_owner : Asker → ℕ → Owner → Option ℕ → Option Warning
unfolding other_host owner_pid inspect_pid
inspect_owner asker stale_after owner none = some no_valid_started_at
inspect_owner asker stale_after owner (some started_at) =
    if not (leb asker.now (started_at + stale_after))
    then some owner_exceeded
    else if other_host asker owner.hostname
    then none
    else inspect_pid asker (owner_pid owner.pid)

-- `_inspect_existing_lock`: the lock is stale where there is a warning.
unfoldable pub inspect_existing_lock : Asker → ℕ → Option Owner → Option Warning
unfolding inspect_owner
inspect_existing_lock asker stale_after none = some owner_unreadable
inspect_existing_lock asker stale_after (some owner) =
    inspect_owner asker stale_after owner owner.started_at

-- `_owner`
unfoldable pub new_owner : Asker → Owner
new_owner asker = record {
  hostname = some asker.host;
  started_at = some asker.now;
  pid = some asker.pid;
}

-- The lock is held by the asker, who wrote its owner.json, or ProcessLockError names the owner.
pub data Acquired : Type 0 where
  acquired : LockDir → Acquired
  already_held : Option Owner → Acquired

-- `mkdir` where there is no directory, and `_write_owner`
abbrev pub make_lock : Asker → LockDir
make_lock asker = held (some (new_owner asker))

-- `acquire_process_lock`: a stale directory is removed, and the loop's second pass finds none.
unfoldable pub acquire_process_lock : Asker → ℕ → LockDir → Acquired
acquire_process_lock asker stale_after free = acquired (make_lock asker)
acquire_process_lock asker stale_after (held owner) =
    elim (inspect_existing_lock asker stale_after owner) [
      | none ↦ already_held owner
      | some warning ↦ acquired (make_lock asker)
    ]

-- The end of the `with` block, by a return or an exception.
unfoldable pub release : LockDir → LockDir
release dir = free
