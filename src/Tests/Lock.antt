-- ===== src/Tests/Lock.antt =====
-- Tests of the process lock: this host's process 10 holds it, and process 11 asks.
use quant_data_center_cn.Prelude.{
  ◌≡◌, refl, inl, some, Bool, true, false, pos, ℤ, int_eq, arith, string_eq,
}
use quant_data_center_cn.Lock.{
  Asker, free, held, acquired, already_held, acquire_process_lock, new_owner, other_host,
  inspect_existing_lock, inspect_owner, inspect_pid, owner_pid, is_pid_alive, make_lock,
}
use quant_data_center_cn.Lock.Excludes.{acquired-excludes, taken_over-dead}

abbrev every_one_alive : ℤ → Bool
every_one_alive p = true

abbrev ten : Asker
ten = record { host = "a"; pid = pos 10; now = 1000; alive = every_one_alive }

abbrev eleven : Asker
eleven = record ten { pid = pos 11; now = 1060 }

ten_takes_it : acquire_process_lock ten 3600 free ≡ acquired (make_lock ten)
unfolding acquire_process_lock
ten_takes_it = refl

acquired-excludes_example :
    acquire_process_lock eleven 3600 (make_lock ten) ≡ already_held (some (new_owner ten))
acquired-excludes_example =
    acquired-excludes ten eleven 3600 9 free (make_lock ten) refl ten_takes_it (omega arith)
      (inl refl)

-- Process 12 asks on a host where no process is alive.
abbrev twelve : Asker
twelve = record eleven { pid = pos 12; alive = λ p. false }

twelve_takes_over :
    acquire_process_lock twelve 3600 (held (some (new_owner ten))) ≡ acquired (make_lock twelve)
unfolding acquire_process_lock inspect_existing_lock inspect_owner inspect_pid owner_pid
    is_pid_alive new_owner other_host string_eq
twelve_takes_over = refl

taken_over-dead_example : (other_host twelve (some "a") ≡ false) × (twelve.alive (pos 10) ≡ false)
taken_over-dead_example =
    taken_over-dead twelve 3600 1000 9
      (record { hostname = some "a"; started_at = some 1000; pid = some (pos 10) })
      (make_lock twelve) refl refl (omega arith) (unfold new_owner in twelve_takes_over)
