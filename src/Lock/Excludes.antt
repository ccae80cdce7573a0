-- ===== src/Lock/Excludes.antt =====
-- Whom a lock keeps out.
use quant_data_center_cn.Prelude.{
  ℕ, suc, ◌+◌, ◌≤◌, ◌≡◌, ◌≢◌, ◌⊎◌, inl, inr, Option-cases, sym, ◌∙◌, subst, le→leb, ==_iff,
  if◌then◌else◌, Bool-cases, refl, String, Option, none, some, Bool, true, false, ◌==◌, string_eq,
  pos, arith,
}
use quant_data_center_cn.Lock.{
  Owner, LockDir, free, held, Warning, Asker, other_host, owner_pid, is_pid_alive, inspect_pid,
  inspect_owner, inspect_existing_lock, new_owner, acquired, already_held, owner_not_alive,
  make_lock, acquire_process_lock,
}

unequal : (s t : String) → s ≢ t → (s == t) ≡ false
unequal s t h = ground (arith, ==_iff s t)

acquired-make_lock :
    (asker : Asker) (stale_after : ℕ) (before after : LockDir)
    → acquire_process_lock asker stale_after before ≡ acquired after
    → after ≡ make_lock asker
unfolding acquire_process_lock
acquired-make_lock asker stale_after free after a = cc
acquired-make_lock asker stale_after (held owner) after a =
    elim (Option-cases (inspect_existing_lock asker stale_after owner)) [
      | inl e ↦
          let k : already_held owner ≡ acquired after =
            sym (rw (acquire_process_lock, e) refl) ∙ a in
          cc
      | inr (w, e) ↦
          let k : acquired (make_lock asker) ≡ acquired after =
            sym (rw (acquire_process_lock, e) refl) ∙ a in
          cc
    ]

active_pid :
    (second : Asker) (n : ℕ)
    → second.alive (pos (suc n)) ≡ true
    → inspect_pid second (owner_pid (some (pos (suc n)))) ≡ none
unfolding inspect_pid owner_pid is_pid_alive
active_pid second n alive = rw alive refl

other_host-true :
    (second : Asker) (host : String)
    → second.host ≢ host
    → host ≢ ""
    → other_host second (some host) ≡ true
unfolding other_host
other_host-true second host differs named =
    rw (unequal host "" named, unequal host second.host (λ e. differs (sym e))) refl

either_none : (b : Bool) (w : Option Warning) → w ≡ none → (if b then none else w) ≡ none
either_none true w h = refl
either_none false w h = h

-- The owner that a process writes gives no warning to the second one.
new_owner_is_active :
    (first second : Asker) (stale_after n : ℕ)
    → first.pid ≡ pos (suc n)
    → second.now ≤ first.now + stale_after
    → ((second.alive first.pid ≡ true) ⊎ (second.host ≢ first.host × first.host ≢ ""))
    → inspect_existing_lock second stale_after (some (new_owner first)) ≡ none
unfolding inspect_existing_lock inspect_owner new_owner
new_owner_is_active first second stale_after n p in_time (inl alive) =
    rw (le→leb second.now (first.now + stale_after) in_time, p)
      (either_none (other_host second (some first.host)) _
        (active_pid second n (subst (λ q. second.alive q ≡ true) p alive)))
new_owner_is_active first second stale_after n p in_time (inr (differs, named)) =
    rw
      (
        le→leb second.now (first.now + stale_after) in_time,
        other_host-true second first.host differs named,
      )
      refl

-- Once a process with a positive pid has acquired a lock, another call is refused, and shown that
-- owner, until the limit has passed, where the pid is alive to the caller, or the caller is on another
-- host and the owner's host has a name.
pub acquired-excludes :
    (first second : Asker) (stale_after n : ℕ) (before after : LockDir)
    → first.pid ≡ pos (suc n)
    → acquire_process_lock first stale_after before ≡ acquired after
    → second.now ≤ first.now + stale_after
    → ((second.alive first.pid ≡ true) ⊎ (second.host ≢ first.host × first.host ≢ ""))
    → acquire_process_lock second stale_after after ≡ already_held (some (new_owner first))
acquired-excludes first second stale_after n before after p a in_time living =
    rw (acquired-make_lock first stale_after before after a) (
      unfold acquire_process_lock in
      rw (acquire_process_lock, new_owner_is_active first second stale_after n p in_time living)
        refl)

warned :
    (asker : Asker) (stale_after : ℕ) (owner : Owner) (after : LockDir)
    → acquire_process_lock asker stale_after (held (some owner)) ≡ acquired after
    → inspect_existing_lock asker stale_after (some owner) ≢ none
unfolding acquire_process_lock
warned asker stale_after owner after a e =
    let k : already_held (some owner) ≡ acquired after =
      sym (rw (acquire_process_lock, e) refl) ∙ a in
    cc

inspect_in_time :
    (asker : Asker) (stale_after t n : ℕ) (owner : Owner)
    → owner.started_at ≡ some t
    → owner.pid ≡ some (pos (suc n))
    → asker.now ≤ t + stale_after
    → inspect_existing_lock asker stale_after (some owner) ≡ (
        if other_host asker owner.hostname
        then none
        else if asker.alive (pos (suc n))
        then none
        else some owner_not_alive)
unfolding inspect_existing_lock inspect_owner inspect_pid owner_pid is_pid_alive
inspect_in_time asker stale_after t n owner s p in_time =
    rw (s, p, inspect_owner, le→leb asker.now (t + stale_after) in_time) refl

-- A lock whose owner.json names a positive pid and a start within the limit is taken over only where it
-- names no other host and that pid is not alive.
pub taken_over-dead :
    (asker : Asker) (stale_after t n : ℕ) (owner : Owner) (after : LockDir)
    → owner.started_at ≡ some t
    → owner.pid ≡ some (pos (suc n))
    → asker.now ≤ t + stale_after
    → acquire_process_lock asker stale_after (held (some owner)) ≡ acquired after
    → (other_host asker owner.hostname ≡ false) × (asker.alive (pos (suc n)) ≡ false)
taken_over-dead asker stale_after t n owner after s p in_time a =
    let w = warned asker stale_after owner after a in
    let e = inspect_in_time asker stale_after t n owner s p in_time in
    elim (Bool-cases (other_host asker owner.hostname)) [
      | inl h ↦ absurd (w (e ∙ rw h refl))
      | inr h ↦ elim (Bool-cases (asker.alive (pos (suc n)))) [
        | inl k ↦ absurd (w (e ∙ rw (h, k) refl))
        | inr k ↦ (h, k)
      ]
    ]
