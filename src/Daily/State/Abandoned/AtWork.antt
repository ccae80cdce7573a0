-- ===== src/Daily/State/Abandoned/AtWork.antt =====
-- Which rows the marking of abandoned rows leaves alone: those whose run goes on.
use quant_data_center_cn.Prelude.{
  ℕ, zero, suc, ◌+◌, ◌≤◌, ◌<◌, ◌≡◌, ◌⊎◌, ◌↔◌, refl, sym, ap, ◌∙◌, Option, none, some, Bool, true,
  false, ◌==◌, ==_iff, ℤ, pos, negsuc, int_eq, arith, Bool-cases, inl, inr, Option-cases,
}
use quant_data_center_cn.Daily.State.{
  Stamp, no_stamp, malformed, at, PidField, absent, unusable, number, Row,
}
use quant_data_center_cn.Daily.State.Abandoned.{
  positive_pid, pid_field, overdue, is_active, reason_for_pid, running_abandoned_reason,
}

-- The process that a row names as its orchestrator: `orchestrator_pid`, or `pid` where there is none.
abbrev pub IsNamed : Row → ℕ → Type 0
IsNamed r p =
    (0 < p)
    × ((r.orchestrator_pid ≡ number (pos p))
        ⊎ ((r.orchestrator_pid ≡ absent) × (r.pid ≡ number (pos p))))

-- The named process holds the lock, or it is alive and began at most 86400 seconds ago.
abbrev pub GoesOn : (ℤ → Bool) → Option ℤ → ℕ → ℕ → Stamp → Type 0
GoesOn alive active_pid now p started_at =
    (active_pid ≡ some (pos p))
    ⊎ ((alive (pos p) ≡ true) × (t : ℕ) × (started_at ≡ at t) × (now ≤ t + 86400))

abbrev pub IsAtWork : (ℤ → Bool) → Option ℤ → ℕ → Row → Type 0
IsAtWork alive active_pid now r = (p : ℕ) × IsNamed r p × GoesOn alive active_pid now p r.started_at

positive-number :
    (field : PidField) (p : ℤ)
    → positive_pid field ≡ some p
    → (n : ℕ) × (0 < n) × (p ≡ pos n) × (field ≡ number (pos n))
unfolding positive_pid
positive-number absent p h = cc
positive-number unusable p h = cc
positive-number (number (pos zero)) p h = cc
positive-number (number (pos (suc n))) p h = (suc n, omega arith, cc, refl)
positive-number (number (negsuc n)) p h = cc

number-positive : (n : ℕ) → 0 < n → positive_pid (number (pos n)) ≡ some (pos n)
unfolding positive_pid
number-positive zero h = absurd (omega (arith, h))
number-positive (suc n) h = refl

chosen :
    (r : Row) (n : ℕ)
    → pid_field r ≡ number (pos n)
    → (r.orchestrator_pid ≡ number (pos n))
      ⊎ ((r.orchestrator_pid ≡ absent) × (r.pid ≡ number (pos n)))
unfolding pid_field
chosen r n h = by_field r.orchestrator_pid refl h
  where
    by_field :
        (o : PidField)
        → r.orchestrator_pid ≡ o
        → (elim o as (λ x. PidField) [ absent ↦ r.pid | unusable ↦ unusable | number m ↦ number m ])
          ≡ number (pos n)
        → (r.orchestrator_pid ≡ number (pos n))
          ⊎ ((r.orchestrator_pid ≡ absent) × (r.pid ≡ number (pos n)))
    by_field absent e k = inr (e, k)
    by_field unusable e k = cc
    by_field (number m) e k = inl (e ∙ k)

named-field : (r : Row) (n : ℕ) → IsNamed r n → pid_field r ≡ number (pos n)
unfolding pid_field
named-field r n (positive, inl e) = rw e refl
named-field r n (positive, inr (e, k)) = rw (e, k) refl

module _ (alive : ℤ → Bool) (active_pid : Option ℤ) (now : ℕ) where
  active_iff : (p : ℤ) → (is_active alive active_pid now p ≡ true) ↔ (active_pid ≡ some p)
  unfolding is_active
  active_iff p = by_active active_pid
    where
      by_active :
          (o : Option ℤ)
          → ((elim o as (λ x. Bool) [ none ↦ false | some a ↦ a == p ]) ≡ true) ↔ (o ≡ some p)
      by_active none = (λ h. cc, λ h. cc)
      by_active (some a) =
          (λ h. ap some ((==_iff a p).0 h), λ h. (==_iff a p).1 (let same : a ≡ p = cc in same))

  overdue-none :
      (started_at : Stamp)
      → overdue alive active_pid now started_at ≡ none
      → (t : ℕ) × (started_at ≡ at t) × (now ≤ t + 86400)
  unfolding overdue
  overdue-none no_stamp h = cc
  overdue-none malformed h = cc
  overdue-none (at t) h = (t, refl, ground arith)

  reason-GoesOn :
      (p : ℕ) (started_at : Stamp)
      → (reason_for_pid alive active_pid now (some (pos p)) started_at ≡ none)
        ↔ GoesOn alive active_pid now p started_at
  unfolding reason_for_pid
  reason-GoesOn p started_at = elim (Bool-cases (is_active alive active_pid now (pos p))) [
    | inl e ↦ rw e (λ h. inl ((active_iff (pos p)).0 e), λ h. refl)
    | inr e ↦ elim (Bool-cases (alive (pos p))) [
      | inl f ↦
          rw (e, f)
            (
              λ h. let (t, at_t, recent) = overdue-none started_at h in inr (refl, t, at_t, recent),
              λ g. elim g [
                | inl same ↦
                    let impossible : true ≡ false = sym ((active_iff (pos p)).1 same) ∙ e in cc
                | inr (lives, t, at_t, recent) ↦ rw at_t (unfold overdue in ground (arith, recent))
              ],
            )
      | inr f ↦
          rw (e, f)
            (
              λ h. cc,
              λ g. elim g [
                | inl same ↦
                    let impossible : true ≡ false = sym ((active_iff (pos p)).1 same) ∙ e in cc
                | inr (lives, t, at_t, recent) ↦ cc
              ],
            )
    ]
  ]

  -- The code's test finds no reason exactly for the rows whose run goes on.
  pub reason-IsAtWork :
      (r : Row)
      → (running_abandoned_reason alive active_pid now r ≡ none) ↔ IsAtWork alive active_pid now r
  unfolding running_abandoned_reason
  reason-IsAtWork r = (
    λ h. elim (Option-cases (positive_pid (pid_field r))) [
      | inl e ↦ unfold reason_for_pid in cc (rw e at h)
      | inr (p, e) ↦
          let (n, positive, same, field) = positive-number (pid_field r) p e in
          (
            n,
            (positive, chosen r n field),
            (reason-GoesOn n r.started_at).0 (
                sym
                  (ap (λ q. reason_for_pid alive active_pid now q r.started_at) (e ∙ ap some same))
                ∙ h),
          )
    ],
    λ (n, named, going).
        ap (λ q. reason_for_pid alive active_pid now q r.started_at)
          (ap positive_pid (named-field r n named) ∙ number-positive n named.0)
        ∙ (reason-GoesOn n r.started_at).1 going,
  )
