-- ===== src/Daily/Run/Order.antt =====
-- The commands of a run are started in the workflow's order, each step's at most once.
use quant_data_center_cn.Prelude.{
  ◌≡◌, refl, ap, ◌∙◌, String, Option, some, List, [], ◌∷◌, Bool, ℤ, inl, inr, or_else, map,
}
use quant_data_center_cn.Daily.Types.{DailyStep}
use quant_data_center_cn.Daily.Run.{
  Settings, Machine, Flow, proceed, crash, failed_with, stop_with, pass,
}
use quant_data_center_cn.Daily.Run.Program.{LoopEnd, ended, raised, run_steps, continue_loop}
use quant_data_center_cn.Daily.Run.Commands.{Starts, pass-Starts}

-- `Within xs ys`: ys with some items left out.
pub data Within : List String → List String → Type 0 where
  done : Within [] []
  left_out : {y : String} {xs ys : List String} → Within xs ys → Within xs (y ∷ ys)
  kept : {y : String} {xs ys : List String} → Within xs ys → Within (y ∷ xs) (y ∷ ys)

-- The items of the first list, each put in front of what is there.
abbrev pub onto : List String → List String → List String
onto [] ys = ys
onto (x ∷ xs) ys = onto xs (x ∷ ys)

abbrev pub ids : List DailyStep → List String
ids = map (λ (step : DailyStep). step.id)

abbrev pub machine_of : LoopEnd → Machine
machine_of (ended code m) = m
machine_of (raised m) = m

-- The commands that `b` has run and `a` has not, in the order in which they ran.
abbrev pub RanWithin : List String → Machine → Machine → Type 0
RanWithin available a b =
    (xs : List String) × (ids b.ran ≡ onto xs (ids a.ran)) × Within xs available

Within-nil : (ys : List String) → Within [] ys
Within-nil [] = done
Within-nil (y ∷ ys) = left_out (Within-nil ys)

RanWithin-refl : (ys : List String) (a : Machine) → RanWithin ys a a
RanWithin-refl ys a = ([], refl, Within-nil ys)

after_pass :
    (c : Settings) (step : DailyStep) (ys : List String) (a b d : Machine)
    → Starts c step a b
    → RanWithin ys b d
    → RanWithin (step.id ∷ ys) a d
after_pass c step ys a b d (inl e) (xs, h, w) = (xs, h ∙ ap (λ l. onto xs (ids l)) e, left_out w)
after_pass c step ys a b d (inr (s, e, same)) (xs, h, w) = (
  step.id ∷ xs,
  h ∙ (ap (λ l. onto xs (ids l)) e ∙ ap (λ (t : DailyStep). onto xs (t.id ∷ ids a.ran)) same),
  kept w,
)

by_flow :
    (c : Settings) (step : DailyStep) (steps : List DailyStep) (a b : Machine) (flow : Flow)
    (code : Option ℤ) (rest : Option ℤ → LoopEnd)
    → Starts c step a b
    → ((code' : Option ℤ) → RanWithin (ids steps) b (machine_of (rest code')))
    → RanWithin (step.id ∷ ids steps) a (machine_of (continue_loop flow code b rest))
unfolding continue_loop
by_flow c step steps a b proceed code rest s ih =
    after_pass c step (ids steps) a b (machine_of (rest code)) s (ih code)
by_flow c step steps a b (failed_with x) code rest s ih =
    after_pass c step (ids steps) a b (machine_of (rest (or_else code (some x)))) s
      (ih (or_else code (some x)))
by_flow c step steps a b (stop_with x) code rest s ih =
    after_pass c step (ids steps) a b b s (RanWithin-refl (ids steps) b)
by_flow c step steps a b crash code rest s ih =
    after_pass c step (ids steps) a b b s (RanWithin-refl (ids steps) b)

-- Whatever the loop ends with, the commands that it ran are those of some of its steps, each at
-- most once and in the order of the steps.
pub run_steps_in_order :
    (c : Settings) (steps : List DailyStep) (seen : Bool) (code : Option ℤ) (m : Machine)
    → RanWithin (ids steps) m (machine_of (run_steps c steps seen code m))
unfolding run_steps
run_steps_in_order c [] seen code m = ([], refl, done)
run_steps_in_order c (step ∷ steps) seen code m =
    let p = pass c step seen m in
    by_flow c step steps m p.0.0 p.0.1 code (λ code'. run_steps c steps p.1 code' p.0.0)
      (pass-Starts c step seen m) (λ code'. run_steps_in_order c steps p.1 code' p.0.0)
