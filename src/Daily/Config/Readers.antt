-- ===== src/Daily/Config/Readers.antt =====
-- What the readers of a step's fields return, when they do not raise.
use quant_data_center_cn.Prelude.{
  ℕ, zero, suc, ℤ, pos, negsuc, ◌≡◌, ◌≢◌, refl, sym, ◌∙◌, String, Option, none, some, List, [], ◌∷◌,
  true, ◌==◌, string_eq, ok, err, ◌>>=◌, >>=-eq-ok, arith, Bool-cases, inl, inr, ==_iff,
}
use quant_data_center_cn.Prelude.Text.{strip}
use quant_data_center_cn.Daily.Config.{
  Value, null, boolean, integer, other, text, list, string_field, missing_string, no_values,
  value_then, mapping, Language, optional_timeout, whole_number, positive, render_command,
  command_items, not_empty,
}

pub required_string-named :
    (o : Option Value) (field : String) (s : String) → string_field field o ≡ ok s → s ≢ ""
unfolding string_field
required_string-named none field s h = cc
required_string-named (some (text t)) field s h = elim (Bool-cases (strip t == "")) [
  | inl e ↦ let k : err (missing_string field) ≡ ok s = sym (rw (string_field, e) refl) ∙ h in cc
  | inr e ↦
      let k : ok (strip t) ≡ ok s = sym (rw (string_field, e) refl) ∙ h in
      λ z.
        let q : strip t ≡ "" = cc in
        let w : (strip t == "") ≡ true = (==_iff (strip t) "").1 q in cc
]
required_string-named (some null) field s h = cc
required_string-named (some (boolean b)) field s h = cc
required_string-named (some (integer n)) field s h = cc
required_string-named (some (other b)) field s h = cc
required_string-named (some (mapping f)) field s h = cc
required_string-named (some (list vs)) field s h = cc

positive-limited : (n : ℤ) (t : Option ℕ) → positive n ≡ ok t → t ≢ some 0
unfolding positive
positive-limited (pos zero) t h = cc
positive-limited (pos (suc n)) t h =
    λ z. let q : some (suc n) ≡ some 0 = cc in let w : suc n ≡ 0 = cc in absurd (omega (arith, w))
positive-limited (negsuc n) t h = cc

whole_number-limited :
    (l : Language) (v : Value) (t : Option ℕ) → (whole_number l v >>= positive) ≡ ok t → t ≢ some 0
whole_number-limited l v t h =
    let (n, _, k) = >>=-eq-ok (whole_number l v) positive h in positive-limited n t k

pub optional_timeout-limited :
    (l : Language) (v : Value) (t : Option ℕ) → optional_timeout l v ≡ ok t → t ≢ some 0
unfolding optional_timeout
optional_timeout-limited l null t h = λ z. let q : ◌≡◌ {A = Option ℕ} none (some 0) = cc in cc
optional_timeout-limited l (boolean b) t h = whole_number-limited l (boolean b) t h
optional_timeout-limited l (integer n) t h = whole_number-limited l (integer n) t h
optional_timeout-limited l (text s) t h = whole_number-limited l (text s) t h
optional_timeout-limited l (other b) t h = whole_number-limited l (other b) t h
optional_timeout-limited l (list vs) t h = whole_number-limited l (list vs) t h
optional_timeout-limited l (mapping f) t h = whole_number-limited l (mapping f) t h

not_empty-commanded : (items c : List String) → not_empty items ≡ ok c → c ≢ []
unfolding not_empty
not_empty-commanded [] c h = cc
not_empty-commanded (s ∷ ss) c h = λ z. let q : s ∷ ss ≡ [] = cc in cc

pub render_command-commanded :
    (l : Language) (o : Option Value) (c : List String) → render_command l o ≡ ok c → c ≢ []
unfolding render_command
render_command-commanded l (some (text s)) c h =
    let (items, _, k) = >>=-eq-ok (command_items l (value_then (text s) no_values)) not_empty h in
    not_empty-commanded items c k
render_command-commanded l (some (list vs)) c h =
    let (items, _, k) = >>=-eq-ok (command_items l vs) not_empty h in not_empty-commanded items c k
render_command-commanded l none c h = cc
render_command-commanded l (some null) c h = cc
render_command-commanded l (some (boolean b)) c h = cc
render_command-commanded l (some (integer n)) c h = cc
render_command-commanded l (some (other b)) c h = cc
render_command-commanded l (some (mapping f)) c h = cc
