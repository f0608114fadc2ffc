-- ===== src/ResultClient/Policy/Laws.antt =====
-- What a policy keeps.
use mathlib.Core.List.{
  Mem, append_assoc, append-nil, not-mem-nil, mem-cons, mem-cons_self, mem-cons_of_mem,
}
use mathlib.Core.Logic.Or
use trivy.Base.{◌≡◌, refl, Bool, true, false, not, List, [], ◌∷◌, ◌++◌, if◌then◌else◌, keep, arith}
use trivy.Base.Sort.{Bool-set}
use trivy.Base.Result.{Result, ok, err, panicked, bind_ok}
use trivy.ResultClient.Policy.{policy_loop}

abbrev pub is_answer : Result Bool → Bool
is_answer (ok b) = true
is_answer _ = false

answer : (r : Result Bool) → is_answer r ≡ true → (b : Bool) × (r ≡ ok b)
answer (ok b) h = (b, refl)
answer (err e) h = cc
answer panicked h = cc

module _ {A : Type 0} (ignores : A → Result Bool) where
  -- The policy has an answer for each of these.
  abbrev pub Answers : List A → Type 0
  Answers xs = (x : A) → Mem x xs → is_answer (ignores x) ≡ true

  abbrev pub is_kept : A → Bool
  is_kept x = elim (ignores x) [ ok b ↦ not b | _ ↦ true ]

  -- Where the policy answers, exactly what it does not ignore is kept, in order.
  pub policy_loop-keep :
      (acc xs : List A) → Answers xs → policy_loop ignores acc xs ≡ ok (acc ++ keep is_kept xs)
  unfolding policy_loop
  policy_loop-keep acc [] h = rw append-nil refl
  policy_loop-keep acc (x ∷ xs) h =
      let (b, e) = answer (ignores x) (h x mem-cons_self) in
      let ih = λ (a : List A). policy_loop-keep a xs (λ z m. h z (mem-cons_of_mem x m)) in
      ground (arith, e, ih acc, ih (acc ++ x ∷ []), append_assoc acc (x ∷ []) (keep is_kept xs))

  -- Where the loop succeeds, the policy had an answer for each.
  pub policy_loop-Answers :
      (acc xs : List A) {out : List A} → policy_loop ignores acc xs ≡ ok out → Answers xs
  unfolding policy_loop
  policy_loop-Answers acc [] e x m = absurd (not-mem-nil m)
  policy_loop-Answers acc (y ∷ xs) e x m =
      let (b, f, k) = bind_ok (ignores y) _ e in
      Or.elim (Bool-set _ _) (mem-cons.0 m) (λ same. rw (same, f) refl)
        (policy_loop-Answers (if b then acc else acc ++ y ∷ []) xs k x)

  -- The loop keeps exactly what the policy does not ignore, wherever it succeeds.
  pub policy_loop-eq-keep :
      (xs : List A) {out : List A} → policy_loop ignores [] xs ≡ ok out → out ≡ keep is_kept xs
  policy_loop-eq-keep xs e = let k = policy_loop-keep [] xs (policy_loop-Answers [] xs e) in cc
