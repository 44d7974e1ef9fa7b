-- ===== src/Drops/Enums.antt =====
-- The drop glue of an enum, from `DropGlue::new` of src/types/drop.rs, run on a value: the case whose
-- discriminant the value has.
use skitter.Prelude.{
  ℕ, suc, ◌+◌, ◌≡◌, refl, sym, ap, ◌∙◌, inl, inr, Bool, true, false, Bool-cases, List, [], ◌∷◌,
  ◌++◌, append-nil, append_assoc, length, get_elem?-append_cons, arith, length-append,
  if◌then◌else◌,
}
use skitter.Vm.Words.{wrap}
use skitter.Prelude.Run.{done}
use skitter.Drops.Glue.{
  GlueInstr, call_member, literal, eq_disc, pointer_offset, jump_f, return_glue, Cell, pointer,
  number, truth, Dropped, Calls, same_bits, next, step, run_glue,
}
use skitter.Drops.Cases.{GlueField, Case, calls_code, case_body, case_code, cases_code}

-- A step for each element of a list, and some more.
unfoldable pub add_fuel : {A : Type 0} → List A → ℕ → ℕ
add_fuel [] k = k
add_fuel (x ∷ xs) k = suc (add_fuel xs k)

pub add_fuel-length : {A : Type 0} (xs : List A) (k : ℕ) → add_fuel xs k ≡ length xs + k
unfolding add_fuel
add_fuel-length [] k = omega arith
add_fuel-length (x ∷ xs) k = ap suc (add_fuel-length xs k) ∙ omega arith

add_fuel-append :
    {A : Type 0} (xs ys : List A) (k : ℕ) → add_fuel (xs ++ ys) k ≡ add_fuel xs (add_fuel ys k)
unfolding add_fuel
add_fuel-append [] ys k = refl
add_fuel-append (x ∷ xs) ys k = ap suc (add_fuel-append xs ys k)

pub run_glue-next :
    (v : Dropped) (pre : List GlueInstr) (i : GlueInstr) (post : List GlueInstr) (fuel pc' : ℕ)
    (m m' : Cell) (calls calls' : Calls)
    → step v i (length pre) m calls ≡ next pc' m' calls'
    → run_glue v (pre ++ i ∷ post) (suc fuel) (length pre) m calls
      ≡ run_glue v (pre ++ i ∷ post) fuel pc' m' calls'
unfolding run_glue
run_glue-next v pre i post fuel pc' m m' calls calls' h =
    rw (run_glue, get_elem?-append_cons pre i post, h) refl

run_glue-stop :
    (v : Dropped) (pre post : List GlueInstr) (fuel : ℕ) (m : Cell) (calls : Calls)
    → run_glue v (pre ++ return_glue ∷ post) (suc fuel) (length pre) m calls ≡ done calls
unfolding run_glue step
run_glue-stop v pre post fuel m calls =
    rw (run_glue, get_elem?-append_cons pre return_glue post) refl

-- The calls for the fields of a variant of the value at an address.
unfoldable pub field_calls : ℕ → List GlueField → Calls
field_calls self [] = []
field_calls self (g ∷ gs) = (g.glue, self + g.field.offset) ∷ field_calls self gs

-- Running an instruction, with the code behind it set apart.
along :
    (v : Dropped) (pre : List GlueInstr) (i : GlueInstr) (post : List GlueInstr) (fuel : ℕ)
    (m m' : Cell) (calls calls' : Calls)
    → step v i (length pre) m calls ≡ next (suc (length pre)) m' calls'
    → run_glue v (pre ++ i ∷ post) (suc fuel) (length pre) m calls
      ≡ run_glue v ((pre ++ i ∷ []) ++ post) fuel (length (pre ++ i ∷ [])) m' calls'
along v pre i post fuel m m' calls calls' h =
    run_glue-next v pre i post fuel (suc (length pre)) m m' calls calls' h ∙ cong2
  where
    cong2 :
        run_glue v (pre ++ i ∷ post) fuel (suc (length pre)) m' calls'
        ≡ run_glue v ((pre ++ i ∷ []) ++ post) fuel (length (pre ++ i ∷ [])) m' calls'
    cong2 =
        let here : length (pre ++ i ∷ []) ≡ suc (length pre) =
          length-append pre (i ∷ []) ∙ omega arith in
        rw (append_assoc pre (i ∷ []) post, here) refl

run_calls :
    (v : Dropped) (gs : List GlueField) (pre post : List GlueInstr) (fuel : ℕ) (m : Cell)
    (calls : Calls)
    → run_glue v
        (pre ++ (calls_code gs ++ return_glue ∷ post))
        (add_fuel (calls_code gs) (suc fuel))
        (length pre)
        m
        calls
      ≡ done (calls ++ field_calls v.self gs)
unfolding calls_code field_calls step add_fuel
run_calls v [] pre post fuel m calls =
    run_glue-stop v pre post fuel m calls ∙ ap done (sym (append-nil calls))
run_calls v (g ∷ gs) pre post fuel m calls =
    let at = v.self + g.field.offset in
    let pre' = pre ++ pointer_offset g.field.offset ∷ [] in
    along v pre (pointer_offset g.field.offset)
      (call_member g.glue ∷ (calls_code gs ++ return_glue ∷ post))
      (suc (add_fuel (calls_code gs) (suc fuel))) m (pointer at) calls calls refl
    ∙ along v pre' (call_member g.glue) (calls_code gs ++ return_glue ∷ post)
        (add_fuel (calls_code gs) (suc fuel)) (pointer at) (pointer at) calls
        (calls ++ (g.glue, at) ∷ []) refl
    ∙ run_calls v gs (pre' ++ call_member g.glue ∷ []) post fuel (pointer at)
        (calls ++ (g.glue, at) ∷ [])
    ∙ ap done (append_assoc calls ((g.glue, at) ∷ []) (field_calls v.self gs))

-- The calls for the first case with the discriminant of the value.
unfoldable pub case_calls : Dropped → List Case → Calls
case_calls v [] = []
case_calls v (c ∷ cs) =
    if same_bits v c.disc then field_calls v.self (c.first ∷ c.others) else case_calls v cs

-- The test of a case.
test_case :
    (v : Dropped) (c : Case) (pre post : List GlueInstr) (fuel : ℕ) (m : Cell) (calls : Calls)
    (b : Bool)
    → same_bits v c.disc ≡ b
    → run_glue v (pre ++ (case_code c ++ post)) (suc (suc fuel)) (length pre) m calls
      ≡ run_glue v
          ((pre ++ literal c.disc ∷ eq_disc ∷ [])
            ++ jump_f (length (case_body c) + 2) ∷ ((case_body c ++ return_glue ∷ []) ++ post))
          fuel
          (length (pre ++ literal c.disc ∷ eq_disc ∷ []))
          (truth b)
          calls
unfolding case_code step same_bits
test_case v c pre post fuel m calls b h =
    let rest = jump_f (length (case_body c) + 2) ∷ ((case_body c ++ return_glue ∷ []) ++ post) in
    along v pre (literal c.disc) (eq_disc ∷ rest) (suc fuel) m (number (wrap v.width c.disc)) calls
      calls refl
    ∙ along v (pre ++ literal c.disc ∷ []) eq_disc rest fuel (number (wrap v.width c.disc))
        (truth b) calls calls
        (ap (λ x. next (suc (length (pre ++ literal c.disc ∷ []))) (truth x) calls) h)
    ∙ ap (λ x. run_glue v (x ++ rest) fuel (length x) (truth b) calls)
        (append_assoc pre (literal c.disc ∷ []) (eq_disc ∷ []))

taken :
    (v : Dropped) (c : Case) (pre post : List GlueInstr) (k : ℕ) (m : Cell) (calls : Calls)
    → same_bits v c.disc ≡ true
    → run_glue v (pre ++ (case_code c ++ post)) (add_fuel (case_code c) k) (length pre) m calls
      ≡ done (calls ++ field_calls v.self (c.first ∷ c.others))
unfolding case_code add_fuel step
taken v c pre post k m calls h =
    let pre' = pre ++ literal c.disc ∷ eq_disc ∷ [] in
    let jump = jump_f (length (case_body c) + 2) in
    let fuel = add_fuel (case_body c ++ return_glue ∷ []) k in
    let code : List GlueInstr = (case_body c ++ return_glue ∷ []) ++ post in
    test_case v c pre post (suc fuel) m calls true h
    ∙ along v pre' jump code fuel (truth true) (truth true) calls calls refl
    ∙ ap
        (λ x.
          run_glue v ((pre' ++ jump ∷ []) ++ x) fuel (length (pre' ++ jump ∷ [])) (truth true)
            calls)
        (append_assoc (case_body c) (return_glue ∷ []) post)
    ∙ ap
        (λ x.
          run_glue v ((pre' ++ jump ∷ []) ++ (case_body c ++ return_glue ∷ post)) x
            (length (pre' ++ jump ∷ [])) (truth true) calls)
        (add_fuel-append (case_body c) (return_glue ∷ []) k)
    ∙ run_calls v (c.first ∷ c.others) (pre' ++ jump ∷ []) post k (truth true) calls

not_taken :
    (v : Dropped) (c : Case) (pre post : List GlueInstr) (k : ℕ) (m : Cell) (calls : Calls)
    → same_bits v c.disc ≡ false
    → run_glue v (pre ++ (case_code c ++ post)) (add_fuel (case_code c) k) (length pre) m calls
      ≡ run_glue v
          ((pre ++ case_code c) ++ post)
          (suc (length (case_body c)) + k)
          (length (pre ++ case_code c))
          (truth false)
          calls
unfolding case_code add_fuel step
not_taken v c pre post k m calls h =
    let pre' = pre ++ literal c.disc ∷ eq_disc ∷ [] in
    let dist = length (case_body c) + 2 in
    let tail = case_body c ++ return_glue ∷ [] in
    let fuel = add_fuel tail k in
    let behind : length pre' + dist ≡ length (pre ++ case_code c) =
      ap (λ n. n + dist) (length-append pre (literal c.disc ∷ eq_disc ∷ []))
      ∙ sym (
          length-append pre (case_code c)
          ∙ ap (λ n. length pre + suc (suc (suc n)))
              (length-append (case_body c) (return_glue ∷ []))
          ∙ omega arith) in
    let enough : fuel ≡ suc (length (case_body c)) + k =
      add_fuel-length tail k
      ∙ ap (λ n. n + k) (length-append (case_body c) (return_glue ∷ []))
      ∙ omega arith in
    let code : pre' ++ jump_f dist ∷ (tail ++ post) ≡ (pre ++ case_code c) ++ post =
      append_assoc pre (literal c.disc ∷ eq_disc ∷ []) (jump_f dist ∷ (tail ++ post))
      ∙ sym (append_assoc pre (case_code c) post) in
    test_case v c pre post (suc fuel) m calls false h
    ∙ run_glue-next v pre' (jump_f dist) (tail ++ post) fuel (length pre' + dist) (truth false)
        (truth false) calls calls refl
    ∙ ap (λ x. run_glue v x fuel (length pre' + dist) (truth false) calls) code
    ∙ ap (λ x. run_glue v ((pre ++ case_code c) ++ post) fuel x (truth false) calls) behind
    ∙ ap
        (λ x.
          run_glue v ((pre ++ case_code c) ++ post) x (length (pre ++ case_code c)) (truth false)
            calls)
        enough

-- The cases in order, and the return behind them.
pub run_cases :
    (v : Dropped) (cs : List Case) (pre : List GlueInstr) (k : ℕ) (m : Cell) (calls : Calls)
    → run_glue v
        (pre ++ (cases_code cs ++ return_glue ∷ []))
        (add_fuel (cases_code cs) (suc k))
        (length pre)
        m
        calls
      ≡ done (calls ++ case_calls v cs)
unfolding cases_code case_calls add_fuel
run_cases v [] pre k m calls = run_glue-stop v pre [] k m calls ∙ ap done (sym (append-nil calls))
run_cases v (c ∷ cs) pre k m calls =
    let post = cases_code cs ++ return_glue ∷ [] in
    let begin : run_glue v (pre ++ ((case_code c ++ cases_code cs) ++ return_glue ∷ []))
          (add_fuel (case_code c ++ cases_code cs) (suc k)) (length pre) m calls
        ≡ run_glue v (pre ++ (case_code c ++ post))
            (add_fuel (case_code c) (add_fuel (cases_code cs) (suc k))) (length pre) m calls =
      rw
        (
          append_assoc (case_code c) (cases_code cs) (return_glue ∷ []),
          add_fuel-append (case_code c) (cases_code cs) (suc k),
        )
        refl in
    elim (Bool-cases (same_bits v c.disc)) [
      | inl same ↦
          begin ∙ taken v c pre post (add_fuel (cases_code cs) (suc k)) m calls same ∙ rw same refl
      | inr other ↦
          let fuel : suc (length (case_body c)) + add_fuel (cases_code cs) (suc k)
              ≡ add_fuel (cases_code cs) (suc (suc (length (case_body c)) + k)) =
            ap (λ n. suc (length (case_body c)) + n) (add_fuel-length (cases_code cs) (suc k))
            ∙ omega arith
            ∙ sym (add_fuel-length (cases_code cs) (suc (suc (length (case_body c)) + k))) in
          begin
          ∙ not_taken v c pre post (add_fuel (cases_code cs) (suc k)) m calls other
          ∙ ap
              (λ x.
                run_glue v ((pre ++ case_code c) ++ post) x (length (pre ++ case_code c))
                  (truth false) calls)
              fuel
          ∙ run_cases v cs (pre ++ case_code c) (suc (length (case_body c)) + k) (truth false) calls
          ∙ rw other refl
    ]
