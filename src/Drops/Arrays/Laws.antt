-- ===== src/Drops/Arrays/Laws.antt =====
-- What the glue for arrays and slices of src/types/drop.rs calls: `DropGlue::for_array`.
use skitter.Prelude.{
  ℕ, zero, suc, ◌+◌, ◌*◌, ◌^◌, ◌%◌, ◌<◌, ◌≡◌, refl, sym, ap, ◌∙◌, true, false, Option, none, some,
  [], ◌∷◌, ◌++◌, append-nil, append_assoc, arith, ltb,
}
use mathlib.Core.Path.{subst}
use native.Mathlib.Nat.{mod-eq_of_lt, zero-mul}
use skitter.Prelude.Run.{done}
use skitter.Drops.Glue.{Calls}
use skitter.Drops.Arrays.{Registers, for_array, add_usize, array_step, run_array}

-- The calls for a number of elements of a size, from an address on.
unfoldable pub elem_calls : ℕ → ℕ → ℕ → ℕ → Calls
elem_calls elem_glue size at zero = []
elem_calls elem_glue size at (suc n) = (elem_glue, at) ∷ elem_calls elem_glue size (at + size) n

-- Six steps for each element, three for the end.
unfoldable pub loop_fuel : ℕ → ℕ → ℕ
loop_fuel zero k = suc (suc (suc k))
loop_fuel (suc n) k = suc (suc (suc (suc (suc (suc (loop_fuel n k))))))

module _ (self meta elem_glue elem_size : ℕ) (len : Option ℕ) where
  one_round :
      (fuel : ℕ) (r : Registers) (calls : Calls)
      → ltb r.i r.max ≡ true
      → run_array self meta
          (for_array elem_glue elem_size len)
          (suc (suc (suc (suc (suc (suc fuel))))))
          3
          r
          calls
        ≡ run_array self meta
            (for_array elem_glue elem_size len)
            fuel
            3
            (record {
              i = add_usize r.i r.inc;
              inc = r.inc;
              max = r.max;
              test = true;
              elem = add_usize self r.i;
            })
            (calls ++ (elem_glue, add_usize self r.i) ∷ [])
  unfolding run_array array_step for_array
  one_round fuel r calls h =
      ap
        (λ t.
          run_array self meta (for_array elem_glue elem_size len) (suc (suc (suc (suc (suc fuel)))))
            4 (record r { test = t }) calls)
        h
      ∙ refl

  last_round :
      (fuel : ℕ) (r : Registers) (calls : Calls)
      → ltb r.i r.max ≡ false
      → run_array self meta (for_array elem_glue elem_size len) (suc (suc (suc fuel))) 3 r calls
        ≡ done calls
  unfolding run_array array_step for_array
  last_round fuel r calls h =
      ap
        (λ t.
          run_array self meta (for_array elem_glue elem_size len) (suc (suc fuel)) 4
            (record r { test = t }) calls)
        h
      ∙ refl

  -- What the loop calls, from the start of its test.
  rounds :
      (n k : ℕ) (r : Registers) (calls : Calls)
      → 0 < r.inc
      → r.i + r.inc * n ≡ r.max
      → self + r.max < 2 ^ 64
      → run_array self meta (for_array elem_glue elem_size len) (loop_fuel n k) 3 r calls
        ≡ done (calls ++ elem_calls elem_glue r.inc (self + r.i) n)
  unfolding loop_fuel elem_calls
  rounds zero k r calls p e b =
      last_round k r calls (at_end r.i r.max r.inc e) ∙ ap done (sym (append-nil calls))
    where
      at_end : (i max inc : ℕ) → i + inc * 0 ≡ max → ltb i max ≡ false
      at_end i max inc e = ground arith
  rounds (suc n) k r calls p e b =
      let next_i : add_usize r.i r.inc ≡ r.i + r.inc =
        small (r.i + r.inc) (before_end r.i r.inc n r.max self p e b) in
      let at : add_usize self r.i ≡ self + r.i =
        small (self + r.i) (within r.i r.inc n r.max self p e b) in
      let r' : Registers = record {
        i = add_usize r.i r.inc;
        inc = r.inc;
        max = r.max;
        test = true;
        elem = add_usize self r.i;
      } in
      one_round (loop_fuel n k) r calls (goes_on r.i r.inc n r.max p e)
      ∙ rounds n k r' (calls ++ (elem_glue, add_usize self r.i) ∷ []) p
          (ap (λ x. x + r.inc * n) next_i ∙ step_end r.i r.inc n r.max e) b
      ∙ ap done (
          append_assoc calls ((elem_glue, add_usize self r.i) ∷ [])
            (elem_calls elem_glue r.inc (self + add_usize r.i r.inc) n)
          ∙ ap (λ x. calls ++ x) (ends next_i at))
    where
      step_end : (i inc n max : ℕ) → i + inc * suc n ≡ max → i + inc + inc * n ≡ max
      step_end i inc n max e = grind arith

      goes_on : (i inc n max : ℕ) → 0 < inc → i + inc * suc n ≡ max → ltb i max ≡ true
      goes_on i inc n max p e = let s = step_end i inc n max e in ground arith

      before_end :
          (i inc n max self : ℕ)
          → 0 < inc
          → i + inc * suc n ≡ max
          → self + max < 2 ^ 64
          → i + inc < 2 ^ 64
      before_end i inc n max self p e b = let s = step_end i inc n max e in omega arith

      within :
          (i inc n max self : ℕ)
          → 0 < inc
          → i + inc * suc n ≡ max
          → self + max < 2 ^ 64
          → self + i < 2 ^ 64
      within i inc n max self p e b = let s = step_end i inc n max e in omega arith

      ends :
          add_usize r.i r.inc ≡ r.i + r.inc
          → add_usize self r.i ≡ self + r.i
          → (elem_glue, add_usize self r.i)
              ∷ elem_calls elem_glue r.inc (self + add_usize r.i r.inc) n
            ≡ (elem_glue, self + r.i) ∷ elem_calls elem_glue r.inc (self + r.i + r.inc) n
      ends e f =
          ap (λ x. (elem_glue, x) ∷ elem_calls elem_glue r.inc (self + add_usize r.i r.inc) n) f
          ∙ ap (λ x. (elem_glue, self + r.i) ∷ elem_calls elem_glue r.inc x n)
              (ap (λ x. self + x) e ∙ omega arith)

      small : (a : ℕ) → a < 2 ^ 64 → a % 2 ^ 64 ≡ a
      small a h = omega arith

abbrev pub count : Option ℕ → ℕ → ℕ
count none meta = meta
count (some len) meta = len

loop_fuel-length : (n k : ℕ) → loop_fuel n k ≡ 6 * n + 3 + k
unfolding loop_fuel
loop_fuel-length zero k = omega arith
loop_fuel-length (suc n) k =
    ap (λ x. suc (suc (suc (suc (suc (suc x)))))) (loop_fuel-length n k) ∙ omega arith

-- The end of the elements is what it should be.
max_of : ℕ → ℕ → Option ℕ → ℕ
max_of elem_size meta none = (elem_size * meta) % 2 ^ 64
max_of elem_size meta (some len) = (elem_size * len) % 2 ^ 32

max_of-exact :
    (elem_size meta : ℕ) (len : Option ℕ)
    → elem_size * count len meta < 2 ^ 32
    → elem_size * count len meta ≡ max_of elem_size meta len
unfolding max_of
max_of-exact elem_size meta none b = sym (mod-eq_of_lt (omega arith))
max_of-exact elem_size meta (some len) b = sym (mod-eq_of_lt b)

set_up :
    (self meta elem_glue elem_size : ℕ) (len : Option ℕ) (fuel : ℕ) (r : Registers)
    → run_array self meta (for_array elem_glue elem_size len) (suc (suc (suc fuel))) 0 r []
      ≡ run_array self meta
          (for_array elem_glue elem_size len)
          fuel
          3
          (record {
            i = 0;
            inc = elem_size;
            max = max_of elem_size meta len;
            test = r.test;
            elem = r.elem;
          })
          []
unfolding run_array array_step for_array max_of
set_up self meta elem_glue elem_size none fuel r = refl
set_up self meta elem_glue elem_size (some len) fuel r = refl

-- Where elements have a size above 0 and are fewer than 2 ^ 32 bytes in all, within the address space,
-- the glue for an array or a slice returns within six steps for each element and six more, and has
-- then called the glue of the elements at the address of each, in order.
pub for_array-calls :
    (self meta elem_glue elem_size : ℕ) (len : Option ℕ) (k : ℕ) (r : Registers)
    → 0 < elem_size
    → elem_size * count len meta < 2 ^ 32
    → self + elem_size * count len meta < 2 ^ 64
    → run_array self meta (for_array elem_glue elem_size len) (6 * count len meta + 6 + k) 0 r []
      ≡ done (elem_calls elem_glue elem_size self (count len meta))
for_array-calls self meta elem_glue elem_size len k r p b c =
    let n = count len meta in
    let fuel : 6 * n + 6 + k ≡ suc (suc (suc (loop_fuel n k))) =
      omega arith ∙ ap (λ x. suc (suc (suc x))) (sym (loop_fuel-length n k)) in
    let ends = max_of-exact elem_size meta len b in
    ap (λ x. run_array self meta (for_array elem_glue elem_size len) x 0 r []) fuel
    ∙ set_up self meta elem_glue elem_size len (loop_fuel n k) r
    ∙ rounds self meta elem_glue elem_size len n k
        (record {
          i = 0;
          inc = elem_size;
          max = max_of elem_size meta len;
          test = r.test;
          elem = r.elem;
        })
        [] p (omega (arith, ends)) (subst (λ x. self + x < 2 ^ 64) ends c)
    ∙ ap (λ x. done (elem_calls elem_glue elem_size x n)) (omega arith)

-- On elements of size 0 the loop ends before the first of them.
for_array-zero :
    (self meta elem_glue : ℕ) (len : Option ℕ) (k : ℕ) (r : Registers)
    → run_array self meta (for_array elem_glue 0 len) (suc (suc (suc (suc (suc (suc k)))))) 0 r []
      ≡ done []
unfolding max_of
for_array-zero self meta elem_glue len k r =
    set_up self meta elem_glue 0 len (suc (suc (suc k))) r
    ∙ last_round self meta elem_glue 0 len k
        (record { i = 0; inc = 0; max = max_of 0 meta len; test = r.test; elem = r.elem }) []
        (at_once len)
  where
    at_once : (l : Option ℕ) → ltb 0 (max_of 0 meta l) ≡ false
    at_once none = rw (zero-mul meta) refl
    at_once (some n) = rw (zero-mul n) refl
