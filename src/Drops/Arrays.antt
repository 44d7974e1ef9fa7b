-- ===== src/Drops/Arrays.antt =====
-- `DropGlue::for_array` of src/types/drop.rs: the loop that drops the elements of an array, or of a
-- slice. The slots are registers, and a jump goes back or, where a test fails, forward.
pub mod Laws
use skitter.Prelude.{
  ℕ, zero, suc, ◌+◌, ◌-◌, ◌*◌, ◌^◌, ◌%◌, Bool, Option, none, some, List, [], ◌∷◌, ◌++◌, get_elem?,
  ltb, if◌then◌else◌,
}
use skitter.Prelude.Run.{Run, done, panicked, exhausted}
use skitter.Drops.Glue.{Calls}

pub data ArrayInstr : Type 0 where
  literal_i literal_inc literal_max : ℕ → ArrayInstr
  mul_max lt_test add_elem add_i : ArrayInstr
  call_elem : ℕ → ArrayInstr
  jump_back jump_f : ℕ → ArrayInstr
  return_glue : ArrayInstr

pub record Registers : Type 0 where
  pub i : ℕ
  pub inc : ℕ
  pub max : ℕ
  pub test : Bool
  pub elem : ℕ

-- The end of the elements: known for an array, computed from the length of a slice.
abbrev pub max_code : ℕ → Option ℕ → ArrayInstr
max_code elem_size none = mul_max
max_code elem_size (some len) = literal_max ((elem_size * len) % 2 ^ 32)

unfoldable pub for_array : ℕ → ℕ → Option ℕ → List ArrayInstr
for_array elem_glue elem_size len =
    literal_i 0
    ∷ literal_inc elem_size
    ∷ max_code elem_size len
    ∷ lt_test
    ∷ jump_f 5
    ∷ add_elem
    ∷ call_elem elem_glue
    ∷ add_i
    ∷ jump_back 5
    ∷ return_glue
    ∷ []

abbrev pub add_usize : ℕ → ℕ → ℕ
add_usize a b = (a + b) % 2 ^ 64

pub data ArrayStep : Type 0 where
  next : ℕ → Registers → Calls → ArrayStep
  stop : ArrayStep

-- The value dropped is at an address, with the length of a slice as its metadata.
unfoldable pub array_step : ℕ → ℕ → ArrayInstr → ℕ → Registers → Calls → ArrayStep
array_step self meta (literal_i n) pc r calls = next (suc pc) (record r { i = n }) calls
array_step self meta (literal_inc n) pc r calls = next (suc pc) (record r { inc = n }) calls
array_step self meta (literal_max n) pc r calls = next (suc pc) (record r { max = n }) calls
array_step self meta mul_max pc r calls =
    next (suc pc) (record r { max = (r.inc * meta) % 2 ^ 64 }) calls
array_step self meta lt_test pc r calls = next (suc pc) (record r { test = ltb r.i r.max }) calls
array_step self meta add_elem pc r calls =
    next (suc pc) (record r { elem = add_usize self r.i }) calls
array_step self meta add_i pc r calls = next (suc pc) (record r { i = add_usize r.i r.inc }) calls
array_step self meta (call_elem func) pc r calls = next (suc pc) r (calls ++ (func, r.elem) ∷ [])
array_step self meta (jump_back dist) pc r calls = next (pc - dist) r calls
array_step self meta (jump_f dist) pc r calls = next (if r.test then suc pc else pc + dist) r calls
array_step self meta return_glue pc r calls = stop

unfoldable pub run_array : ℕ → ℕ → List ArrayInstr → ℕ → ℕ → Registers → Calls → Run Calls
run_array self meta code zero pc r calls = exhausted
run_array self meta code (suc fuel) pc r calls = elim (get_elem? code pc) [
  | none ↦ panicked
  | some instr ↦ elim (array_step self meta instr pc r calls) [
    | next pc' r' calls' ↦ run_array self meta code fuel pc' r' calls'
    | stop ↦ done calls
  ]
]
