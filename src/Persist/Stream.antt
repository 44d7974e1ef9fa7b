-- ===== src/Persist/Stream.antt =====
-- src/persist.rs: `PersistWriter` and `PersistReader` over byte lists. A byte is a number below 256.
-- A read past the end of the data panics, which is `none`.
pub mod Laws
use skitter.Prelude.{
  ℕ, ◌+◌, ◌%◌, ◌^◌, ◌≡◌, Option, some, none, List, [], ◌∷◌, ◌++◌, leb, if◌then◌else◌, length,
  get_elem?, take, drop,
}
use mathlib.Core.Option

pub record PersistWriter : Type 0 where
  pub output : List ℕ

abbrev pub new_writer : PersistWriter
new_writer = record { output = [] }

-- The child shares the context of types, which the bytes do not depend on.
abbrev pub new_child_writer : PersistWriter → PersistWriter
new_child_writer w = new_writer

unfoldable pub offset : PersistWriter → ℕ
offset w = length w.output % 2 ^ 32

abbrev pub write_byte : ℕ → PersistWriter → PersistWriter
write_byte b w = record w { output = w.output ++ b ∷ [] }

abbrev pub write_bytes : List ℕ → PersistWriter → PersistWriter
write_bytes bs w = record w { output = w.output ++ bs }

-- The bytes, and the writer that `mem::take` leaves.
abbrev pub flip : PersistWriter → List ℕ × PersistWriter
flip w = (w.output, record w { output = [] })

pub record PersistReader : Type 0 where
  pub index : ℕ
  pub data_bytes : List ℕ

abbrev pub new_reader : List ℕ → PersistReader
new_reader bytes = record { index = 0; data_bytes = bytes }

abbrev pub reset : List ℕ → PersistReader → PersistReader
reset bytes r = record r { index = 0; data_bytes = bytes }

abbrev pub Read {ℓ} : Type ℓ → Type ℓ
Read A = PersistReader → Option (A × PersistReader)

infixl 5 ◌>>=◌ ◌>>◌
abbrev pub ◌>>=◌ {ℓ κ} : {A : Type ℓ} {B : Type κ} → Read A → (A → Read B) → Read B
◌>>=◌ m f r = elim (m r) [ none ↦ none | some (a, r') ↦ f a r' ]

abbrev pub ◌>>◌ {ℓ κ} : {A : Type ℓ} {B : Type κ} → Read A → Read B → Read B
m >> k = m >>= λ _. k

abbrev pub pure {ℓ} : {A : Type ℓ} → A → Read A
pure a r = some (a, r)

abbrev pub panic {ℓ} : {A : Type ℓ} → Read A
panic r = none

-- A fallible computation that does not touch the stream.
abbrev pub lift {ℓ} : {A : Type ℓ} → Option A → Read A
lift o r = Option.map (λ a. (a, r)) o

unfoldable pub read_byte : Read ℕ
read_byte r = elim (get_elem? r.data_bytes r.index) [
  | none ↦ none
  | some n ↦ some (n, record r { index = r.index + 1 })
]

unfoldable pub read_bytes : ℕ → Read (List ℕ)
read_bytes n r =
    if leb (r.index + n) (length r.data_bytes)
    then some (take n (drop r.index r.data_bytes), record r { index = r.index + n })
    else none

-- A reader that has read `pre` and has `rest` before it.
abbrev pub at : List ℕ → List ℕ → PersistReader
at pre rest = record { index = length pre; data_bytes = pre ++ rest }

-- `m` takes exactly `bytes` off the front of the stream and returns `v`, wherever they stand.
abbrev pub Reads {ℓ} : {A : Type ℓ} → Read A → List ℕ → A → Type ℓ
Reads m bytes v =
    (pre post : List ℕ) → m (at pre (bytes ++ post)) ≡ some (v, at (pre ++ bytes) post)
