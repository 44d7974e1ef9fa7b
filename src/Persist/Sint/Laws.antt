-- ===== src/Persist/Sint/Laws.antt =====
-- `persist_sint!` of src/persist.rs: which integers it reads back.
use skitter.Prelude.{
  ℕ, suc, ◌^◌, ◌<◌, ◌≡◌, arith, some, ◌++◌, List, append-nil, [], ◌==◌, if◌then◌else◌,
}
use mathlib.Core.Path.{subst}
use skitter.Prelude.Int.{ℤ, pos, negsuc}
use skitter.Persist.Stream.{Reads, at, pure, new_writer, new_reader}
use skitter.Persist.Stream.Laws.{Reads-bind, Reads-pure}
use skitter.Persist.Class.{RoundTrips}
use skitter.Persist.Uint.{uint_read, persist_uint}
use skitter.Persist.Uint.Laws.{persist_uint-RoundTrips}
use skitter.Persist.Sint.{sint_word, sint_value, sint_write, sint_read, persist_i128}

-- The range of `i128`.
abbrev pub IsI128 : ℤ → Type 0
IsI128 (pos n) = n < 2 ^ 127
IsI128 (negsuc k) = k < 2 ^ 127

-- The least `i128` is the one integer that comes back as another: its sign bit is shifted out.
abbrev pub read_back : ℤ → ℤ
read_back (pos n) = pos n
read_back (negsuc k) = if suc k == 2 ^ 127 then pos 0 else negsuc k

sint_word-lt : (v : ℤ) → IsI128 v → sint_word v < 2 ^ 128
unfolding sint_word
sint_word-lt (pos n) h = omega arith
sint_word-lt (negsuc k) h = omega arith

sint_value-sint_word : (v : ℤ) → IsI128 v → sint_value (sint_word v) ≡ read_back v
unfolding sint_word sint_value
sint_value-sint_word (pos n) h = ground arith
sint_value-sint_word (negsuc k) h = ground arith

Reads-sint_read :
    (n : ℕ)
    → n < 2 ^ 128
    → (t : RoundTrips (persist_uint 128) n) → Reads sint_read t.bytes (sint_value n)
unfolding sint_read
Reads-sint_read n h t =
    subst (λ bs. Reads sint_read bs (sint_value n)) (append-nil t.bytes)
      (Reads-bind (uint_read 128) (λ m. pure (sint_value m)) t.reads (Reads-pure (sint_value n)))

-- The bytes of any `i128` are read as `read_back` of it, from any stream.
Reads-i128 :
    (v : ℤ)
    → IsI128 v
    → (t : RoundTrips (persist_uint 128) (sint_word v)) → Reads sint_read t.bytes (read_back v)
Reads-i128 v h t =
    subst (λ u. Reads sint_read t.bytes u) (sint_value-sint_word v h)
      (Reads-sint_read (sint_word v) (sint_word-lt v h) t)

word-RoundTrips : (v : ℤ) → IsI128 v → RoundTrips (persist_uint 128) (sint_word v)
word-RoundTrips v h =
    persist_uint-RoundTrips 128 (sint_word v) (sint_word-lt v h) (sint_word-lt v h)

-- Reading what was written of an `i128` gives the same integer, except that -2 ^ 127 comes back as
-- 0; what follows in the file is left to be read.
pub sint_read-sint_write :
    (v : ℤ) (more : List ℕ)
    → IsI128 v
    → sint_read (new_reader ((sint_write v new_writer).output ++ more))
      ≡ some (read_back v, at (sint_write v new_writer).output more)
unfolding sint_write
sint_read-sint_write v more h =
    let t = word-RoundTrips v h in rw (t.writes new_writer) (Reads-i128 v h t [] more)

pub persist_i128-RoundTrips : (v : ℤ) → IsI128 v → read_back v ≡ v → RoundTrips persist_i128 v
unfolding sint_write
persist_i128-RoundTrips v h e =
    let t = word-RoundTrips v h in
    record {
      bytes = t.bytes;
      writes = t.writes;
      reads = subst (λ u. Reads sint_read t.bytes u) e (Reads-i128 v h t);
    }
