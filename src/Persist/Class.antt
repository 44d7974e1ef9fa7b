-- ===== src/Persist/Class.antt =====
-- src/persist.rs: the trait `Persist`, and what a lawful implementation of it gives.
use skitter.Prelude.{ℕ, ◌≡◌, some, List, [], ◌++◌}
use skitter.Persist.Stream.{PersistWriter, Read, at, Reads, new_writer, new_reader}

pub record Persist {ℓ} (A : Type ℓ) : Type ℓ where
  pub persist_write : A → PersistWriter → PersistWriter
  pub persist_read : Read A

-- `v` survives a round trip: the writer appends bytes that depend on `v` alone, and the reader
-- takes exactly those bytes and returns `v`, whatever stands before and behind them.
pub record RoundTrips {ℓ} {A : Type ℓ} (p : Persist A) (v : A) : Type ℓ where
  pub bytes : List ℕ
  pub writes : (w : PersistWriter) → p.persist_write v w ≡ record w { output = w.output ++ bytes }
  pub reads : Reads p.persist_read bytes v

-- A file that holds `v` and more is read as `v`, with the reader before what follows.
pub read-write {ℓ} :
    {A : Type ℓ} (p : Persist A) (v : A) (more : List ℕ)
    → RoundTrips p v
    → p.persist_read (new_reader ((p.persist_write v new_writer).output ++ more))
      ≡ some (v, at (p.persist_write v new_writer).output more)
read-write p v more t = rw (t.writes new_writer) (t.reads [] more)
