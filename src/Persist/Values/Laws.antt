-- ===== src/Persist/Values/Laws.antt =====
-- `bool`, `Option`, `OnceLock` and pairs of src/persist.rs read back what they wrote.
use mathlib.Core.Path.{subst}
use skitter.Prelude.{
  ℕ, ◌≡◌, refl, Bool, true, false, Option, some, none, List, [], ◌∷◌, ◌++◌, append-nil,
  append_assoc, ◌∙◌, ap,
}
use skitter.Persist.Stream.{PersistWriter, Read, Reads, write_byte, read_byte, pure, ◌>>=◌}
use skitter.Persist.Stream.Laws.{Reads-bind, Reads-pure, Reads-read_byte}
use skitter.Persist.Class.{Persist, RoundTrips}
use skitter.Persist.Values.{
  bool_write, bool_read, persist_bool, option_write, option_payload, option_read, persist_option,
  once_lock_write, once_lock_new, once_lock_read, persist_once_lock, pair_write, pair_read,
  persist_pair,
}

-- A last step that only returns takes nothing from the stream.
pub Reads-map {ℓ κ} :
    {A : Type ℓ} {B : Type κ} (m : Read A) (f : A → B) {bytes : List ℕ} {a : A}
    → Reads m bytes a
    → Reads (m >>= λ x. pure (f x)) bytes (f a)
Reads-map m f {bytes} {a} h =
    subst (λ bs. Reads (m >>= λ x. pure (f x)) bs (f a)) (append-nil bytes)
      (Reads-bind m (λ x. pure (f x)) h (Reads-pure (f a)))

pub persist_bool-RoundTrips : (b : Bool) → RoundTrips persist_bool b
unfolding bool_write bool_read
persist_bool-RoundTrips false = record {
  bytes = 0 ∷ [];
  writes = λ w. refl;
  reads = Reads-map read_byte _ (Reads-read_byte 0);
}
persist_bool-RoundTrips true = record {
  bytes = 1 ∷ [];
  writes = λ w. refl;
  reads = Reads-map read_byte _ (Reads-read_byte 1);
}

-- Two writes in a row append the bytes of both.
pub written_twice :
    (o xs ys : List ℕ)
    → ◌≡◌ {A = PersistWriter}
        (record { output = (o ++ xs) ++ ys })
        (record { output = o ++ (xs ++ ys) })
written_twice o xs ys = ap (λ l. record { output = l }) (append_assoc o xs ys)

module _ {ℓ} {A : Type ℓ} (p : Persist A) where
  option_some : {v : A} (t : RoundTrips p v) → Reads (option_read p) (1 ∷ t.bytes) (some v)
  unfolding option_read option_payload
  option_some t = Reads-bind read_byte _ (Reads-read_byte 1) (Reads-map p.persist_read some t.reads)

  pub persist_option-some : {v : A} → RoundTrips p v → RoundTrips (persist_option p) (some v)
  unfolding option_write
  persist_option-some t = record {
    bytes = 1 ∷ t.bytes;
    writes = λ w. t.writes (write_byte 1 w) ∙ written_twice w.output (1 ∷ []) t.bytes;
    reads = option_some t;
  }

  pub persist_option-none : RoundTrips (persist_option p) none
  unfolding option_write option_read option_payload
  persist_option-none = record {
    bytes = 0 ∷ [];
    writes = λ w. refl;
    reads = Reads-bind read_byte _ (Reads-read_byte 0) (Reads-pure none);
  }

  -- An optional value survives the round trip if the value in it does.
  pub persist_option-RoundTrips :
      (o : Option A) → ((v : A) → o ≡ some v → RoundTrips p v) → RoundTrips (persist_option p) o
  persist_option-RoundTrips none h = persist_option-none
  persist_option-RoundTrips (some v) h = persist_option-some (h v refl)

  once_lock-eq-option :
      (o : Option A) (w : PersistWriter) → once_lock_write p o w ≡ option_write p o w
  unfolding once_lock_write option_write
  once_lock-eq-option none w = refl
  once_lock-eq-option (some v) w = refl

  once_lock_new_lem : (o : Option A) → once_lock_new p o ≡ o
  unfolding once_lock_new
  once_lock_new_lem none = refl
  once_lock_new_lem (some v) = refl

  -- A `OnceLock` comes back set to the same value, or unset.
  pub persist_once_lock-RoundTrips :
      (o : Option A) → ((v : A) → o ≡ some v → RoundTrips p v) → RoundTrips (persist_once_lock p) o
  unfolding once_lock_read
  persist_once_lock-RoundTrips o h =
      let t = persist_option-RoundTrips o h in
      record {
        bytes = t.bytes;
        writes = λ w. once_lock-eq-option o w ∙ t.writes w;
        reads =
            subst (λ u. Reads (once_lock_read p) t.bytes u) (once_lock_new_lem o)
              (Reads-map (option_read p) (once_lock_new p) t.reads);
      }

module _ {ℓ κ} {A : Type ℓ} {B : Type κ} (p : Persist A) (q : Persist B) where
  pub persist_pair-RoundTrips :
      {a : A} {b : B} → RoundTrips p a → RoundTrips q b → RoundTrips (persist_pair p q) (a, b)
  unfolding pair_write pair_read
  persist_pair-RoundTrips {a} {b} s t = record {
    bytes = s.bytes ++ t.bytes;
    writes = λ w.
        ap (q.persist_write b) (s.writes w) ∙ t.writes _ ∙ written_twice w.output s.bytes t.bytes;
    reads = Reads-bind p.persist_read _ s.reads (Reads-map q.persist_read _ t.reads);
  }
