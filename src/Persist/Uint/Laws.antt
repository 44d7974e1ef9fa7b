-- ===== src/Persist/Uint/Laws.antt =====
-- `persist_uint!` of src/persist.rs reads back what it wrote.
use native.Mathlib.Nat.{mod-eq_of_lt, pow-suc}
use mathlib.Core.Path.{subst}
use skitter.Prelude.{
  ℕ, zero, suc, ◌/◌, ◌%◌, ◌^◌, ◌<◌, ◌≡◌, refl, ap, List, [], ◌∷◌, ◌++◌, ltb, if◌then◌else◌, length,
  arith, append-nil, append_assoc, Bool-cases, inl, inr, ltb→lt,
}
use skitter.Persist.Stream.{PersistWriter, Reads, read_byte, read_bytes, pure}
use skitter.Persist.Stream.Laws.{Reads-pure, Reads-bind, Reads-read_byte, Reads-read_bytes}
use skitter.Persist.Class.{RoundTrips}
use skitter.Persist.Uint.{
  to_le_bytes, from_le_bytes, uint_write, uint_read, uint_read_tag, read_le, persist_uint,
}

pub length-to_le_bytes : (k n : ℕ) → length (to_le_bytes k n) ≡ k
unfolding to_le_bytes
length-to_le_bytes zero n = refl
length-to_le_bytes (suc k) n = ap suc (length-to_le_bytes k (n / 256))

-- `from_le_bytes` inverts `to_le_bytes` on the integers that fit.
pub from_le_bytes-to_le_bytes : (k n : ℕ) → n < 256 ^ k → from_le_bytes (to_le_bytes k n) ≡ n
unfolding to_le_bytes from_le_bytes
from_le_bytes-to_le_bytes zero n h = omega arith
from_le_bytes-to_le_bytes (suc k) n h =
    omega (arith, from_le_bytes-to_le_bytes k (n / 256) (omega (arith, pow-suc 256 k)))

Reads-read_le :
    (bits k n : ℕ) → n < 256 ^ k → n < 2 ^ bits → Reads (read_le bits k) (to_le_bytes k n) n
Reads-read_le bits k n h w =
    subst (λ bs. Reads (read_le bits k) bs n) (append-nil (to_le_bytes k n))
      (Reads-bind (read_bytes k) (λ bs. pure (from_le_bytes bs % 2 ^ bits)) taken done)
  where
    taken : Reads (read_bytes k) (to_le_bytes k n) (to_le_bytes k n)
    taken = rw (length-to_le_bytes k n) at (Reads-read_bytes (to_le_bytes k n))

    done : Reads (pure (from_le_bytes (to_le_bytes k n) % 2 ^ bits)) [] n
    done = rw (from_le_bytes-to_le_bytes k n h, mod-eq_of_lt w) (Reads-pure n)

-- What follows the tag, and the tag.
abbrev payload : ℕ → List ℕ
payload n =
    if ltb n 251
    then []
    else if ltb n 256
    then n ∷ []
    else if ltb n 65536
    then to_le_bytes 2 n
    else if ltb n 4294967296
    then to_le_bytes 4 n
    else if ltb n 18446744073709551616
    then to_le_bytes 8 n
    else to_le_bytes 16 n

abbrev tag : ℕ → ℕ
tag n =
    if ltb n 251
    then n
    else if ltb n 256
    then 251
    else if ltb n 65536
    then 252
    else if ltb n 4294967296
    then 253
    else if ltb n 18446744073709551616
    then 254
    else 255

unfoldable pub uint_bytes : ℕ → List ℕ
uint_bytes n = tag n ∷ payload n

pub uint_write-bytes :
    (n : ℕ) (w : PersistWriter)
    → n < 2 ^ 128
    → uint_write n w ≡ record w { output = w.output ++ uint_bytes n }
unfolding uint_write uint_bytes
uint_write-bytes n w h = ground (
  arith,
  append_assoc w.output (251 ∷ []) (n ∷ []),
  append_assoc w.output (252 ∷ []) (to_le_bytes 2 n),
  append_assoc w.output (253 ∷ []) (to_le_bytes 4 n),
  append_assoc w.output (254 ∷ []) (to_le_bytes 8 n),
  append_assoc w.output (255 ∷ []) (to_le_bytes 16 n),
)

uint_read_tag_small : (bits n : ℕ) → n < 251 → n < 2 ^ bits → uint_read_tag bits n ≡ pure n
unfolding uint_read_tag
uint_read_tag_small bits n h w = ground (arith, mod-eq_of_lt w)

Reads-read_one : (bits n : ℕ) → n < 2 ^ bits → Reads (uint_read_tag bits 251) (n ∷ []) n
unfolding uint_read_tag
Reads-read_one bits n w =
    Reads-bind read_byte (λ b. pure (b % 2 ^ bits)) (Reads-read_byte n)
      (rw (mod-eq_of_lt w) (Reads-pure n))

uint_read_tag-payload :
    (bits n : ℕ) → n < 2 ^ bits → n < 2 ^ 128 → Reads (uint_read_tag bits (tag n)) (payload n) n
uint_read_tag-payload bits n w h = elim (Bool-cases (ltb n 251)) [
  | inl e ↦ rw (e, uint_read_tag_small bits n (ltb→lt n 251 e) w) (Reads-pure n)
  | inr e ↦ rw e (elim (Bool-cases (ltb n 256)) [
    | inl e ↦ rw e (Reads-read_one bits n w)
    | inr e ↦ rw e (elim (Bool-cases (ltb n 65536)) [
      | inl e ↦ rw e (unfold uint_read_tag in Reads-read_le bits 2 n (ltb→lt _ _ e) w)
      | inr e ↦ rw e (elim (Bool-cases (ltb n 4294967296)) [
        | inl e ↦ rw e (unfold uint_read_tag in Reads-read_le bits 4 n (ltb→lt _ _ e) w)
        | inr e ↦ rw e (elim (Bool-cases (ltb n 18446744073709551616)) [
          | inl e ↦ rw e (unfold uint_read_tag in Reads-read_le bits 8 n (ltb→lt _ _ e) w)
          | inr e ↦ rw e (unfold uint_read_tag in Reads-read_le bits 16 n h w)
        ])
      ])
    ])
  ])
]

pub Reads-uint_read :
    (bits n : ℕ) → n < 2 ^ bits → n < 2 ^ 128 → Reads (uint_read bits) (uint_bytes n) n
unfolding uint_read uint_bytes
Reads-uint_read bits n w h =
    Reads-bind read_byte (uint_read_tag bits) (Reads-read_byte (tag n))
      (uint_read_tag-payload bits n w h)

unfoldable pub uint_trip :
    (bits n : ℕ) → n < 2 ^ bits → n < 2 ^ 128 → RoundTrips (persist_uint bits) n
uint_trip bits n w h = record {
  bytes = uint_bytes n;
  writes = λ wr. uint_write-bytes n wr h;
  reads = Reads-uint_read bits n w h;
}

-- A value of an unsigned type of at most 128 bits survives the round trip.
pub persist_uint-RoundTrips :
    (bits n : ℕ) → n < 2 ^ bits → n < 2 ^ 128 → RoundTrips (persist_uint bits) n
persist_uint-RoundTrips = uint_trip
