-- ===== src/Persist/Stream/Laws.antt =====
-- What the primitives of `PersistReader` (src/persist.rs) take from the stream.
use skitter.Prelude.{
  ℕ, ◌+◌, ◌≡◌, sym, ap, some, List, [], ◌∷◌, ◌++◌, append-nil, append_assoc, arith, length,
  length-append, get_elem?-append_cons, take-append_length, drop-append_length, le→leb,
}
use skitter.Persist.Stream.{PersistReader, Read, at, Reads, read_byte, read_bytes, pure, ◌>>=◌}

pub Reads-pure {ℓ} : {A : Type ℓ} (a : A) → Reads (pure a) [] a
Reads-pure a pre post = rw (append-nil pre)

pub Reads-bind {ℓ κ} :
    {A : Type ℓ} {B : Type κ} (m : Read A) (f : A → Read B) {xs ys : List ℕ} {a : A} {b : B}
    → Reads m xs a
    → Reads (f a) ys b
    → Reads (m >>= f) (xs ++ ys) b
Reads-bind m f {xs} {ys} p q pre post =
    rw (append_assoc xs ys post, ◌>>=◌, p pre (ys ++ post))
      (rw (← append_assoc pre xs ys) (q (pre ++ xs) post))

at_eq :
    (pre xs post : List ℕ) (n : ℕ)
    → n ≡ length (pre ++ xs)
    → ◌≡◌ {A = PersistReader}
        (record { index = n; data_bytes = pre ++ (xs ++ post) })
        (at (pre ++ xs) post)
at_eq pre xs post n e = cc (e, append_assoc pre xs post)

pub Reads-read_byte : (b : ℕ) → Reads read_byte (b ∷ []) b
unfolding read_byte
Reads-read_byte b pre post =
    rw (get_elem?-append_cons pre b post, read_byte)
      (ap (λ r. some (b, r))
        (at_eq pre (b ∷ []) post (length pre + 1) (omega (arith, length-append {0} pre (b ∷ [])))))

pub Reads-read_bytes : (bs : List ℕ) → Reads (read_bytes (length bs)) bs bs
unfolding read_bytes
Reads-read_bytes bs pre post =
    rw
      (
        le→leb (length pre + length bs) (length (pre ++ (bs ++ post)))
            (rw (length-append pre, length-append bs) (omega arith)),
        drop-append_length pre (bs ++ post),
        take-append_length bs post,
      )
      (ap (λ r. some (bs, r))
        (at_eq pre bs post (length pre + length bs) (sym (length-append pre bs))))
