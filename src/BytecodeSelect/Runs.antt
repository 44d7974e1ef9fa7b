-- ===== src/BytecodeSelect/Runs.antt =====
-- src/bytecode_select.rs on concrete types, and the theorems at concrete inputs.
use native.Mathlib.Nat.{mod-lt}
use mathlib.Core.Option
use skitter.Prelude.{◌%◌, ◌≡◌, refl, Bool, true, Option, none, some, [], inl, inr, arith}
use skitter.Prelude.Int.{pos, negsuc}
use skitter.Prelude.Run.{done}
use skitter.Abi.Align.{two, four}
use skitter.Types.Kind.{signed, unsigned, IntWidth, int}
use skitter.Types.Layout.{Layout, layout_from}
use skitter.Types.Layout.Sized.{IsLaidOut}
use skitter.Types.Samples.{pairs, word}
use skitter.Vm.Memory.{Memory, load, store, offset_ptr}
use skitter.Vm.Memory.Laws.{IsBytes}
use skitter.Vm.Words.{Bits, b32, b64, size, wrap}
use skitter.Vm.Instr.{Instr, int_binary, s_lt, widen, int_not}
use skitter.Vm.Exec.{Floats, exec, value}
use skitter.BytecodeSelect.Copies.{copy, copy_from_ptr, copy_to_ptr, by_size}
use skitter.BytecodeSelect.Copies.Moves.{
  run, Moves, copy-Moves, copy_from_ptr-Moves, copy_to_ptr-Moves, copy_to_ptr-panics,
}
use skitter.BytecodeSelect.Numbers.{
  BinaryOp, UnaryOp, Ctor2, Ctor3, binary, binary_by, int_op, size_of, cast, is_int_cast, int_cast,
  widening, unary, unary_by,
}
use skitter.BytecodeSelect.Numbers.Meaning.{meaning}
use skitter.BytecodeSelect.Numbers.Cast.{cast_int-wraps, cast_int-returns}
use skitter.BytecodeSelect.Numbers.Unary.{unary_meaning, unary-meaning}
use skitter.BytecodeSelect.Numbers.Binary.Choice.{result_size}
use skitter.BytecodeSelect.Numbers.Binary.{binary-meaning, binary_int-returns}

-- Floats that only keep their bits.
abbrev floats : Floats
floats = record {
  neg = λ w n. n;
  binary = λ w op a b. a;
  convert = λ w v n. n;
  from_int = λ w z. 0;
  into_int = λ w s v n. 0;
}

-- Each address holds its own low byte.
abbrev memory : Memory
memory i = i % 256

memory-IsBytes : IsBytes memory
memory-IsBytes i = mod-lt i (omega arith)

-- Three words, and three half words.
abbrev words : Layout
words = record { maybe_size = some 12; align_to = 4; field_offsets = [] }

words-IsLaidOut : IsLaidOut words
words-IsLaidOut = record { aligned = four; divides = λ n e. let same : 12 ≡ n = cc in omega arith }

abbrev half_words : Layout
half_words = record { maybe_size = some 6; align_to = 2; field_offsets = [] }

half_words-IsLaidOut : IsLaidOut half_words
half_words-IsLaidOut = record {
  aligned = two;
  divides = λ n e. let same : 6 ≡ n = cc in omega arith;
}

copy-Moves_example :
    (i : Option Instr) × (copy 64 0 words ≡ done i)
    × Moves floats 1000 12 1064 1000 memory (run floats 1000 i memory)
copy-Moves_example =
    copy-Moves floats 1000 64 0 words 12 memory words-IsLaidOut refl memory-IsBytes
      (inr (omega arith))

-- The pointer at address 1000 is its own bytes, which are far from the stack.
copy_from_ptr-Moves_example :
    (i : Option Instr) × (copy_from_ptr 64 0 words (pos 8) ≡ done i)
    × Moves floats 1000 12 1064
        (offset_ptr (load 8 1000 memory) (pos 8))
        memory
        (run floats 1000 i memory)
unfolding load
copy_from_ptr-Moves_example =
    copy_from_ptr-Moves floats 1000 64 0 words (pos 8) 12 memory words-IsLaidOut refl (omega arith)
      refl memory-IsBytes (inl (omega arith))

copy_to_ptr-Moves_example :
    (i : Option Instr) × (copy_to_ptr 64 0 words (pos 8) ≡ done i)
    × Moves floats 1000 12
        (offset_ptr (load 8 1064 memory) (pos 8))
        1000
        memory
        (run floats 1000 i memory)
unfolding load
copy_to_ptr-Moves_example =
    copy_to_ptr-Moves floats 1000 64 0 words (pos 8) 12 memory words-IsLaidOut refl
      (λ e. omega (arith, e)) (omega arith) refl memory-IsBytes (inr (omega arith))

copy_to_ptr-panics_example :
    (i : Option Instr) × (copy_to_ptr 64 0 half_words (negsuc 3) ≡ done i)
    × (run floats 1000 i memory ≡ none)
copy_to_ptr-panics_example =
    copy_to_ptr-panics floats 1000 64 0 half_words (negsuc 3) 6 memory half_words-IsLaidOut refl
      refl (omega arith) (omega arith) refl

-- `a > b` on `i32` is `b < a`.
abbrev greater : Ctor3 × Bool
greater = (λ out lhs rhs. int_binary b32 s_lt out lhs rhs, true)

greater_chosen : binary pairs 1 BinaryOp.gt word ≡ done greater
unfolding binary binary_by by_size int_op layout_from
greater_chosen = refl

binary-meaning_example :
    (w : Bits) × (size_of pairs 1 word ≡ done (size w))
    × (exec floats 1000 (int_binary b32 s_lt 16 4 0) memory
        ≡ Option.map
            (λ v. store (result_size BinaryOp.gt w) 1016 v memory)
            (meaning BinaryOp.gt signed w (load (size w) 1000 memory) (load (size w) 1004 memory)))
binary-meaning_example =
    binary-meaning floats 1000 pairs 1 BinaryOp.gt word signed greater 16 0 4 memory refl
      greater_chosen memory-IsBytes

binary_int-returns_example :
    (r : Ctor3 × Bool) × (binary pairs 1 BinaryOp.rem (int IntWidth.i128 unsigned) ≡ done r)
binary_int-returns_example = binary_int-returns pairs 0 BinaryOp.rem IntWidth.i128 unsigned

-- From `i32` to `u64`.
abbrev widened : Ctor2
widened out src = widen b64 signed b32 out src

widened_chosen : cast pairs 1 1 word (int IntWidth.i64 unsigned) ≡ done widened
unfolding cast is_int_cast int_cast widening layout_from
widened_chosen = refl

cast_int-wraps_example :
    (w : Bits) × (size_of pairs 1 (int IntWidth.i64 unsigned) ≡ done (size w))
    × (exec floats 1000 (widen b64 signed b32 16 0) memory
        ≡ some (store (size w) 1016 (wrap w (value signed b32 (load 4 1000 memory))) memory))
unfolding is_int_cast layout_from
cast_int-wraps_example =
    cast_int-wraps floats 1000 pairs 1 1 word (int IntWidth.i64 unsigned) b32 widened 16 0 memory
      refl refl widened_chosen memory-IsBytes

cast_int-returns_example :
    (r : Ctor2) × (cast pairs 1 1 (int IntWidth.i128 signed) (int IntWidth.i8 unsigned) ≡ done r)
cast_int-returns_example = cast_int-returns pairs 0 0 IntWidth.i128 signed IntWidth.i8 unsigned

-- `!x` on `i32`.
abbrev flipped : Ctor2
flipped out src = int_not b32 out src

flipped_chosen : unary pairs 1 UnaryOp.not word ≡ done flipped
unfolding unary unary_by by_size layout_from
flipped_chosen = refl

unary-meaning_example :
    (w : Bits) × (size_of pairs 1 word ≡ done (size w))
    × (exec floats 1000 (int_not b32 16 0) memory
        ≡ some (
            store
              (size w)
              1016
              (unary_meaning UnaryOp.not signed w (load (size w) 1000 memory))
              memory))
unary-meaning_example =
    unary-meaning floats 1000 pairs 1 UnaryOp.not IntWidth.i32 signed flipped 16 0 memory
      flipped_chosen memory-IsBytes
