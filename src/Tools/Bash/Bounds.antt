-- ===== src/Tools/Bash/Bounds.antt =====
-- The output that a command leaves is bounded, however much it writes.
use excelsior.Common.{ℕ, zero, suc, ◌-◌, ◌+◌, ◌≤◌, List, [], ◌∷◌, length, length-append, arith}
use excelsior.Tools.Bash.{
  max_shell_output, ShellOutput, take, write_output, write_all, no_output, output_bytes,
}

length-take : (n : ℕ) (bytes : List ℕ) → length (take n bytes) ≤ n
length-take zero bytes = omega arith
length-take (suc n) [] = omega arith
length-take (suc n) (b ∷ bytes) = omega (arith, length-take n bytes)

write_output-le :
    (o : ShellOutput) (p : List ℕ)
    → length o.buf ≤ max_shell_output
    → length (write_output o p).buf ≤ max_shell_output
unfolding write_output
write_output-le o p h =
    let cut = take (max_shell_output - length o.buf) p in
    ground (
      arith,
      h,
      length-append o.buf cut,
      length-append o.buf p,
      length-take (max_shell_output - length o.buf) p,
    )

write_all-le :
    (o : ShellOutput) (ps : List (List ℕ))
    → length o.buf ≤ max_shell_output
    → length (write_all o ps).buf ≤ max_shell_output
unfolding write_all
write_all-le o [] h = h
write_all-le o (p ∷ ps) h = write_all-le (write_output o p) ps (write_output-le o p h)

-- Whatever a command writes, in whatever chunks, the output that is kept of it is at most 100,000
-- bytes, and the note on what was dropped.
pub output_bounded :
    (note : List ℕ) (ps : List (List ℕ))
    → length (output_bytes note (write_all no_output ps)) ≤ 100000 + length note
unfolding output_bytes
output_bounded note ps =
    let o = write_all no_output ps in
    ground (arith, write_all-le no_output ps (omega arith), length-append o.buf note)
