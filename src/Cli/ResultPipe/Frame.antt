-- ===== src/Cli/ResultPipe/Frame.antt =====
-- `joinChunks` of src/commands/test-result-pipe.ts.
use cno_cli.Base.{ℕ, zero, suc, ◌+◌, ◌≡◌, refl, sym, ap, ◌∙◌, arith}
use cno_cli.Base.{some}
use cno_cli.Base.{List, [], ◌∷◌, ◌++◌, length, length-append, take, drop, append-nil, append_assoc}
use cno_cli.Cli.ResultPipe.{zeros, set_at, join_loop, join_chunks}

-- The bytes of a list of chunks.
abbrev pub stream : List (List ℕ) → List ℕ
stream [] = []
stream (c ∷ cs) = c ++ stream cs

pub stream-snoc : (cs : List (List ℕ)) (c : List ℕ) → stream (cs ++ (c ∷ [])) ≡ stream cs ++ c
stream-snoc [] c = append-nil c
stream-snoc (d ∷ ds) c = rw (stream-snoc ds c) (sym (append_assoc d (stream ds) c))

suc-add : (n k : ℕ) → suc n + k ≡ suc (n + k)
suc-add n k = omega arith

take-append : (xs ys : List ℕ) → take (length xs) (xs ++ ys) ≡ xs
take-append [] ys = refl
take-append (x ∷ xs) ys = rw (take-append xs ys)

drop-append : (xs ys : List ℕ) (k : ℕ) → drop (length xs + k) (xs ++ ys) ≡ drop k ys
drop-append [] ys k = ground arith
drop-append (x ∷ xs) ys k = rw (suc-add (length xs) k) (drop-append xs ys k)

drop-zeros : (k m : ℕ) → drop k (zeros (k + m)) ≡ zeros m
unfolding zeros
drop-zeros zero m = ground arith
drop-zeros (suc k) m = rw (suc-add k m) (drop-zeros k m)

length-zeros : (m : ℕ) → length (zeros m) ≡ m
unfolding zeros
length-zeros zero = refl
length-zeros (suc m) = ap suc (length-zeros m)

set_at-zeros :
    (pre c : List ℕ) (m : ℕ)
    → set_at (pre ++ zeros (length c + m)) (length pre) c ≡ some ((pre ++ c) ++ zeros m)
unfolding set_at
set_at-zeros pre c m = ground (
  arith,
  length-append pre (zeros (length c + m)),
  length-zeros (length c + m),
  take-append pre (zeros (length c + m)),
  drop-append pre (zeros (length c + m)) (length c),
  drop-zeros (length c) m,
  append_assoc pre c (zeros m),
)

join_loop-stream :
    (cs : List (List ℕ)) (pre : List ℕ)
    → join_loop cs (length pre) (pre ++ zeros (length (stream cs))) ≡ some (pre ++ stream cs)
unfolding join_loop
join_loop-stream [] pre = unfold zeros in refl
join_loop-stream (c ∷ cs) pre = rw (length-append c (stream cs)) (
    rw (set_at-zeros pre c (length (stream cs)), join_loop)
      (rw (sym (length-append pre c))
        (join_loop-stream cs (pre ++ c) ∙ ap some (append_assoc pre c (stream cs)))))

-- With the length that the chunks add up to, joining them never throws, and gives their bytes.
pub join_chunks-stream :
    (cs : List (List ℕ)) (len : ℕ)
    → len ≡ length (stream cs)
    → join_chunks cs len ≡ some (stream cs)
unfolding join_chunks
join_chunks-stream cs len e = rw e (join_loop-stream cs [])
