-- ===== src/Sse/Drain.antt =====
-- Taking complete chunks off the buffer, one at a time, with the fuel out of the way.
use dockstack.Prelude.{
  ℕ, zero, suc, ◌+◌, ◌≤◌, ◌≡◌, refl, ap, inl, inr, none, some, [], ◌∷◌, ◌++◌, length, length-drop,
  take, drop, Text, arith, Option-cases,
}
use dockstack.Sse.{index_of_blank, chunk_payloads, drain_loop, drain}

-- A blank line lies within the buffer.
pub index_of_blank-lt : (b : Text) (i : ℕ) → index_of_blank b ≡ some i → i + 2 ≤ length b
unfolding index_of_blank
index_of_blank-lt [] i h = cc
index_of_blank-lt (c ∷ []) i h = ground arith
index_of_blank-lt (c ∷ d ∷ cs) i h = elim (Option-cases (index_of_blank (d ∷ cs))) [
  | inl e ↦ ground arith
  | inr (j, e) ↦ ground (arith, index_of_blank-lt (d ∷ cs) j e)
]

-- The first blank line stays where it is when more text arrives.
pub index_of_blank-append :
    (b v : Text) (i : ℕ) → index_of_blank b ≡ some i → index_of_blank (b ++ v) ≡ some i
unfolding index_of_blank
index_of_blank-append [] v i h = cc
index_of_blank-append (c ∷ []) v i h = ground arith
index_of_blank-append (c ∷ d ∷ cs) v i h = elim (Option-cases (index_of_blank (d ∷ cs))) [
  | inl e ↦ ground arith
  | inr (j, e) ↦ ground (arith, index_of_blank-append (d ∷ cs) v j e)
]

pub index_of_blank_nil : index_of_blank [] ≡ none
unfolding index_of_blank
index_of_blank_nil = refl

pub take-append : (n : ℕ) (b v : Text) → n ≤ length b → take n (b ++ v) ≡ take n b
take-append zero b v h = refl
take-append (suc n) [] v h = absurd (omega arith)
take-append (suc n) (c ∷ b) v h = ap (λ t. c ∷ t) (take-append n b v (omega arith))

pub drop-append : (n : ℕ) (b v : Text) → n ≤ length b → drop n (b ++ v) ≡ drop n b ++ v
drop-append zero b v h = refl
drop-append (suc n) [] v h = absurd (omega arith)
drop-append (suc n) (c ∷ b) v h = drop-append n b v (omega arith)

-- Two amounts of fuel give the same, once each is the length of the buffer.
drain_loop_enough :
    (f g : ℕ) (b : Text) → length b ≤ f → length b ≤ g → drain_loop f b ≡ drain_loop g b
unfolding drain_loop
drain_loop_enough zero zero b hf hg = refl
drain_loop_enough zero (suc g) [] hf hg = rw (index_of_blank_nil, drain_loop)
drain_loop_enough zero (suc g) (c ∷ b) hf hg = absurd (omega arith)
drain_loop_enough (suc f) zero [] hf hg = rw (index_of_blank_nil, drain_loop)
drain_loop_enough (suc f) zero (c ∷ b) hf hg = absurd (omega arith)
drain_loop_enough (suc f) (suc g) b hf hg = elim (Option-cases (index_of_blank b)) [
  | inl e ↦ rw (e, drain_loop)
  | inr (i, e) ↦
      let lt = index_of_blank-lt b i e in
      let same =
        drain_loop_enough f g (drop (i + 2) b) (omega (arith, length-drop (i + 2) b))
          (omega (arith, length-drop (i + 2) b)) in
      rw (e, drain_loop, same)
]

-- With no complete chunk the buffer is left as it is.
pub drain_incomplete :
    (b : Text) → index_of_blank b ≡ none → drain b ≡ record { yielded = []; rest = b }
unfolding drain drain_loop
drain_incomplete [] h = refl
drain_incomplete (c ∷ b) h = rw (h, drain_loop)

-- A complete chunk is yielded, and the rest is drained.
pub drain_chunk :
    (b : Text) (i : ℕ)
    → index_of_blank b ≡ some i
    → drain b ≡ record {
      yielded = chunk_payloads (take i b) ++ (drain (drop (i + 2) b)).yielded;
      rest = (drain (drop (i + 2) b)).rest;
    }
unfolding drain drain_loop
drain_chunk [] i h = absurd (omega (arith, index_of_blank-lt [] i h))
drain_chunk (c ∷ b) i h =
    let lt = index_of_blank-lt (c ∷ b) i h in
    let same =
      drain_loop_enough (length b) (length (drop (i + 2) (c ∷ b))) (drop (i + 2) (c ∷ b))
        (omega (arith, length-drop (i + 2) (c ∷ b))) (omega arith) in
    rw (h, drain_loop, same)
