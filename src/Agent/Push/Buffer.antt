-- ===== src/Agent/Push/Buffer.antt =====
-- internal/agent/push.go: the loop only appends to its buffer.
use perch_apd.Base.{
  ℕ, zero, suc, [], ◌∷◌, ◌++◌, ◌≡◌, refl, sym, ap, ◌∙◌, append-nil, append_assoc, nat_eq, Bytes,
  if-both,
}
use perch_apd.Agent.Push.{piece, escape_loop}

-- The loop writes on the buffer what it holds back, and then the rest's escapes.
abbrev pub Buffers : ℕ → Type 0
Buffers n =
    (dst chunk s : Bytes) → escape_loop n dst chunk s ≡ dst ++ (chunk ++ escape_loop n [] [] s)

pub escape_loop-cons :
    (n c : ℕ) (s : Bytes)
    → Buffers n
    → escape_loop (suc n) [] [] (c ∷ s) ≡ (piece c s).1 ++ escape_loop n [] [] (piece c s).2
unfolding escape_loop
escape_loop-cons n c s buffers =
    let (is_kept, text, rest) = piece c s in
    if-both (λ out. out ≡ text ++ escape_loop n [] [] rest) (escape_loop n [] text rest)
      (escape_loop n text [] rest) is_kept (buffers [] text rest) (buffers text [] rest)

pub escape_loop-buffer : (n : ℕ) → Buffers n
unfolding escape_loop
escape_loop-buffer zero dst chunk s = refl
escape_loop-buffer (suc n) dst chunk [] = ap (λ t. dst ++ t) (sym (append-nil chunk))
escape_loop-buffer (suc n) dst chunk (c ∷ s) =
    let (is_kept, text, rest) = piece c s in
    let tail = escape_loop n [] [] rest in
    let whole : dst ++ (chunk ++ (text ++ tail))
        ≡ dst ++ (chunk ++ escape_loop (suc n) [] [] (c ∷ s)) =
      ap (λ t. dst ++ (chunk ++ t)) (sym (escape_loop-cons n c s (escape_loop-buffer n))) in
    if-both (λ out. out ≡ dst ++ (chunk ++ escape_loop (suc n) [] [] (c ∷ s)))
      (escape_loop n dst (chunk ++ text) rest) (escape_loop n (dst ++ (chunk ++ text)) [] rest)
      is_kept
      (escape_loop-buffer n dst (chunk ++ text) rest
        ∙ (ap (λ t. dst ++ t) (append_assoc chunk text tail) ∙ whole))
      (escape_loop-buffer n (dst ++ (chunk ++ text)) [] rest
        ∙ (append_assoc dst (chunk ++ text) tail
            ∙ (ap (λ t. dst ++ t) (append_assoc chunk text tail) ∙ whole)))
