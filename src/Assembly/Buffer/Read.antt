-- ===== src/Assembly/Buffer/Read.antt =====
-- The blocks of the input in the buffer.
use mipt_informatics.Base.{
  ℕ, ◌+◌, ◌≤◌, ◌≡◌, refl, sym, ap, ◌∙◌, Bool-cases, inl, inr, List, [], ◌∷◌, ◌++◌, arith, ltb,
  length,
}
use mathlib.Core.List.{append_assoc}
use mipt_informatics.Base.Run.{done}
use mipt_informatics.Assembly.Buffer.{
  Buffer, read_block_size, data_realloc, write_behind, read_blocks,
}

abbrev pub AreBlocks : List (List ℕ) → Type 0
AreBlocks [] = Unit
AreBlocks (block ∷ blocks) = (length block ≤ read_block_size) × AreBlocks blocks

abbrev pub concat : List (List ℕ) → List ℕ
concat [] = []
concat (block ∷ blocks) = block ++ concat blocks

write_behind-fits :
    (b : Buffer) (size : ℕ) (text : List ℕ)
    → length text ≤ size
    → write_behind (data_realloc b (length b.chars + size)) text
      ≡ done (record {
        chars = b.chars ++ text;
        data_allocd = (data_realloc b (length b.chars + size)).data_allocd;
      })
write_behind-fits b size text h = elim (Bool-cases (ltb b.data_allocd (length b.chars + size))) [
  | inl e ↦ ground (arith, e, h)
  | inr e ↦ ground (arith, e, h)
]

-- what was read, with the NUL
pub read_blocks-concat :
    (b : Buffer) (blocks : List (List ℕ))
    → AreBlocks blocks
    → (b' : Buffer) × (read_blocks b blocks ≡ done b')
      × (b'.chars ≡ b.chars ++ (concat blocks ++ 0 ∷ []))
unfolding read_blocks
read_blocks-concat b [] a = (
  record {
    chars = b.chars ++ 0 ∷ [];
    data_allocd = (data_realloc b (length b.chars + 1)).data_allocd;
  },
  write_behind-fits b 1 (0 ∷ []) (omega arith),
  refl,
)
read_blocks-concat b (block ∷ blocks) (fits, a) =
    let b' : Buffer = record {
      chars = b.chars ++ block;
      data_allocd = (data_realloc b (length b.chars + read_block_size)).data_allocd;
    } in
    let (end, run, e) = read_blocks-concat b' blocks a in
    (
      end,
      rw (write_behind-fits b read_block_size block fits) run,
      e
          ∙ append_assoc b.chars block (concat blocks ++ 0 ∷ [])
          ∙ ap (λ t. b.chars ++ t) (sym (append_assoc block (concat blocks) (0 ∷ []))),
    )
