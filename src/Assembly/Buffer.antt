-- ===== src/Assembly/Buffer.antt =====
-- The buffer `data` of 7-syntax_arm.c: its characters, of which there are `data_len`, and its allocated
-- size. `realloc` succeeds.
pub mod Cut
pub mod Read
use mipt_informatics.Base.{
  ℕ, zero, suc, ◌+◌, Option, none, some, List, [], ◌∷◌, ◌++◌, map, ltb, leb, ◌==◌, ◌&&◌,
  if◌then◌else◌, length, take, drop,
}
use mipt_informatics.Base.Run.{Run, done, fault, out_of_fuel, ◌>>=◌}

pub record Buffer : Type 0 where
  pub chars : List ℕ
  pub data_allocd : ℕ

abbrev pub read_block_size : ℕ
read_block_size = 4096

abbrev pub data_realloc : Buffer → ℕ → Buffer
data_realloc b size = if ltb b.data_allocd size then record b { data_allocd = size } else b

-- a write behind the characters, which faults where the buffer ends in front of its end
abbrev pub write_behind : Buffer → List ℕ → Run Buffer
write_behind b text =
    if leb (length b.chars + length text) b.data_allocd
    then done (record b { chars = b.chars ++ text })
    else fault

-- `data_append`
pub data_append : Buffer → List ℕ → Run Buffer
data_append b str = write_behind (data_realloc b (length b.chars + length str)) str

-- the loop of `main` over the blocks that `fread` returns, and the NUL behind them
unfoldable pub read_blocks : Buffer → List (List ℕ) → Run Buffer
read_blocks b [] = write_behind (data_realloc b (length b.chars + 1)) (0 ∷ [])
read_blocks b (block ∷ blocks) = do
  b' ← write_behind (data_realloc b (length b.chars + read_block_size)) block
  read_blocks b' blocks

-- `strchr`: the distance of the character; a NUL ends the string
abbrev pub strchr : List ℕ → ℕ → Option ℕ
strchr [] c = none
strchr (x ∷ s) c =
    let rest : Option ℕ = elim (strchr s c) [ none ↦ none | some n ↦ some (suc n) ] in
    if x == c then some 0 else if x == 0 then none else rest

-- the loop of `cut_string_literals` over the characters, from the index `pos` on
unfoldable pub cut_loop : (fuel : ℕ) → List ℕ → (pos : ℕ) → (begin : Option ℕ) → Run (List ℕ)
cut_loop zero chars pos begin = out_of_fuel
cut_loop (suc fuel) chars pos none = elim (strchr (drop pos chars) b'"') [
  | none ↦ done chars
  | some n ↦ cut_loop fuel chars (pos + n + 1) (some (pos + n))
]
cut_loop (suc fuel) chars pos (some begin) = elim (strchr (drop pos chars) b'"') [
  | none ↦ done chars
  | some n ↦ cut_loop fuel (take begin chars ++ drop (pos + n + 1) chars) begin none
]

unfoldable pub cut_string_literals : List ℕ → Run (List ℕ)
unfolding cut_loop
cut_string_literals chars = cut_loop (length chars + 1) chars 0 none

-- `tolower` of the C locale
abbrev pub tolower : ℕ → ℕ
tolower c = if leb b'A' c && leb c b'Z' then c + 32 else c

unfoldable pub lowercase : List ℕ → List ℕ
lowercase chars = map tolower chars
