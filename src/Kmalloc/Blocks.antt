-- ===== src/Kmalloc/Blocks.antt =====
-- The heap of kmalloc.c as a list of blocks, and when a memory holds one.
use ipo_os.Common.{
  ℕ, ◌+◌, ◌-◌, ◌≤◌, ◌<◌, ◌≡◌, ◌∙◌, Bool, true, false, ◌&&◌, ◌||◌, Option, none, some, List, [], ◌∷◌,
  ◌++◌, arith, leb, ◌==◌, if◌then◌else◌, length,
}
use ipo_os.Memory.{Mem, load32, get8, Agree}
use ipo_os.Memory.Laws.{load32-Agree}
use ipo_os.Kmalloc.{
  State, kmalloc_heap_start, kmalloc_heap_size, kmalloc_magic, kmalloc_freed_magic,
}

-- `tagged` says that the header bears KMALLOC_FREED_MAGIC.
pub record Block : Type 0 where
  pub size : ℕ
  pub tagged : Bool
  pub free : Bool

abbrev pub magic_of : Bool → ℕ
magic_of true = kmalloc_freed_magic
magic_of false = kmalloc_magic

abbrev pub flag : Bool → ℕ
flag true = 1
flag false = 0

-- Nine bytes of a header are written; a block holds at least these.
pub record HeaderAt (m : Mem) (p : ℕ) (b : Block) : Type 0 where
  pub size_at : load32 m p ≡ b.size
  pub magic_at : load32 m (p + 4) ≡ magic_of b.tagged
  pub free_at : get8 m (p + 8) ≡ flag b.free
  pub holds : 9 ≤ b.size

-- The blocks stand one behind the other from `p` up to `e`.
abbrev pub Chain : Mem → ℕ → List Block → ℕ → Type 0
Chain m p [] e = p ≡ e
Chain m p (b ∷ bs) e = HeaderAt m p b × Chain m (p + b.size) bs e

pub record IsHeap (s : State) (bs : List Block) : Type 0 where
  pub started : s.heap_start ≡ kmalloc_heap_start
  pub bounded : s.heap_used < kmalloc_heap_size
  pub chain : Chain s.mem s.heap_start bs (s.heap_start + s.heap_used)

pub Chain-le : (m : Mem) (p : ℕ) (bs : List Block) (e : ℕ) → Chain m p bs e → p + length bs ≤ e
Chain-le m p [] e c = omega arith
Chain-le m p (b ∷ bs) e (h, c) = omega (arith, h.holds, Chain-le m (p + b.size) bs e c)

pub HeaderAt-Agree :
    (m m' : Mem) (p e : ℕ) (b : Block)
    → Agree m m' p e
    → p + 9 ≤ e
    → HeaderAt m p b
    → HeaderAt m' p b
HeaderAt-Agree m m' p e b same le h = record {
  size_at = load32-Agree m m' p e p same (omega arith) (omega arith) ∙ h.size_at;
  magic_at = load32-Agree m m' p e (p + 4) same (omega arith) (omega arith) ∙ h.magic_at;
  free_at = same (p + 8) (omega arith) (omega arith) ∙ h.free_at;
  holds = h.holds;
}

-- What is written elsewhere leaves the blocks alone.
pub Chain-Agree :
    (m m' : Mem) (p : ℕ) (bs : List Block) (e : ℕ)
    → Agree m m' p e
    → Chain m p bs e
    → Chain m' p bs e
Chain-Agree m m' p [] e same c = c
Chain-Agree m m' p (b ∷ bs) e same (h, c) =
    let le = Chain-le m (p + b.size) bs e c in
    let big = h.holds in
    (
      HeaderAt-Agree m m' p e b same (omega arith) h,
      Chain-Agree m m' (p + b.size) bs e (λ a lo hi. same a (omega arith) hi) c,
    )

-- The abstract allocator.

abbrev pub fits : ℕ → Block → Bool
fits total b = b.free && leb total b.size

-- Where the first free block of `total` bytes stands.
unfoldable pub locate : ℕ → ℕ → List Block → Option ℕ
locate total p [] = none
locate total p (b ∷ bs) = if fits total b then some p else locate total (p + b.size) bs

-- That block, taken: whole if it fits exactly, else split.
unfoldable pub reserve : ℕ → List Block → List Block
reserve total [] = []
reserve total (b ∷ bs) =
    if fits total b
    then if b.size == total
      then record b { free = false } ∷ bs
      else (record b { size = total; free = false }
          ∷ (record { size = b.size - total; tagged = false; free = true } ∷ bs))
    else (b ∷ reserve total bs)

-- Splitting that block leaves nothing, or room for the bytes of a header.
unfoldable pub no_sliver : ℕ → List Block → Bool
no_sliver total [] = true
no_sliver total (b ∷ bs) =
    if fits total b then (b.size == total) || leb (total + 9) b.size else no_sliver total bs

abbrev pub fresh : ℕ → Block
fresh total = record { size = total; tagged = false; free = false }

-- First fit, else at the end, else no memory.
unfoldable pub allocate : ℕ → ℕ → ℕ → List Block → ℕ × List Block
allocate total start used bs = elim (locate total start bs) [
  | some q ↦ (q + 12, reserve total bs)
  | none ↦
      if leb kmalloc_heap_size (used + total)
      then (0, bs)
      else (start + used + 12, bs ++ (fresh total ∷ []))
]
