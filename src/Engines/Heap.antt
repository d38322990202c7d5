-- ===== src/Engines/Heap.antt =====
-- The memory of the wasm module that bench/engines/zopa.mjs and zopa-compiled.mjs talk to: its
-- exports `malloc` and `free`, and the bytes that the host writes through `new Uint8Array(…).set`.
-- The module is a parameter; `content` is the block that begins at an address, if there is one.
pub mod Bump
pub mod Written
use zopa.Base.{ℕ, ◌≡◌, ◌≢◌, Bool, true, false, Option, none, some, List, []}
use zopa.Base.Tests.{◌==◌, if◌then◌else◌}
use zopa.Base.Lists.{length}
use zopa.Base.Exec.{ok, threw, Exec}

pub record Memory : Type 1 where
  pub World : Type 0
  pub malloc : ℕ → World → ℕ × World
  pub free : ℕ → World → World
  pub set_bytes : ℕ → List ℕ → World → World
  pub content : World → ℕ → Option (List ℕ)

-- `{ ptr, len }`
pub record Buffer : Type 0 where
  pub ptr : ℕ
  pub len : ℕ

module _ (M : Memory) where
  -- `write`, on the bytes that `enc.encode(JSON.stringify(obj))` gives
  unfoldable pub write : List ℕ → Exec M.World Buffer
  write bytes w =
      let (p, w') = M.malloc (length bytes) w in
      if p == 0
      then (threw, w')
      else (ok (record { ptr = p; len = length bytes }), M.set_bytes p bytes w')

  -- Two worlds have the same block at each address but one.
  abbrev pub SameBut : ℕ → M.World → M.World → Type 0
  SameBut p w w' = (q : ℕ) → q ≢ p → M.content w' q ≡ M.content w q

  -- A new block: at an address that had none.
  pub record IsAllocated (n : ℕ) (w : M.World) : Type 0 where
    pub fresh : M.content w (M.malloc n w).0 ≡ none
    pub bytes : List ℕ
    pub length_bytes : length bytes ≡ n
    pub there : M.content (M.malloc n w).1 (M.malloc n w).0 ≡ some bytes
    pub others : SameBut (M.malloc n w).0 w (M.malloc n w).1

  -- What the host may rely on. `malloc` gives 0 if there is no room.
  pub record IsHeap : Type 0 where
    pub allocated : (n : ℕ) (w : M.World) → (M.malloc n w).0 ≢ 0 → IsAllocated n w
    pub refused :
        (n : ℕ) (w : M.World)
        → (M.malloc n w).0 ≡ 0
        → (q : ℕ) → M.content (M.malloc n w).1 q ≡ M.content w q
    pub freed :
        (p : ℕ) (w : M.World) (bs : List ℕ)
        → M.content w p ≡ some bs
        → (M.content (M.free p w) p ≡ none) × SameBut p w (M.free p w)
    pub written :
        (p : ℕ) (w : M.World) (old bs : List ℕ)
        → M.content w p ≡ some old
        → length old ≡ length bs
        → (M.content (M.set_bytes p bs w) p ≡ some bs) × SameBut p w (M.set_bytes p bs w)
