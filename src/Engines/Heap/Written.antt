-- ===== src/Engines/Heap/Written.antt =====
-- A document that the engines write to a wasm module's memory.
use zopa.Base.{ℕ, ◌≡◌, refl, ◌∙◌, ◌≢◌, none, some, List}
use zopa.Base.Tests.{==-ne}
use zopa.Base.Lists.{length}
use zopa.Base.Exec.{ok, threw}
use zopa.Engines.Heap.{Memory, Buffer, write, SameBut, IsHeap}

module _ (M : Memory) where
  -- The block of the buffer has the bytes.
  pub record Holds (w : M.World) (b : Buffer) (bytes : List ℕ) : Type 0 where
    pub there : M.content w b.ptr ≡ some bytes
    pub length_there : b.len ≡ length bytes

  pub record IsWritten (bytes : List ℕ) (w : M.World) : Type 0 where
    pub buffer : Buffer
    pub after : M.World
    pub gives : write M bytes w ≡ (ok buffer, after)
    pub holds : Holds after buffer bytes
    pub fresh : M.content w buffer.ptr ≡ none
    pub others : SameBut M buffer.ptr w after

  pub write-IsWritten :
      IsHeap M
      → (bytes : List ℕ) (w : M.World) → (M.malloc (length bytes) w).0 ≢ 0
      → IsWritten bytes w
  write-IsWritten heap bytes w h =
      let n = length bytes in
      let (p, v) = M.malloc n w in
      let a = heap.allocated n w h in
      let (there, others) = heap.written p v a.bytes bytes a.there a.length_bytes in
      record {
        buffer = record { ptr = p; len = n };
        after = M.set_bytes p bytes v;
        gives = unfold write in rw (==-ne p 0 h) refl;
        holds = record { there = there; length_there = refl };
        fresh = a.fresh;
        others = λ q k. others q k ∙ a.others q k;
      }

  pub write_refused :
      (bytes : List ℕ) (w : M.World)
      → (M.malloc (length bytes) w).0 ≡ 0
      → (write M bytes w).0 ≡ threw
  unfolding write
  write_refused bytes w h = rw h refl

  pub Holds-other :
      (w v : M.World) (p : ℕ) (b : Buffer) (bytes : List ℕ)
      → SameBut M p w v
      → b.ptr ≢ p
      → Holds w b bytes
      → Holds v b bytes
  Holds-other w v p b bytes o k h = record {
    there = o b.ptr k ∙ h.there;
    length_there = h.length_there;
  }

  pub ne_of_some :
      (w : M.World) (p q : ℕ) (bytes : List ℕ)
      → M.content w p ≡ some bytes
      → M.content w q ≡ none
      → p ≢ q
  ne_of_some w p q bytes h k e = cc
