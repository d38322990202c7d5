-- ===== src/Engines/OpaWasm/Strings.antt =====
-- The texts that bench/engines/opa-wasm.mjs reads from a wasm memory.
use zopa.Base.{ℕ, zero, suc, ◌+◌, ◌-◌, ◌<◌, ap, ◌≡◌, refl, ◌∙◌, ◌≢◌, some, List, [], ◌∷◌, arith}
use zopa.Base.Tests.{==-ne}
use zopa.Base.Lists.{length}
use zopa.Engines.OpaWasm.{Tools, find_end, subarray, read_c_str}

module _ (T : Tools) where
  -- The bytes stand in the memory from the address on, and then a zero.
  abbrev pub CString : T.Wasm → ℕ → List ℕ → Type 0
  CString w p [] = T.byte w p ≡ some 0
  CString w p (b ∷ bs) = (T.byte w p ≡ some b) × (b ≢ 0) × CString w (suc p) bs

  find_end-CString :
      (w : T.Wasm) (bs : List ℕ) (p fuel : ℕ)
      → CString w p bs
      → length bs < fuel
      → find_end T fuel w p ≡ some (p + length bs)
  unfolding find_end
  find_end-CString w bs p zero h k = absurd (omega arith)
  find_end-CString w [] p (suc fuel) h k = rw (h, find_end) (ap some (omega arith))
  find_end-CString w (b ∷ bs) p (suc fuel) (e, ne, h) k =
      rw (e, ==-ne b 0 ne, find_end)
        (find_end-CString w bs (suc p) fuel h (omega arith) ∙ ap some (omega arith))

  subarray-CString :
      (w : T.Wasm) (bs : List ℕ) (p : ℕ) → CString w p bs → subarray T w p (length bs) ≡ bs
  unfolding subarray
  subarray-CString w [] p h = refl
  subarray-CString w (b ∷ bs) p (e, ne, h) = rw (e, subarray-CString w bs (suc p) h) refl

  -- Reading a zero-terminated text ends, with more fuel than it has bytes, and gives the text.
  pub read_c_str-CString :
      (w : T.Wasm) (bs : List ℕ) (p fuel : ℕ)
      → CString w p bs
      → length bs < fuel
      → read_c_str T fuel w p ≡ some bs
  unfolding read_c_str
  read_c_str-CString w bs p fuel h k =
      let n : p + length bs - p ≡ length bs = omega arith in
      rw (find_end-CString w bs p fuel h k, n, read_c_str) (ap some (subarray-CString w bs p h))
