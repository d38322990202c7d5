-- ===== src/Engines/ZopaCompiled/Tests.antt =====
-- Sessions of bench/engines/zopa-compiled.mjs on a small memory with policies.
use zopa.Base.{
  ℕ, zero, suc, ◌<◌, ◌≡◌, ◌⊎◌, inl, inr, refl, ◌≢◌, Bool, true, false, Option, none, some, List, [],
  ◌∷◌, arith,
}
use zopa.Base.Tests.{◌==◌, ==-self, ==-ne, if◌then◌else◌}
use zopa.Base.Integers.{ℤ, pos, negsuc, is_positive}
use zopa.Base.Lists.{length}
use zopa.Base.Exec.{Result, ok, threw, pure, ◌>>=◌}
use zopa.Bench.Engine.{Decision, allow, deny, failed}
use zopa.Engines.Heap.{Memory, write, IsHeap}
use zopa.Engines.Heap.Bump.{Blocks, no_blocks, bump, bump-IsHeap, take_block, fill, release}
use zopa.Engines.ZopaCompiled.{
  Exports, setup, free_buffer, compile_buffer, check_handle, outside, set_input, free_input,
  next_input, evaluate, decide, decide_each, close, session,
}
use zopa.Engines.ZopaCompiled.Policies.{HasPolicies, IsCompiled, IsRejected}
use zopa.Engines.ZopaCompiled.Session.{Served, Served-session}

abbrev blocks : Memory
blocks = bump (λ n. false)

-- The heap, and the policies with their handles for addresses.
abbrev memory : Memory
memory = record {
  World = Blocks × Blocks;
  malloc = λ n w. let (p, b) = blocks.malloc n w.0 in (p, (b, w.1));
  free = λ p w. (blocks.free p w.0, w.1);
  set_bytes = λ p bs w. (blocks.set_bytes p bs w.0, w.1);
  content = λ w q. w.0.block q;
}

memory-IsHeap : IsHeap memory
memory-IsHeap =
    let heap = bump-IsHeap (λ n. false) in
    record {
      allocated = λ n w h.
          let a = heap.allocated n w.0 h in
          record {
            fresh = a.fresh;
            bytes = a.bytes;
            length_bytes = a.length_bytes;
            there = a.there;
            others = a.others;
          };
      refused = λ n w h. heap.refused n w.0 h;
      freed = λ p w bs h. heap.freed p w.0 bs h;
      written = λ p w old bs h k. heap.written p w.0 old bs h k;
    }

-- The empty policy does not compile.
abbrev accepts : List ℕ → Bool
accepts [] = false
accepts (_ ∷ _) = true

abbrev same_length : List ℕ → List ℕ → Decision
same_length i a = if length i == length a then allow else deny

abbrev keep_policy : List ℕ → Blocks × Blocks → ℤ × (Blocks × Blocks)
keep_policy a w = (pos w.1.next, (w.0, fill w.1.next a (take_block 0 w.1)))

abbrev compile_block : Option (List ℕ) → Blocks × Blocks → ℤ × (Blocks × Blocks)
compile_block none w = (negsuc 0, w)
compile_block (some a) w = if accepts a then keep_policy a w else (negsuc 0, w)

abbrev release_policy : ℤ → Blocks × Blocks → Blocks × Blocks
release_policy (pos h) w = (w.0, release h w.1)
release_policy (negsuc _) w = w

abbrev policy_at : Blocks × Blocks → ℤ → Option (List ℕ)
policy_at w (pos h) = w.1.block h
policy_at w (negsuc _) = none

abbrev on_blocks : Option (List ℕ) → Option (List ℕ) → Decision
on_blocks (some i) (some a) = same_length i a
on_blocks _ _ = failed

abbrev small : Exports
small = record {
  memory = memory;
  policy_compile = λ p n w. compile_block (w.0.block p) w;
  policy_release = release_policy;
  evaluate_compiled = λ h p n w. (on_blocks (w.0.block p) (policy_at w h), w);
  policy = policy_at;
  Doc = List ℕ;
  encode = λ d. d;
}

is_positive-pos : (n : ℕ) → 0 < n → is_positive (pos n) ≡ true
is_positive-pos zero h = absurd (omega arith)
is_positive-pos (suc n) h = refl

keep_policy_others :
    (a : List ℕ) (w : Blocks × Blocks) (g : ℤ)
    → g ≢ pos w.1.next
    → policy_at (keep_policy a w).1 g ≡ policy_at w g
keep_policy_others a w (pos h) k = rw (==-ne h w.1.next (λ e. k (rw e refl))) refl
keep_policy_others a w (negsuc h) k = refl

release_gone : (h : ℤ) (w : Blocks × Blocks) → policy_at (release_policy h w) h ≡ none
release_gone (pos h) w = rw (==-self h) refl
release_gone (negsuc h) w = refl

release_others :
    (h g : ℤ) (w : Blocks × Blocks) → g ≢ h → policy_at (release_policy h w) g ≡ policy_at w g
release_others (pos h) (pos g) w k = rw (==-ne g h (λ e. k (rw e refl))) refl
release_others (pos h) (negsuc g) w k = refl
release_others (negsuc h) g w k = refl

release_content :
    (h : ℤ) (w : Blocks × Blocks) (q : ℕ) → (release_policy h w).0.block q ≡ w.0.block q
release_content (pos h) w q = refl
release_content (negsuc h) w q = refl

keep_policy-IsCompiled :
    (a : List ℕ) (w : Blocks × Blocks)
    → IsCompiled small a w (keep_policy a w).1 (keep_policy a w).0
keep_policy-IsCompiled a w = record {
  positive = is_positive-pos w.1.next w.1.positive;
  fresh = w.1.above w.1.next (omega arith);
  there = rw (==-self w.1.next) refl;
  others = keep_policy_others a w;
  content = λ q. refl;
}

compile_block-cases :
    (a : List ℕ) (w : Blocks × Blocks)
    → let (h, v) = compile_block (some a) w in (IsCompiled small a w v h) ⊎ (IsRejected small w v h)
compile_block-cases [] w =
    inr (record { not_positive = refl; policies = λ g. refl; content = λ q. refl })
compile_block-cases (b ∷ bs) w = inl (keep_policy-IsCompiled (b ∷ bs) w)

small-HasPolicies : HasPolicies small same_length
small-HasPolicies = record {
  malloc_keeps = λ n w g. refl;
  free_keeps = λ p w g. refl;
  set_keeps = λ p bs w g. refl;
  compiled = λ p a w h. rw h (compile_block-cases a w);
  released = λ h a w k. record {
    gone = release_gone h w;
    others = λ g l. release_others h g w l;
    content = release_content h w;
  };
  evaluated = λ h p a i w k l. record {
    answer = inl (rw (l, k) refl);
    policies = λ g. refl;
    content = λ q. refl;
  };
}

abbrev nothing : Blocks × Blocks
nothing = (no_blocks, no_blocks)

abbrev inputs : List (Option (List ℕ))
inputs = none ∷ some (7 ∷ 8 ∷ []) ∷ none ∷ some [] ∷ []

small_session : List ℕ → Result (List Decision) × (Blocks × Blocks)
unfolding session setup write free_buffer compile_buffer check_handle decide_each decide next_input
    free_input outside set_input evaluate close ◌>>=◌ pure
small_session a = session small a (3 ∷ []) inputs nothing

small_decisions : (small_session (1 ∷ 2 ∷ [])).0 ≡ ok (deny ∷ allow ∷ allow ∷ deny ∷ [])
unfolding small_session
small_decisions = refl

small_refusal : (small_session []).0 ≡ threw
unfolding small_session
small_refusal = refl

Served-session_example :
    Served small same_length
      (1 ∷ 2 ∷ [])
      (3 ∷ [])
      inputs
      nothing
      (session small (1 ∷ 2 ∷ []) (3 ∷ []) inputs nothing)
Served-session_example =
    Served-session small same_length memory-IsHeap small-HasPolicies (1 ∷ 2 ∷ []) (3 ∷ []) inputs
      nothing
