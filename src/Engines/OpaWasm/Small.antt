-- ===== src/Engines/OpaWasm/Small.antt =====
-- A small policy on a small memory, for the tests of the engines that ask OPA: an input of one byte
-- is allowed, and for any other the policy is undefined.
use zopa.Base.{
  ℕ, suc, ◌+◌, ◌≤◌, ◌<◌, ◌≡◌, refl, Bool, true, false, Option, none, some, List, [], ◌∷◌, arith,
}
use zopa.Base.Tests.{◌==◌, ==-ne, ==-self, if◌then◌else◌}
use zopa.Base.Text.{codes}
use zopa.Base.Lists.{length}
use zopa.Base.Exec.{ok}
use zopa.Engines.OpaWasm.{Answer, is_true, Tools}
use zopa.Engines.OpaWasm.Strings.{CString}
use zopa.Engines.OpaWasm.Session.{BytesAt, IsPolicy}

-- The heap's pointer and the bytes.
abbrev pub Memory : Type 0
Memory = ℕ × (ℕ → ℕ)

abbrev pub write : ℕ → List ℕ → (ℕ → ℕ) → ℕ → ℕ
write p [] m q = m q
write p (b ∷ bs) m q = if q == p then b else write (suc p) bs m q

abbrev pub reply : ℕ → List ℕ
reply n = if n == 1 then 1 ∷ [] else 2 ∷ []

abbrev pub answers : List ℕ → List Answer
answers i = if length i == 1 then is_true ∷ [] else []

abbrev pub read_answer : List ℕ → Option (List Answer)
read_answer [] = none
read_answer (b ∷ bs) = some (if b == 1 then is_true ∷ [] else [])

-- The world counts the runs of `opa build`.
abbrev pub tools : Tools
tools = record {
  World = ℕ;
  make_dir = λ w. (ok (codes "d"), w);
  write_rego = λ d r w. (ok tt, w);
  opa_build = λ d w. (ok tt, suc w);
  untar = λ d w. (ok tt, w);
  read_wasm = λ d w. (ok (7 ∷ []), w);
  stat_size = λ d w. (ok 1, w);
  Wasm = Memory;
  instantiate = λ bs w. (ok (0, λ q. 0), w);
  abi_version = λ w. some 1;
  abi_minor_version = λ w. some 2;
  opa_malloc = λ n w. (suc w.0, (suc w.0 + n, w.1));
  set_bytes = λ p bs w. (w.0, write p bs w.1);
  byte = λ w q. some (w.1 q);
  opa_json_parse = λ p n w. (p, w);
  opa_heap_ptr_get = λ w. w.0;
  opa_heap_ptr_set = λ h w. (h, w.1);
  opa_eval = λ a p n h w. (ok h, (suc (suc h), write h (reply n) (write (suc h) (0 ∷ []) w.1)));
  json_parse = read_answer;
  Doc = List ℕ;
  encode = λ d. d;
}

BytesAt-agree :
    (bs : List ℕ) (p h k : ℕ) (m m' : ℕ → ℕ)
    → ((q : ℕ) → p ≤ q → m' q ≡ m q)
    → BytesAt tools (h, m) p bs
    → BytesAt tools (k, m') p bs
BytesAt-agree [] p h k m m' e b = tt
BytesAt-agree (x ∷ bs) p h k m m' e (b, c) =
    (rw (e p (omega arith)) b, BytesAt-agree bs (suc p) h k m m' (λ q l. e q (omega arith)) c)

write-BytesAt : (bs : List ℕ) (p h : ℕ) (m : ℕ → ℕ) → BytesAt tools (h, write p bs m) p bs
write-BytesAt [] p h m = tt
write-BytesAt (b ∷ bs) p h m = (
  rw (==-self p) refl,
  BytesAt-agree bs (suc p) h h (write (suc p) bs m) _
      (λ q l. rw (==-ne q p (λ e. omega arith)) refl) (write-BytesAt bs (suc p) h m),
)

reply-CString :
    (n h k : ℕ) (m : ℕ → ℕ)
    → CString tools (k, write h (reply n) (write (suc h) (0 ∷ []) m)) h (reply n)
reply-CString n h k m =
    elim (n == 1)
      as (λ (b : Bool).
        CString tools (k, write h (if b then 1 ∷ [] else 2 ∷ []) (write (suc h) (0 ∷ []) m)) h
          (if b then 1 ∷ [] else 2 ∷ [])) [
            | true ↦ (
              rw (==-self h) refl,
              (λ e. omega arith),
              rw (==-ne (suc h) h (λ e. omega arith), ==-self (suc h)) refl,
            )
            | false ↦ (
              rw (==-self h) refl,
              (λ e. omega arith),
              rw (==-ne (suc h) h (λ e. omega arith), ==-self (suc h)) refl,
            )
          ]

abbrev pub Any : Memory → Type 0
Any w = Unit

abbrev pub LoadedAnywhere : Memory → ℕ → ℕ → Type 0
LoadedAnywhere w a b = Unit

pub tools-IsPolicy : IsPolicy tools Any LoadedAnywhere (λ i. reply (length i))
tools-IsPolicy = record {
  malloc_of = λ n w o. tt;
  write_of = λ p bs w o. tt;
  room = λ n w e. omega arith;
  set_heap = λ h w. refl;
  malloc_above = λ n w. omega arith;
  written = λ bs w. write-BytesAt bs (suc w.0) (suc w.0 + length bs) w.1;
  parsed_data = λ p w o t. tt;
  set_keeps = λ a b w l. tt;
  malloc_keeps = λ a b n w l h. tt;
  write_keeps = λ a b p bs w l h. tt;
  evaluated = λ a b p i w l h t. record {
    addr = w.0;
    after = (suc (suc w.0), write w.0 (reply (length i)) (write (suc w.0) (0 ∷ []) w.1));
    gives = refl;
    there = reply-CString (length i) w.0 (suc (suc w.0)) w.1;
    still = tt;
  };
}

pub reply_short : (i : List ℕ) → length (reply (length i)) < 2
reply_short i =
    elim (length i == 1)
      as (λ (b : Bool). length (if◌then◌else◌ {A = List ℕ} b (1 ∷ []) (2 ∷ [])) < 2) [
        | true ↦ omega arith
        | false ↦ omega arith
      ]

pub reply_json : (i : List ℕ) → read_answer (reply (length i)) ≡ some (answers i)
reply_json i =
    elim (length i == 1)
      as (λ (b : Bool).
        read_answer (if b then 1 ∷ [] else 2 ∷ []) ≡ some (if b then is_true ∷ [] else [])) [
          | true ↦ refl
          | false ↦ refl
        ]
