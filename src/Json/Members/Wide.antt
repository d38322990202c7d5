-- ===== src/Json/Members/Wide.antt =====
-- The loop over the runs of a wide object, one position at a time.
use mathlib.Core.Path.{subst}
use mathlib.Core.List.{
  Mem, Pairwise, mem-cons_self, mem-cons_of_mem, mem-append_left, mem-append_right, Pairwise-append,
  rel_of_Pairwise-cons, append_assoc, append-nil,
}
use zopa.Base.{ℕ, ◌<◌, ◌≡◌, ◌≢◌, sym, ap, ◌∙◌, true, false, inl, inr, List, [], ◌∷◌, ◌++◌, arith}
use zopa.Base.Tests.{◌==◌, if◌then◌else◌, Bool-cases}
use zopa.Base.Lists.{length, get_elem?}
use zopa.Base.Text.{Text, same, same_iff, eq_of_same}
use zopa.Base.Dict.{Dict}
use zopa.Json.Members.{Slot, Cell, cells, key_at, key_of, close_run, close_runs, same_run}
use zopa.Json.Members.Inserts.{expected}
use zopa.Json.Members.Expected.{nth_key}
use zopa.Json.Members.Order.{Genuine, Before, Before-pos, Before-between}
use zopa.Json.Members.Places.{has_pos, has_pos-append, has_pos-later, has_pos-Mem, slot_at}
use zopa.Json.Members.Runs.{Rises, IsRun, get-close_run}

module _ {V : Type 0} (hash : Text → ℕ) (m : Dict V) where
  -- The slots that the loop has not closed yet.
  pub record AreOpen (l : List Slot) (ms : List (Cell V)) : Type 0 where
    pub genuine : (s : Slot) → Mem s l → Genuine hash m s
    pub sorted : Pairwise (Before hash m) l
    pub closed :
        (i p : ℕ)
        → has_pos i l ≡ true
        → p < length m
        → nth_key m p ≡ nth_key m i
        → has_pos p l ≡ true
    pub untouched : (p : ℕ) → has_pos p l ≡ true → get_elem? ms p ≡ get_elem? (cells m) p

  abbrev pub HasKey : Text → List Slot → Type 0
  HasKey k l = (p : ℕ) → has_pos p l ≡ true → nth_key m p ≡ k

  abbrev pub LacksKey : Text → List Slot → Type 0
  LacksKey k l = (p : ℕ) → has_pos p l ≡ true → nth_key m p ≢ k

  Before-Rises :
      (k : Text) (l : List Slot)
      → ((s : Slot) → Mem s l → Genuine hash m s)
      → HasKey k l
      → Pairwise (Before hash m) l
      → Pairwise Rises l
  Before-Rises k [] g h Pairwise.nil = Pairwise.nil
  Before-Rises k (o ∷ os) g h (Pairwise.cons b r) =
      Pairwise.cons
        (λ s t. Before-pos hash m o s (g o mem-cons_self) (g s (mem-cons_of_mem o t)) (b s t) (
          h s.pos (has_pos-Mem s (o ∷ os) (mem-cons_of_mem o t))
          ∙ sym (h o.pos (has_pos-Mem o (o ∷ os) mem-cons_self))))
        (Before-Rises k os (λ s t. g s (mem-cons_of_mem o t)) (λ p e. h p (has_pos-later p o os e))
          r)

  Before-prop : (a b : Slot) → IsProp (Before hash m a b)
  Before-prop a b = hlevel

  module _ (o : Slot) (os r : List Slot) (ms : List (Cell V))
      (open_slots : AreOpen ((o ∷ os) ++ r) ms) (one : HasKey (nth_key m o.pos) (o ∷ os))
      (apart : LacksKey (nth_key m o.pos) r) where
    head_pos : has_pos o.pos (o ∷ os) ≡ true
    unfolding has_pos
    head_pos = ground arith

    AreOpen-IsRun : IsRun m o os ms
    AreOpen-IsRun = record {
      rises =
          Before-Rises (nth_key m o.pos) (o ∷ os)
            (λ s t. open_slots.genuine s (mem-append_left r t)) one
            ((Pairwise-append Before-prop {l₁ = o ∷ os} {l₂ = r}).0 open_slots.sorted).0;
      one_key = one;
      whole = λ p l q. ground (
        arith,
        open_slots.closed o.pos p (ground (arith, head_pos, has_pos-append o.pos (o ∷ os) r)) l q,
        has_pos-append p (o ∷ os) r,
        λ (e : has_pos p r ≡ true). apart p e q,
      );
      inside = λ p h.
          let (s, t, e) = slot_at p (o ∷ os) h in
          omega (arith, (open_slots.genuine s (mem-append_left r t)).1, e);
      untouched = λ p h. open_slots.untouched p (ground (arith, has_pos-append p (o ∷ os) r));
    }

    AreOpen-close_run : AreOpen r (close_run o os ms)
    AreOpen-close_run = record {
      genuine = λ s t. open_slots.genuine s (mem-append_right (o ∷ os) t);
      sorted = ((Pairwise-append Before-prop {l₁ = o ∷ os} {l₂ = r}).0 open_slots.sorted).1;
      closed = λ i p h l q. ground (
        arith,
        open_slots.closed i p (ground (arith, has_pos-append i (o ∷ os) r)) l q,
        has_pos-append p (o ∷ os) r,
        λ (e : has_pos p (o ∷ os) ≡ true). apart i h (sym q ∙ one p e),
      );
      untouched = λ p h. ground (
        arith,
        get-close_run m o os ms AreOpen-IsRun p,
        open_slots.untouched p (ground (arith, has_pos-append p (o ∷ os) r)),
        λ (e : has_pos p (o ∷ os) ≡ true). apart p h (one p e),
      );
    }

  key_at-untouched :
      (ms : List (Cell V)) (l : List Slot) (p : ℕ)
      → AreOpen l ms
      → has_pos p l ≡ true
      → key_at ms p ≡ nth_key m p
  unfolding key_at
  key_at-untouched ms l p a h = ap key_of (a.untouched p h)

  same_run-same :
      (ms : List (Cell V)) (l : List Slot) (x o : Slot)
      → AreOpen l ms
      → Mem x l
      → Mem o l
      → same_run ms x o ≡ same (nth_key m x.pos) (nth_key m o.pos)
  unfolding same_run
  same_run-same ms l x o a i j = ground (
    arith,
    (a.genuine x i).0,
    (a.genuine o j).0,
    same_iff (nth_key m x.pos) (nth_key m o.pos),
    key_at-untouched ms l x.pos a (has_pos-Mem x l i),
    key_at-untouched ms l o.pos a (has_pos-Mem o l j),
  )

  runs_step :
      (o : Slot) (os : List Slot) (x : Slot) (xs : List Slot) (ms : List (Cell V))
      → AreOpen ((o ∷ os) ++ x ∷ xs) ms
      → same (nth_key m x.pos) (nth_key m o.pos) ≡ false
      → LacksKey (nth_key m o.pos) (x ∷ xs)
  unfolding has_pos
  runs_step o os x xs ms a d p h q = elim (Bool-cases (x.pos == p)) [
    | inl e ↦
        let r : x.pos ≡ p = ground arith in
        ground (arith, same_iff (nth_key m x.pos) (nth_key m o.pos), ap (nth_key m) r)
    | inr e ↦
        let (s, t, r) = slot_at p xs (ground arith) in
        let (_, later, across) =
          (Pairwise-append Before-prop {l₁ = o ∷ os} {l₂ = x ∷ xs}).0 a.sorted in
        let in_tail =
          λ (u : Slot) (v : Mem u (x ∷ xs)). a.genuine u (mem-append_right (o ∷ os) v) in
        let y : nth_key m x.pos ≡ nth_key m o.pos =
          Before-between hash m o x s (a.genuine o mem-cons_self) (in_tail x mem-cons_self)
            (in_tail s (mem-cons_of_mem x t)) (across o mem-cons_self x mem-cons_self)
            (rel_of_Pairwise-cons later t) (ap (nth_key m) r ∙ q) in
        ground (arith, same_iff (nth_key m x.pos) (nth_key m o.pos))
  ]

  pub HasKey-one : (x : Slot) → HasKey (nth_key m x.pos) (x ∷ [])
  unfolding has_pos
  HasKey-one x p h = ap (nth_key m) (ground arith)

  HasKey-longer :
      (k : Text) (l : List Slot) (x : Slot)
      → HasKey k l
      → nth_key m x.pos ≡ k
      → HasKey k (l ++ x ∷ [])
  unfolding has_pos
  HasKey-longer k l x one e p h = elim (Bool-cases (has_pos p l)) [
    | inl q ↦ one p q
    | inr q ↦
        let r : p ≡ x.pos = ground (arith, has_pos-append p l (x ∷ [])) in ap (nth_key m) r ∙ e
  ]

  LacksKey-nil : (k : Text) → LacksKey k []
  unfolding has_pos
  LacksKey-nil k p h q = cc

  pub get-close_runs :
      (o : Slot) (os xs : List Slot) (ms : List (Cell V))
      → AreOpen ((o ∷ os) ++ xs) ms
      → HasKey (nth_key m o.pos) (o ∷ os)
      → (j : ℕ)
      → get_elem? (close_runs o os xs ms) j
        ≡ (if has_pos j ((o ∷ os) ++ xs) then get_elem? (expected [] m) j else get_elem? ms j)
  unfolding close_runs
  get-close_runs o os [] ms a one j =
      rw (append-nil os) (
        get-close_run m o os ms (AreOpen-IsRun o os [] ms a one (LacksKey-nil (nth_key m o.pos))) j)
  get-close_runs o os (x ∷ xs) ms a one j =
      elim (Bool-cases (same (nth_key m x.pos) (nth_key m o.pos))) [
        | inl e ↦
            let q = append_assoc os (x ∷ []) xs in
            let k =
              HasKey-longer (nth_key m o.pos) (o ∷ os) x one
                (eq_of_same (nth_key m x.pos) (nth_key m o.pos) e) in
            let rest =
              get-close_runs o (os ++ x ∷ []) xs ms
                (subst (λ (l : List Slot). AreOpen (o ∷ l) ms) (sym q) a) k j in
            ground (arith, run_test, rest, ap (λ (l : List Slot). has_pos j (o ∷ l)) q)
        | inr e ↦
            let apart = runs_step o os x xs ms a e in
            let rest =
              get-close_runs x [] xs (close_run o os ms)
                (AreOpen-close_run o os (x ∷ xs) ms a one apart) (HasKey-one x) j in
            ground (
              arith,
              run_test,
              rest,
              get-close_run m o os ms (AreOpen-IsRun o os (x ∷ xs) ms a one apart) j,
              has_pos-append j (o ∷ os) (x ∷ xs),
            )
      ]
    where
      run_test : same_run ms x o ≡ same (nth_key m x.pos) (nth_key m o.pos)
      run_test =
          same_run-same ms ((o ∷ os) ++ x ∷ xs) x o a (mem-append_right (o ∷ os) mem-cons_self)
            mem-cons_self
