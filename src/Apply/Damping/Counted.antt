-- ===== src/Apply/Damping/Counted.antt =====
-- apply/apply.go: the commitment that requireShrinksWithGrowth counts along is the one that
-- commitmentOf gives.
use text.Mathlib.Text.{◌==◌ as str_eq}
use text.Mathlib.TextEquality.{eq_iff}
use fpm_tune.Common.{
  ℕ, ◌+◌, ◌-◌, ◌*◌, ◌%◌, ◌<◌, ◌≤◌, ◌≡◌, ◌≢◌, refl, sym, ap, ◌∙◌, subst, ◌⊎◌, inl, inr, String, Bool,
  true, false, ◌||◌, List, [], ◌∷◌, ◌++◌, All, All-append, All-map, if◌then◌else◌, Bool-cases,
  arith, ltb, ltb→lt, ltb→ge,
}
use fpm_tune.Common.Word.{int64_range, add64, sub64, mul64, sle}
use fpm_tune.Allocate.Compute.Lines.{PoolPlan}
use fpm_tune.Apply.Decide.{applied, below_threshold}
use fpm_tune.Apply.Damping.{has, commitment_from, Coupling, Reduction, set_outcome}

-- What a pool costs with its change or without it.
abbrev weight : Bool → PoolPlan → ℕ
weight included pp =
    mul64 (if included || sle pp.current 0 then pp.max_children else pp.current) pp.worker_bytes

-- The commitment with the names that are included given by a test.
pub spent : (String → Bool) → ℕ → List PoolPlan → ℕ
spent included total [] = total
spent included total (pp ∷ ps) = spent included (add64 total (weight (included pp.name) pp)) ps

pub spent-commitment_from :
    (changes ps : List PoolPlan) (total : ℕ)
    → spent (λ n. has n changes) total ps ≡ commitment_from changes total ps
unfolding spent commitment_from
spent-commitment_from changes [] total = refl
spent-commitment_from changes (pp ∷ ps) total = spent-commitment_from changes ps _

shift : (t w d : ℕ) → d ≤ int64_range → add64 (sub64 t d) w ≡ sub64 (add64 t w) d
unfolding add64 sub64
shift t w d h = omega arith

shift_right : (t w d : ℕ) → d ≤ int64_range → add64 t (sub64 w d) ≡ sub64 (add64 t w) d
unfolding add64 sub64
shift_right t w d h = omega arith

spent_shift :
    (ps : List PoolPlan) (included : String → Bool) (t d : ℕ)
    → d ≤ int64_range
    → spent included (sub64 t d) ps ≡ sub64 (spent included t ps) d
unfolding spent
spent_shift [] included t d h = refl
spent_shift (pp ∷ ps) included t d h =
    rw (shift t (weight (included pp.name) pp) d h) (spent_shift ps included _ d h)

-- Tests that agree on the names of a list give the same commitment.
pub spent_same :
    (ps : List PoolPlan) (included included' : String → Bool) (t : ℕ)
    → All (λ (p : PoolPlan). included' p.name ≡ included p.name) ps
    → spent included' t ps ≡ spent included t ps
unfolding spent
spent_same [] included included' t h = refl
spent_same (pp ∷ ps) included included' t h = rw h.0 (spent_same ps included included' _ h.1)

-- The pool at some place of a list.
abbrev pub In : PoolPlan → List PoolPlan → Type 0
In x [] = ⊥
In x (p ∷ ps) = (x ≡ p) ⊎ In x ps

abbrev pub AllPairs : {A : Type 0} → (A → A → Type 0) → List A → Type 0
AllPairs R [] = Unit
AllPairs R (x ∷ xs) = All (R x) xs × AllPairs R xs

abbrev pub Differ : PoolPlan → PoolPlan → Type 0
Differ p q = p.name ≢ q.name

pub In-All : (P : PoolPlan → Type 0) (x : PoolPlan) (ps : List PoolPlan) → In x ps → All P ps → P x
In-All P x [] m h = absurd m
In-All P x (p ∷ ps) (inl e) h = subst P (sym e) h.0
In-All P x (p ∷ ps) (inr m) h = In-All P x ps m h.1

-- Where two tests differ on one pool only, the commitments differ by what that pool costs less.
pub spent_step :
    (ps : List PoolPlan) (included included' : String → Bool) (x : PoolPlan) (t d : ℕ)
    → AllPairs Differ ps
    → In x ps
    → ((p : PoolPlan) → p.name ≢ x.name → included' p.name ≡ included p.name)
    → d ≤ int64_range
    → weight (included' x.name) x ≡ sub64 (weight (included x.name) x) d
    → spent included' t ps ≡ sub64 (spent included t ps) d
unfolding spent
spent_step [] included included' x t d v m others h w = absurd m
spent_step (p ∷ ps) included included' x t d v (inl e) others h w =
    let w' : weight (included' p.name) p ≡ sub64 (weight (included p.name) p) d =
      subst (λ (q : PoolPlan). weight (included' q.name) q ≡ sub64 (weight (included q.name) q) d) e
        w in
    let rest : All (λ (q : PoolPlan). included' q.name ≡ included q.name) ps =
      All-map ps (λ q ne. others q (λ same. ne (sym (same ∙ ap (λ (z : PoolPlan). z.name) e))))
        v.0 in
    ap (λ n. spent included' (add64 t n) ps) w'
    ∙ ap (λ n. spent included' n ps) (shift_right t (weight (included p.name) p) d h)
    ∙ spent_same ps included included' _ rest
    ∙ spent_shift ps included _ d h
spent_step (p ∷ ps) included included' x t d v (inr m) others h w =
    let ne : p.name ≢ x.name = In-All (Differ p) x ps m v.0 in
    rw (others p ne) (spent_step ps included included' x _ d v.1 m others h w)

split_product :
    (a b c w : ℕ)
    → (c + b ≡ a) ⊎ (c + b ≡ a + int64_range)
    → (b * w) % int64_range
      ≡ ((a * w) % int64_range + int64_range - (c * w) % int64_range) % int64_range
split_product a b c w (inl e) = omega (arith, ap (λ (t : ℕ). t * w) e)
split_product a b c w (inr e) = omega (arith, ap (λ (t : ℕ). t * w) e)

-- What is freed between two sizes is the difference of what they cost, also where it wraps.
pub freed :
    (a b w : ℕ)
    → a < int64_range
    → b < int64_range
    → mul64 b w ≡ sub64 (mul64 a w) (mul64 (sub64 a b) w)
unfolding mul64 sub64
freed a b w h k =
    split_product a b ((a + int64_range - b) % int64_range) w (elim (Bool-cases (ltb a b)) [
      | inl t ↦ inr (omega (arith, ltb→lt a b t))
      | inr f ↦ inl (omega (arith, ltb→ge a b f))
    ])

has-later :
    (p : PoolPlan) (ps ls : List PoolPlan)
    → All (λ (l : PoolPlan). has l.name ps ≡ true) ls
    → All (λ (l : PoolPlan). has l.name (p ∷ ps) ≡ true) ls
unfolding has
has-later p ps ls h = All-map ls (λ l e. ground arith) h

-- Every change is among the changes.
pub has-all : (cs : List PoolPlan) → All (λ (l : PoolPlan). has l.name cs ≡ true) cs
unfolding has
has-all [] = tt
has-all (p ∷ ps) = (rw ((eq_iff p.name p.name).1 refl) refl, has-later p ps ps (has-all ps))

pub has-snoc :
    (name : String) (cs : List PoolPlan) (x : PoolPlan)
    → has name (cs ++ (x ∷ [])) ≡ (has name cs || str_eq x.name name)
unfolding has
has-snoc name [] x = ground arith
has-snoc name (c ∷ cs) x = ground (arith, has-snoc name cs x)

pub differ_test : (a b : String) → a ≢ b → str_eq a b ≡ false
differ_test a b ne = elim (Bool-cases (str_eq a b)) [
  | inl t ↦ absurd (ne ((eq_iff a b).0 t))
  | inr f ↦ f
]

-- A name that no change has differs from all of theirs.
fresh-Differ :
    (cs : List PoolPlan) (x : PoolPlan)
    → has x.name cs ≡ false
    → All (λ (c : PoolPlan). Differ c x) cs
unfolding has
fresh-Differ [] x h = tt
fresh-Differ (c ∷ cs) x h = (
  λ e. let t = (eq_iff c.name x.name).1 e in let bad : false ≡ true = ground arith in cc,
  fresh-Differ cs x (ground arith),
)

snoc-AllPairs :
    (cs : List PoolPlan) (x : PoolPlan)
    → All (λ (c : PoolPlan). Differ c x) cs
    → AllPairs Differ cs
    → AllPairs Differ (cs ++ (x ∷ []))
snoc-AllPairs [] x h v = (tt, tt)
snoc-AllPairs (c ∷ cs) x h v = (All-append _ cs (x ∷ []) v.0 (h.0, tt), snoc-AllPairs cs x h.1 v.1)

-- Counts of workers that an int holds.
pub record IsSized (p : PoolPlan) : Type 0 where
  pub current : p.current < int64_range
  pub target : p.max_children < int64_range

module _ (pools : List PoolPlan) (distinct : AllPairs Differ pools)
    (sized : All IsSized pools) where
  abbrev pub total_of : (String → Bool) → ℕ
  total_of included = spent included 0 pools

  -- Changes of the plan's pools, one for a name, whose commitment is the one that is counted.
  pub record Honest (c : Coupling) : Type 0 where
    pub counted : c.committed ≡ total_of (λ n. has n c.changes)
    pub apart : AllPairs Differ c.changes
    pub inside : All (λ (p : PoolPlan). In p pools) c.changes

  -- A reduction that can still be pulled in.
  pub record IsOpen (cs : List PoolPlan) (r : Reduction) : Type 0 where
    pub place : In r.pool pools
    pub fresh : has r.pool.name cs ≡ false
    pub running : sle r.pool.current 0 ≡ false
    pub frees : r.frees ≡ mul64 (sub64 r.pool.current r.pool.max_children) r.pool.worker_bytes

  abbrev pub pulled_in : ℕ → Reduction → Coupling → Coupling
  pulled_in limit r c = record c {
    changes = c.changes ++ (r.pool ∷ []);
    committed = sub64 c.committed r.frees;
    outcomes =
        set_outcome r.pool.name applied (below_threshold r.pool.current r.pool.max_children)
          c.outcomes;
  }

  pub mul64-le : (a b : ℕ) → mul64 a b ≤ int64_range
  unfolding mul64
  mul64-le a b = omega arith

  pub pulled-Honest :
      (limit : ℕ) (r : Reduction) (c : Coupling)
      → IsOpen c.changes r
      → Honest c
      → Honest (pulled_in limit r c)
  pulled-Honest limit r c o h =
      let x = r.pool in
      let size = In-All IsSized x pools o.place sized in
      let included : String → Bool = λ n. has n c.changes in
      let included' : String → Bool = λ n. has n (c.changes ++ (x ∷ [])) in
      let now : included' x.name ≡ true =
        has-snoc x.name c.changes x ∙ rw (o.fresh, (eq_iff x.name x.name).1 refl) refl in
      let step =
        spent_step pools included included' x 0
          (mul64 (sub64 x.current x.max_children) x.worker_bytes) distinct o.place
          (λ p ne.
            has-snoc p.name c.changes x
            ∙ rw (differ_test x.name p.name (λ e. ne (sym e))) (ground arith))
          (mul64-le (sub64 x.current x.max_children) x.worker_bytes)
          (rw (now, o.fresh, o.running)
            (freed x.current x.max_children x.worker_bytes size.current size.target)) in
      record {
        counted = rw (h.counted, o.frees) (sym step);
        apart = snoc-AllPairs c.changes x (fresh-Differ c.changes x o.fresh) h.apart;
        inside = All-append _ c.changes (x ∷ []) h.inside (o.place, tt);
      }
