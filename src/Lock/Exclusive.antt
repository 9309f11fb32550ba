-- ===== src/Lock/Exclusive.antt =====
-- lock/lock.go: of the processes on a host one at most holds the lock of a path.
use text.Mathlib.Text.{◌==◌ as str_eq}
use text.Mathlib.TextEquality.{eq_iff}
use fpm_tune.Common.{
  ℕ, suc, ◌<◌, ◌≡◌, ◌≢◌, ◌⊎◌, Option, refl, sym, ◌∙◌, ap, subst, String, not, List, [], ◌∷◌, All,
  none, some, arith, inl, inr, Bool-cases, ◌==◌,
}
use fpm_tune.Lock.{
  Answer, locked, would_block, failed, Flock, Outside, Host, answered, acquire, without, release,
}

-- flock(2): an exclusive lock is granted where nobody holds one but the file that asks, and refused
-- without a change otherwise; the last close of a file gives up the locks of that file alone.
pub record IsFlock (k : Flock) : Type 0 where
  pub free :
      (t : k.Table) (p : String) (f : ℕ)
      → (k.flock t p f).1 ≡ locked
      → (k.holder t p ≡ none) ⊎ (k.holder t p ≡ some f)
  pub taken :
      (t : k.Table) (p : String) (f : ℕ)
      → (k.flock t p f).1 ≡ locked
      → k.holder (k.flock t p f).0 p ≡ some f
  pub others :
      (t : k.Table) (p : String) (f : ℕ) (q : String)
      → q ≢ p
      → k.holder (k.flock t p f).0 q ≡ k.holder t q
  pub refused :
      (t : k.Table) (p : String) (f : ℕ)
      → (k.flock t p f).1 ≢ locked
      → k.holder (k.flock t p f).0 p ≡ k.holder t p
  pub closes :
      (t : k.Table) (f : ℕ) (p : String)
      → k.holder t p ≢ some f
      → k.holder (k.close t f) p ≡ k.holder t p
  pub gives_up :
      (t : k.Table) (f : ℕ) (p : String) → k.holder t p ≡ some f → k.holder (k.close t f) p ≡ none

without-All :
    (P : ℕ × String → Type 0) (file : ℕ) (rs : List (ℕ × String))
    → All P rs
    → All P (without file rs)
unfolding without
without-All P file [] a = tt
without-All P file (r ∷ rs) a = elim (Bool-cases (r.0 == file)) [
  | inl t ↦ rw t (without-All _ file rs a.1)
  | inr f ↦ rw f (a.0, without-All _ file rs a.1)
]

without-other :
    (file : ℕ) (rs : List (ℕ × String)) → All (λ (r : ℕ × String). r.0 ≢ file) (without file rs)
unfolding without
without-other file [] = tt
without-other file (r ∷ rs) = elim (Bool-cases (r.0 == file)) [
  | inl t ↦ rw t (without-other file rs)
  | inr f ↦ rw f ((λ e. ground (arith, e, f)), without-other file rs)
]

module _ (k : Flock) where
  -- The files that hold a lock are among those that were opened: their numbers are below the next one.
  abbrev pub IsNumbered : k.Table → ℕ → Type 0
  IsNumbered t n = (p : String) (f : ℕ) → k.holder t p ≡ some f → f < n

  -- What can happen on the host: somebody acquires a path, whatever the answer is, or a lock is given
  -- up, by its owner's call or its death.
  pub data Reach : Host k → Type 0 where
    boot :
        (t : k.Table) (n : ℕ)
        → IsNumbered t n
        → Reach (record { table = t; releases = []; next = n })
    acquired : {h : Host k} → Reach h → (o : Outside) (path : String) → Reach (acquire k o path h).0
    released : {h : Host k} → Reach h → (file : ℕ) → Reach (release k file h)

  -- No two releases are for the same path.
  abbrev pub IsExclusive : List (ℕ × String) → Type 0
  IsExclusive [] = Unit
  IsExclusive (r ∷ rs) = All (λ (s : ℕ × String). s.1 ≢ r.1) rs × IsExclusive rs

  record IsSound (h : Host k) : Type 0 where
    holds : All (λ (r : ℕ × String). k.holder h.table r.1 ≡ some r.0) h.releases
    old : All (λ (r : ℕ × String). r.0 < h.next) h.releases
    exclusive : IsExclusive h.releases
    numbered : IsNumbered h.table h.next

  without-IsExclusive :
      (file : ℕ) (rs : List (ℕ × String)) → IsExclusive rs → IsExclusive (without file rs)
  unfolding without
  without-IsExclusive file [] a = tt
  without-IsExclusive file (r ∷ rs) a = elim (Bool-cases (r.0 == file)) [
    | inl t ↦ rw t (without-IsExclusive file rs a.1)
    | inr f ↦ rw f (without-All _ file rs a.0, without-IsExclusive file rs a.1)
  ]

  module _ (law : IsFlock k) where
    same : {a b : ℕ} → some a ≡ some b → a ≡ b
    same e = cc

    -- Closing a file that none of the releases is for.
    closed-holds :
        (t : k.Table) (f : ℕ) (rs : List (ℕ × String))
        → All (λ (r : ℕ × String). k.holder t r.1 ≡ some r.0) rs
        → All (λ (r : ℕ × String). r.0 ≢ f) rs
        → All (λ (r : ℕ × String). k.holder (k.close t f) r.1 ≡ some r.0) rs
    closed-holds t f [] h n = tt
    closed-holds t f (r ∷ rs) h n =
        (law.closes t f r.1 (λ e. n.0 (same (sym h.0 ∙ e))) ∙ h.0, closed-holds t f rs h.1 n.1)

    closed-IsNumbered : (t : k.Table) (file n : ℕ) → IsNumbered t n → IsNumbered (k.close t file) n
    closed-IsNumbered t file n u p f e = go (k.holder t p) refl
      where
        go : (o : Option ℕ) → k.holder t p ≡ o → f < n
        go none q =
            let kept = law.closes t file p (λ z. let w = sym q ∙ z in cc) in
            let w = sym q ∙ sym kept ∙ e in absurd cc
        go (some g) q = elim (Bool-cases (g == file)) [
          | inl t' ↦
              let z : g ≡ file = ground arith in
              let gone = law.gives_up t file p (q ∙ ap some z) in let w = sym gone ∙ e in absurd cc
          | inr f' ↦
              let kept =
                law.closes t file p (λ z. let w = same (sym q ∙ z) in ground (arith, w, f')) in
              u p f (sym kept ∙ e)
        ]

    locked-IsNumbered :
        (t : k.Table) (p : String) (n : ℕ)
        → (k.flock t p n).1 ≡ locked
        → IsNumbered t n
        → IsNumbered (k.flock t p n).0 (suc n)
    locked-IsNumbered t p n l u q f e = elim (Bool-cases (str_eq q p)) [
      | inl b ↦
          let z : q ≡ p = (eq_iff q p).0 b in
          let g = same (sym (law.taken t p n l) ∙ ap (k.holder (k.flock t p n).0) (sym z) ∙ e) in
          omega (arith, g)
      | inr b ↦
          let ne : q ≢ p = λ z. let w = (eq_iff q p).1 z in cc in
          let old = u q f (sym (law.others t p n q ne) ∙ e) in omega (arith, old)
    ]

    refused-same :
        (t : k.Table) (p : String) (f : ℕ)
        → (k.flock t p f).1 ≢ locked
        → (q : String) → k.holder (k.flock t p f).0 q ≡ k.holder t q
    refused-same t p f ne q = elim (Bool-cases (str_eq q p)) [
      | inl e ↦
          let z : q ≡ p = (eq_iff q p).0 e in
          subst (λ x. k.holder (k.flock t p f).0 x ≡ k.holder t x) (sym z) (law.refused t p f ne)
      | inr e ↦ law.others t p f q (λ z. let b = (eq_iff q p).1 z in cc)
    ]

    refused-IsNumbered :
        (t : k.Table) (p : String) (n : ℕ)
        → (k.flock t p n).1 ≢ locked
        → IsNumbered t n
        → IsNumbered (k.close (k.flock t p n).0 n) (suc n)
    refused-IsNumbered t p n ne u q f e =
        let old =
          closed-IsNumbered (k.flock t p n).0 n n
            (λ r g z. u r g (sym (refused-same t p n ne r) ∙ z)) q f e in
        omega (arith, old)

    release-IsSound : (file : ℕ) (h : Host k) → IsSound h → IsSound (release k file h)
    unfolding release
    release-IsSound file h s = record {
      holds =
          closed-holds h.table file (without file h.releases)
            (without-All _ file h.releases s.holds) (without-other file h.releases);
      old = without-All _ file h.releases s.old;
      exclusive = without-IsExclusive file h.releases s.exclusive;
      numbered = closed-IsNumbered h.table file h.next s.numbered;
    }

    -- Every release is older than the next file, and for another path than one that nobody holds.
    older :
        (n : ℕ) (rs : List (ℕ × String))
        → All (λ (r : ℕ × String). r.0 < n) rs
        → All (λ (r : ℕ × String). r.0 < suc n) rs × All (λ (r : ℕ × String). r.0 ≢ n) rs
    older n [] a = (tt, tt)
    older n (r ∷ rs) a =
        let rest = older n rs a.1 in
        ((omega (arith, a.0), rest.0), ((λ e. omega (arith, a.0, e)), rest.1))

    elsewhere :
        (t : k.Table) (p : String) (rs : List (ℕ × String))
        → k.holder t p ≡ none
        → All (λ (r : ℕ × String). k.holder t r.1 ≡ some r.0) rs
        → All (λ (r : ℕ × String). r.1 ≢ p) rs
    elsewhere t p [] e h = tt
    elsewhere t p (r ∷ rs) e h = ((λ q. let f = ap (k.holder t) q in cc), elsewhere t p rs e h.1)

    -- The lock of another path, and a lock that was refused, leave what was held.
    kept_others :
        (t : k.Table) (p : String) (f : ℕ) (rs : List (ℕ × String))
        → All (λ (r : ℕ × String). r.1 ≢ p) rs
        → All (λ (r : ℕ × String). k.holder t r.1 ≡ some r.0) rs
        → All (λ (r : ℕ × String). k.holder (k.flock t p f).0 r.1 ≡ some r.0) rs
    kept_others t p f [] n h = tt
    kept_others t p f (r ∷ rs) n h = (law.others t p f r.1 n.0 ∙ h.0, kept_others t p f rs n.1 h.1)

    kept_refused :
        (t : k.Table) (p : String) (f : ℕ)
        → (k.flock t p f).1 ≢ locked
        → (rs : List (ℕ × String)) → All (λ (r : ℕ × String). k.holder t r.1 ≡ some r.0) rs
        → All (λ (r : ℕ × String). k.holder (k.flock t p f).0 r.1 ≡ some r.0) rs
    kept_refused t p f ne [] h = tt
    kept_refused t p f ne (r ∷ rs) h =
        (refused-same t p f ne r.1 ∙ h.0, kept_refused t p f ne rs h.1)

    -- The file that asks is new, so that it does not hold the lock already.
    unheld :
        (t : k.Table) (p : String) (n : ℕ)
        → IsNumbered t n
        → (k.holder t p ≡ none) ⊎ (k.holder t p ≡ some n)
        → k.holder t p ≡ none
    unheld t p n u (inl e) = e
    unheld t p n u (inr e) = let wrong = u p n e in absurd (omega (arith, wrong))

    answered-IsSound :
        (path : String) (h : Host k) (a : Answer)
        → IsSound h
        → (k.flock h.table path h.next).1 ≡ a
        → IsSound (answered k path h (k.flock h.table path h.next).0 a).0
    unfolding answered
    answered-IsSound path h locked s e =
        let new =
          elsewhere h.table path h.releases
            (unheld h.table path h.next s.numbered (law.free h.table path h.next e)) s.holds in
        let old = older h.next h.releases s.old in
        record {
          holds = (
            law.taken h.table path h.next e,
            kept_others h.table path h.next h.releases new s.holds,
          );
          old = (omega arith, old.0);
          exclusive = (new, s.exclusive);
          numbered = locked-IsNumbered h.table path h.next e s.numbered;
        }
    answered-IsSound path h would_block s e =
        let old = older h.next h.releases s.old in
        let kept =
          kept_refused h.table path h.next (λ l. let x = sym l ∙ e in cc) h.releases s.holds in
        record {
          holds = closed-holds _ h.next h.releases kept old.1;
          old = old.0;
          exclusive = s.exclusive;
          numbered =
              refused-IsNumbered h.table path h.next (λ l. let x = sym l ∙ e in cc) s.numbered;
        }
    answered-IsSound path h failed s e =
        let old = older h.next h.releases s.old in
        let kept =
          kept_refused h.table path h.next (λ l. let x = sym l ∙ e in cc) h.releases s.holds in
        record {
          holds = closed-holds _ h.next h.releases kept old.1;
          old = old.0;
          exclusive = s.exclusive;
          numbered =
              refused-IsNumbered h.table path h.next (λ l. let x = sym l ∙ e in cc) s.numbered;
        }

    acquire-IsSound :
        (o : Outside) (path : String) (h : Host k) → IsSound h → IsSound (acquire k o path h).0
    unfolding acquire
    acquire-IsSound o path h s = elim (Bool-cases (not o.made_directory)) [
      | inl t ↦ rw t s
      | inr f ↦ elim (Bool-cases (not o.opened)) [
        | inl t ↦ rw (f, t) s
        | inr g ↦ rw (f, g) (answered-IsSound path h _ s refl)
      ]
    ]

    Reach-IsSound : {h : Host k} → Reach h → IsSound h
    Reach-IsSound (boot t n u) = record { holds = tt; old = tt; exclusive = tt; numbered = u }
    Reach-IsSound (acquired r o path) = acquire-IsSound o path _ (Reach-IsSound r)
    Reach-IsSound (released r file) = release-IsSound file _ (Reach-IsSound r)

    -- Whatever was acquired, refused, released or died before, no two of the releases that are given
    -- out on a host are for the same path, so that a path has one owner at most. The kernel locks
    -- files as flock(2) documents it, and the files that hold locks at the start are among those that
    -- were opened before.
    pub acquire-IsExclusive : {h : Host k} → Reach h → IsExclusive h.releases
    acquire-IsExclusive r = (Reach-IsSound r).exclusive
