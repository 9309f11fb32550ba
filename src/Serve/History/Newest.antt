-- ===== src/Serve/History/Newest.antt =====
-- serve/history.go: the rings against the list of all that was put into them.
use fpm_tune.Common.{
  ℕ, zero, suc, ◌+◌, ◌-◌, ◌^◌, ◌≤◌, ◌<◌, ◌≡◌, ◌≢◌, refl, sym, ap, ap₂, ◌∙◌, List, [], ◌∷◌, ◌++◌,
  some, if◌then◌else◌, length, get_elem?, get_elem?-modify_ne, length-modify, modify, take, ltb,
  leb, arith,
}
use fpm_tune.Common.Word.{add64, add64_exact, slt, slt_small, rem64, rem64_wrap}
use fpm_tune.Serve.History.{Ring, copies, new_ring, push}

module _ {ℓ} {A : Type ℓ} where
  abbrev pub rev : List A → List A
  rev [] = []
  rev (x ∷ xs) = rev xs ++ (x ∷ [])

  pub length-take :
      (k : ℕ) (xs : List A) → length (take k xs) ≡ (if leb k (length xs) then k else length xs)
  length-take zero xs = ground arith
  length-take (suc k) [] = ground arith
  length-take (suc k) (x ∷ xs) = ground (arith, length-take k xs)

  get-take : (k i : ℕ) (xs : List A) → i < k → get_elem? (take k xs) i ≡ get_elem? xs i
  get-take zero i xs h = absurd omega arith
  get-take (suc k) i [] h = refl
  get-take (suc k) zero (x ∷ xs) h = refl
  get-take (suc k) (suc i) (x ∷ xs) h = get-take k i xs (omega arith)

  pub take-take : (j k : ℕ) (xs : List A) → j ≤ k → take j (take k xs) ≡ take j xs
  take-take zero k xs h = refl
  take-take (suc j) zero xs h = absurd omega arith
  take-take (suc j) (suc k) [] h = refl
  take-take (suc j) (suc k) (x ∷ xs) h = ap (λ l. x ∷ l) (take-take j k xs (omega arith))

  pub take_all : (k : ℕ) (xs : List A) → length xs ≤ k → take k xs ≡ xs
  take_all zero [] h = refl
  take_all zero (x ∷ xs) h = absurd omega arith
  take_all (suc k) [] h = refl
  take_all (suc k) (x ∷ xs) h = ap (λ l. x ∷ l) (take_all k xs (omega arith))

  pub get_some : (i : ℕ) (xs : List A) → i < length xs → (x : A) × (get_elem? xs i ≡ some x)
  get_some i [] h = absurd omega arith
  get_some zero (x ∷ xs) h = (x, refl)
  get_some (suc i) (x ∷ xs) h = get_some i xs (omega arith)

  pub rev-take :
      (k : ℕ) (xs : List A) (x : A)
      → get_elem? xs k ≡ some x
      → rev (take (suc k) xs) ≡ x ∷ rev (take k xs)
  rev-take k [] x e = cc
  rev-take zero (y ∷ ys) x e = let same : y ≡ x = cc in rw same
  rev-take (suc k) (y ∷ ys) x e = ap (λ l. l ++ (y ∷ [])) (rev-take k ys x e)

  get-modify_const :
      (xs : List A) (i : ℕ) (x : A) → i < length xs → get_elem? (modify xs i (λ _. x)) i ≡ some x
  get-modify_const [] i x h = absurd omega arith
  get-modify_const (y ∷ ys) zero x h = refl
  get-modify_const (y ∷ ys) (suc i) x h = get-modify_const ys i x (omega arith)

  length-copies : (x : A) (k : ℕ) → length (copies x k) ≡ k
  length-copies x zero = refl
  length-copies x (suc k) = ap suc (length-copies x k)

-- `m` places before the head, around the start.
abbrev pub back : (size head m : ℕ) → ℕ
back size head m = if leb m head then head - m else head + size - m

-- What a ring holds, newest first.
pub record Holds {ℓ} {A : Type ℓ} (size : ℕ) (r : Ring A) (xs : List A) : Type ℓ where
  pub slots : length r.slots ≡ size
  pub head : r.head < size
  pub count : r.n ≡ length xs
  pub bounded : length xs ≤ size
  pub placed :
      (m : ℕ) → m < length xs → get_elem? r.slots (back size r.head (suc m)) ≡ get_elem? xs m

next_head :
    (size head : ℕ)
    → size < 2 ^ 62
    → head < size
    → rem64 (add64 head 1) size ≡ (if ltb (suc head) size then suc head else 0)
next_head size head b h =
    let e : add64 head 1 ≡ head + 1 = add64_exact head 1 (omega arith) in
    ap (λ x. rem64 x size) e
    ∙ rem64_wrap (head + 1) size (omega arith) (omega arith) (omega arith)
    ∙ ground arith

first_back :
    (size head head' : ℕ)
    → head < size
    → head' ≡ (if ltb (suc head) size then suc head else 0)
    → back size head' 1 ≡ head
first_back size head head' h e = ground arith

later_back :
    (size head head' m : ℕ)
    → head < size
    → suc m < size
    → head' ≡ (if ltb (suc head) size then suc head else 0)
    → (back size head' (suc (suc m)) ≡ back size head (suc m)) × (head ≢ back size head (suc m))
later_back size head head' m h k e = (ground arith, ground arith)

module _ {ℓ} {A : Type ℓ} where
  pub new_ring-Holds : (x : A) (size : ℕ) → 0 < size → Holds size (new_ring x size) []
  unfolding new_ring
  new_ring-Holds x size h = record {
    slots = length-copies x size;
    head = h;
    count = refl;
    bounded = omega arith;
    placed = λ m k. absurd omega (arith, k);
  }

  pub push-Holds :
      (size : ℕ) (x : A) (r : Ring A) (xs : List A)
      → suc size < 2 ^ 62
      → Holds (suc size) r xs
      → Holds (suc size) (push x r) (take (suc size) (x ∷ xs))
  unfolding push
  push-Holds size x r xs b v = record {
    slots = length-modify r.slots r.head (λ _. x) ∙ v.slots;
    head = ground (arith, e);
    count = counted;
    bounded = ground (arith, length-take size xs);
    placed = placed';
  }
    where
      e :
          rem64 (add64 r.head 1) (length r.slots)
          ≡ (if ltb (suc r.head) (suc size) then suc r.head else 0)
      e = ap (λ s. rem64 (add64 r.head 1) s) v.slots ∙ next_head (suc size) r.head b v.head

      counted :
          (if slt r.n (length r.slots) then add64 r.n 1 else r.n) ≡ suc (length (take size xs))
      counted =
          let s : slt r.n (length r.slots) ≡ ltb (length xs) (suc size) =
            ap₂ slt v.count v.slots
            ∙ slt_small (length xs) (suc size) (omega (arith, v.bounded)) (omega arith) in
          let a : add64 r.n 1 ≡ suc (length xs) =
            ap (λ n. add64 n 1) v.count
            ∙ add64_exact (length xs) 1 (omega (arith, v.bounded))
            ∙ omega arith in
          ground (arith, s, a, length-take size xs, v.bounded, v.count)

      placed' :
          (m : ℕ)
          → m < suc (length (take size xs))
          → get_elem?
              (modify r.slots r.head (λ _. x))
              (back (suc size) (rem64 (add64 r.head 1) (length r.slots)) (suc m))
            ≡ get_elem? (x ∷ take size xs) m
      placed' zero h =
          let f = first_back (suc size) r.head _ v.head e in
          ap (get_elem? (modify r.slots r.head (λ _. x))) f
          ∙ get-modify_const r.slots r.head x (omega (arith, v.head, v.slots))
      placed' (suc m) h =
          let short = length-take size xs in
          let within : m < size = ground arith in
          let (f, ne) = later_back (suc size) r.head _ m v.head (omega arith) e in
          ap (get_elem? (modify r.slots r.head (λ _. x))) f
          ∙ get_elem?-modify_ne r.slots r.head _ (λ _. x) ne
          ∙ v.placed m (ground arith)
          ∙ sym (get-take size m xs within)
