-- ===== src/Serve/History/Snapshot.antt =====
-- serve/history.go: snapshot, of all that was recorded and noted.
use fpm_tune.Common.{
  ℕ, zero, suc, ◌+◌, ◌-◌, ◌^◌, ◌≤◌, ◌<◌, ◌≡◌, refl, sym, ap, ap₂, subst, ◌∙◌, ◌&&◌, List, [], ◌∷◌,
  some, if◌then◌else◌, length, get_elem?, take, ltb, ltb→lt, ltb→ge, Bool-cases, inl, inr, arith,
}
use fpm_tune.Common.Word.{add64, add64_exact, sub64, slt, slt_small, rem64, rem64_wrap}
use fpm_tune.Common.Float.{Float}
use fpm_tune.Serve.History.{
  Ring, new_ring, push, at_place, read_from, copy_out, HistorySample, HistoryEvent, History,
  no_sample, empty_event, history_events, new_history, record_sample, event, snapshot,
}
use fpm_tune.Serve.History.Newest.{
  rev, take-take, take_all, get_some, rev-take, back, Holds, new_ring-Holds, push-Holds,
}

-- Where snapshot starts, and the place of its i-th element.
start_back :
    (size head k : ℕ)
    → size < 2 ^ 62
    → head < size
    → 0 < k
    → k ≤ size
    → rem64 (add64 (sub64 head k) size) size ≡ back size head k
unfolding add64 sub64
start_back size head k b h p q =
    let e : add64 (sub64 head k) size ≡ head + size - k = omega arith in
    ap (λ x. rem64 x size) e
    ∙ rem64_wrap (head + size - k) size (omega arith) (omega arith) (omega arith)
    ∙ ground arith

place_back :
    (size head i c : ℕ)
    → size < 2 ^ 62
    → head < size
    → i + suc c ≤ size
    → rem64 (add64 (back size head (i + suc c)) i) size ≡ back size head (suc c)
place_back size head i c b h q =
    let small : back size head (i + suc c) < size = ground arith in
    let e : add64 (back size head (i + suc c)) i ≡ back size head (i + suc c) + i =
      add64_exact (back size head (i + suc c)) i (omega (arith, small)) in
    ap (λ x. rem64 x size) e
    ∙ rem64_wrap (back size head (i + suc c) + i) size (omega (arith, small)) (omega arith)
        (omega (arith, small))
    ∙ ground arith

module _ {ℓ} {A : Type ℓ} where
  read_from-rev :
      (size : ℕ) (r : Ring A) (xs : List A) (start i c : ℕ)
      → size < 2 ^ 62
      → Holds size r xs
      → i + c ≤ length xs
      → (0 < c → start ≡ back size r.head (i + c))
      → read_from r.slots start i c ≡ rev (take c xs)
  unfolding read_from
  read_from-rev size r xs start i zero b v h s = refl
  read_from-rev size r xs start i (suc c) b v h s =
      let (x, e) = get_some c xs (omega arith) in
      let here : get_elem? r.slots (rem64 (add64 start i) (length r.slots)) ≡ some x =
        ap₂ (λ a n. get_elem? r.slots (rem64 (add64 a i) n)) (s (omega arith)) v.slots
        ∙ ap (get_elem? r.slots) (place_back size r.head i c b v.head (omega (arith, v.bounded)))
        ∙ v.placed c (omega arith)
        ∙ e in
      let later : read_from r.slots start (suc i) c ≡ rev (take c xs) =
        read_from-rev size r xs start (suc i) c b v (omega arith)
          (λ p. s (omega arith) ∙ ap (back size r.head) (omega arith)) in
      ap₂ at_place here later ∙ sym (rev-take c xs x e)

  copy_out-rev :
      (size k : ℕ) (r : Ring A) (xs : List A)
      → size < 2 ^ 62
      → Holds size r xs
      → k ≤ length xs
      → copy_out k r ≡ rev (take k xs)
  unfolding copy_out
  copy_out-rev size k r xs b v h = read_from-rev size r xs _ 0 k b v (omega arith) (λ p.
      ap (λ n. rem64 (add64 (sub64 r.head k) n) n) v.slots
      ∙ start_back size r.head k b v.head p (omega (arith, v.bounded))
      ∙ ap (back size r.head) (omega arith))

  -- All that was pushed, the newest first.
  abbrev pushed : A → ℕ → List A → Ring A
  pushed empty size [] = new_ring empty size
  pushed empty size (x ∷ xs) = push x (pushed empty size xs)

  pushed-Holds :
      (empty : A) (size : ℕ) (xs : List A)
      → suc size < 2 ^ 62
      → Holds (suc size) (pushed empty (suc size) xs) (take (suc size) xs)
  pushed-Holds empty size [] b = new_ring-Holds empty (suc size) (omega arith)
  pushed-Holds empty size (x ∷ xs) b =
      subst (λ l. Holds (suc size) (push x (pushed empty (suc size) xs)) (x ∷ l))
        (take-take size (suc size) xs (omega arith))
        (push-Holds size x (pushed empty (suc size) xs) (take (suc size) xs) b
          (pushed-Holds empty size xs b))

  ring-Holds :
      (empty : A) (size : ℕ) (xs : List A)
      → 0 < size
      → size < 2 ^ 62
      → Holds size (pushed empty size xs) (take size xs)
  ring-Holds empty zero xs p b = absurd omega (arith, p)
  ring-Holds empty (suc size) xs p b = pushed-Holds empty size xs b

  -- The newest `last` of a list, and all of it where that is 0.
  abbrev pub newest : (last : ℕ) → List A → List A
  newest last xs = if ltb 0 last then take last xs else xs

  take-newest :
      (last : ℕ) (xs : List A)
      → last < 2 ^ 63
      → length xs < 2 ^ 63
      → let k = if slt 0 last && slt last (length xs) then last else length xs in
        (take k xs ≡ newest last xs) × (k ≤ length xs)
  take-newest last xs h b =
      let p = slt_small 0 last (omega arith) h in
      let q = slt_small last (length xs) h b in
      elim (Bool-cases (ltb 0 last)) [
        | inr f ↦ rw (p, f) (take_all (length xs) xs (omega arith), omega arith)
        | inl t ↦ elim (Bool-cases (ltb last (length xs))) [
          | inl u ↦ rw (p, q, t, u) (refl, omega (arith, ltb→lt _ _ u))
          | inr g ↦
              rw (p, q, t, g)
                (
                  take_all (length xs) xs (omega arith) ∙ sym (take_all last xs (ltb→ge _ _ g)),
                  omega arith,
                )
        ]
      ]

-- The size of the ring of samples.
abbrev pub capacity : ℕ → ℕ
capacity rounds = if ltb rounds 2 then 2 else rounds

-- What a loop has put into its history, the newest first.
pub data Entry (fl : Float) : Type 0 where
  sampled : HistorySample fl → Entry fl
  noted : HistoryEvent → Entry fl

module _ {fl : Float} where
  abbrev pub history_of : (rounds interval : ℕ) → List (Entry fl) → History fl
  history_of rounds interval [] = new_history rounds interval
  history_of rounds interval (sampled s ∷ es) = record_sample s (history_of rounds interval es)
  history_of rounds interval (noted e ∷ es) = event e (history_of rounds interval es)

  abbrev pub samples_of : List (Entry fl) → List (HistorySample fl)
  samples_of [] = []
  samples_of (sampled s ∷ es) = s ∷ samples_of es
  samples_of (noted e ∷ es) = samples_of es

  abbrev pub events_of : List (Entry fl) → List HistoryEvent
  events_of [] = []
  events_of (sampled s ∷ es) = events_of es
  events_of (noted e ∷ es) = e ∷ events_of es

  history_of-rings :
      (rounds interval : ℕ) (es : List (Entry fl))
      → rounds < 2 ^ 62
      → ((history_of rounds interval es).samples
          ≡ pushed no_sample (capacity rounds) (samples_of es))
        × ((history_of rounds interval es).events
            ≡ pushed empty_event history_events (events_of es))
  unfolding new_history record_sample event
  history_of-rings rounds interval [] b = (
    ap (λ c. new_ring no_sample (if c then 2 else rounds))
        (slt_small rounds 2 (omega arith) (omega arith)),
    refl,
  )
  history_of-rings rounds interval (sampled s ∷ es) b =
      let (a, c) = history_of-rings rounds interval es b in (ap (push s) a, c)
  history_of-rings rounds interval (noted e ∷ es) b =
      let (a, c) = history_of-rings rounds interval es b in (a, ap (push e) c)

  -- After any sequence of rounds and events, snapshot gives the newest rounds that the ring has room
  -- for, no more than `last` of them where that is not 0, and the newest thousand events, the oldest
  -- first each. The size and `last` are not negative, and the ring has fewer than 2 ^ 62 places.
  pub snapshot-newest :
      (rounds interval last : ℕ) (es : List (Entry fl))
      → rounds < 2 ^ 62
      → last < 2 ^ 63
      → snapshot last (history_of rounds interval es) ≡ (
        rev (newest last (take (capacity rounds) (samples_of es))),
        rev (take history_events (events_of es)),
      )
  unfolding snapshot
  snapshot-newest rounds interval last es b l =
      let (a, c) = history_of-rings rounds interval es b in
      let held = take (capacity rounds) (samples_of es) in
      let kept = take history_events (events_of es) in
      let v : Holds (capacity rounds) (history_of rounds interval es).samples held =
        subst (λ r. Holds (capacity rounds) r held) (sym a)
          (ring-Holds no_sample (capacity rounds) (samples_of es) (ground arith) (ground arith)) in
      let w : Holds history_events (history_of rounds interval es).events kept =
        subst (λ r. Holds history_events r kept) (sym c)
          (ring-Holds empty_event history_events (events_of es) (omega arith) (omega arith)) in
      let room : capacity rounds < 2 ^ 62 = ground arith in
      let (t, k) = take-newest last held l (omega (arith, v.bounded, room)) in
      ap₂ (λ x y. (x, y))
        (ap
            (λ n.
              copy_out (if slt 0 last && slt last n then last else n)
                (history_of rounds interval es).samples)
            v.count
          ∙ copy_out-rev (capacity rounds) _ (history_of rounds interval es).samples held room v k
          ∙ ap rev t)
        (ap (λ n. copy_out n (history_of rounds interval es).events) w.count
          ∙ copy_out-rev history_events (length kept) (history_of rounds interval es).events kept
              (omega arith) w (omega arith)
          ∙ ap rev (take_all (length kept) kept (omega arith)))
