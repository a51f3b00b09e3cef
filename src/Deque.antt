-- ===== src/Deque.antt =====
-- A Python `deque(maxlen=n)` as the list of its items, oldest first: an append to a full one drops
-- the oldest item. The ring buffers of control.py and timeseries.py are such deques.
use mathlib.Core.List.{append-nil, append_assoc}
use pv_inverter_master.Base.{
  ℕ, zero, suc, ◌+◌, ◌-◌, ◌≤◌, ◌≡◌, refl, sym, ap, ◌∙◌, List, [], ◌∷◌, ◌++◌, arith, length, drop,
  length-append, length-drop,
}

module _ {ℓ} {A : Type ℓ} where
  unfoldable pub push : ℕ → A → List A → List A
  push maxlen x xs = let all = xs ++ x ∷ [] in drop (length all - maxlen) all

  unfoldable pub push_all : ℕ → List A → List A → List A
  push_all maxlen [] xs = xs
  push_all maxlen (y ∷ ys) xs = push_all maxlen ys (push maxlen y xs)

  pub length-push : (maxlen : ℕ) (x : A) (xs : List A) → length (push maxlen x xs) ≤ maxlen
  unfolding push
  length-push maxlen x xs =
      omega (arith, length-drop (length (xs ++ x ∷ []) - maxlen) (xs ++ x ∷ []))

  drop-nil : (n : ℕ) → drop {A = A} n [] ≡ []
  drop-nil zero = refl
  drop-nil (suc n) = refl

  drop-drop : (m n : ℕ) (xs : List A) → drop m (drop n xs) ≡ drop (n + m) xs
  drop-drop m zero xs = let e : zero + m ≡ m = omega arith in rw e
  drop-drop m (suc n) [] = drop-nil m ∙ sym (drop-nil (suc n + m))
  drop-drop m (suc n) (x ∷ xs) =
      let e : suc n + m ≡ suc (n + m) = omega arith in rw e (drop-drop m n xs)

  pub drop-append : (k : ℕ) (xs ys : List A) → k ≤ length xs → drop k xs ++ ys ≡ drop k (xs ++ ys)
  drop-append zero xs ys h = refl
  drop-append (suc k) [] ys h = absurd (omega arith)
  drop-append (suc k) (x ∷ xs) ys h = drop-append k xs ys (omega arith)

  -- One push, with what is pushed after it: `over` items are dropped from the front.
  push-append :
      (maxlen : ℕ) (y : A) (ys xs : List A)
      → push maxlen y xs ++ ys ≡ drop (length (xs ++ y ∷ []) - maxlen) (xs ++ y ∷ ys)
  unfolding push
  push-append maxlen y ys xs =
      drop-append (length (xs ++ y ∷ []) - maxlen) (xs ++ y ∷ []) ys (omega arith)
      ∙ ap (drop (length (xs ++ y ∷ []) - maxlen)) (append_assoc xs (y ∷ []) ys)

  suffix_shift :
      (maxlen : ℕ) (y : A) (ys xs : List A)
      → drop (length (push maxlen y xs ++ ys) - maxlen) (push maxlen y xs ++ ys)
        ≡ drop (length (xs ++ y ∷ ys) - maxlen) (xs ++ y ∷ ys)
  suffix_shift maxlen y ys xs =
      let over : ℕ = length (xs ++ y ∷ []) - maxlen in
      let all : List A = xs ++ y ∷ ys in
      let rest : ℕ = length (drop over all) - maxlen in
      let e : over + rest ≡ length all - maxlen = omega (
        arith,
        length-drop over all,
        length-append {ℓ} xs (y ∷ []),
        length-append {ℓ} xs (y ∷ ys),
      ) in
      rw (push-append maxlen y ys xs) (drop-drop rest over all ∙ ap (λ k. drop k all) e)

  -- From a deque that is within its bound, any number of appends leave the last `maxlen` of all
  -- the items, those that were there and those appended, in order.
  pub push_all-suffix :
      (maxlen : ℕ) (ys xs : List A)
      → length xs ≤ maxlen
      → push_all maxlen ys xs ≡ drop (length (xs ++ ys) - maxlen) (xs ++ ys)
  unfolding push_all
  push_all-suffix maxlen [] xs h =
      let none_over : length (xs ++ []) - maxlen ≡ 0 = omega (arith, length-append {ℓ} xs []) in
      rw (none_over, append-nil)
  push_all-suffix maxlen (y ∷ ys) xs h =
      push_all-suffix maxlen ys (push maxlen y xs) (length-push maxlen y xs)
      ∙ suffix_shift maxlen y ys xs
