-- ===== src/Ring.antt =====
-- Python's `deque(maxlen=room)`: a list, the oldest first, that loses its oldest entries.
use vendorfake.Prelude.{
  ℕ, ◌-◌, ◌≤◌, ◌≡◌, List, [], ◌∷◌, ◌++◌, arith, length, drop, length-drop, drop_congr, All,
  All-append, All-drop,
}

module _ {ℓ} {A : Type ℓ} where
  -- deque(xs, maxlen=room)
  unfoldable pub of_list : ℕ → List A → List A
  of_list room xs = drop (length xs - room) xs

  -- d.append(x)
  unfoldable pub push : ℕ → List A → A → List A
  unfolding of_list
  push room xs x = of_list room (xs ++ x ∷ [])

  pub length-push-le : (room : ℕ) (xs : List A) (x : A) → length (push room xs x) ≤ room
  unfolding push
  length-push-le room xs x =
      omega (arith, length-drop (length (xs ++ x ∷ []) - room) (xs ++ x ∷ []))

  -- A ring that is full enough for `xs` keeps it as it is.
  pub of_list-fits : (room : ℕ) (xs : List A) → length xs ≤ room → of_list room xs ≡ xs
  unfolding of_list
  of_list-fits room xs h = drop_congr {m = 0} xs (omega arith)

  pub All-push :
      (P : A → Type 0) (room : ℕ) (xs : List A) (x : A) → All P xs → P x → All P (push room xs x)
  unfolding push
  All-push P room xs x h p =
      All-drop P (length (xs ++ x ∷ []) - room) (xs ++ x ∷ []) (All-append P xs (x ∷ []) h (p, tt))
