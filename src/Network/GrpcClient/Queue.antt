-- ===== src/Network/GrpcClient/Queue.antt =====
-- The two channels of internal/network/grpcClient/client.go.
use eth_mon_svr.Base.{
  ℕ, ◌+◌, ◌-◌, ◌≤◌, ◌<◌, ◌≡◌, min, ap, ◌∙◌, sym, true, List, [], ◌∷◌, ◌++◌, length, drop, arith,
  ltb, Bool-cases, inl, inr, length-append, subst,
}
use mathlib.Core.List.{append_assoc, append-nil}
use eth_mon_svr.Network.GrpcClient.{try_send, send_latest}

-- What happens to a channel: a value is sent to it, or its receiver takes the oldest.
pub data Step {ℓ} (A : Type ℓ) : Type ℓ where
  sends : A → Step A
  receives : Step A

module _ {ℓ} {A : Type ℓ} where
  unfoldable pub step : ℕ → Step A → List A → List A
  step size (sends req) ch = send_latest size req ch
  step size receives ch = drop 1 ch

  unfoldable pub run : ℕ → List (Step A) → List A → List A
  run size [] ch = ch
  run size (s ∷ rest) ch = run size rest (step size s ch)

  -- The values sent, in order.
  unfoldable pub sent : List (Step A) → List A
  sent [] = []
  sent (sends req ∷ rest) = req ∷ sent rest
  sent (receives ∷ rest) = sent rest

  -- How many values wait, counted without the channel: a send adds one up to the size, and a receive
  -- takes one if there is one.
  unfoldable pub held : ℕ → List (Step A) → ℕ → ℕ
  held size [] n = n
  held size (sends req ∷ rest) n = held size rest (min size (n + 1))
  held size (receives ∷ rest) n = held size rest (n - 1)

  -- The channel holds the last `n` of `all`, and no more than its size.
  pub record IsEnd (size n : ℕ) (all ch : List A) : Type ℓ where
    pub before : List A
    pub is_end : before ++ ch ≡ all
    pub count : length ch ≡ n
    pub bounded : n ≤ size

  drop-IsEnd :
      (size n : ℕ) (all ch : List A) → IsEnd size n all ch → IsEnd size (n - 1) all (drop 1 ch)
  drop-IsEnd size n all [] v = record {
    before = v.before;
    is_end = v.is_end;
    count = omega (arith, v.count);
    bounded = omega (arith, v.bounded);
  }
  drop-IsEnd size n all (x ∷ ch) v = record {
    before = v.before ++ x ∷ [];
    is_end = append_assoc v.before (x ∷ []) ch ∙ v.is_end;
    count = omega (arith, v.count);
    bounded = omega (arith, v.bounded);
  }

  grow :
      (size n : ℕ) (all ch : List A) (req : A)
      → n < size
      → IsEnd size n all ch
      → IsEnd size (n + 1) (all ++ req ∷ []) (ch ++ req ∷ [])
  grow size n all ch req lt v = record {
    before = v.before;
    is_end = sym (append_assoc v.before ch (req ∷ [])) ∙ ap (λ xs. xs ++ req ∷ []) v.is_end;
    count = omega (arith, length-append ch (req ∷ []), v.count);
    bounded = omega arith;
  }

  send_latest-IsEnd :
      (size n : ℕ) (all ch : List A) (req : A)
      → 0 < size
      → IsEnd size n all ch
      → IsEnd size (min size (n + 1)) (all ++ req ∷ []) (send_latest size req ch)
  unfolding send_latest try_send
  send_latest-IsEnd size n all ch req pos v = elim (Bool-cases (ltb (length ch) size)) [
    | inl room ↦
        let more : n + 1 ≡ min size (n + 1) = ground (arith, v.count) in
        rw room (
          subst (λ k. IsEnd size k (all ++ req ∷ []) (ch ++ req ∷ [])) more
            (grow size n all ch req (ground (arith, v.count)) v))
    | inr full ↦
        let at_end : n ≡ size = ground (arith, v.count, v.bounded) in
        let same : n - 1 + 1 ≡ min size (n + 1) = ground arith in
        let v' = drop-IsEnd size n all ch v in
        let fits : ltb (length (drop 1 ch)) size ≡ true = ground (arith, v'.count) in
        rw (full, fits)
          (subst (λ k. IsEnd size k (all ++ req ∷ []) (drop 1 ch ++ req ∷ [])) same
            (grow size (n - 1) all (drop 1 ch) req (omega arith) v'))
  ]

  -- A channel of at least one place that holds the last `n` of the values sent so far holds, after any
  -- sends and receives, the last of all values sent, in their order and with no gap, and exactly as many
  -- as the count says, where a send adds one up to the size and a receive takes one: so no value is lost
  -- while there is room, and where the channel is full a send loses the oldest alone.
  pub run-IsEnd :
      (size n : ℕ) (steps : List (Step A)) (all ch : List A)
      → 0 < size
      → IsEnd size n all ch
      → IsEnd size (held size steps n) (all ++ sent steps) (run size steps ch)
  unfolding run step sent held
  run-IsEnd size n [] all ch pos v = record {
    before = v.before;
    is_end = v.is_end ∙ sym (append-nil all);
    count = v.count;
    bounded = v.bounded;
  }
  run-IsEnd size n (sends req ∷ rest) all ch pos v =
      let m = min size (n + 1) in
      subst (λ xs. IsEnd size (held size rest m) xs (run size rest (send_latest size req ch)))
        (append_assoc all (req ∷ []) (sent rest))
        (run-IsEnd size m rest (all ++ req ∷ []) (send_latest size req ch) pos
          (send_latest-IsEnd size n all ch req pos v))
  run-IsEnd size n (receives ∷ rest) all ch pos v =
      run-IsEnd size (n - 1) rest all (drop 1 ch) pos (drop-IsEnd size n all ch v)
