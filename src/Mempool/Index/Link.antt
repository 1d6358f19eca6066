-- ===== src/Mempool/Index/Link.antt =====
-- Entering a new object into all three indexes.
use eth_mon_svr.Base.{
  ℕ, suc, ◌≡◌, Option, some, none, pos, ◌==◌, if◌then◌else◌, arith, Option-cases, Bool-cases, inl,
  inr, ◌∙◌, ap, sym,
}
use eth_mon_svr.Mempool.Types.{PendingTx, Ref}
use eth_mon_svr.Mempool.Index.{Indexed}
use eth_mon_svr.Mempool.Index.Unlink.{with_at}

abbrev pub allocate : Ref → PendingTx → (Ref → PendingTx) → Ref → PendingTx
allocate r tx heap q = if r == q then tx else heap q

abbrev pub with_key : ℕ → Ref → (ℕ → Option Ref) → ℕ → Option Ref
with_key h r H k = if h == k then some r else H k

module _ {identity : ℕ → ℕ × ℕ} {heap : Ref → PendingTx} {next : Ref} {H : ℕ → Option Ref}
    {S B : ℕ → ℕ → Option Ref} (v : Indexed identity heap next H S B) where
  -- A hash that commits to a sender and nonce with nothing stored is not in the hash index.
  pub hash_is_new :
      (tx : PendingTx)
      → identity tx.hash ≡ (tx.from, tx.nonce)
      → S tx.from tx.nonce ≡ none
      → H tx.hash ≡ none
  hash_is_new tx known vacant = elim (Option-cases (H tx.hash)) [
    | inl e ↦ e
    | inr (q, e) ↦
        let same = sym (v.committed tx.hash q e) ∙ known in
        let from = ap (λ (p : ℕ × ℕ). p.0) same in
        let nonce = ap (λ (p : ℕ × ℕ). p.1) same in
        absurd (cc (v.hashed_stored tx.hash q e, from, nonce, vacant))
  ]

  pub link-Indexed :
      (tx : PendingTx) (i : ℕ)
      → tx.expire_index ≡ pos i
      → identity tx.hash ≡ (tx.from, tx.nonce)
      → S tx.from tx.nonce ≡ none
      → B tx.expire_block i ≡ none
      → Indexed identity
          (allocate next tx heap)
          (suc next)
          (with_key tx.hash next H)
          (with_at tx.from tx.nonce next S)
          (with_at tx.expire_block i next B)
  link-Indexed tx i at known vacant free =
      let new = hash_is_new tx known vacant in
      record {
        hashed = λ h q e. ground (arith, v.hashed h q, v.allocated h q);
        allocated = λ h q e. ground (arith, v.allocated h q);
        hashed_stored = λ h q e. ground (arith, v.hashed_stored h q, v.allocated h q);
        hashed_listed = λ h q e. elim (Bool-cases (tx.hash == h)) [
          | inl same ↦ (i, ground arith, ground arith)
          | inr other ↦
              let live : H h ≡ some q = ground arith in
              let (j, here, listed) = v.hashed_listed h q live in
              let below = v.allocated h q live in (j, ground arith, ground arith)
        ];
        committed = λ h q e. ground (arith, v.committed h q, v.allocated h q);
        stored_from = λ a n q e.
            ground (arith, v.stored_from a n q, v.stored_hashed a n q, v.allocated (heap q).hash q);
        stored_nonce = λ a n q e.
            ground
              (arith, v.stored_nonce a n q, v.stored_hashed a n q, v.allocated (heap q).hash q);
        stored_hashed =
            λ a n q e. ground (arith, v.stored_hashed a n q, v.allocated (heap q).hash q);
        listed_block = λ c j q e.
            ground
              (arith, v.listed_block c j q, v.listed_hashed c j q, v.allocated (heap q).hash q);
        listed_index = λ c j q e.
            ground
              (arith, v.listed_index c j q, v.listed_hashed c j q, v.allocated (heap q).hash q);
        listed_hashed =
            λ c j q e. ground (arith, v.listed_hashed c j q, v.allocated (heap q).hash q);
      }
