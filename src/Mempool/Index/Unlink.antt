-- ===== src/Mempool/Index/Unlink.antt =====
-- Taking one transaction out of all three indexes, and moving one within a bucket.
use eth_mon_svr.Base.{ℕ, ◌≡◌, ◌≢◌, Option, some, none, pos, ◌==◌, ◌&&◌, if◌then◌else◌, arith}
use eth_mon_svr.Mempool.Types.{PendingTx, Ref, set_expire_index}
use eth_mon_svr.Mempool.Index.{Indexed}

abbrev pub without : ℕ → (ℕ → Option Ref) → ℕ → Option Ref
without h H k = if h == k then none else H k

abbrev pub without_at : ℕ → ℕ → (ℕ → ℕ → Option Ref) → ℕ → ℕ → Option Ref
without_at a n S b k = if (a == b) && (n == k) then none else S b k

abbrev pub with_at : ℕ → ℕ → Ref → (ℕ → ℕ → Option Ref) → ℕ → ℕ → Option Ref
with_at a n r S b k = if (a == b) && (n == k) then some r else S b k

module _ {identity : ℕ → ℕ × ℕ} {heap : Ref → PendingTx} {next : Ref} {H : ℕ → Option Ref}
    {S B : ℕ → ℕ → Option Ref} (v : Indexed identity heap next H S B) where
  -- Where a transaction stands in the buckets.
  listed_at :
      (h r i : ℕ)
      → H h ≡ some r
      → (heap r).expire_index ≡ pos i
      → B (heap r).expire_block i ≡ some r
  listed_at h r i live at =
      let (j, here, listed) = v.hashed_listed h r live in
      let same : j ≡ i = ground arith in rw same at listed

  kept : (r h q : ℕ) → without (heap r).hash H h ≡ some q → (H h ≡ some q) × ((heap r).hash ≢ h)
  kept r h q e = (ground arith, ground arith)

  pub unlink-Indexed :
      (r i : ℕ)
      → H (heap r).hash ≡ some r
      → (heap r).expire_index ≡ pos i
      → Indexed identity heap next
          (without (heap r).hash H)
          (without_at (heap r).from (heap r).nonce S)
          (without_at (heap r).expire_block i B)
  unlink-Indexed r i live at = record {
    hashed = λ h q e. grind (arith, v.hashed);
    allocated = λ h q e. grind (arith, v.allocated);
    hashed_stored = λ h q e. grind (arith, v.hashed_stored, v.hashed, v.stored_hashed);
    hashed_listed = λ h q e.
        let (live', other) = kept r h q e in
        let (j, here, listed) = v.hashed_listed h q live' in
        (j, here, ground (arith, listed_at _ r i live at, v.hashed h q live'));
    committed = λ h q e. grind (arith, v.committed);
    stored_from = λ a n q e. grind (arith, v.stored_from);
    stored_nonce = λ a n q e. grind (arith, v.stored_nonce);
    stored_hashed =
        λ a n q e. ground (arith, v.stored_hashed a n q, v.stored_from a n q, v.stored_nonce a n q);
    listed_block = λ b j q e. grind (arith, v.listed_block);
    listed_index = λ b j q e. grind (arith, v.listed_index);
    listed_hashed = λ b j q e.
        ground (arith, v.listed_hashed b j q, v.listed_block b j q, v.listed_index b j q);
  }

  -- The element at `last` moves into a hole at `i`, and its index is corrected.
  pub move-Indexed :
      (m b i last : ℕ)
      → B b last ≡ some m
      → B b i ≡ none
      → Indexed identity
          (set_expire_index m (pos i) heap)
          next
          H
          S
          (with_at b i m (without_at b last B))
  unfolding set_expire_index
  move-Indexed m b i last at hole = record {
    hashed = λ h q e. ground (arith, v.hashed h q);
    allocated = λ h q e. v.allocated h q e;
    hashed_stored = λ h q e. ground (arith, v.hashed_stored h q);
    hashed_listed = λ h q e.
        let (j, here, listed) = v.hashed_listed h q e in
        let mine = v.listed_index b last m at in
        let block = v.listed_block b last m at in
        ((if m == q then i else j), ground arith, ground arith);
    committed = λ h q e. ground (arith, v.committed h q);
    stored_from = λ a n q e. ground (arith, v.stored_from a n q);
    stored_nonce = λ a n q e. ground (arith, v.stored_nonce a n q);
    stored_hashed = λ a n q e. ground (arith, v.stored_hashed a n q);
    listed_block = λ c j q e. ground (arith, v.listed_block c j q, v.listed_block b last m);
    listed_index = λ c j q e. ground (
      arith,
      v.listed_index c j q,
      v.listed_index b last m,
      v.listed_block c j q,
      v.listed_block b last m,
    );
    listed_hashed = λ c j q e. ground (arith, v.listed_hashed c j q, v.listed_hashed b last m);
  }
