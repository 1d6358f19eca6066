-- ===== src/Mempool/Stats.antt =====
-- The statistics of `RemoveByReceipts` in internal/mempool/pool.go.
use eth_mon_svr.Base.{
  ℕ, zero, suc, ◌+◌, ◌<◌, ◌≤◌, ◌≡◌, refl, List, [], ◌∷◌, some, ◌==◌, arith, Bool-cases, inl, inr,
  length, get_elem?, set, length-set, get_elem?-of_lt, u32_mod, All, add32, add64, ◌∙◌,
}
use eth_mon_svr.Base.Map
use eth_mon_svr.Base.Map.{Map}
use eth_mon_svr.BlockStore.{FeeBucketStat}
use eth_mon_svr.Mempool.Remove.{count_wait, wait_ind, add_wait, new_stat, stat_of}

abbrev pub sum : List ℕ → ℕ
sum [] = 0
sum (n ∷ l) = n + sum l

sum-set : (l : List ℕ) (i n m : ℕ) → get_elem? l i ≡ some n → sum (set l i m) + n ≡ sum l + m
sum-set [] i n m e = absurd (cc)
sum-set (x ∷ l) zero n m e = let same : x ≡ n = ground arith in omega arith
sum-set (x ∷ l) (suc i) n m e = omega (arith, sum-set l i n m e)

-- 16 slots, whose counts are those of the bucket's transactions.
pub record IsCounted (bound : ℕ) (stat : FeeBucketStat) : Type 0 where
  pub slots : length stat.wait_block_count ≡ 16
  pub each_counted : sum stat.wait_block_count ≡ stat.tx_count
  pub bounded : stat.tx_count ≤ bound

elem-le-sum : (l : List ℕ) (i n : ℕ) → get_elem? l i ≡ some n → n ≤ sum l
elem-le-sum [] i n e = absurd (cc)
elem-le-sum (x ∷ l) zero n e = let same : x ≡ n = ground arith in omega arith
elem-le-sum (x ∷ l) (suc i) n e = omega (arith, elem-le-sum l i n e)

wait_ind-lt : (blocks : ℕ) → wait_ind blocks < 16
unfolding wait_ind
wait_ind-lt blocks = ground arith

-- One more transaction in a bucket: its slot is there, and nothing wraps below 2^32.
pub add_wait-IsCounted :
    (bound blocks seconds : ℕ) (stat : FeeBucketStat)
    → bound + 1 < u32_mod
    → IsCounted bound stat
    → (stat' : FeeBucketStat) × (add_wait blocks seconds stat ≡ some stat')
      × IsCounted (bound + 1) stat'
      × (stat'.tx_count ≡ stat.tx_count + 1)
unfolding add_wait count_wait
add_wait-IsCounted bound blocks seconds stat h c =
    let i = wait_ind blocks in
    let (n, at) =
      get_elem?-of_lt stat.wait_block_count i (omega (arith, wait_ind-lt blocks, c.slots)) in
    let counts = stat.wait_block_count in
    let stat' : FeeBucketStat = record stat {
      tx_count = add32 stat.tx_count 1;
      total_wait_blocks = add64 stat.total_wait_blocks blocks;
      total_wait_seconds = add64 stat.total_wait_seconds seconds;
      wait_block_count = set counts i (add32 n 1);
    } in
    let small = elem-le-sum counts i n at in
    let total = sum-set counts i n (add32 n 1) at in
    (
      stat',
      rw (at, add_wait, count_wait),
      record {
        slots = length-set counts i (add32 n 1) ∙ c.slots;
        each_counted = omega (arith, c.each_counted, c.bounded);
        bounded = omega (arith, c.bounded);
      },
      omega (arith, c.bounded),
    )

-- The transactions counted by all the buckets together.
abbrev pub total_count : Map FeeBucketStat → ℕ
total_count [] = 0
total_count ((b, stat) ∷ stats) = stat.tx_count + total_count stats

-- Every bucket is well counted, under its own number.
abbrev pub AllCounted : ℕ → Map FeeBucketStat → Type 0
AllCounted bound = All λ e. IsCounted bound e.1

pub IsCounted-mono : (m n : ℕ) (stat : FeeBucketStat) → m ≤ n → IsCounted m stat → IsCounted n stat
IsCounted-mono m n stat h c = record {
  slots = c.slots;
  each_counted = c.each_counted;
  bounded = omega (arith, c.bounded);
}

pub AllCounted-mono :
    (m n : ℕ) (stats : Map FeeBucketStat) → m ≤ n → AllCounted m stats → AllCounted n stats
AllCounted-mono m n [] h c = tt
AllCounted-mono m n ((b, stat) ∷ stats) h c =
    (IsCounted-mono m n stat h c.0, AllCounted-mono m n stats h c.1)

pub stat_of-IsCounted :
    (bound b : ℕ) (stats : Map FeeBucketStat)
    → AllCounted bound stats
    → IsCounted bound (stat_of b stats)
unfolding stat_of new_stat Map.get
stat_of-IsCounted bound b [] c = record { slots = refl; each_counted = refl; bounded = omega arith }
stat_of-IsCounted bound b ((j, stat) ∷ stats) c = elim (Bool-cases (j == b)) [
  | inl here ↦ rw (here, stat_of, Map.get) c.0
  | inr later ↦ rw (later, stat_of, Map.get) (stat_of-IsCounted bound b stats c.1)
]

pub put-AllCounted :
    (bound b : ℕ) (stat : FeeBucketStat) (stats : Map FeeBucketStat)
    → IsCounted bound stat
    → AllCounted bound stats
    → AllCounted bound (Map.put b stat stats)
unfolding Map.put
put-AllCounted bound b stat [] c cs = (c, tt)
put-AllCounted bound b stat ((j, w) ∷ stats) c cs = elim (Bool-cases (j == b)) [
  | inl here ↦ rw (here, Map.put) (c, cs.1)
  | inr later ↦ rw (later, Map.put) (cs.0, put-AllCounted bound b stat stats c cs.1)
]

pub total_count-put :
    (b : ℕ) (stat : FeeBucketStat) (stats : Map FeeBucketStat)
    → total_count (Map.put b stat stats) + (stat_of b stats).tx_count
      ≡ total_count stats + stat.tx_count
unfolding Map.put stat_of new_stat Map.get
total_count-put b stat [] = omega arith
total_count-put b stat ((j, w) ∷ stats) = ground (arith, total_count-put b stat stats)
