-- ===== src/StreamQueue/Commands.antt =====
-- The commands of Redis that the queue sends, as a parameter: what a key holds and what a command makes
-- of it, and what Redis documents of them.
use node_red_contrib_pod_gat.Prelude.{
  ℕ, suc, ◌≡◌, Option, none, some, Text, List, text_eq, ◌==◌, is_some, if◌then◌else◌,
}

pub record Commands : Type 1 where
  -- A counter, `INCR` and `DECR`.
  pub Counter : Type 0
  pub count : Counter → ℕ
  pub incr : Counter → Counter
  pub decr : Counter → Counter
  -- A sorted set, `ZSCORE`, `ZADD` and `ZREM`; `ZRANGEBYSCORE` from `-inf` with a limit.
  pub SortedSet : Type 0
  pub card : SortedSet → ℕ
  pub zscore : SortedSet → Text → Option ℕ
  pub zadd : SortedSet → ℕ → Text → SortedSet
  pub zrem : SortedSet → Text → SortedSet
  pub zrange_by_score : SortedSet → ℕ → ℕ → List Text
  -- A hash, `HGET`, `HSET` and `HDEL`.
  pub Hash : Type 0
  pub hget : Hash → Text → Option Text
  pub hset : Hash → Text → Text → Hash
  pub hdel : Hash → Text → Hash
  -- A stream and the group of its consumers: the entries that are not acknowledged, their number, `XADD`
  -- with the ID that it gives, `XACK`, and `XDEL` with the number of entries that it removes.
  pub Stream : Type 0
  pub unacked : Stream → ℕ → Option Text
  pub waiting : Stream → ℕ
  pub xadd : Stream → Text → ℕ × Stream
  pub xack : Stream → ℕ → Stream
  pub xdel : Stream → ℕ → ℕ × Stream

pub record Laws (r : Commands) : Type 0 where
  pub count-incr : (c : r.Counter) → r.count (r.incr c) ≡ suc (r.count c)
  pub count-decr : (c : r.Counter) (n : ℕ) → r.count c ≡ suc n → r.count (r.decr c) ≡ n
  pub zscore-zadd :
      (z : r.SortedSet) (n : ℕ) (k j : Text)
      → r.zscore (r.zadd z n k) j ≡ (if k == j then some n else r.zscore z j)
  pub zscore-zrem :
      (z : r.SortedSet) (k j : Text)
      → r.zscore (r.zrem z k) j ≡ (if k == j then none else r.zscore z j)
  pub card-zadd :
      (z : r.SortedSet) (n : ℕ) (k : Text)
      → r.card (r.zadd z n k) ≡ (if is_some (r.zscore z k) then r.card z else suc (r.card z))
  pub card-zrem :
      (z : r.SortedSet) (k : Text)
      → r.card z
        ≡ (if is_some (r.zscore z k) then suc (r.card (r.zrem z k)) else r.card (r.zrem z k))
  pub hget-hset :
      (h : r.Hash) (k j : Text) (v : Text)
      → r.hget (r.hset h k v) j ≡ (if k == j then some v else r.hget h j)
  pub hget-hdel :
      (h : r.Hash) (k j : Text) → r.hget (r.hdel h k) j ≡ (if k == j then none else r.hget h j)
  pub unacked-xadd : (s : r.Stream) (v : Text) → r.unacked (r.xadd s v).1 (r.xadd s v).0 ≡ some v
  pub waiting-xadd : (s : r.Stream) (v : Text) → r.waiting (r.xadd s v).1 ≡ suc (r.waiting s)
  pub unacked-xack : (s : r.Stream) (n : ℕ) → r.unacked (r.xack s n) n ≡ none
  pub waiting-xack :
      (s : r.Stream) (n : ℕ)
      → r.waiting s
        ≡ (if is_some (r.unacked s n) then suc (r.waiting (r.xack s n)) else r.waiting (r.xack s n))
  pub waiting-xdel :
      (s : r.Stream) (n : ℕ) → r.unacked s n ≡ none → r.waiting (r.xdel s n).1 ≡ r.waiting s
