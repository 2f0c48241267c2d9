-- ===== src/StreamQueue/Maps.antt =====
-- Commands that meet the laws: maps whose keys differ, and a stream whose next ID is above all others.
use node_red_contrib_pod_gat.Prelude.{
  ℕ, suc, ◌-◌, ◌≤◌, ◌≡◌, refl, ◌∙◌, subst, true, false, none, some, List, [], ◌∷◌, Text, text_eq,
  nat_eq, Eq, ◌==◌, if◌then◌else◌, arith, Bool-cases, inl, inr, is_some, max, take, leb,
}
use node_red_contrib_pod_gat.Map.{Map, get, set, delete, get-set, get-delete}
use node_red_contrib_pod_gat.StreamQueue.Commands.{Commands, Laws}
use node_red_contrib_pod_gat.StreamQueue.Store.{Lane, Queue}

abbrev pub size {ℓ} : {A : Type ℓ} → List A → ℕ
size [] = 0
size (x ∷ xs) = suc (size xs)

module _ {K V : Type 0} ⦃e : Eq K⦄ where
  abbrev pub IsUnique : Map K V → Type 0
  IsUnique [] = Unit {0}
  IsUnique ((k, v) ∷ m) = (get m k ≡ none) × IsUnique m

  pub IsUnique-set : (m : Map K V) (k : K) (v : V) → IsUnique m → IsUnique (set m k v)
  unfolding set get
  IsUnique-set [] k v u = (refl, tt)
  IsUnique-set ((j, w) ∷ m) k v u = elim (Bool-cases (j == k)) [
    | inl s ↦ rw s (subst (λ i. get m i ≡ none) ((e.beq_iff j k).0 s) u.0, u.1)
    | inr s ↦ rw s (rw (get-set m k j v) (other s u.0), IsUnique-set m k v u.1)
  ]
    where
      other : (j == k) ≡ false → get m j ≡ none → (if k == j then some v else get m j) ≡ none
      other s g = ground (arith, e.beq_iff k j, e.beq_iff j k, s, g)

  pub IsUnique-delete : (m : Map K V) (k : K) → IsUnique m → IsUnique (delete m k)
  unfolding delete get
  IsUnique-delete [] k u = tt
  IsUnique-delete ((j, w) ∷ m) k u = elim (Bool-cases (j == k)) [
    | inl s ↦ rw s (IsUnique-delete m k u.1)
    | inr s ↦ rw s (rw (get-delete m k j, u.0) (ground arith), IsUnique-delete m k u.1)
  ]

  size-set :
      (m : Map K V) (k : K) (v : V)
      → size (set m k v) ≡ (if is_some (get m k) then size m else suc (size m))
  unfolding set get
  size-set [] k v = refl
  size-set ((j, w) ∷ m) k v = ground (arith, size-set m k v)

  delete-absent : (m : Map K V) (k : K) → get m k ≡ none → delete m k ≡ m
  unfolding delete get
  delete-absent [] k g = refl
  delete-absent ((j, w) ∷ m) k g = elim (Bool-cases (j == k)) [
    | inl s ↦ absurd (cc (rw s at g))
    | inr s ↦ rw (s, delete-absent m k (rw s at g)) refl
  ]

  size-delete :
      (m : Map K V) (k : K)
      → IsUnique m
      → size m ≡ (if is_some (get m k) then suc (size (delete m k)) else size (delete m k))
  unfolding delete get
  size-delete [] k u = refl
  size-delete ((j, w) ∷ m) k u = elim (Bool-cases (j == k)) [
    | inl s ↦
        let gone = subst (λ i. get m i ≡ none) ((e.beq_iff j k).0 s) u.0 in
        rw (s, delete-absent m k gone) refl
    | inr s ↦ rw s (ground (arith, size-delete m k u.1))
  ]

-- Above every key.
abbrev pub next_id {ℓ} : {V : Type ℓ} → Map ℕ V → ℕ
next_id [] = 0
next_id ((k, v) ∷ m) = max (suc k) (next_id m)

get-above {ℓ} : {V : Type ℓ} (m : Map ℕ V) (n : ℕ) → next_id m ≤ n → get m n ≡ none
unfolding get
get-above [] n h = refl
get-above ((k, v) ∷ m) n h = ground (arith, h, get-above m n)

abbrev pub due_keys : Map Text ℕ → ℕ → List Text
due_keys [] now = []
due_keys ((k, at) ∷ m) now = let rest = due_keys m now in if leb at now then k ∷ rest else rest

abbrev pub maps : Commands
maps = record {
  Counter = ℕ;
  count = λ c. c;
  incr = λ c. suc c;
  decr = λ c. c - 1;
  SortedSet = (m : Map Text ℕ) × IsUnique m;
  card = λ z. size z.0;
  zscore = λ z k. get z.0 k;
  zadd = λ z n k. (set z.0 k n, IsUnique-set z.0 k n z.1);
  zrem = λ z k. (delete z.0 k, IsUnique-delete z.0 k z.1);
  zrange_by_score = λ z now n. take n (due_keys z.0 now);
  Hash = Map Text Text;
  hget = get;
  hset = set;
  hdel = delete;
  Stream = (m : Map ℕ Text) × IsUnique m;
  unacked = λ s n. get s.0 n;
  waiting = λ s. size s.0;
  xadd = λ s v. (next_id s.0, (set s.0 (next_id s.0) v, IsUnique-set s.0 (next_id s.0) v s.1));
  xack = λ s n. (delete s.0 n, IsUnique-delete s.0 n s.1);
  xdel = λ s n. (1, s);
}

pub maps-Laws : Laws maps
maps-Laws = record {
  count-incr = λ c. refl;
  count-decr = λ c n h. omega (arith, h);
  zscore-zadd = λ z n k j. get-set z.0 k j n;
  zscore-zrem = λ z k j. get-delete z.0 k j;
  card-zadd = λ z n k. size-set z.0 k n;
  card-zrem = λ z k. size-delete z.0 k z.1;
  hget-hset = λ h k j v. get-set h k j v;
  hget-hdel = λ h k j. get-delete h k j;
  unacked-xadd = λ s v. rw (get-set s.0 (next_id s.0) (next_id s.0) v) (ground (arith));
  waiting-xadd =
      λ s v. size-set s.0 (next_id s.0) v ∙ rw (get-above s.0 (next_id s.0) (omega arith)) refl;
  unacked-xack = λ s n. rw (get-delete s.0 n n) (ground (arith));
  waiting-xack = λ s n. size-delete s.0 n s.1;
  waiting-xdel = λ s n h. refl;
}

abbrev pub no_lane : Lane maps
no_lane = record { stream = ([], tt); retry = ([], tt); payloads = [] }

abbrev pub empty_queue : Queue maps
empty_queue = record {
  depth = 0;
  normal = no_lane;
  bulk = no_lane;
  client_ready = true;
  command_ready = true;
  max_queue_size = 10;
  retry_batch_size = 16;
  delete_on_ack = true;
  counters = record {
    stream_xadd = 0;
    delayed_scheduled = 0;
    delayed_promoted = 0;
    acknowledged = 0;
    deleted = 0;
  };
}
