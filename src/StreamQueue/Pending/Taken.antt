-- ===== src/StreamQueue/Pending/Taken.antt =====
-- What is taken for a POD.
use node_red_contrib_pod_gat.Prelude.{
  ◌≡◌, refl, ap, ◌∙◌, ◌&&◌, if◌then◌else◌, Option, some, List, [], ◌∷◌, ◌++◌, String, Text, text_eq,
  string_eq, ◌==◌, Bool-cases, Option-cases, inl, inr, eq_iff,
}
use node_red_contrib_pod_gat.Map.{Map, get, values}
use node_red_contrib_pod_gat.StreamQueue.Pending.{
  Hashes, HashLaws, Format, readable, result_ttl_of, result_ttl_of-positive, store_pending_result,
  remove_pending_result, read_pending_results, drop_pending_results, taken_results, Event, stores,
  removes, drops, lapses, step, run, IsOtherRun,
}

-- A list with `x` in it, by what stands before and behind.
pub record Within {ℓ} {A : Type ℓ} (x : A) (xs : List A) : Type ℓ where
  pub before : List A
  pub behind : List A
  pub split : xs ≡ before ++ x ∷ behind

module _ {ℓ} {C : Type ℓ} where
  get-Within : (m : Map String C) (k : String) (v : C) → get m k ≡ some v → Within v (values m)
  unfolding get
  get-Within [] k v e = absurd (cc e)
  get-Within ((j, w) ∷ m) k v e = elim (Bool-cases (j == k)) [
    | inl t ↦
        let same : some w ≡ some v = rw t at e in
        record {
          before = [];
          behind = values m;
          split = ap (λ x. x ∷ values m) (injective w v same);
        }
    | inr t ↦
        let rest = get-Within m k v (rw t at e) in
        record {
          before = w ∷ rest.before;
          behind = rest.behind;
          split = ap (λ xs. w ∷ xs) rest.split;
        }
  ]
    where
      injective : (x y : C) → some x ≡ some y → x ≡ y
      injective x y e = cc e

module _ {ℓ κ} {C : Type ℓ} {R : Type κ} (read : C → Option R) where
  readable-append :
      (xs ys : List C) → readable read (xs ++ ys) ≡ readable read xs ++ readable read ys
  unfolding readable
  readable-append [] ys = refl
  readable-append (x ∷ xs) ys = elim (Option-cases (read x)) [
    | inl e ↦ rw (e, readable) (readable-append xs ys)
    | inr (y, e) ↦ rw (e, readable) (ap (λ zs. y ∷ zs) (readable-append xs ys))
  ]

  readable-Within :
      (v : C) (x : R) (vs : List C) → read v ≡ some x → Within v vs → Within x (readable read vs)
  unfolding readable
  readable-Within v x vs e w = record {
    before = readable read w.before;
    behind = readable read w.behind;
    split =
        ap (readable read) w.split
        ∙ readable-append w.before (v ∷ w.behind)
        ∙ rw (readable, e) refl;
  }

module _ {R : Type 0} (s : Hashes) (laws : HashLaws s) (c : Format s R) where
  -- What is stored, at every field.
  pub hget-store :
      (ks : s.Keys) (pod id : String) (response : R) (j : Text) (f : String)
      → s.hget (store_pending_result s c ks pod id response) j f
        ≡ (if c.key_of pod == j && id == f then some (c.write response) else s.hget ks j f)
  unfolding store_pending_result
  hget-store ks pod id response j f =
      laws.hget-expire (s.hset ks (c.key_of pod) id (c.write response)) (c.key_of pod) j f
        (result_ttl_of c.ttl_seconds) (result_ttl_of-positive c.ttl_seconds)
      ∙ laws.hget-hset ks (c.key_of pod) j id f (c.write response)

  run-hget :
      (k : Text) (id : String) (v : s.Content) (es : List (Event R)) (ks : s.Keys)
      → IsOtherRun s c k id es
      → s.hget ks k id ≡ some v
      → s.hget (run s c ks es) k id ≡ some v
  unfolding run IsOtherRun step remove_pending_result
  run-hget k id v [] ks o h = h
  run-hget k id v (stores pod other response ∷ es) ks o h =
      run-hget k id v es _ o.1 (rw (hget-store ks pod other response k id, o.0) h)
  run-hget k id v (removes pod other ∷ es) ks o h =
      run-hget k id v es _ o.1 (rw (laws.hget-hdel ks (c.key_of pod) k other id, o.0) h)
  run-hget k id v (drops pod ∷ es) ks o h =
      run-hget k id v es _ o.1 (laws.hget-del ks (c.key_of pod) k id o.0 ∙ h)
  run-hget k id v (lapses j ∷ es) ks o h =
      run-hget k id v es _ o.1 (laws.hget-del ks j k id o.0 ∙ h)

  -- Behind the `DEL` that follows a `HGETALL` which found something, nothing is left for the POD.
  dropped-none :
      (ks : s.Keys) (pod : String) (found : Map String s.Content)
      → (v : s.Content) → Within v (values found)
      → read_pending_results s c (drop_pending_results s c ks pod found) pod ≡ []
  unfolding read_pending_results drop_pending_results
  dropped-none ks pod [] v w = absurd (empty w.before w.split)
    where
      empty : (xs : List s.Content) → [] ≡ xs ++ v ∷ w.behind → ⊥
      empty [] e = cc e
      empty (x ∷ xs) e = cc e
  dropped-none ks pod (x ∷ xs) v w = laws.hget_all-del ks (c.key_of pod)

  -- A result has been stored for a POD. After anything that others do but to store or remove that result,
  -- delete all results of the POD or let their time run out, it is among those that are taken for the POD.
  -- Behind the `DEL`, whatever was done between the two commands, no result is left to be taken.
  pub stored-taken :
      (decoded : (x : R) → c.read (c.write x) ≡ some x) (ks : s.Keys) (pod id : String)
      (response : R) (es between : List (Event R))
      → IsOtherRun s c (c.key_of pod) id es
      → (let later = run s c (store_pending_result s c ks pod id response) es in
          let found = read_pending_results s c later pod in
          let left = drop_pending_results s c (run s c later between) pod found in
          Within response (taken_results s c found) × (read_pending_results s c left pod ≡ []))
  unfolding taken_results
  stored-taken decoded ks pod id response es between others =
      let k = c.key_of pod in
      let first = store_pending_result s c ks pod id response in
      let later = run s c first es in
      let put : s.hget first k id ≡ some (c.write response) =
        hget-store ks pod id response k id
        ∙ rw ((text_eq.beq_iff k k).1 refl, (eq_iff id id).1 refl) refl in
      let kept = run-hget k id (c.write response) es first others put in
      let there =
        get-Within (s.hget_all later k) id (c.write response)
          (laws.get-hget_all later k id ∙ kept) in
      let found : Within (c.write response) (values (read_pending_results s c later pod)) =
        unfold read_pending_results in there in
      (
        readable-Within c.read (c.write response) response
            (values (read_pending_results s c later pod)) (decoded response) found,
        dropped-none (run s c later between) pod (read_pending_results s c later pod)
            (c.write response) found,
      )
