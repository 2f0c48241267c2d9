-- ===== src/StreamQueue/Pending/Maps.antt =====
-- Hashes that meet the laws: maps of maps, which hold the results as they are.
use node_red_contrib_pod_gat.Prelude.{
  ◌≡◌, refl, ap, ◌∙◌, ◌&&◌, none, some, [], Text, String, text_eq, string_eq, ◌==◌, codes,
  if◌then◌else◌, or_else, Bool-cases, inl, inr,
}
use node_red_contrib_pod_gat.Map.{Map, get, set, delete, get-set, get-delete}
use node_red_contrib_pod_gat.StreamQueue.Pending.{Hashes, HashLaws, Format}

module _ (R : Type 0) where
  abbrev pub hash_at : Map Text (Map String R) → Text → Map String R
  hash_at ks k = or_else (get ks k) []

  abbrev pub hashes : Hashes
  hashes = record {
    Content = R;
    Keys = Map Text (Map String R);
    hget = λ ks k f. get (hash_at ks k) f;
    hset = λ ks k f v. set ks k (set (hash_at ks k) f v);
    hdel = λ ks k f. set ks k (delete (hash_at ks k) f);
    hget_all = hash_at;
    del = delete;
    expire = λ ks k n. ks;
  }

  hash_at-set :
      (ks : Map Text (Map String R)) (k j : Text) (h : Map String R)
      → hash_at (set ks k h) j ≡ (if k == j then h else hash_at ks j)
  hash_at-set ks k j h = elim (Bool-cases (k == j)) [
    | inl e ↦ rw (get-set ks k j h, e) refl
    | inr e ↦ rw (get-set ks k j h, e) refl
  ]

  pub hashes-laws : HashLaws hashes
  hashes-laws = record {
    hget-hset = λ ks k j f g v. hset_law ks k j f g v;
    hget-hdel = λ ks k j f g. hdel_law ks k j f g;
    get-hget_all = λ ks k f. refl;
    hget_all-del = λ ks k. rw (get-delete ks k k, (text_eq.beq_iff k k).1 refl) refl;
    hget-del = λ ks k j f e. rw (get-delete ks k j, e) refl;
    hget-expire = λ ks k j f n positive. refl;
  }
    where
      hset_law :
          (ks : Map Text (Map String R)) (k j : Text) (f g : String) (v : R)
          → get (hash_at (set ks k (set (hash_at ks k) f v)) j) g
            ≡ (if k == j && f == g then some v else get (hash_at ks j) g)
      hset_law ks k j f g v = elim (Bool-cases (k == j)) [
        | inr e ↦ rw (hash_at-set ks k j (set (hash_at ks k) f v), e) refl
        | inl e ↦
            rw (hash_at-set ks k j (set (hash_at ks k) f v), e)
              (get-set (hash_at ks k) f g v
                ∙ ap (λ i. if f == g then some v else get (hash_at ks i) g)
                    ((text_eq.beq_iff k j).0 e))
      ]

      hdel_law :
          (ks : Map Text (Map String R)) (k j : Text) (f g : String)
          → get (hash_at (set ks k (delete (hash_at ks k) f)) j) g
            ≡ (if k == j && f == g then none else get (hash_at ks j) g)
      hdel_law ks k j f g = elim (Bool-cases (k == j)) [
        | inr e ↦ rw (hash_at-set ks k j (delete (hash_at ks k) f), e) refl
        | inl e ↦
            rw (hash_at-set ks k j (delete (hash_at ks k) f), e)
              (get-delete (hash_at ks k) f g
                ∙ ap (λ i. if f == g then none else get (hash_at ks i) g)
                    ((text_eq.beq_iff k j).0 e))
      ]

  abbrev pub format : Format hashes R
  format = record { write = λ x. x; read = λ x. some x; key_of = codes; ttl_seconds = none }
