-- ===== src/StreamQueue/Pending/Examples.antt =====
-- The theorem about the pending results, applied to hashes that are kept in a map.
use node_red_contrib_pod_gat.Prelude.{ℕ, ◌≡◌, refl, List, [], ◌∷◌, text_eq, string_eq, codes}
use node_red_contrib_pod_gat.StreamQueue.Pending.{
  store_pending_result, read_pending_results, drop_pending_results, taken_results, Event, stores,
  removes, run, IsOtherRun,
}
use node_red_contrib_pod_gat.StreamQueue.Pending.Maps.{hashes, hashes-laws, format}
use node_red_contrib_pod_gat.StreamQueue.Pending.Taken.{Within, stored-taken}

abbrev others : List (Event ℕ)
others = stores "pod-1" "r2" 5 ∷ removes "pod-2" "r1" ∷ []

about_others : IsOtherRun (hashes ℕ) (format ℕ) (codes "pod-1") "r1" others
unfolding IsOtherRun
about_others = (refl, (refl, tt))

abbrev reached : (hashes ℕ).Keys
reached =
    run (hashes ℕ) (format ℕ) (store_pending_result (hashes ℕ) (format ℕ) [] "pod-1" "r1" 7) others

-- Another result is stored between the two commands.
abbrev between : List (Event ℕ)
between = stores "pod-1" "r3" 9 ∷ []

stored-taken_example :
    (let found = read_pending_results (hashes ℕ) (format ℕ) reached "pod-1" in
      let left =
        drop_pending_results
          (hashes ℕ)
          (format ℕ)
          (run (hashes ℕ) (format ℕ) reached between)
          "pod-1"
          found in
      Within 7 (taken_results (hashes ℕ) (format ℕ) found)
      × (read_pending_results (hashes ℕ) (format ℕ) left "pod-1" ≡ []))
stored-taken_example =
    stored-taken (hashes ℕ) (hashes-laws ℕ) (format ℕ) (λ x. refl) [] "pod-1" "r1" 7 others between
      about_others
