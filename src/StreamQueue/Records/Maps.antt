-- ===== src/StreamQueue/Records/Maps.antt =====
-- Strings that meet the laws: a map, which holds the records as they are.
use node_red_contrib_pod_gat.Prelude.{
  refl, true, false, ◌++◌, some, Text, text_eq, codes, if◌then◌else◌, is_some,
}
use node_red_contrib_pod_gat.Map.{Map, get, set, delete, get-set, get-delete}
use node_red_contrib_pod_gat.StreamQueue.Records.{Strings, StringLaws, Entry, Codec}

-- Strings as a map, and JSON as it is.
module _ (R : Type 0) where
  abbrev pub strings : Strings
  strings = record {
    Content = Entry R;
    Keys = Map Text (Entry R);
    get_value = get;
    set_value = set;
    set_new = λ ks k v. if is_some (get ks k) then (ks, false) else (set ks k v, true);
    remove = delete;
  }

  pub strings-laws : StringLaws strings
  strings-laws = record {
    get-set_value = λ ks k j v. get-set ks k j v;
    get-remove = λ ks k j. get-delete ks k j;
    set_new-free = λ ks k v e. rw e refl;
    set_new-taken = λ ks k v old e. rw e refl;
  }

  abbrev pub codec : Codec strings R
  codec = record {
    write = λ e. e;
    read = λ e. some e;
    key_of = λ pod name. codes pod ++ codes ":" ++ codes name;
  }
