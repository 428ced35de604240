-- ===== src/Merkle/Tests.antt =====
-- merkle/crdt and merkle/clock on concrete stores, and the theorems about them there.
use mathlib.Core.List.Perm
use defradg.Prelude.{
  false, ℕ, ◌+◌, ◌-◌, ◌≤◌, ◌≡◌, ◌≢◌, refl, ap, Bytes, codes, List, [], ◌∷◌, All, none, some, arith,
  Result, ok, err, bad_cid,
}
use defradg.Prelude.Exec.{Exec}
use defradg.Keys.{slash, DataStoreKey, to_head_store_key, head_to_string, head_with_cid}
use defradg.Store.{Backend, Store, find, lookup_result, below}
use defradg.Store.Laws.{IsHealthy}
use defradg.Crdt.{DagLink, Delta, composite}
use defradg.Crdt.Lww.{new_lww_register}
use defradg.Clock.{key, has_heads}
use defradg.Clock.Heads.{entries}
use defradg.Clock.Node.{Dag, links_of}
use defradg.Clock.Node.Links.{IsDag}
use defradg.Clock.Add.{Stores, add_dag_node}
use defradg.Clock.Grow.{Advances, add_dag_node_lem}
use defradg.Merkle.{Setting, MerkleLwwRegister, new_merkle_lww_register, set}
use defradg.Merkle.Register.{IsSettled, IsClocked, Wins, set-Wins, Reads, set_all, set_all-Reads}

abbrev calm : Backend
calm = record { new_key = λ s. s; fails = λ o k. false }

calm-IsHealthy : (k : Bytes) → IsHealthy calm k
calm-IsHealthy k = record { works = λ o. refl; clean = refl }

-- Nodes with numbers for Cids, each greater than those it links to.
record Plain : Type 0 where
  bytes : Bytes
  below_it : List (DagLink ℕ)

abbrev above : List (DagLink ℕ) → ℕ
above [] = 0
above (l ∷ ls) = l.cid + 1 + above ls

above-All : (n : ℕ) (ls : List (DagLink ℕ)) → above ls ≤ n → All (λ l. l.cid ≢ n) ls
above-All n [] h = tt
above-All n (l ∷ ls) h = (λ e. omega (arith, e, h), above-All n ls (omega (arith, h)))

abbrev plain_dag : Dag ℕ Plain
plain_dag = record {
  node_with_data = λ b. record { bytes = b; below_it = [] };
  set_cid_builder = λ n. ok n;
  add_raw_link =
      λ name c n. ok (record n { below_it = record { name = name; cid = c } ∷ n.below_it });
  cid_of = λ n. above n.below_it;
  links = λ n. n.below_it;
  raw_data = λ n. n.bytes;
}

plain-IsDag : IsDag plain_dag
plain-IsDag = record {
  begins = λ b. refl;
  builds = λ n. (n, refl, refl);
  adds = λ name c n. (_, refl, Perm.refl (record { name = name; cid = c } ∷ n.below_it));
  acyclic = λ n. above-All (above n.below_it) n.below_it (omega arith);
}

abbrev number_of : Bytes → Result ℕ
number_of (n ∷ []) = ok (n - 48)
number_of _ = err bad_cid

abbrev setting : Setting ℕ Plain
setting = record {
  dag = plain_dag;
  marshal = λ d. ok (codes "delta");
  blocks = calm;
  hash_key = λ c. slash ∷ (c + 48) ∷ [];
  cid_string = λ c. (c + 48) ∷ [];
  cid_decode = number_of;
  cid_bytes = λ c. c ∷ [];
  heads = calm;
  values = calm;
}

abbrev field : DataStoreKey
field = record {
  collection_id = codes "1";
  instance_type = codes "v";
  doc_key = codes "bae";
  field_id = codes "2";
}

abbrev register : MerkleLwwRegister ℕ
register = record {
  reg = record { key = field; schema_version_id = codes "s"; field_name = codes "name" };
  namespace = record { doc_key = codes "bae"; field_id = codes "2"; cid = none };
}

-- `register` is what the constructor makes.
new_register_is : new_merkle_lww_register setting (codes "s") field (codes "name") ≡ register
unfolding new_merkle_lww_register to_head_store_key new_lww_register
new_register_is = refl

abbrev settled : IsSettled setting register
settled = record {
  decode-string = λ c. ap ok (omega arith);
  string-Lacks = λ c. (omega arith, tt);
  laws = plain-IsDag;
  sound = record {
    doc = record { full = refl; plain = (omega arith, (omega arith, (omega arith, tt))) };
    field = record { full = refl; plain = (omega arith, tt) };
    whole = refl;
    at_namespace = calm-IsHealthy _;
    at_head = λ c. calm-IsHealthy _;
    at_block = λ c. calm-IsHealthy _;
  };
  works = record {
    at_priority = calm-IsHealthy _;
    at_marker = calm-IsHealthy _;
    at_value = calm-IsHealthy _;
    at_deleted = calm-IsHealthy _;
  };
  address = record {
    collection = record { full = refl; plain = (omega arith, tt) };
    doc = record { full = refl; plain = (omega arith, (omega arith, (omega arith, tt))) };
    field = (omega arith, tt);
  };
  coded = λ d. (codes "delta", refl);
}

-- Two heads, and a register that was not merged into yet.
abbrev two_heads : List (ℕ × ℕ)
two_heads = (2, 3) ∷ (4, 1) ∷ []

abbrev start : Stores Store
start = record {
  data_part = [];
  head_part =
      entries setting.cid_string setting.cid_decode settled.decode-string settled.string-Lacks calm
        register.namespace setting.cid_bytes two_heads;
  block_part = [];
}

clocked : IsClocked setting register settled start two_heads (0, [])
unfolding find lookup_result below head_to_string key head_with_cid
clocked = record {
  shown = record { prio = refl; val = refl };
  live = record { unmarked = refl };
  behind = omega arith;
  small = (omega arith, (omega arith, tt));
  at_heads = refl;
}

set-Wins_example :
    Wins setting register settled (codes "new") 4 (set setting register (codes "new") start)
set-Wins_example =
    set-Wins setting register settled (codes "new") start two_heads (0, []) clocked (omega arith)

set_all-Reads_example :
    Reads setting register settled
      (set_all setting register settled (codes "a" ∷ codes "b" ∷ []) start)
      5
      (codes "b")
set_all-Reads_example =
    set_all-Reads setting register settled (codes "a") (codes "b" ∷ []) start two_heads (0, [])
      clocked (omega arith)

-- A composite with one link of its own, on a state that counts the merges.
abbrev document : Delta ℕ
document = composite (record {
  schema_version_id = codes "s";
  priority = 0;
  payload = codes "patch";
  doc_key = codes "bae";
  sub_dags = record { name = codes "name"; cid = 9 } ∷ [];
  status = 1;
  field_name = [];
})

abbrev count : Delta ℕ → Exec ℕ (Unit {0})
count d n = (ok tt, n + 1)

abbrev counted : Stores ℕ
counted = record { data_part = 0; head_part = start.head_part; block_part = [] }

own_links : has_heads (links_of plain_dag setting.marshal (some document)) ≡ false
unfolding has_heads links_of
own_links = refl

add_dag_node_lem_example :
    Advances plain_dag plain-IsDag setting.marshal calm setting.hash_key setting.cid_string
      setting.cid_decode settled.decode-string settled.string-Lacks setting.cid_bytes calm
      register.namespace count document two_heads 4 counted
      (add_dag_node plain_dag setting.marshal calm setting.hash_key setting.cid_string
        setting.cid_decode setting.cid_bytes calm register.namespace count document counted)
add_dag_node_lem_example =
    add_dag_node_lem plain_dag plain-IsDag setting.marshal calm setting.hash_key setting.cid_string
      setting.cid_decode settled.decode-string settled.string-Lacks setting.cid_bytes calm
      register.namespace count settled.sound document (codes "delta") two_heads counted
      (
        record { small = omega arith; works = refl },
        (record { small = omega arith; works = refl }, tt),
      )
      clocked.at_heads (omega arith) refl own_links refl
