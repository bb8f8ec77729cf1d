-- ===== src/Membership/Nodes.antt =====
-- The nodes after a change (membership.rs): which are kept, which are dropped, which are replaced.
use async_raft.Base.{
  ℕ, ◌≡◌, ◌≢◌, refl, Bool, true, false, not, ◌&&◌, ◌||◌, List, [], ◌∷◌, arith, Option, none, some,
  ◌==◌, ==_iff, if◌then◌else◌,
}
use async_raft.Base.Sets.{
  member, member-difference, difference, contains_key, member-keys-remove, get, insert_entry, keys,
  remove, Distinct,
}
use async_raft.Quorum.{joint_ids, find_coherent}
use async_raft.Membership.{
  Membership, changed, next_coherent, is_voter, contains, remove_all, get_node, extend_nodes,
  put_nodes, add_nodes, set_nodes,
}
use async_raft.Membership.Change.{member-joint_ids}

module _ {N : Type 0} where
  contains-remove_all :
      (id : ℕ) (nodes : List (ℕ × N)) (ks : List ℕ)
      → contains_key id (remove_all nodes ks) ≡ contains_key id nodes && not (member id ks)
  unfolding remove_all
  contains-remove_all id nodes [] = ground arith
  contains-remove_all id nodes (k ∷ ks) =
      ground (arith, contains-remove_all id (remove k nodes) ks, member-keys-remove id k nodes)

  -- A step of the voters drops a node exactly if it was a voter, is none any more, and removed voters
  -- are not retained: learners and the remaining voters keep their nodes.
  pub next_coherent-contains :
      (m : Membership N) (goal : List ℕ) (retain : Bool) (id : ℕ)
      → let m' = next_coherent m goal retain in
        contains m' id ≡ contains m id && (retain || not (is_voter m id && not (is_voter m' id)))
  unfolding next_coherent contains is_voter
  next_coherent-contains m goal retain id = ground (
    arith,
    contains-remove_all id m.nodes
        (difference (joint_ids m.configs) (joint_ids (find_coherent m.configs goal))),
    member-difference id (joint_ids m.configs) (joint_ids (find_coherent m.configs goal)),
    member-joint_ids id m.configs,
    member-joint_ids id (find_coherent m.configs goal),
  )

  get-insert_entry :
      (j k : ℕ) (v : N) (m : List (ℕ × N))
      → get j (insert_entry k v m) ≡ (if j == k then some v else get j m)
  unfolding get insert_entry
  get-insert_entry j k v [] = refl
  get-insert_entry j k v ((i, w) ∷ m) = ground (arith, get-insert_entry j k v m)

  get-contains : (k : ℕ) (m : List (ℕ × N)) → contains_key k m ≡ false → get k m ≡ none
  unfolding get
  get-contains k [] h = refl
  get-contains k ((j, w) ∷ m) h = ground (arith, get-contains k m)

  contains-get : (k : ℕ) (m : List (ℕ × N)) → contains_key k m ≡ true → get k m ≢ none
  unfolding get
  contains-get k [] h e = cc
  contains-get k ((j, w) ∷ m) h e = ground (arith, contains-get k m)

  abbrev pub or_else : Option N → Option N → Option N
  or_else (some v) w = some v
  or_else none w = w

  get-extend_nodes :
      (id : ℕ) (old new : List (ℕ × N))
      → get id (extend_nodes old new) ≡ or_else (get id old) (get id new)
  unfolding extend_nodes get
  get-extend_nodes id old [] = ground arith
  get-extend_nodes id old ((k, v) ∷ new) = ground (
    arith,
    get-extend_nodes id old new,
    get-extend_nodes id (insert_entry k v old) new,
    get-insert_entry id k v old,
    get-contains k old,
    contains-get k old,
    ==_iff id k,
  )

  get-put_nodes :
      (id : ℕ) (old new : List (ℕ × N))
      → Distinct (keys new)
      → get id (put_nodes old new) ≡ or_else (get id new) (get id old)
  unfolding put_nodes get
  get-put_nodes id old [] d = refl
  get-put_nodes id old ((k, v) ∷ new) d = ground (
    arith,
    get-put_nodes id (insert_entry k v old) new d.1,
    get-insert_entry id k v old,
    get-contains k new d.0,
    ==_iff id k,
  )

  -- `AddNodes` gives a node to the ids that have none and changes no other; `SetNodes` replaces the
  -- nodes of all its ids and changes no other.
  pub changed-nodes :
      (m : Membership N) (new : List (ℕ × N)) (retain : Bool) (id : ℕ)
      → Distinct (keys new)
      → (get_node (changed m (add_nodes new) retain) id ≡ or_else (get_node m id) (get id new))
        × (get_node (changed m (set_nodes new) retain) id ≡ or_else (get id new) (get_node m id))
  unfolding changed get_node
  changed-nodes m new retain id d =
      (get-extend_nodes id m.nodes new, get-put_nodes id m.nodes new d)
