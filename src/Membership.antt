-- ===== src/Membership.antt =====
-- openraft/src/membership/membership.rs and change_members.rs: voters as a joint of node sets, nodes as
-- a map, and the changes of a membership. `N` is the application's node type. Children: proofs, and
-- the membership state of a node.
pub mod Change
pub mod Nodes
pub mod State
use async_raft.Base.{
  ℕ, Bool, true, false, not, ◌&&◌, ◌||◌, List, [], ◌∷◌, ◌++◌, Option, none, some, if◌then◌else◌,
  get_last?,
}
use async_raft.Base.Sets.{member, union, difference, keys, get, contains_key, insert_entry, remove}
use async_raft.Quorum.{joint_ids, find_coherent}
use async_raft.LogId.{LogId}

pub record Membership (N : Type 0) : Type 0 where
  pub configs : List (List ℕ)
  pub nodes : List (ℕ × N)

pub data ChangeMembers (N : Type 0) : Type 0 where
  add_voter_ids : List ℕ → ChangeMembers N
  add_voters : List (ℕ × N) → ChangeMembers N
  remove_voters : List ℕ → ChangeMembers N
  replace_all_voters : List ℕ → ChangeMembers N
  add_nodes : List (ℕ × N) → ChangeMembers N
  set_nodes : List (ℕ × N) → ChangeMembers N
  remove_nodes : List ℕ → ChangeMembers N
  replace_all_nodes : List (ℕ × N) → ChangeMembers N

-- `ChangeMembershipError`; `MembershipError::NodeNotFound` becomes `LearnerNotFound`.
pub data ChangeMembershipError : Type 0 where
  in_progress : Option LogId → Option LogId → ChangeMembershipError
  empty_membership : ChangeMembershipError
  learner_not_found : ℕ → ChangeMembershipError

pub data Result {ℓ} (A : Type ℓ) : Type ℓ where
  ok : A → Result A
  err : ChangeMembershipError → Result A

-- An early return of an error by `?`.
module _ {ℓ κ} {A : Type ℓ} {B : Type κ} where
  infixl 5 ◌>>=◌ ◌>>◌
  abbrev pub ◌>>=◌ : Result A → (A → Result B) → Result B
  err refused >>= next = err refused
  ok value >>= next = next value

  abbrev pub ◌>>◌ : Result A → Result B → Result B
  err refused >> next = err refused
  ok _ >> next = next

-- `is_voter` looks through the configs one by one.
unfoldable pub in_configs : ℕ → List (List ℕ) → Bool
in_configs id [] = false
in_configs id (c ∷ cs) = member id c || in_configs id cs

-- The first voter without a node, as `ensure_voter_nodes` finds it.
unfoldable pub missing_node : {N : Type 0} → List ℕ → List (ℕ × N) → Option ℕ
missing_node [] nodes = none
missing_node (id ∷ ids) nodes =
    let rest = missing_node ids nodes in if contains_key id nodes then rest else some id

unfoldable pub has_empty : List (List ℕ) → Bool
has_empty [] = false
has_empty ([] ∷ cs) = true
has_empty ((_ ∷ _) ∷ cs) = has_empty cs

-- The nodes of `new` are inserted where the key is new: `extend_nodes`, and the loop of `AddNodes`.
unfoldable pub extend_nodes : {N : Type 0} → List (ℕ × N) → List (ℕ × N) → List (ℕ × N)
extend_nodes old [] = old
extend_nodes old ((k, v) ∷ new) =
    extend_nodes (if contains_key k old then old else insert_entry k v old) new

unfoldable pub put_nodes : {N : Type 0} → List (ℕ × N) → List (ℕ × N) → List (ℕ × N)
put_nodes old [] = old
put_nodes old ((k, v) ∷ new) = put_nodes (insert_entry k v old) new

unfoldable pub remove_all : {N : Type 0} → List (ℕ × N) → List ℕ → List (ℕ × N)
remove_all nodes [] = nodes
remove_all nodes (k ∷ ks) = remove_all (remove k nodes) ks

abbrev pub last_config : List (List ℕ) → List ℕ
last_config cs = elim (get_last? cs) [ some c ↦ c | none ↦ [] ]

-- The ids of a map that are not voters, in order: `learner_ids`.
unfoldable pub non_voters : List (List ℕ) → List ℕ → List ℕ
non_voters cs [] = []
non_voters cs (id ∷ ids) =
    let rest = non_voters cs ids in if in_configs id cs then rest else id ∷ rest

module _ {N : Type 0} where
  unfoldable pub is_voter : Membership N → ℕ → Bool
  unfolding in_configs
  is_voter m id = in_configs id m.configs

  unfoldable pub contains : Membership N → ℕ → Bool
  contains m id = contains_key id m.nodes

  unfoldable pub get_node : Membership N → ℕ → Option N
  unfolding get
  get_node m id = get id m.nodes

  unfoldable pub voter_ids : Membership N → List ℕ
  unfolding joint_ids
  voter_ids m = joint_ids m.configs

  unfoldable pub learner_ids : Membership N → List ℕ
  unfolding non_voters
  learner_ids m = non_voters m.configs (keys m.nodes)

  -- Every config of a valid membership has a voter, and every voter has a node.
  unfoldable pub ensure_valid : Membership N → Result (Unit {0})
  unfolding has_empty missing_node joint_ids
  ensure_valid m =
      if has_empty m.configs
      then err empty_membership
      else elim (missing_node (joint_ids m.configs) m.nodes) [
        | none ↦ ok tt
        | some id ↦ err (learner_not_found id)
      ]

  unfoldable pub new : List (List ℕ) → List (ℕ × N) → Result (Membership N)
  unfolding ensure_valid
  new configs nodes = do
    let m : Membership N = record { configs = configs; nodes = nodes }
    ensure_valid m
    ok m

  unfoldable pub next_coherent : Membership N → List ℕ → Bool → Membership N
  unfolding find_coherent joint_ids difference remove_all
  next_coherent m goal retain =
      let config = find_coherent m.configs goal in
      record {
        configs = config;
        nodes =
            if retain
            then m.nodes
            else remove_all m.nodes (difference (joint_ids m.configs) (joint_ids config));
      }

  -- The `match` of `Membership::change`, before the result is validated.
  unfoldable pub changed : Membership N → ChangeMembers N → Bool → Membership N
  unfolding next_coherent extend_nodes put_nodes remove_all union difference
  changed m (add_voter_ids ids) retain = next_coherent m (union (last_config m.configs) ids) retain
  changed m (add_voters voters) retain =
      next_coherent (record m { nodes = extend_nodes m.nodes voters })
        (union (last_config m.configs) (keys voters)) retain
  changed m (remove_voters ids) retain =
      next_coherent m (difference (last_config m.configs) ids) retain
  changed m (replace_all_voters ids) retain = next_coherent m ids retain
  changed m (add_nodes nodes) retain = record m { nodes = extend_nodes m.nodes nodes }
  changed m (set_nodes nodes) retain = record m { nodes = put_nodes m.nodes nodes }
  changed m (remove_nodes ids) retain = record m { nodes = remove_all m.nodes ids }
  changed m (replace_all_nodes nodes) retain = record m { nodes = nodes }

  unfoldable pub change : Membership N → ChangeMembers N → Bool → Result (Membership N)
  unfolding changed ensure_valid
  change m c retain = do ensure_valid (changed m c retain); ok (changed m c retain)
