-- ===== src/Raft/Presence/Totality/Steps.antt =====
-- Step, Reset and Start return, unless the raft library panics.
use model_guiding_fuzz.Common.{
  ==_refl, All, All-Perm, All-entry, All-insert, All-map, Ends, Ends-and, Ends-bind, Ends-each_inv,
  Ends-if, Ends-or_panic, Ends-pure, Ends-range, Ends-weaken, IsRuntime, List, Option, Random,
  Runtime, [], arith, contains, get_elem?, get_elem?-lt, keys, length, lookup, none, pure, refl,
  some, true, ℕ, ◌+◌, ◌<◌, ◌==◌, ◌∷◌, ◌≡◌, ◌≤◌,
}
use model_guiding_fuzz.Types.Event.{Message}
use model_guiding_fuzz.Types.Sample.{int_range}
use model_guiding_fuzz.Types.Sample.Picks.{int_range-All}
use model_guiding_fuzz.Raft.Library.{RaftLibrary, msg_prop}
use model_guiding_fuzz.Raft.{
  RaftEnvironmentConfig, RaftEnvironment, World, on_node, propose, deliver, step, add_event,
  find_leader, make_node, make_nodes, new_raft_environment, start, start_from, reset,
}
use model_guiding_fuzz.Raft.Presence.{step-Keeps}
use model_guiding_fuzz.Raft.Presence.Totality.{
  IsEnding, lookup-some, contains-lookup, IsOwnNode, IsOwnStorage, Fits, IsSafe, Goes, on_node-Ends,
}

module _ {G : Type 0} {lib : RaftLibrary G} (rt : Runtime G) (ok : IsRuntime rt) (replicas : ℕ)
    (returning : IsEnding lib replicas) where
  find_leader-contains :
      (order : List (ℕ × lib.RawNode)) (m : List ℕ)
      → All (λ e. contains e.0 m ≡ true) order
      → (leader : ℕ) → find_leader lib.status order ≡ some leader
      → contains leader m ≡ true
  unfolding find_leader
  find_leader-contains [] m h leader e = absurd (cc)
  find_leader-contains ((id, node) ∷ rest) m h leader e =
      ground (arith, h.0, e, find_leader-contains rest m h.1 leader)

  propose-Ends :
      (m : Message) (leader : Option ℕ) (w : World lib)
      → IsSafe replicas returning w
      → returning.IsSent m
      → 0 < length m.entries
      → ((id : ℕ) → leader ≡ some id → contains id (keys w.0.nodes) ≡ true)
      → Ends (propose m leader w) (λ w'. Fits replicas returning w'.0)
  unfolding propose add_event
  propose-Ends m none w h sent some_entry here = Ends-pure w h.1
  propose-Ends m (some leader) w h sent some_entry here =
      let (entry, e) = get_elem?-lt m.entries 0 some_entry in
      let (node, f) = lookup-some leader w.0.nodes (here leader refl) in
      let own = All-entry (IsOwnNode replicas returning) leader node w.0.nodes h.1.0 f in
      Ends-bind (Ends-or_panic (get_elem? m.entries 0) entry e) λ entry' _.
        Ends-weaken (λ u q. q.1)
          (on_node-Ends replicas returning
            (λ storage node. lib.step storage (record m { to = leader }) node) leader _
            (λ s n.
              returning.steps (record m { to = leader }) s n
                (returning.redirects m leader sent own.0))
            h (here leader refl))

  deliver-Ends :
      (m : Message) (w : World lib)
      → IsSafe replicas returning w
      → returning.IsSent m
      → Ends (deliver m w) (λ w'. Fits replicas returning w'.0)
  unfolding deliver
  deliver-Ends m w h sent = by_node (lookup m.to w.0.nodes) refl
    where
      by_node :
          (o : Option lib.RawNode)
          → lookup m.to w.0.nodes ≡ o
          → Ends
              (elim o as (λ _. Random G (World lib)) [
                | none ↦ pure w
                | some node ↦ on_node (λ storage node. lib.step storage m node) m.to w
              ])
              (λ w'. Fits replicas returning w'.0)
      by_node none e = Ends-pure w h.1
      by_node (some node) e =
          Ends-weaken (λ u q. q.1)
            (on_node-Ends replicas returning (λ storage node. lib.step storage m node) m.to w
              (λ s n. returning.steps m s n sent) h (contains-lookup m.to w.0.nodes node e))

  -- A step of a sound message returns, unless the library panics.
  pub step-Ends :
      (m : Message) (w : World lib)
      → IsSafe replicas returning w
      → returning.IsSent m
      → Ends (step rt m w) (Goes replicas returning w)
  unfolding step
  step-Ends m w h sent =
      Ends-and
        (Ends-if (m.type == msg_prop)
          (λ e. Ends-bind (Ends-range rt ok w.0.nodes) λ order p.
            propose-Ends m (find_leader lib.status order) w h sent
              ((returning.sounds m sent).has_entry e)
              (find_leader-contains order (keys w.0.nodes) (
                All-Perm (λ e. contains e.0 (keys w.0.nodes) ≡ true) order w.0.nodes (λ e. hlevel) p
                  (contains-keys w.0.nodes))))
          (λ _. deliver-Ends m w h sent))
        (step-Keeps rt m w)
    where
      contains-keys : (ns : List (ℕ × lib.RawNode)) → All (λ e. contains e.0 (keys ns) ≡ true) ns
      contains-keys [] = tt
      contains-keys (n ∷ ns) = (
        ground (arith, ==_refl n.0),
        All-map (λ e. contains e.0 (keys ns) ≡ true) _ ns (λ e h. ground (arith, h))
            (contains-keys ns),
      )

  make_nodes-Ends :
      (config : RaftEnvironmentConfig) (env : RaftEnvironment lib)
      → config.replicas ≡ replicas
      → Fits replicas returning env
      → Ends (make_nodes {lib = lib} config env) (Fits replicas returning)
  unfolding make_nodes make_node
  make_nodes-Ends config env same h =
      Ends-each_inv (λ id. id ≤ replicas) (Fits replicas returning)
        (λ id e le (nodes, storages).
          Ends-bind
            (returning.makes id config.election_tick config.heartbeat_tick lib.new_memory_storage le
              returning.begins)
            λ node p.
              Ends-bind
                (Ends-each_inv (λ j. j ≤ replicas) returning.IsNode
                  (λ j n le' q. returning.adds j n le' q) (int_range 1 (config.replicas + 1)) node
                  members p)
                λ node' q. Ends-pure _ (
                  All-insert (IsOwnNode replicas returning) id node' e.nodes nodes (le, q),
                  All-insert (IsOwnStorage replicas returning) id lib.new_memory_storage e.storages
                      storages (le, returning.begins),
                ))
        (int_range 1 (config.replicas + 1)) env members h
    where
      members : All (λ id. id ≤ replicas) (int_range 1 (config.replicas + 1))
      members =
          All-map _ (λ id. id ≤ replicas) (int_range 1 (config.replicas + 1))
            (λ id b. omega (arith, b, same)) (int_range-All 1 (config.replicas + 1))

  pub new_raft_environment-Ends :
      (config : RaftEnvironmentConfig)
      → config.replicas ≡ replicas
      → Ends (new_raft_environment {lib = lib} config) (Fits replicas returning)
  unfolding new_raft_environment
  new_raft_environment-Ends config same = make_nodes-Ends config _ same (tt, tt)

  pub reset-Ends :
      (config : RaftEnvironmentConfig) (w : World lib)
      → config.replicas ≡ replicas
      → Fits replicas returning w.0
      → Ends (reset {lib = lib} config w) (λ w'. Fits replicas returning w'.0)
  unfolding reset
  reset-Ends config (env, events) same h =
      Ends-bind (make_nodes-Ends config env same h) λ env' p. Ends-pure _ p

  pub start-Ends :
      (config : RaftEnvironmentConfig) (id : ℕ) (w : World lib)
      → Fits replicas returning w.0
      → Ends (start {lib = lib} config id w) (λ w'. Fits replicas returning w'.0)
  unfolding start start_from
  start-Ends config id w (nodes, storages) = by_storage (lookup id w.0.storages) refl
    where
      by_storage :
          (o : Option lib.MemoryStorage)
          → lookup id w.0.storages ≡ o
          → Ends (start_from {lib = lib} config id o w) (λ w'. Fits replicas returning w'.0)
      by_storage none e = Ends-pure w (nodes, storages)
      by_storage (some storage) e =
          let held =
            All-entry (IsOwnStorage replicas returning) id storage w.0.storages storages e in
          Ends-bind
            (returning.makes id config.election_tick config.heartbeat_tick storage held.0 held.1)
            λ node p. Ends-pure _ (
              All-insert (IsOwnNode replicas returning) id node w.0.nodes nodes (held.0, p),
              storages,
            )
