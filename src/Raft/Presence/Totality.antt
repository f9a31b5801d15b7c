-- ===== src/Raft/Presence/Totality.antt =====
-- The operations of the environment return, unless the raft library panics: no index of the code
-- itself is out of range, where each node that runs has a storage.
pub mod Ticks
pub mod Steps
use model_guiding_fuzz.Common.{
  All, All-Perm, All-entry, All-insert, Bool-cases, Ends, Ends-and, Ends-bind, Ends-each_inv,
  Ends-or_panic, Ends-pure, Ends-range, Ends-weaken, IsRuntime, List, Option, Random, Runtime, [],
  arith, contains, contains_self, each, false, inl, inr, keys, length, lookup, none, range, refl,
  some, suc, sym, true, zero, ℕ, ◌<◌, ◌==◌, ◌∙◌, ◌∷◌, ◌≡◌, ◌≤◌,
}
use model_guiding_fuzz.Types.Event.{Message, Event}
use model_guiding_fuzz.Types.Sample.{int_range}
use model_guiding_fuzz.Raft.Library.{Status, RaftLibrary, msg_prop}
use model_guiding_fuzz.Raft.{
  RaftEnvironmentConfig, RaftEnvironment, World, on_node, propose, deliver, step, tick_node,
  update_state, update_states, status_events, store, advance_event, handle_some, handle_ready, tick,
  add_event, save_snapshot, find_leader, is_leader, status_or_zero, make_node, make_nodes, start,
  start_from, reset,
}
use model_guiding_fuzz.Raft.Presence.{
  insert-keys, Keeps, Keeps-refl, Keeps-trans, on_node-Keeps, add_event-Keeps, propose-Keeps,
  deliver-Keeps, step-Keeps, tick_node-Keeps, update_state-Keeps, update_states-Keeps, store-Keeps,
  advance_event-Keeps, handle_ready-Keeps,
}

-- A message between nodes up to `replicas`; a proposal has an entry.
pub record IsSound (replicas : ℕ) (m : Message) : Type 0 where
  pub from_le : m.from ≤ replicas
  pub to_le : m.to ≤ replicas
  pub has_entry : (m.type == msg_prop) ≡ true → 0 < length m.entries

-- A proposal of a client, with its data.
abbrev pub request : List ℕ → Message
request payload = record {
  type = msg_prop;
  to = 0;
  from = 0;
  term = 0;
  log_term = 0;
  index = 0;
  entries = record { term = 0; index = 0; type = 0; payload = payload } ∷ [];
  commit = 0;
  vote = 0;
  snapshot = none;
  reject = false;
  reject_hint = 0;
  context = [];
}

-- What the raft library is asked for: that each of its calls returns or panics, on the nodes,
-- storages and messages that come up in a cluster of this size. Those are the ones that satisfy
-- some predicates, which the calls keep, and the messages that a node hands out are sound.
pub record IsEnding {G : Type 0} (lib : RaftLibrary G) (replicas : ℕ) : Type 1 where
  pub IsNode : lib.RawNode → Type 0
  pub IsStorage : lib.MemoryStorage → Type 0
  pub IsDue : lib.Ready → Type 0
  pub IsSent : Message → Type 0
  pub begins : IsStorage lib.new_memory_storage
  pub makes :
      (id e h : ℕ) (s : lib.MemoryStorage)
      → id ≤ replicas
      → IsStorage s
      → Ends (lib.new_raw_node id e h s) IsNode
  pub adds :
      (id : ℕ) (n : lib.RawNode) → id ≤ replicas → IsNode n → Ends (lib.apply_add_node id n) IsNode
  pub steps :
      (m : Message) (s : lib.MemoryStorage) (n : lib.RawNode)
      → IsSent m
      → IsStorage s
      → IsNode n
      → Ends (lib.step s m n) IsNode
  pub ticks :
      (s : lib.MemoryStorage) (n : lib.RawNode)
      → IsStorage s
      → IsNode n
      → Ends (lib.tick s n) IsNode
  pub readies :
      (s : lib.MemoryStorage) (n : lib.RawNode)
      → IsStorage s
      → IsNode n
      → Ends (lib.ready s n) (λ r. IsDue r.0 × IsNode r.1)
  pub advances :
      (r : lib.Ready) (s : lib.MemoryStorage) (n : lib.RawNode)
      → IsDue r
      → IsStorage s
      → IsNode n
      → Ends (lib.advance s r n) IsNode
  pub applies :
      (r : lib.Ready) (x : lib.Snapshot) (s : lib.MemoryStorage)
      → IsDue r
      → lib.snapshot r ≡ some x
      → IsStorage s
      → Ends (lib.apply_snapshot x s) IsStorage
  pub appends :
      (r : lib.Ready) (s : lib.MemoryStorage)
      → IsDue r
      → IsStorage s
      → Ends (lib.append (lib.entries r) s) IsStorage
  pub sends : (r : lib.Ready) → IsDue r → All IsSent (lib.messages r)
  pub sounds : (m : Message) → IsSent m → IsSound replicas m
  pub redirects : (m : Message) (id : ℕ) → IsSent m → id ≤ replicas → IsSent (record m { to = id })
  pub requests : (payload : List ℕ) → IsSent (request payload)

lookup-some :
    {V : Type 0} (k : ℕ) (m : List (ℕ × V))
    → contains k (keys m) ≡ true
    → (v : V) × (lookup k m ≡ some v)
lookup-some k [] h = absurd (cc)
lookup-some k ((j, v) ∷ m) h = elim (Bool-cases (j == k)) [
  | inl same ↦ (v, rw same refl)
  | inr other ↦
      let (w, e) = lookup-some k m (ground (arith, h, other)) in (w, ground (arith, other, e))
]

contains-lookup :
    {V : Type 0} (k : ℕ) (m : List (ℕ × V)) (v : V)
    → lookup k m ≡ some v
    → contains k (keys m) ≡ true
contains-lookup k [] v h = absurd (cc)
contains-lookup k ((j, w) ∷ m) v h = ground (arith, h, contains-lookup k m v)

module _ {G : Type 0} {lib : RaftLibrary G} where
  -- Each node that runs has a storage.
  abbrev pub Stored : World lib → Type 0
  Stored w = (id : ℕ) → contains id (keys w.0.nodes) ≡ true → contains id (keys w.0.storages) ≡ true

  Keeps-Stored : (w w' : World lib) → Stored w → Keeps w w' → Stored w'
  unfolding Keeps
  Keeps-Stored w w' h k id e = (k id).1 ∙ h id (sym (k id).0 ∙ e)

  module _ (replicas : ℕ) (returning : IsEnding lib replicas) where
    abbrev pub IsOwnNode : ℕ × lib.RawNode → Type 0
    IsOwnNode e = (e.0 ≤ replicas) × returning.IsNode e.1

    abbrev IsOwnStorage : ℕ × lib.MemoryStorage → Type 0
    IsOwnStorage e = (e.0 ≤ replicas) × returning.IsStorage e.1

    -- The nodes and the storages are such as come up in the cluster.
    abbrev pub Fits : RaftEnvironment lib → Type 0
    Fits env = All IsOwnNode env.nodes × All IsOwnStorage env.storages

    -- What the operations need, and keep.
    abbrev pub IsSafe : World lib → Type 0
    IsSafe w = Stored w × Fits w.0

    abbrev pub Goes : World lib → World lib → Type 0
    Goes w w' = Keeps w w' × Fits w'.0

    Goes-refl : (w : World lib) → IsSafe w → Goes w w
    Goes-refl w h = (Keeps-refl w, h.1)

    Goes-trans : (u v w : World lib) → Goes u v → Goes v w → Goes u w
    Goes-trans u v w p q = (Keeps-trans u v w p.0 q.0, q.1)

    Goes-IsSafe : (w w' : World lib) → IsSafe w → Goes w w' → IsSafe w'
    Goes-IsSafe w w' h p = (Keeps-Stored w w' h.0 p.0, p.1)

    -- A node that runs still runs.
    Goes-contains :
        (w w' : World lib) (id : ℕ)
        → Goes w w'
        → contains id (keys w.0.nodes) ≡ true
        → contains id (keys w'.0.nodes) ≡ true
    unfolding Keeps
    Goes-contains w w' id p here = (p.0 id).0 ∙ here

    on_node-Ends :
        (call : lib.MemoryStorage → lib.RawNode → Random G lib.RawNode) (id : ℕ) (w : World lib)
        → ((s : lib.MemoryStorage) (n : lib.RawNode)
            → returning.IsStorage s
            → returning.IsNode n
            → Ends (call s n) returning.IsNode)
        → IsSafe w
        → contains id (keys w.0.nodes) ≡ true
        → Ends (on_node call id w) (Goes w)
    unfolding on_node
    on_node-Ends call id (env, events) total (stored, (nodes, storages)) here =
        let (node, e) = lookup-some id env.nodes here in
        let (storage, f) = lookup-some id env.storages (stored id here) in
        Ends-and
          (Ends-bind (Ends-or_panic (lookup id env.nodes) node e) λ node' e'.
            Ends-bind (Ends-or_panic (lookup id env.storages) storage f) λ storage' f'.
              (let own = All-entry IsOwnNode id node' env.nodes nodes e' in
                let held = All-entry IsOwnStorage id storage' env.storages storages f' in
                Ends-bind (total storage' node' held.1 own.1) λ n p.
                  Ends-pure _ (All-insert IsOwnNode id n env.nodes nodes (own.0, p), storages)))
          (on_node-Keeps call id (env, events))

    -- A loop over nodes that run.
    each-Ends :
        (f : ℕ → World lib → Random G (World lib))
        → ((id : ℕ) (w : World lib)
            → IsSafe w
            → contains id (keys w.0.nodes) ≡ true
            → Ends (f id w) (Goes w))
        → (order : List ℕ) (w : World lib) → IsSafe w
        → All (λ id. contains id (keys w.0.nodes) ≡ true) order
        → Ends (each f order w) (Goes w)
    each-Ends f round order w h all =
        Ends-each_inv (λ id. contains id (keys w.0.nodes) ≡ true) (Goes w)
          (λ id v here k.
            Ends-weaken (λ u l. Goes-trans w v u k l)
              (round id v (Goes-IsSafe w v h k) (Goes-contains w v id k here)))
          order w all (Goes-refl w h)

    module _ (rt : Runtime G) (ok : IsRuntime rt) where
      range-keys-Ends :
          (w : World lib)
          → Ends (range rt (keys w.0.nodes)) (All (λ id. contains id (keys w.0.nodes) ≡ true))
      range-keys-Ends w =
          Ends-weaken
            (λ order p.
              All-Perm (λ id. contains id (keys w.0.nodes) ≡ true) order (keys w.0.nodes)
                (λ id. hlevel) p (contains_self (keys w.0.nodes)))
            (Ends-range rt ok (keys w.0.nodes))

      tick_node-Ends :
          (n id : ℕ) (w : World lib)
          → IsSafe w
          → contains id (keys w.0.nodes) ≡ true
          → Ends (tick_node rt n id w) (Goes w)
      unfolding tick_node
      tick_node-Ends zero id w h here = Ends-pure w (Goes-refl w h)
      tick_node-Ends (suc n) id w h here =
          Ends-bind (on_node-Ends lib.tick id w returning.ticks h here) λ v p.
            Ends-weaken (λ u q. Goes-trans w v u p q)
              (tick_node-Ends n id v (Goes-IsSafe w v h p) (Goes-contains w v id p here))

      -- The nodes and storages stay as they are.
      status_events-Fits :
          (id : ℕ) (old new : Status) (w : World lib)
          → Fits w.0
          → Fits (status_events rt id old new w).0
      unfolding status_events add_event
      status_events-Fits id old new w h = ground (arith, h)

      update_state-Ends :
          (id : ℕ) (w : World lib)
          → IsSafe w
          → contains id (keys w.0.nodes) ≡ true
          → Ends (update_state rt id w) (Goes w)
      unfolding update_state
      update_state-Ends id w h here =
          let (node, e) = lookup-some id w.0.nodes here in
          Ends-and
            (Ends-bind (Ends-or_panic (lookup id w.0.nodes) node e) λ n _. Ends-pure _ (
              status_events-Fits id (status_or_zero (lookup id w.0.cur_states)) (lib.status n) w
                h.1))
            (update_state-Keeps rt id w)

      store-Ends :
          (id : ℕ) (ready : lib.Ready) (w : World lib)
          → returning.IsDue ready
          → Fits w.0
          → contains id (keys w.0.storages) ≡ true
          → Ends (store rt id ready w) (Goes w)
      unfolding store save_snapshot
      store-Ends id ready (env, events) due (nodes, storages) here =
          let (storage, e) = lookup-some id env.storages here in
          Ends-and
            (Ends-bind (Ends-or_panic (lookup id env.storages) storage e) λ s e'.
              (let held = All-entry IsOwnStorage id s env.storages storages e' in
                Ends-bind (saved (lib.snapshot ready) refl s held.1) λ s' p.
                  Ends-bind (returning.appends ready s' due p) λ s'' q.
                    Ends-pure _
                      (nodes, All-insert IsOwnStorage id s'' env.storages storages (held.0, q))))
            (store-Keeps rt id ready (env, events))
        where
          saved :
              (snapshot : Option lib.Snapshot)
              → lib.snapshot ready ≡ snapshot
              → (s : lib.MemoryStorage) → returning.IsStorage s
              → Ends (save_snapshot lib snapshot s) returning.IsStorage
          saved none e s p = Ends-pure s p
          saved (some x) e s p = returning.applies ready x s due e p
