-- ===== src/Raft/Presence.antt =====
-- Which nodes run: what each operation of the environment does to the set of them.
pub mod Totality
use model_guiding_fuzz.Common.{
  Ensures, Ensures-any, Ensures-bind, Ensures-each, Ensures-if, Ensures-or_panic, Ensures-pure,
  Ensures-weaken, List, Option, Random, Runtime, [], arith, contains, get_elem?, insert, keys,
  lookup, none, or_panic, pure, range, refl, some, suc, zero, ℕ, ◌++◌, ◌==◌, ◌∙◌, ◌∷◌, ◌≡◌,
}
use model_guiding_fuzz.Types.Event.{Message, Event}
use model_guiding_fuzz.Raft.Library.{Status, RaftLibrary, msg_prop}
use model_guiding_fuzz.Raft.{
  RaftEnvironmentConfig, World, on_node, propose, deliver, step, tick_node, update_state,
  update_states, status_events, store, advance_event, handle_some, handle_ready, tick, add_event,
  save_snapshot, find_leader, status_or_zero,
}

insert-keys :
    {V : Type 0} (k j : ℕ) (v w : V) (m : List (ℕ × V))
    → lookup k m ≡ some w
    → contains j (keys (insert k v m)) ≡ contains j (keys m)
insert-keys k j v w [] h = ground arith
insert-keys k j v w ((i, x) ∷ m) h = ground (arith, insert-keys k j v w m)

module _ {G : Type 0} {lib : RaftLibrary G} where
  -- The same nodes run, and the same nodes have a storage.
  unfoldable pub Keeps : World lib → World lib → Type 0
  Keeps w w' =
      (id : ℕ)
      → (contains id (keys w'.0.nodes) ≡ contains id (keys w.0.nodes))
        × (contains id (keys w'.0.storages) ≡ contains id (keys w.0.storages))

  Keeps-refl : (w : World lib) → Keeps w w
  unfolding Keeps
  Keeps-refl w id = (refl, refl)

  Keeps-trans : (u v w : World lib) → Keeps u v → Keeps v w → Keeps u w
  unfolding Keeps
  Keeps-trans u v w h k id = ((k id).0 ∙ (h id).0, (k id).1 ∙ (h id).1)

  on_node-Keeps :
      (call : lib.MemoryStorage → lib.RawNode → Random G lib.RawNode) (id : ℕ) (w : World lib)
      → Ensures (on_node call id w) (Keeps w)
  unfolding on_node Keeps
  on_node-Keeps call id (env, events) =
      Ensures-bind (Ensures-or_panic (lookup id env.nodes) (λ node e. e)) λ node here.
        Ensures-bind (Ensures-any (or_panic (lookup id env.storages))) λ storage _.
          Ensures-bind (Ensures-any (call storage node))
            λ node' _. Ensures-pure _ (λ j. (insert-keys id j node' node env.nodes here, refl))

  add_event-Keeps : (e : Event) (w : World lib) → Keeps w (add_event e w)
  unfolding add_event Keeps
  add_event-Keeps e w id = (refl, refl)

  propose-Keeps :
      (m : Message) (leader : Option ℕ) (w : World lib) → Ensures (propose m leader w) (Keeps w)
  unfolding propose
  propose-Keeps m none w = Ensures-pure w (Keeps-refl w)
  propose-Keeps m (some leader) w =
      Ensures-bind (Ensures-any (or_panic (get_elem? m.entries 0))) λ entry _.
        Ensures-weaken (λ u q. Keeps-trans w _ u (add_event-Keeps _ w) q) (on_node-Keeps _ leader _)

  deliver-Keeps : (m : Message) (w : World lib) → Ensures (deliver m w) (Keeps w)
  unfolding deliver
  deliver-Keeps m w =
      elim (lookup m.to w.0.nodes)
        as (λ o.
          Ensures
            (elim o as (λ _. Random G (World lib)) [
              | none ↦ pure w
              | some node ↦ on_node (λ storage node. lib.step storage m node) m.to w
            ])
            (Keeps w)) [ none ↦ Ensures-pure w (Keeps-refl w) | some node ↦ on_node-Keeps _ m.to w ]

  pub step-Keeps : (rt : Runtime G) (m : Message) (w : World lib) → Ensures (step rt m w) (Keeps w)
  unfolding step
  step-Keeps rt m w =
      Ensures-if (m.type == msg_prop)
        (λ _.
          Ensures-bind (Ensures-any (range rt w.0.nodes))
            λ order _. propose-Keeps m (find_leader lib.status order) w)
        (λ _. deliver-Keeps m w)

  tick_node-Keeps :
      (rt : Runtime G) (n id : ℕ) (w : World lib) → Ensures (tick_node rt n id w) (Keeps w)
  unfolding tick_node
  tick_node-Keeps rt zero id w = Ensures-pure w (Keeps-refl w)
  tick_node-Keeps rt (suc n) id w =
      Ensures-bind (on_node-Keeps lib.tick id w)
        λ v p. Ensures-weaken (λ u q. Keeps-trans w v u p q) (tick_node-Keeps rt n id v)

  status_events-Keeps :
      (rt : Runtime G) (id : ℕ) (old new : Status) (w : World lib)
      → Keeps w (status_events rt id old new w)
  unfolding status_events add_event Keeps
  status_events-Keeps rt id old new (env, events) j = ground arith

  update_state-Keeps :
      (rt : Runtime G) (id : ℕ) (w : World lib) → Ensures (update_state rt id w) (Keeps w)
  unfolding update_state Keeps
  update_state-Keeps rt id w = Ensures-bind (Ensures-any (or_panic (lookup id w.0.nodes))) λ node _.
      Ensures-pure _
        (status_events-Keeps rt id (status_or_zero (lookup id w.0.cur_states)) (lib.status node) w)

  update_states-Keeps : (rt : Runtime G) (w : World lib) → Ensures (update_states rt w) (Keeps w)
  unfolding update_states
  update_states-Keeps rt w =
      Ensures-bind (Ensures-any (range rt (keys w.0.nodes)))
        λ order _. Ensures-each Keeps Keeps-refl Keeps-trans (update_state-Keeps rt) order w

  store-Keeps :
      (rt : Runtime G) (id : ℕ) (ready : lib.Ready) (w : World lib)
      → Ensures (store rt id ready w) (Keeps w)
  unfolding store Keeps
  store-Keeps rt id ready (env, events) =
      Ensures-bind (Ensures-or_panic (lookup id env.storages) (λ storage e. e)) λ storage here.
        Ensures-bind (Ensures-any (save_snapshot lib (lib.snapshot ready) storage)) λ storage' _.
          Ensures-bind (Ensures-any (lib.append (lib.entries ready) storage')) λ storage'' _.
            Ensures-pure _ (λ j. (refl, insert-keys id j storage'' storage env.storages here))

  advance_event-Keeps :
      (rt : Runtime G) (id : ℕ) (ready : lib.Ready) (w : World lib)
      → Keeps w (advance_event rt id ready w)
  unfolding advance_event add_event Keeps
  advance_event-Keeps rt id ready (env, events) j = ground arith

  -- The world of a world with the messages so far.
  KeepsWorld : World lib × List Message → World lib × List Message → Type 0
  KeepsWorld s s' = Keeps s.0 s'.0

  handle_some-Keeps :
      (rt : Runtime G) (id : ℕ) (storage : lib.MemoryStorage) (node : lib.RawNode)
      (s : World lib × List Message)
      → lookup id s.0.0.nodes ≡ some node
      → Ensures (handle_some rt id storage node s) (KeepsWorld s)
  unfolding handle_some KeepsWorld Keeps
  handle_some-Keeps rt id storage node ((env, events), result) here =
      Ensures-bind (Ensures-any (lib.ready storage node)) λ r _.
        let w : World lib = (record env { nodes = insert id r.1 env.nodes }, events) in
        let p : Keeps (env, events) w = λ j. (insert-keys id j r.1 node env.nodes here, refl) in
        Ensures-bind (store-Keeps rt id r.0 w) λ w₁ p₁.
          let w₂ = advance_event rt id r.0 w₁ in
          let p₂ = Keeps-trans w w₁ w₂ p₁ (advance_event-Keeps rt id r.0 w₁) in
          Ensures-bind (on_node-Keeps (λ storage node. lib.advance storage r.0 node) id w₂) λ w₃ p₃.
            Ensures-pure (w₃, result ++ lib.messages r.0)
              (Keeps-trans (env, events) w w₃ p (Keeps-trans w w₂ w₃ p₂ p₃))

  handle_ready-Keeps :
      (rt : Runtime G) (id : ℕ) (s : World lib × List Message)
      → Ensures (handle_ready rt id s) (KeepsWorld s)
  unfolding handle_ready KeepsWorld
  handle_ready-Keeps rt id ((env, events), result) =
      Ensures-bind (Ensures-or_panic (lookup id env.nodes) (λ node e. e)) λ node here.
        Ensures-bind (Ensures-any (or_panic (lookup id env.storages))) λ storage _.
          Ensures-if (lib.has_ready storage node)
            (λ _. handle_some-Keeps rt id storage node ((env, events), result) here)
            (λ _. Ensures-pure ((env, events), result) (Keeps-refl (env, events)))

  pub tick-Keeps :
      (rt : Runtime G) (config : RaftEnvironmentConfig) (w : World lib)
      → Ensures (tick rt config w) (λ r. Keeps w r.0)
  unfolding tick KeepsWorld
  tick-Keeps rt config w = Ensures-bind (Ensures-any (range rt (keys w.0.nodes))) λ order₁ _.
      Ensures-bind
        (Ensures-each Keeps Keeps-refl Keeps-trans (tick_node-Keeps rt config.ticks_per_step) order₁
          w)
        λ w₁ p₁. Ensures-bind (update_states-Keeps rt w₁) λ w₂ p₂.
          Ensures-bind (Ensures-any (range rt (keys w₂.0.nodes))) λ order₂ _.
            Ensures-weaken (λ r p₃. Keeps-trans w w₁ r.0 p₁ (Keeps-trans w₁ w₂ r.0 p₂ p₃))
              (Ensures-each KeepsWorld (λ s. Keeps-refl s.0) (λ s t u. Keeps-trans s.0 t.0 u.0)
                (handle_ready-Keeps rt) order₂ (w₂, []))
