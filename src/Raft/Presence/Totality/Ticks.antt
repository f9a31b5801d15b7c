-- ===== src/Raft/Presence/Totality/Ticks.antt =====
-- Tick returns, unless the raft library panics, and what the nodes send is sound.
use model_guiding_fuzz.Common.{
  All, All-append, All-entry, All-insert, Ends, Ends-bind, Ends-each_inv, Ends-if, Ends-or_panic,
  Ends-pure, Ends-weaken, IsRuntime, List, Runtime, [], contains, insert, keys, lookup, refl, some,
  true, ℕ, ◌++◌, ◌∷◌, ◌≡◌,
}
use model_guiding_fuzz.Types.Event.{Message, Entry, num}
use model_guiding_fuzz.Fuzzer.Context.{event}
use model_guiding_fuzz.Raft.Library.{RaftLibrary}
use model_guiding_fuzz.Raft.{
  RaftEnvironmentConfig, World, add_event, tick_node, update_state, update_states, advance_event,
  handle_some, handle_ready, tick,
}
use model_guiding_fuzz.Raft.Presence.{insert-keys, Keeps, Keeps-trans, advance_event-Keeps}
use model_guiding_fuzz.Raft.Presence.Totality.{
  IsEnding, lookup-some, contains-lookup, IsOwnNode, IsOwnStorage, Fits, IsSafe, Goes, Goes-refl,
  Goes-trans, Goes-IsSafe, Goes-contains, on_node-Ends, each-Ends, range-keys-Ends, tick_node-Ends,
  update_state-Ends, store-Ends,
}

module _ {G : Type 0} {lib : RaftLibrary G} (rt : Runtime G) (ok : IsRuntime rt) (replicas : ℕ)
    (returning : IsEnding lib replicas) where
  advance_event-Fits :
      (id : ℕ) (ready : lib.Ready) (w : World lib)
      → Fits replicas returning w.0
      → Fits replicas returning (advance_event rt id ready w).0
  unfolding advance_event add_event
  advance_event-Fits id ready w h = by_entries (lib.committed_entries ready)
    where
      by_entries :
          (es : List Entry)
          → Fits replicas returning
              (elim es as (λ _. World lib) [
                | [] ↦ w
                | e ∷ es ↦ add_event (event "AdvanceCommitIndex" id (("i", num id) ∷ [])) w
              ]).0
      by_entries [] = h
      by_entries (e ∷ es) = h

  handle_some-Ends :
      (id : ℕ) (storage : lib.MemoryStorage) (node : lib.RawNode) (w : World lib)
      (result : List Message)
      → IsSafe replicas returning w
      → lookup id w.0.nodes ≡ some node
      → lookup id w.0.storages ≡ some storage
      → All returning.IsSent result
      → Ends
          (handle_some rt id storage node (w, result))
          λ r. Goes replicas returning w r.0 × All returning.IsSent r.1
  unfolding handle_some advance_event add_event Keeps
  handle_some-Ends id storage node (env, events) result h here there sent =
      let own = All-entry (IsOwnNode replicas returning) id node env.nodes h.1.0 here in
      let held = All-entry (IsOwnStorage replicas returning) id storage env.storages h.1.1 there in
      Ends-bind (returning.readies storage node held.1 own.1) λ (ready, node') (due, q).
        (let w : World lib = (record env { nodes = insert id node' env.nodes }, events) in
          let p : Goes replicas returning (env, events) w = (
            λ j. (insert-keys id j node' node env.nodes here, refl),
            (All-insert (IsOwnNode replicas returning) id node' env.nodes h.1.0 (own.0, q), h.1.1),
          ) in
          let h₁ = Goes-IsSafe replicas returning (env, events) w h p in
          let in_w =
            Goes-contains replicas returning (env, events) w id p
              (contains-lookup id env.nodes node here) in
          Ends-bind (store-Ends replicas returning rt ok id ready w due h₁.1 (h₁.0 id in_w))
            λ w₁ p₁.
              (let w₂ = advance_event rt id ready w₁ in
                let p₂ : Goes replicas returning w w₂ = (
                  Keeps-trans w w₁ w₂ p₁.0 (advance_event-Keeps rt id ready w₁),
                  advance_event-Fits id ready w₁ p₁.1,
                ) in
                Ends-bind
                  (on_node-Ends replicas returning (λ storage node. lib.advance storage ready node)
                    id w₂ (λ s n. returning.advances ready s n due)
                    (Goes-IsSafe replicas returning w w₂ h₁ p₂)
                    (Goes-contains replicas returning w w₂ id p₂ in_w))
                  λ w₃ p₃.
                    Ends-pure (w₃, result ++ lib.messages ready)
                      (
                        Goes-trans replicas returning (env, events) w w₃ p
                            (Goes-trans replicas returning w w₂ w₃ p₂ p₃),
                        All-append returning.IsSent result (lib.messages ready) sent
                            (returning.sends ready due),
                      )))

  handle_ready-Ends :
      (id : ℕ) (w : World lib) (result : List Message)
      → IsSafe replicas returning w
      → contains id (keys w.0.nodes) ≡ true
      → All returning.IsSent result
      → Ends
          (handle_ready rt id (w, result))
          λ r. Goes replicas returning w r.0 × All returning.IsSent r.1
  unfolding handle_ready
  handle_ready-Ends id (env, events) result h here sent =
      let (node, e) = lookup-some id env.nodes here in
      let (storage, f) = lookup-some id env.storages (h.0 id here) in
      Ends-bind (Ends-or_panic (lookup id env.nodes) node e) λ node' e'.
        Ends-bind (Ends-or_panic (lookup id env.storages) storage f) λ storage' f'.
          Ends-if (lib.has_ready storage' node')
            (λ _. handle_some-Ends id storage' node' (env, events) result h e' f' sent)
            (λ _.
              Ends-pure ((env, events), result)
                (Goes-refl replicas returning (env, events) h, sent))

  -- If a tick returns, as it does unless the library panics, what the nodes send is sound.
  pub tick-Ends :
      (config : RaftEnvironmentConfig) (w : World lib)
      → IsSafe replicas returning w
      → Ends (tick rt config w) λ r. Goes replicas returning w r.0 × All returning.IsSent r.1
  unfolding tick update_states
  tick-Ends config w h = Ends-bind (range-keys-Ends replicas returning rt ok w) λ order₁ in₁.
      Ends-bind
        (each-Ends replicas returning (tick_node rt config.ticks_per_step)
          (tick_node-Ends replicas returning rt ok config.ticks_per_step) order₁ w h in₁)
        λ w₁ p₁.
          (let h₁ = Goes-IsSafe replicas returning w w₁ h p₁ in
            Ends-bind {P = Goes replicas returning w₁}
              (Ends-bind (range-keys-Ends replicas returning rt ok w₁) λ order in_w.
                each-Ends replicas returning (update_state rt)
                  (update_state-Ends replicas returning rt ok) order w₁ h₁ in_w)
              λ w₂ p₂.
                (let h₂ = Goes-IsSafe replicas returning w₁ w₂ h₁ p₂ in
                  let p = Goes-trans replicas returning w w₁ w₂ p₁ p₂ in
                  Ends-bind (range-keys-Ends replicas returning rt ok w₂) λ order₂ in₂.
                    Ends-weaken (λ r q. (Goes-trans replicas returning w w₂ r.0 p q.0, q.1))
                      (Ends-each_inv (λ id. contains id (keys w₂.0.nodes) ≡ true)
                        (λ s. Goes replicas returning w₂ s.0 × All returning.IsSent s.1)
                        (λ id s here (k, sent).
                          Ends-weaken (λ r q. (Goes-trans replicas returning w₂ s.0 r.0 k q.0, q.1))
                            (handle_ready-Ends id s.0 s.1
                              (Goes-IsSafe replicas returning w₂ s.0 h₂ k)
                              (Goes-contains replicas returning w₂ s.0 id k here) sent))
                        order₂ (w₂, []) in₂ (Goes-refl replicas returning w₂ h₂, tt))))
