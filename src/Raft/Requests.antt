-- ===== src/Raft/Requests.antt =====
-- What a request to the cluster leads to: it goes to a leader, and an event records its number.
use model_guiding_fuzz.Common.{
  ==→eq, ==→ne, All, All-Perm, Bool-cases, Ensures, Ensures-any, Ensures-bind, Ensures-if,
  Ensures-or_panic, Ensures-pure, Ensures-range, Ensures-weaken, IsRuntime, List, Option, Random,
  Runtime, [], ap, arith, get_elem?, inl, inr, lookup, none, or_panic, refl, some, ℕ, ◌++◌, ◌==◌,
  ◌∙◌, ◌∷◌, ◌≡◌, ◌≢◌, ◌⊎◌,
}
use mathlib.Core.List.{Mem}
use mathlib.Core.List.{mem-cons_self, mem-cons_of_mem}
use mathlib.Core.List.Perm
use model_guiding_fuzz.Types.Event.{Message, Entry, EventTrace, num}
use model_guiding_fuzz.Types.Sequence.{append}
use model_guiding_fuzz.Types.Decimal.{atoi}
use model_guiding_fuzz.Fuzzer.Context.{event}
use model_guiding_fuzz.Raft.Library.{Status, RaftLibrary, state_leader, msg_prop}
use model_guiding_fuzz.Raft.{World, is_leader, find_leader, add_event, on_node, propose, step}

module _ {N : Type 0} (status : N → Status) where
  abbrev IsLeading : ℕ → List (ℕ × N) → Type 0
  IsLeading id ns = (node : N) × Mem (id, node) ns × ((status node).raft_state ≡ state_leader)

  abbrev NoLeader : List (ℕ × N) → Type 0
  NoLeader ns = All (λ e. (status e.1).raft_state ≢ state_leader) ns

  find_leader-IsLeading :
      (order : List (ℕ × N))
      → ((leader : ℕ) × (find_leader status order ≡ some leader) × IsLeading leader order)
        ⊎ ((find_leader status order ≡ none) × NoLeader order)
  unfolding find_leader is_leader
  find_leader-IsLeading [] = inr (refl, tt)
  find_leader-IsLeading ((id, node) ∷ rest) =
      elim (Bool-cases ((status node).raft_state == state_leader)) [
        | inl leads ↦ inl (id, rw leads refl, (node, mem-cons_self, ==→eq _ _ leads))
        | inr follows ↦ elim (find_leader-IsLeading rest) [
          | inl (leader, e, (n, m, leads)) ↦
              inl (leader, rw follows e, (n, mem-cons_of_mem _ m, leads))
          | inr (e, none_leads) ↦ inr (rw follows e, (==→ne _ _ follows, none_leads))
        ]
      ]

module _ {G : Type 0} {lib : RaftLibrary G} where
  -- Some node leads, and the last event is the request `n` to it; or no node leads, and there is
  -- no new event.
  abbrev pub Requested : ℕ → World lib → EventTrace → Type 0
  Requested n w events =
      ((leader : ℕ) × IsLeading lib.status leader w.0.nodes
        × (events.l
            ≡ w.1.l
              ++ event "ClientRequest" leader (("request", num n) ∷ ("leader", num leader) ∷ [])
                ∷ []))
      ⊎ (NoLeader lib.status w.0.nodes × (events ≡ w.1))

  on_node-events :
      (call : lib.MemoryStorage → lib.RawNode → Random G lib.RawNode) (id : ℕ) (w : World lib)
      → Ensures (on_node call id w) (λ w'. w'.1 ≡ w.1)
  unfolding on_node
  on_node-events call id (env, events) =
      Ensures-bind (Ensures-any (or_panic (lookup id env.nodes))) λ node _.
        Ensures-bind (Ensures-any (or_panic (lookup id env.storages)))
          λ storage _. Ensures-bind (Ensures-any (call storage node)) λ node' _. Ensures-pure _ refl

  propose-Requested :
      (m : Message) (entry : Entry) (w : World lib) (o : Option ℕ)
      → get_elem? m.entries 0 ≡ some entry
      → ((leader : ℕ) × (o ≡ some leader) × IsLeading lib.status leader w.0.nodes)
        ⊎ ((o ≡ none) × NoLeader lib.status w.0.nodes)
      → Ensures (propose m o w) (λ w'. Requested (atoi entry.payload) w w'.1)
  unfolding propose add_event append
  propose-Requested m entry w o e (inl (leader, same, leads)) = rw same (
      Ensures-bind (Ensures-or_panic (get_elem? m.entries 0) (λ x e'. e')) λ x e'.
        (let found : entry ≡ x = cc in
          Ensures-weaken
            (λ w' p. inl (leader, leads, (ap (λ (t : EventTrace). t.l) p ∙ rw found refl)))
            (on_node-events _ leader _)))
  propose-Requested m entry w o e (inr (same, none_leads)) =
      rw same (Ensures-pure w (inr (none_leads, refl)))

  pub step-Requested :
      (rt : Runtime G) (m : Message) (entry : Entry) (w : World lib)
      → IsRuntime rt
      → m.type ≡ msg_prop
      → get_elem? m.entries 0 ≡ some entry
      → Ensures (step rt m w) (λ w'. Requested (atoi entry.payload) w w'.1)
  unfolding step
  step-Requested rt m entry w ok typed e =
      Ensures-if (m.type == msg_prop)
        (λ _. Ensures-bind (Ensures-range rt ok w.0.nodes) λ order p.
          propose-Requested m entry w (find_leader lib.status order) e
            (elim (find_leader-IsLeading lib.status order) [
              | inl (leader, found, (n, mem, leads)) ↦
                  inl (leader, found, (n, (Perm.mem_iff p).0 mem, leads))
              | inr (found, none_leads) ↦ inr (
                found,
                All-Perm (λ e. (lib.status e.1).raft_state ≢ state_leader) w.0.nodes order
                    (λ e. hlevel) (Perm.symm p) none_leads,
              )
            ]))
        (λ other. absurd (ground (arith, typed, other)))
