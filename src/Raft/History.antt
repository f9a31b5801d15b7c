-- ===== src/Raft/History.antt =====
-- Histories of stops, starts, steps and ticks: which nodes run in the end.
use model_guiding_fuzz.Common.{
  ==→eq, Bool, Ensures, Ensures-any, Ensures-bind, Ensures-pure, Ensures-weaken, List, Option,
  Random, Runtime, [], ap, ap₂, arith, contains, delete, false, insert, keys, lookup, none, not,
  pure, refl, some, true, ℕ, ◌&&◌, ◌==◌, ◌>>=◌, ◌||◌, ◌∙◌, ◌∷◌, ◌≡◌,
}
use model_guiding_fuzz.Types.Event.{Message}
use model_guiding_fuzz.Raft.Library.{RaftLibrary}
use model_guiding_fuzz.Raft.{RaftEnvironmentConfig, World, start_from, start, stop, step, tick}
use model_guiding_fuzz.Raft.Presence.{Keeps, step-Keeps, tick-Keeps}

pub data Operation : Type 0 where
  stopped started : ℕ → Operation
  stepped : Message → Operation
  ticked : Operation

module _ {G : Type 0} {lib : RaftLibrary G} where
  unfoldable pub perform :
      Runtime G → RaftEnvironmentConfig → Operation → World lib → Random G (World lib)
  perform rt config (stopped id) w = pure (stop id w)
  perform rt config (started id) w = start config id w
  perform rt config (stepped m) w = step rt m w
  perform rt config ticked w = tick rt config w >>= λ r. pure r.0

  unfoldable pub perform_all :
      Runtime G → RaftEnvironmentConfig → List Operation → World lib → Random G (World lib)
  perform_all rt config [] w = pure w
  perform_all rt config (o ∷ os) w = perform rt config o w >>= perform_all rt config os

-- Whether the node `id` runs after an operation, by whether it has a storage and ran before.
unfoldable pub runs_after : ℕ → Bool → Operation → Bool → Bool
runs_after id stored (stopped n) runs = not (id == n) && runs
runs_after id stored (started n) runs = (id == n && stored) || runs
runs_after id stored (stepped m) runs = runs
runs_after id stored ticked runs = runs

unfoldable pub runs_after_all : ℕ → Bool → List Operation → Bool → Bool
runs_after_all id stored [] runs = runs
runs_after_all id stored (o ∷ os) runs = runs_after_all id stored os (runs_after id stored o runs)

is_some : {V : Type 0} → Option V → Bool
is_some none = false
is_some (some v) = true

pub contains-insert :
    {V : Type 0} (k j : ℕ) (v : V) (m : List (ℕ × V))
    → contains j (keys (insert k v m)) ≡ ((k == j) || contains j (keys m))
contains-insert k j v [] = ground arith
contains-insert k j v ((i, x) ∷ m) = ground (arith, contains-insert k j v m)

pub contains-delete :
    {V : Type 0} (k j : ℕ) (m : List (ℕ × V))
    → contains j (keys (delete k m)) ≡ (not (j == k) && contains j (keys m))
contains-delete k j [] = ground arith
contains-delete k j ((i, x) ∷ m) = ground (arith, contains-delete k j m)

lookup-contains :
    {V : Type 0} (k : ℕ) (m : List (ℕ × V)) → contains k (keys m) ≡ is_some (lookup k m)
unfolding is_some
lookup-contains k [] = refl
lookup-contains k ((i, x) ∷ m) = ground (arith, lookup-contains k m)

module _ {G : Type 0} {lib : RaftLibrary G} where
  unfoldable pub Follows : Operation → World lib → World lib → Type 0
  Follows o w w' =
      (id : ℕ)
      → (contains id (keys w'.0.nodes)
          ≡ runs_after id (contains id (keys w.0.storages)) o (contains id (keys w.0.nodes)))
        × (contains id (keys w'.0.storages) ≡ contains id (keys w.0.storages))

  start_from-Follows :
      (config : RaftEnvironmentConfig) (n : ℕ) (o : Option lib.MemoryStorage) (w : World lib)
      → lookup n w.0.storages ≡ o
      → Ensures (start_from config n o w) (Follows (started n) w)
  unfolding start_from Follows runs_after is_some
  start_from-Follows config n none w h =
      Ensures-pure w
        λ id. (ground (arith, lookup-contains n w.0.storages, ap is_some h, ==→eq id n), refl)
  start_from-Follows config n (some storage) (env, events) h =
      Ensures-bind
        (Ensures-any (lib.new_raw_node n config.election_tick config.heartbeat_tick storage))
        λ node _.
          Ensures-pure (record env { nodes = insert n node env.nodes }, events)
            (λ id. (
              ground (
                arith,
                contains-insert n id node env.nodes,
                lookup-contains n env.storages,
                ap is_some h,
                ==→eq id n,
              ),
              refl,
            ))

  pub start-Follows :
      (config : RaftEnvironmentConfig) (n : ℕ) (w : World lib)
      → Ensures (start config n w) (Follows (started n) w)
  unfolding start
  start-Follows config n w = start_from-Follows config n (lookup n w.0.storages) w refl

  perform-Follows :
      (rt : Runtime G) (config : RaftEnvironmentConfig) (o : Operation) (w : World lib)
      → Ensures (perform rt config o w) (Follows o w)
  unfolding perform start stop Follows runs_after Keeps
  perform-Follows rt config (stopped n) w =
      Ensures-pure _ (λ id. (contains-delete n id w.0.nodes, refl))
  perform-Follows rt config (started n) w = start-Follows config n w
  perform-Follows rt config (stepped m) w = step-Keeps rt m w
  perform-Follows rt config ticked w =
      Ensures-bind (tick-Keeps rt config w) λ r p. Ensures-pure r.0 p

  -- After any stops, starts, steps and ticks, if they return, the nodes that run are those that
  -- the history says: the ones that ran before and the ones that were started, where they have a
  -- storage, each unless it was stopped since. Steps and ticks change nothing of it. The nodes
  -- that have a storage stay the same.
  pub perform_all-runs_after :
      (rt : Runtime G) (config : RaftEnvironmentConfig) (os : List Operation) (w : World lib)
      → Ensures (perform_all rt config os w) λ w'.
        (id : ℕ)
        → (contains id (keys w'.0.nodes)
            ≡ runs_after_all id (contains id (keys w.0.storages)) os (contains id (keys w.0.nodes)))
          × (contains id (keys w'.0.storages) ≡ contains id (keys w.0.storages))
  unfolding perform_all runs_after_all Follows
  perform_all-runs_after rt config [] w = Ensures-pure w (λ id. (refl, refl))
  perform_all-runs_after rt config (o ∷ os) w = Ensures-bind (perform-Follows rt config o w) λ v p.
      Ensures-weaken
        (λ u q id.
          ((q id).0 ∙ ap₂ (λ s r. runs_after_all id s os r) (p id).1 (p id).0, (q id).1 ∙ (p id).1))
        (perform_all-runs_after rt config os v)
