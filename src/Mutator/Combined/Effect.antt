-- ===== src/Mutator/Combined/Effect.antt =====
-- What a combined mutator does to a trace.
use model_guiding_fuzz.Common.{List, Option, [], done, none, some, ◌∷◌, ◌≡◌}
use model_guiding_fuzz.Types.Choice.{Trace}
use model_guiding_fuzz.Types.Event.{EventTrace}
use model_guiding_fuzz.Mutator.Indices.{Mutator}

module _ {G : Type 0} (events : EventTrace) where
  -- From a trace and a random source, a row of mutators comes to a result and another source: each
  -- works, in its turn, on what the one before it returned, and the first that fails is the last
  -- that runs.
  pub data Row : List (Mutator G) → Trace → G → Option Trace → G → Type 0 where
    end : (t : Trace) (g : G) → Row [] t g (some t) g
    failed :
        (m : Mutator G) (ms : List (Mutator G)) (t : Trace) (g g' : G)
        → m t events g ≡ done (none, g')
        → Row (m ∷ ms) t g none g'
    next :
        (m : Mutator G) (ms : List (Mutator G)) (t t₁ : Trace) (g g₁ : G) (r : Option Trace)
        (g' : G)
        → m t events g ≡ done (some t₁, g₁)
        → Row ms t₁ g₁ r g'
        → Row (m ∷ ms) t g r g'
