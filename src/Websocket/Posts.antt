-- ===== src/Websocket/Posts.antt =====
-- websocket/post_admission.go: the slots of posts in flight. A caller that finds no slot is
-- blocked, and tries again.
pub mod InFlight
mod Examples
use hypersdk_go.Prelude.Int.{ℤ, pos, negsuc}
use hypersdk_go.Prelude.{
  ℕ, zero, suc, ◌+◌, ◌-◌, Bool, true, false, Option, none, some, List, [], ◌∷◌, set, get_elem?, ltb,
  if◌then◌else◌, Context, ContextError,
}

-- `semaphorePostAdmissionGate`: the capacity of the channel, and how many values it holds.
pub record Gate : Type 0 where
  pub limit : ℕ
  pub held : ℕ

abbrev pub default_max_posts : ℕ
default_max_posts = 100

-- `NewPostAdmissionGate`
unfoldable pub new_gate : ℤ → Gate
new_gate (pos (suc n)) = record { limit = suc n; held = 0 }
new_gate _ = record { limit = default_max_posts; held = 0 }

-- The branch of the `select` that a caller takes, or that it can take none.
pub data Outcome : Type 0 where
  granted blocked : Outcome
  failed : ContextError → Outcome

-- `Acquire`. With `none` the second branch is tried; it may be, too, when the context is done.
unfoldable pub acquire : Context → Gate → Outcome × Gate
acquire (some e) g = (failed e, g)
acquire none g =
    if ltb g.held g.limit
    then (granted, record { limit = g.limit; held = g.held + 1 })
    else (blocked, g)

-- A gate, and for each release function that it returned whether its `sync.Once` is spent.
pub record System : Type 0 where
  pub gate : Gate
  pub spent : List Bool

abbrev pub grant : List Bool → Outcome × Gate → System
grant spent (granted, g) = record { gate = g; spent = false ∷ spent }
grant spent (_, g) = record { gate = g; spent = spent }

-- A call of a release function.
abbrev pub release : System → ℕ → Option Bool → System
release s i (some false) = record {
  gate = record { limit = s.gate.limit; held = s.gate.held - 1 };
  spent = set s.spent i true;
}
release s i _ = s

pub data Operation : Type 0 where
  acquires : Context → Operation
  releases : ℕ → Operation

unfoldable pub step : System → Operation → System
step s (acquires ctx) = grant s.spent (acquire ctx s.gate)
step s (releases i) = release s i (get_elem? s.spent i)

unfoldable pub run : System → List Operation → System
run s [] = s
run s (o ∷ more) = run (step s o) more

abbrev pub started : ℤ → System
started limit = record { gate = new_gate limit; spent = [] }
