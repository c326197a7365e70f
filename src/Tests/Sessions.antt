-- ===== src/Tests/Sessions.antt =====
-- The theorems on the sessions at concrete runs.
use raddish.Base.{ℕ, false, [], ◌∷◌, some, ◌≡◌, refl, true, inl, inr}
use raddish.Tests.Server.{config_info}
use raddish.Tests.Serve.{platform, world, socket, request, response, answer}
use raddish.Session.{no_error, partial_message, handle_read, handle_write}
use raddish.Serve.{Socket}
use raddish.Server.{
  Pending, accepting, reading, writing, State, initial, Step, accepted, has_read, has_written,
  Reach, here, next, continue_with,
}
use raddish.Server.Invariant.{Inv, Reach-Inv}
use raddish.Server.Stalled.{Stalled, handle_read-Stalled}
use raddish.Server.History.{Exchange, deliveries, Serves}
use raddish.Server.Liveness.{Has, Serves-Reach}
use raddish.Server.Sequential.{Explained, Reach-Explained}

abbrev sockets : ℕ → Socket
sockets _ = socket

-- A client is connected.
abbrev connected : State
connected = record {
  live = 1 ∷ 0 ∷ [];
  pending = accepting 1 ∷ reading 0 ∷ [];
  next_session = 2;
  world = world;
  sent = [];
  running = true;
}

connected-Reach : Reach platform config_info sockets (initial world) connected
unfolding initial raddish.Server.start_accept raddish.Server.start raddish.Server.handle_accept
connected-Reach = next here (accepted [] [] 0 false refl refl refl)

Reach-Inv_example : Inv connected
Reach-Inv_example = Reach-Inv platform config_info sockets world connected connected-Reach

-- The request of this client is answered.
abbrev answered_once : State
answered_once = record connected {
  pending = reading 0 ∷ accepting 1 ∷ [];
  sent = (0, response) ∷ [];
}

answered_once-Reach : Reach platform config_info sockets (initial world) answered_once
unfolding continue_with handle_read handle_write raddish.Server.deliver raddish.Server.start
answered_once-Reach =
    next {τ = record connected { pending = writing 0 response ∷ accepting 1 ∷ [] }}
      (next connected-Reach
        (has_read (accepting 1 ∷ []) [] 0 no_error request refl refl (rw (answer.1) refl)))
      (has_written [] (accepting 1 ∷ []) 0 response false refl refl refl)

Reach-Explained_example : Explained platform config_info sockets world answered_once
Reach-Explained_example =
    Reach-Explained platform config_info sockets world answered_once answered_once-Reach

abbrev stalled : State
stalled = record connected { pending = accepting 1 ∷ [] }

partial_read :
    continue_with 0
      (handle_read platform config_info (sockets 0) world partial_message request)
      (record connected { pending = accepting 1 ∷ [] })
    ≡ some stalled
unfolding continue_with handle_read
partial_read = refl

handle_read-Stalled_example : Stalled 0 stalled
handle_read-Stalled_example =
    handle_read-Stalled platform config_info sockets world connected stalled stalled
      (accepting 1 ∷ []) [] 0 request connected-Reach refl partial_read here

abbrev exchange : Exchange
exchange = record { session = 0; request = request; response = response }

exchange-Serves : Serves platform config_info sockets world (exchange ∷ exchange ∷ []) world
unfolding Serves
exchange-Serves = (world, answer.0, answer.1, (world, answer.0, answer.1, refl))

Serves-Reach_example :
    (τ : State) × Reach platform config_info sockets connected τ
    × (τ.sent ≡ deliveries (exchange ∷ exchange ∷ []))
    × (τ.world ≡ world)
    × (τ.live ≡ 1 ∷ 0 ∷ [])
    × (τ.running ≡ true)
    × ((n : ℕ) → Has (reading n) connected.pending → Has (reading n) τ.pending)
Serves-Reach_example =
    Serves-Reach platform config_info sockets connected (exchange ∷ exchange ∷ []) world refl
      (inr (inl refl), (inr (inl refl), tt)) exchange-Serves
