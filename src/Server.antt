-- ===== src/Server.antt =====
-- `Server` of src/server.cc with its sessions, over the operations that Boost.Asio has pending: the
-- environment completes any one of them, and its handler runs. A session is known by the number
-- that it got when it was made. The handlers of two sessions do not overlap in the model.
pub mod Invariant
pub mod Stalled
pub mod History
pub mod Liveness
pub mod Owed
pub mod Ordered
pub mod Sequential
use raddish.Base.{
  ℕ, suc, ◌+◌, Bool, true, false, List, [], ◌∷◌, ◌++◌, ◌==◌, if◌then◌else◌, ◌≡◌, Option, none, some,
}
use raddish.Config.Settings.{ConfigInfo}
use raddish.Http.{Request, Response}
use raddish.Serve.{World, Platform, Socket}
use raddish.Session.{
  ReadError, Next, async_write, async_read, nothing, delete_this, raises, exits, undefined,
  handle_read, handle_write,
}

-- An operation that is started and not complete, with its session.
pub data Pending : Type 0 where
  accepting : ℕ → Pending
  reading : ℕ → Pending
  writing : ℕ → Response → Pending

-- The sessions that are allocated, the pending operations, the number of the next session, the
-- responses written so far, and whether the process runs.
pub record State : Type 0 where
  pub live : List ℕ
  pub pending : List Pending
  pub next_session : ℕ
  pub world : World
  pub sent : List (ℕ × Response)
  pub running : Bool

-- `delete`
unfoldable pub delete : ℕ → List ℕ → List ℕ
delete n [] = []
delete n (m ∷ ms) = let rest = delete n ms in if m == n then rest else m ∷ rest

-- `start_accept`
unfoldable pub start_accept : State → State
start_accept σ = record σ {
  live = σ.next_session ∷ σ.live;
  pending = accepting σ.next_session ∷ σ.pending;
  next_session = suc σ.next_session;
}

-- `Session::start`
unfoldable pub start : ℕ → State → State
start n σ = record σ { pending = reading n ∷ σ.pending }

unfoldable pub delete_session : ℕ → State → State
unfolding delete
delete_session n σ = record σ { live = delete n σ.live }

-- `handle_accept`, for whether there was an error.
unfoldable pub handle_accept : ℕ → Bool → State → State
unfolding start_accept start delete_session
handle_accept n true σ = start_accept (delete_session n σ)
handle_accept n false σ = start_accept (start n σ)

-- What a session's handler leaves; an exception that leaves it, like `exit`, ends the process.
-- Undefined behaviour leaves no state.
unfoldable pub continue_with : ℕ → Next → State → Option State
unfolding start delete_session
continue_with n (async_write w response) σ =
    some (record σ { world = w; pending = writing n response ∷ σ.pending })
continue_with n async_read σ = some (start n σ)
continue_with n nothing σ = some σ
continue_with n delete_this σ = some (delete_session n σ)
continue_with n (raises e) σ = some (record σ { running = false })
continue_with n exits σ = some (record σ { running = false })
continue_with n undefined σ = none

-- What the socket has taken, if the write went well.
unfoldable pub deliver : ℕ → Response → Bool → State → State
deliver n response true σ = σ
deliver n response false σ = record σ { sent = σ.sent ++ (n, response) ∷ [] }

-- The constructor of the server, which starts the first accept.
unfoldable pub initial : World → State
unfolding start_accept
initial w =
    start_accept
      (record { live = []; pending = []; next_session = 0; world = w; sent = []; running = true })

module _ (p : Platform) (config : ConfigInfo) (sockets : ℕ → Socket) where
  -- The completion of one operation, with what the environment chooses.
  pub data Step (σ τ : State) : Type 1 where
    accepted :
        (before after : List Pending) (n : ℕ) (failed : Bool)
        → σ.running ≡ true
        → σ.pending ≡ before ++ accepting n ∷ after
        → τ ≡ handle_accept n failed (record σ { pending = before ++ after })
        → Step σ τ
    has_read :
        (before after : List Pending) (n : ℕ) (error : ReadError) (request : Request)
        → σ.running ≡ true
        → σ.pending ≡ before ++ reading n ∷ after
        → continue_with n
            (handle_read p config (sockets n) σ.world error request)
            (record σ { pending = before ++ after })
          ≡ some τ
        → Step σ τ
    has_written :
        (before after : List Pending) (n : ℕ) (response : Response) (failed : Bool)
        → σ.running ≡ true
        → σ.pending ≡ before ++ writing n response ∷ after
        → continue_with n
            (handle_write failed)
            (deliver n response failed (record σ { pending = before ++ after }))
          ≡ some τ
        → Step σ τ

  pub data Reach (σ : State) : State → Type 1 where
    here : Reach σ σ
    next : {τ υ : State} → Reach σ τ → Step τ υ → Reach σ υ
