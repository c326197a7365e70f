-- ===== src/Server/History.antt =====
-- The requests that a server answers one after the other, whichever session they are of.
use raddish.Base.{ℕ, List, [], ◌∷◌, ◌++◌, ◌==◌, if◌then◌else◌, ◌≡◌, refl, sym, subst, arith}
use raddish.Config.Settings.{ConfigInfo}
use raddish.Http.{Request, Response, LogEntry}
use raddish.Serve.{World, Platform, Socket, answered, create_response}

pub record Exchange : Type 0 where
  pub session : ℕ
  pub request : Request
  pub response : Response

-- The responses to one session.
unfoldable pub responses_of : ℕ → List Exchange → List Response
responses_of n [] = []
responses_of n (x ∷ xs) =
    let rest = responses_of n xs in if x.session == n then x.response ∷ rest else rest

unfoldable pub sent_to : ℕ → List (ℕ × Response) → List Response
sent_to n [] = []
sent_to n ((m, r) ∷ xs) = let rest = sent_to n xs in if m == n then r ∷ rest else rest

abbrev pub deliveries : List Exchange → List (ℕ × Response)
deliveries [] = []
deliveries (x ∷ xs) = (x.session, x.response) ∷ deliveries xs

pub responses_of-append :
    (n : ℕ) (xs ys : List Exchange)
    → responses_of n (xs ++ ys) ≡ responses_of n xs ++ responses_of n ys
unfolding responses_of
responses_of-append n [] ys = refl
responses_of-append n (x ∷ xs) ys = ground (arith, responses_of-append n xs ys)

pub sent_to-append :
    (n : ℕ) (xs ys : List (ℕ × Response)) → sent_to n (xs ++ ys) ≡ sent_to n xs ++ sent_to n ys
unfolding sent_to
sent_to-append n [] ys = refl
sent_to-append n ((m, r) ∷ xs) ys = ground (arith, sent_to-append n xs ys)

module _ (p : Platform) (config : ConfigInfo) (sockets : ℕ → Socket) where
  -- A server that does one thing at a time: each request is answered in the world that the one
  -- before it left.
  unfoldable pub Serves : World → List Exchange → World → Type 0
  Serves w [] w' = w ≡ w'
  Serves w (x ∷ xs) w' =
      (v : World) × (log : List LogEntry) × (create_response p (sockets x.session) config w
          x.request
        ≡ answered v x.response log)
      × Serves v xs w'

  pub Serves-append :
      (w v w' : World) (xs : List Exchange) (x : Exchange) (log : List LogEntry)
      → Serves w xs v
      → create_response p (sockets x.session) config v x.request ≡ answered w' x.response log
      → Serves w (xs ++ x ∷ []) w'
  unfolding Serves
  Serves-append w v w' [] x log e q = (
    w',
    log,
    subst
        (λ (w : World).
          create_response p (sockets x.session) config w x.request ≡ answered w' x.response log)
        (sym e) q,
    refl,
  )
  Serves-append w v w' (y ∷ xs) x log (u, l, e, s) q = (u, l, e, Serves-append u v w' xs x log s q)
