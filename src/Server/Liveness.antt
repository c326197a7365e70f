-- ===== src/Server/Liveness.antt =====
-- That the server gets to the responses.
use raddish.Base.{
  ℕ, true, false, List, [], ◌∷◌, ◌++◌, ◌≡◌, refl, sym, ◌∙◌, ap, subst, append_assoc, append-nil,
  ◌⊎◌, inl, inr,
}
use raddish.Config.Settings.{ConfigInfo}
use raddish.Http.{Request, Response, LogEntry}
use raddish.Serve.{World, Platform, Socket, answered, create_response}
use raddish.Session.{no_error, handle_read, handle_write}
use raddish.Server.{
  Pending, reading, writing, State, start, continue_with, deliver, has_read, has_written, Reach,
  here, next,
}
use raddish.Server.History.{Exchange, deliveries, Serves}

-- Whether an operation is among the pending ones.
abbrev pub Has : Pending → List Pending → Type 0
Has o [] = ⊥
Has o (x ∷ xs) = (o ≡ x) ⊎ Has o xs

-- Each of the exchanges is of a session with a pending read.
abbrev pub AllReading : List Exchange → List Pending → Type 0
AllReading [] os = Unit
AllReading (x ∷ xs) os = Has (reading x.session) os × AllReading xs os

Has-split :
    (o : Pending) (os : List Pending)
    → Has o os
    → (before : List Pending) × (after : List Pending) × (os ≡ before ++ o ∷ after)
Has-split o [] h = elim h [ ]
Has-split o (x ∷ os) (inl e) = ([], os, ap (λ y. y ∷ os) (sym e))
Has-split o (x ∷ os) (inr h) =
    let (before, after, e) = Has-split o os h in (x ∷ before, after, ap (λ ys. x ∷ ys) e)

Has-front :
    (q o : Pending) (before after : List Pending)
    → Has q (before ++ o ∷ after)
    → Has q (o ∷ before ++ after)
Has-front q o [] after h = h
Has-front q o (b ∷ before) after (inl e) = inr (inl e)
Has-front q o (b ∷ before) after (inr h) = elim (Has-front q o before after h) [
  | inl e ↦ inl e
  | inr h ↦ inr (inr h)
]

AllReading-front :
    (xs : List Exchange) (o : Pending) (before after : List Pending)
    → AllReading xs (before ++ o ∷ after)
    → AllReading xs (o ∷ before ++ after)
AllReading-front [] o before after h = tt
AllReading-front (x ∷ xs) o before after (h, a) =
    (Has-front _ o before after h, AllReading-front xs o before after a)

module _ (p : Platform) (config : ConfigInfo) (sockets : ℕ → Socket) where
  Reach-trans :
      {σ τ υ : State}
      → Reach p config sockets σ τ
      → Reach p config sockets τ υ
      → Reach p config sockets σ υ
  Reach-trans r here = r
  Reach-trans r (next s step) = next (Reach-trans r s) step

  -- What an exchange changes.
  abbrev after_exchange : ℕ → Response → World → List Pending → State → State
  after_exchange n response w os σ = record σ {
    world = w;
    sent = σ.sent ++ (n, response) ∷ [];
    pending = reading n ∷ os;
  }

  exchange-Reach :
      (σ : State) (before after : List Pending) (n : ℕ) (request : Request) (response : Response)
      (w : World) (log : List LogEntry)
      → σ.running ≡ true
      → σ.pending ≡ before ++ reading n ∷ after
      → create_response p (sockets n) config σ.world request ≡ answered w response log
      → Reach p config sockets σ (after_exchange n response w (before ++ after) σ)
  unfolding continue_with handle_read handle_write deliver start
  exchange-Reach σ before after n request response w log r e a =
      next {τ = record σ { world = w; pending = writing n response ∷ before ++ after }}
        (next here (has_read before after n no_error request r e (rw a refl)))
        (has_written [] (before ++ after) n response false r refl refl)

  -- In a running state, take any sequence of requests of sessions with a pending read, in any
  -- order and with any repetition, that a server which does one thing at a time answers. Then the
  -- server can reach a state in which all these responses are sent in this order, with the world
  -- that they leave; it is still running with the same sessions, and every session that could send a
  -- request still can.
  pub Serves-Reach :
      (σ : State) (xs : List Exchange) (w : World)
      → σ.running ≡ true
      → AllReading xs σ.pending
      → Serves p config sockets σ.world xs w
      → (τ : State) × Reach p config sockets σ τ
        × (τ.sent ≡ σ.sent ++ deliveries xs)
        × (τ.world ≡ w)
        × (τ.live ≡ σ.live)
        × (τ.running ≡ true)
        × ((n : ℕ) → Has (reading n) σ.pending → Has (reading n) τ.pending)
  unfolding Serves
  Serves-Reach σ [] w r a s = (σ, here, sym (append-nil σ.sent), s, refl, r, λ n h. h)
  Serves-Reach σ (x ∷ xs) w r (h, a) (v, log, e, s) =
      let (before, after, q) = Has-split (reading x.session) σ.pending h in
      let front = λ (n : ℕ) (h : Has (reading n) σ.pending).
        Has-front (reading n) (reading x.session) before after (subst (Has (reading n)) q h) in
      let all = AllReading-front xs (reading x.session) before after (subst (AllReading xs) q a) in
      let (τ, reach, sent, world, live, running, keeps) =
        Serves-Reach (after_exchange x.session x.response v (before ++ after) σ) xs w r all s in
      (
        τ,
        Reach-trans (exchange-Reach σ before after x.session x.request x.response v log r q e)
            reach,
        sent ∙ append_assoc σ.sent ((x.session, x.response) ∷ []) (deliveries xs),
        world,
        live,
        running,
        λ n h. keeps n (front n h),
      )
