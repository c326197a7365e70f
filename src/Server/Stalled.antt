-- ===== src/Server/Stalled.antt =====
-- A read that ends in the middle of a message: `handle_read` of src/session.cc then starts nothing
-- and does not delete the session.
use raddish.Base.{
  ℕ, ◌<◌, Bool, true, false, List, ◌∷◌, ◌++◌, ◌==◌, ==_iff, ◌≡◌, refl, sym, ◌∙◌, ap, subst, arith,
  some,
}
use raddish.Config.Settings.{ConfigInfo}
use raddish.Http.{Request, Response}
use raddish.Serve.{World, Platform, Socket}
use raddish.Session.{
  Next, async_write, async_read, nothing, delete_this, raises, exits, undefined, handle_read,
  partial_message,
}
use raddish.Server.{
  Pending, accepting, reading, writing, State, start_accept, start, delete_session, handle_accept,
  continue_with, deliver, initial, Step, accepted, has_read, has_written, Reach, here, next,
}
use raddish.Server.Invariant.{
  count, owner, operations, Inv, Reach-Inv, count-delete, operations-insert,
}

-- A session that is allocated and has no pending operation.
pub record Stalled (n : ℕ) (σ : State) : Type 0 where
  pub old : n < σ.next_session
  pub allocated : count n σ.live ≡ 1
  pub idle : operations n σ.pending ≡ 0

start_accept-Stalled : (n : ℕ) (σ : State) → Stalled n σ → Stalled n (start_accept σ)
unfolding start_accept count operations
start_accept-Stalled n σ s = record {
  old = ground (arith, s.old);
  allocated = ground (arith, s.old, s.allocated);
  idle = ground (arith, s.old, s.idle);
}

stopped : {n : ℕ} (σ : State) → Stalled n σ → Stalled n (record σ { running = false })
stopped σ s = record { old = s.old; allocated = s.allocated; idle = s.idle }

module _ (n m : ℕ) (other : (m == n) ≡ false) where
  delete_session-Stalled : (σ : State) → Stalled n σ → Stalled n (delete_session m σ)
  unfolding delete_session
  delete_session-Stalled σ s = record {
    old = s.old;
    allocated = rw (count-delete n m σ.live, other) s.allocated;
    idle = s.idle;
  }

  operation-Stalled :
      (o : Pending) (σ : State)
      → owner o ≡ m
      → Stalled n σ
      → Stalled n (record σ { pending = o ∷ σ.pending })
  unfolding operations
  operation-Stalled o σ e s = record {
    old = s.old;
    allocated = s.allocated;
    idle = rw (e, other) (omega (arith, s.idle));
  }

  handle_accept-Stalled :
      (failed : Bool) (σ : State) → Stalled n σ → Stalled n (handle_accept m failed σ)
  unfolding handle_accept start
  handle_accept-Stalled true σ s = start_accept-Stalled n _ (delete_session-Stalled σ s)
  handle_accept-Stalled false σ s =
      start_accept-Stalled n _ (operation-Stalled (reading m) σ refl s)

  continue_with-Stalled :
      (x : Next) (σ τ : State) → Stalled n σ → continue_with m x σ ≡ some τ → Stalled n τ
  unfolding continue_with start
  continue_with-Stalled (async_write w response) σ τ s e = subst (Stalled n) (cc e) (
      operation-Stalled (writing m response) (record σ { world = w }) refl
        (record { old = s.old; allocated = s.allocated; idle = s.idle }))
  continue_with-Stalled async_read σ τ s e =
      subst (Stalled n) (cc e) (operation-Stalled (reading m) σ refl s)
  continue_with-Stalled nothing σ τ s e = subst (Stalled n) (cc e) s
  continue_with-Stalled delete_this σ τ s e = subst (Stalled n) (cc e) (delete_session-Stalled σ s)
  continue_with-Stalled (raises x) σ τ s e = subst (Stalled n) (cc e) (stopped σ s)
  continue_with-Stalled exits σ τ s e = subst (Stalled n) (cc e) (stopped σ s)
  continue_with-Stalled undefined σ τ s e = cc e

  deliver-Stalled :
      (response : Response) (failed : Bool) (σ : State)
      → Stalled n σ
      → Stalled n (deliver m response failed σ)
  unfolding deliver
  deliver-Stalled response true σ s = s
  deliver-Stalled response false σ s = record {
    old = s.old;
    allocated = s.allocated;
    idle = s.idle;
  }

-- The operation that completes belongs to another session.
taken-Stalled :
    (n : ℕ) (σ : State) (before after : List Pending) (o : Pending)
    → Stalled n σ
    → σ.pending ≡ before ++ o ∷ after
    → ((owner o == n) ≡ false) × Stalled n (record σ { pending = before ++ after })
taken-Stalled n σ before after o s e =
    let p = sym (ap (operations n) e ∙ operations-insert n before o after) ∙ s.idle in
    (ground (arith, p), record { old = s.old; allocated = s.allocated; idle = omega (arith, p) })

-- The session of the read that completes has no other operation.
read-Stalled :
    (σ : State) (before after : List Pending) (n : ℕ)
    → Inv σ
    → σ.pending ≡ before ++ reading n ∷ after
    → Stalled n (record σ { pending = before ++ after })
read-Stalled σ before after n a e =
    let q = sym (ap (operations n) e ∙ operations-insert n before (reading n) after) in
    let same : (n == n) ≡ true = (==_iff n n).1 refl in
    record {
      old = ground (arith, q, same, a.owned n, a.fresh n);
      allocated = ground (arith, q, same, a.owned n, a.single n);
      idle = ground (arith, q, same, a.owned n, a.single n);
    }

module _ (p : Platform) (config : ConfigInfo) (sockets : ℕ → Socket) where
  Step-Stalled : (n : ℕ) (σ τ : State) → Step p config sockets σ τ → Stalled n σ → Stalled n τ
  Step-Stalled n σ τ (accepted before after m failed _ e q) s =
      let (o, t) = taken-Stalled n σ before after (accepting m) s e in
      subst (Stalled n) (sym q) (handle_accept-Stalled n m o failed _ t)
  Step-Stalled n σ τ (has_read before after m error request _ e q) s =
      let (o, t) = taken-Stalled n σ before after (reading m) s e in
      continue_with-Stalled n m o _ _ τ t q
  Step-Stalled n σ τ (has_written before after m response failed _ e q) s =
      let (o, t) = taken-Stalled n σ before after (writing m response) s e in
      continue_with-Stalled n m o _ _ τ (deliver-Stalled n m o response failed _ t) q

  Reach-Stalled : (n : ℕ) (σ τ : State) → Reach p config sockets σ τ → Stalled n σ → Stalled n τ
  Reach-Stalled n σ τ here s = s
  Reach-Stalled n σ τ (next {τ = υ} r step) s = Step-Stalled n υ τ step (Reach-Stalled n σ υ r s)

  -- After a read that ends in the middle of a message, from any state that the server reaches: in
  -- every later state the session is still allocated and has no pending operation. So it is never
  -- deleted, and its client gets no further response.
  pub handle_read-Stalled :
      (w : World) (σ τ υ : State) (before after : List Pending) (n : ℕ) (request : Request)
      → Reach p config sockets (initial w) σ
      → σ.pending ≡ before ++ reading n ∷ after
      → continue_with n
          (handle_read p config (sockets n) σ.world partial_message request)
          (record σ { pending = before ++ after })
        ≡ some τ
      → Reach p config sockets τ υ
      → Stalled n υ
  unfolding handle_read continue_with
  handle_read-Stalled w σ τ υ before after n request r e q r' = Reach-Stalled n τ υ r' (
      subst (Stalled n) (cc q) (read-Stalled σ before after n (Reach-Inv p config sockets w σ r) e))
