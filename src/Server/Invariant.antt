-- ===== src/Server/Invariant.antt =====
-- The sessions of the server and the operations that are pending for them.
use raddish.Base.{
  ℕ, ◌+◌, ◌≤◌, Bool, true, false, List, [], ◌∷◌, ◌++◌, ◌==◌, if◌then◌else◌, ◌≡◌, refl, sym, ap,
  subst, arith, some,
}
use raddish.Config.Settings.{ConfigInfo}
use raddish.Http.{Response}
use raddish.Serve.{World, Platform, Socket}
use raddish.Session.{Next, async_write, async_read, nothing, delete_this, raises, exits, undefined}
use raddish.Server.{
  Pending, accepting, reading, writing, State, delete, start_accept, start, delete_session,
  handle_accept, continue_with, deliver, initial, Step, accepted, has_read, has_written, Reach,
  here, next,
}

abbrev pub one_if : Bool → ℕ
one_if true = 1
one_if false = 0

-- How often a session is allocated.
unfoldable pub count : ℕ → List ℕ → ℕ
count n [] = 0
count n (m ∷ ms) = one_if (m == n) + count n ms

abbrev pub owner : Pending → ℕ
owner (accepting n) = n
owner (reading n) = n
owner (writing n _) = n

-- How many operations are pending for a session.
unfoldable pub operations : ℕ → List Pending → ℕ
operations n [] = 0
operations n (o ∷ os) = one_if (owner o == n) + operations n os

abbrev pub is_accept : Pending → Bool
is_accept (accepting _) = true
is_accept (reading _) = false
is_accept (writing _ _) = false

unfoldable pub accepts : List Pending → ℕ
accepts [] = 0
accepts (o ∷ os) = one_if (is_accept o) + accepts os

-- Every pending operation belongs to a session that is allocated, and to one that has no other; a
-- session is allocated once, and its number is below the next one; this many accepts are pending.
pub record Accounted (σ : State) (listeners : ℕ) : Type 0 where
  pub owned : (n : ℕ) → operations n σ.pending ≤ count n σ.live
  pub single : (n : ℕ) → count n σ.live ≤ 1
  pub fresh : (n : ℕ) → σ.next_session ≤ n → count n σ.live ≡ 0
  pub listening : accepts σ.pending ≡ listeners

-- One accept is pending.
abbrev pub Inv : State → Type 0
Inv σ = Accounted σ 1

pub count-delete :
    (n m : ℕ) (ms : List ℕ) → count n (delete m ms) ≡ (if m == n then 0 else count n ms)
unfolding count delete
count-delete n m [] = ground arith
count-delete n m (k ∷ ks) = ground (arith, count-delete n m ks)

pub operations-insert :
    (n : ℕ) (before : List Pending) (o : Pending) (after : List Pending)
    → operations n (before ++ o ∷ after) ≡ one_if (owner o == n) + operations n (before ++ after)
unfolding operations
operations-insert n [] o after = refl
operations-insert n (b ∷ before) o after = omega (arith, operations-insert n before o after)

accepts-insert :
    (before : List Pending) (o : Pending) (after : List Pending)
    → accepts (before ++ o ∷ after) ≡ one_if (is_accept o) + accepts (before ++ after)
unfolding accepts
accepts-insert [] o after = refl
accepts-insert (b ∷ before) o after = omega (arith, accepts-insert before o after)

-- The state while the handler of an operation of session `n` runs: the operation is gone.
pub record Handling (n : ℕ) (σ : State) (listeners : ℕ) : Type 0 where
  pub owned : (m : ℕ) → one_if (n == m) + operations m σ.pending ≤ count m σ.live
  pub single : (m : ℕ) → count m σ.live ≤ 1
  pub fresh : (m : ℕ) → σ.next_session ≤ m → count m σ.live ≡ 0
  pub listening : accepts σ.pending ≡ listeners

start_accept-Inv : (σ : State) → Accounted σ 0 → Inv (start_accept σ)
unfolding start_accept count operations accepts
start_accept-Inv σ a = record {
  owned = λ m. ground (arith, a.owned m);
  single = λ m. ground (arith, a.single m, a.fresh m);
  fresh = λ m h. ground (arith, a.fresh m);
  listening = ground (arith, a.listening);
}

-- What a handler may do with its session: nothing, delete it, or start one operation for it.
idle-Accounted : (n k : ℕ) (σ : State) → Handling n σ k → Accounted σ k
idle-Accounted n k σ h = record {
  owned = λ m. ground (arith, h.owned m);
  single = h.single;
  fresh = h.fresh;
  listening = h.listening;
}

pub delete_session-Accounted :
    (n k : ℕ) (σ : State) → Handling n σ k → Accounted (delete_session n σ) k
unfolding delete_session
delete_session-Accounted n k σ h = record {
  owned = λ m. ground (arith, h.owned m, h.single m, count-delete m n σ.live);
  single = λ m. ground (arith, h.single m, count-delete m n σ.live);
  fresh = λ m l. ground (arith, h.fresh m, count-delete m n σ.live);
  listening = h.listening;
}

pub operation-Accounted :
    (n k : ℕ) (o : Pending) (σ : State)
    → owner o ≡ n
    → is_accept o ≡ false
    → Handling n σ k
    → Accounted (record σ { pending = o ∷ σ.pending }) k
unfolding operations accepts
operation-Accounted n k o σ e f h = record {
  owned = λ m. rw e (h.owned m);
  single = h.single;
  fresh = h.fresh;
  listening = rw f (omega (arith, h.listening));
}

handle_accept-Inv :
    (n : ℕ) (failed : Bool) (σ : State) → Handling n σ 0 → Inv (handle_accept n failed σ)
unfolding handle_accept start
handle_accept-Inv n true σ h = start_accept-Inv _ (delete_session-Accounted n 0 σ h)
handle_accept-Inv n false σ h =
    start_accept-Inv _ (operation-Accounted n 0 (reading n) σ refl refl h)

stopped : (σ : State) → Inv σ → Inv (record σ { running = false })
stopped σ a = record {
  owned = a.owned;
  single = a.single;
  fresh = a.fresh;
  listening = a.listening;
}

continue_with-Inv :
    (n : ℕ) (x : Next) (σ τ : State) → Handling n σ 1 → continue_with n x σ ≡ some τ → Inv τ
unfolding continue_with start
continue_with-Inv n (async_write w response) σ τ h e =
    subst Inv (cc e)
      (operation-Accounted n 1 (writing n response) (record σ { world = w }) refl refl (moved w))
  where
    moved : (w : World) → Handling n (record σ { world = w }) 1
    moved w = record {
      owned = h.owned;
      single = h.single;
      fresh = h.fresh;
      listening = h.listening;
    }
continue_with-Inv n async_read σ τ h e =
    subst Inv (cc e) (operation-Accounted n 1 (reading n) σ refl refl h)
continue_with-Inv n nothing σ τ h e = subst Inv (cc e) (idle-Accounted n 1 σ h)
continue_with-Inv n delete_this σ τ h e = subst Inv (cc e) (delete_session-Accounted n 1 σ h)
continue_with-Inv n (raises x) σ τ h e = subst Inv (cc e) (stopped σ (idle-Accounted n 1 σ h))
continue_with-Inv n exits σ τ h e = subst Inv (cc e) (stopped σ (idle-Accounted n 1 σ h))
continue_with-Inv n undefined σ τ h e = cc e

-- The operation that completes is taken out of the pending ones.
pub taken-Handling :
    (σ : State) (before after : List Pending) (o : Pending)
    → Inv σ
    → σ.pending ≡ before ++ o ∷ after
    → (k : ℕ) → one_if (is_accept o) + k ≡ 1
    → Handling (owner o) (record σ { pending = before ++ after }) k
taken-Handling σ before after o a e k l = record {
  owned = λ m. omega (arith, a.owned m, ap (operations m) e, operations-insert m before o after);
  single = a.single;
  fresh = a.fresh;
  listening = omega (arith, a.listening, ap accepts e, accepts-insert before o after);
}

delivered-Handling :
    (n : ℕ) (response : Response) (failed : Bool) (σ : State)
    → Handling n σ 1
    → Handling n (deliver n response failed σ) 1
unfolding deliver
delivered-Handling n response true σ h = h
delivered-Handling n response false σ h = record {
  owned = h.owned;
  single = h.single;
  fresh = h.fresh;
  listening = h.listening;
}

-- Before the server starts.
abbrev pub empty : World → State
empty w = record { live = []; pending = []; next_session = 0; world = w; sent = []; running = true }

pub empty-Accounted : (w : World) → Accounted (empty w) 0
unfolding count operations accepts
empty-Accounted w = record {
  owned = λ m. omega arith;
  single = λ m. omega arith;
  fresh = λ m _. refl;
  listening = refl;
}

initial-Inv : (w : World) → Inv (initial w)
unfolding initial
initial-Inv w = start_accept-Inv _ (empty-Accounted w)

module _ (p : Platform) (config : ConfigInfo) (sockets : ℕ → Socket) where
  Step-Inv : (σ τ : State) → Step p config sockets σ τ → Inv σ → Inv τ
  Step-Inv σ τ (accepted before after n failed _ e q) a = subst Inv (sym q) (
      handle_accept-Inv n failed _
        (taken-Handling σ before after (accepting n) a e 0 (omega arith)))
  Step-Inv σ τ (has_read before after n error request _ e q) a =
      continue_with-Inv n _ _ τ (taken-Handling σ before after (reading n) a e 1 (omega arith)) q
  Step-Inv σ τ (has_written before after n response failed _ e q) a =
      continue_with-Inv n _ _ τ
        (delivered-Handling n response failed _
          (taken-Handling σ before after (writing n response) a e 1 (omega arith)))
        q

  -- In every state that the server reaches, each pending operation belongs to a session that is
  -- allocated and has no other pending operation, no session number is allocated twice or at or
  -- above the next one, and exactly one accept is pending. So no handler runs on a deleted session,
  -- and no two handlers of one session can run at once.
  pub Reach-Inv : (w : World) (σ : State) → Reach p config sockets (initial w) σ → Inv σ
  Reach-Inv w σ here = initial-Inv w
  Reach-Inv w σ (next {τ} r step) = Step-Inv τ σ step (Reach-Inv w τ r)
