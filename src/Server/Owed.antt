-- ===== src/Server/Owed.antt =====
-- The responses that are owed to the sessions, and what the end of an operation takes of them.
use raddish.Base.{
  ℕ, ◌≤◌, true, false, List, [], ◌∷◌, ◌++◌, ◌==◌, ==_iff, if◌then◌else◌, ◌≡◌, refl, sym, ◌∙◌, ap,
  arith,
}
use raddish.Http.{Response}
use raddish.Server.{Pending, accepting, reading, writing, State}
use raddish.Server.Invariant.{count, owner, operations, Inv, operations-insert}
use raddish.Server.History.{Exchange, responses_of, sent_to}

-- The responses whose writes are pending for a session.
unfoldable pub writes : ℕ → List Pending → List Response
writes n [] = []
writes n (accepting _ ∷ os) = writes n os
writes n (reading _ ∷ os) = writes n os
writes n (writing m r ∷ os) = let rest = writes n os in if m == n then r ∷ rest else rest

-- What each session has been sent is the front part of its responses in the history, in order. The
-- rest is owed: for a session that is allocated, it is the response whose write is pending.
pub record Ordered (xs : List Exchange) (σ : State) : Type 0 where
  pub owed : ℕ → List Response
  pub split : (n : ℕ) → responses_of n xs ≡ sent_to n σ.sent ++ owed n
  pub current : (n : ℕ) → count n σ.live ≡ 1 → owed n ≡ writes n σ.pending
  pub unused : (n : ℕ) → σ.next_session ≤ n → responses_of n xs ≡ []

-- While the handler of an operation of session `n` runs, of which `rest` was pending.
pub record During (n : ℕ) (rest : List Response) (xs : List Exchange) (σ : State) : Type 0 where
  pub owed : ℕ → List Response
  pub split : (m : ℕ) → responses_of m xs ≡ sent_to m σ.sent ++ owed m
  pub current : (m : ℕ) → (n == m) ≡ false → count m σ.live ≡ 1 → owed m ≡ writes m σ.pending
  pub mine : owed n ≡ rest
  pub unused : (m : ℕ) → σ.next_session ≤ m → responses_of m xs ≡ []

pub writes-none : (n : ℕ) (os : List Pending) → operations n os ≡ 0 → writes n os ≡ []
unfolding writes operations
writes-none n [] e = refl
writes-none n (accepting m ∷ os) e = writes-none n os (omega (arith, e))
writes-none n (reading m ∷ os) e = writes-none n os (omega (arith, e))
writes-none n (writing m r ∷ os) e = ground (arith, writes-none n os)

-- The response of an operation, if it is of this session.
abbrev writes_one : ℕ → Pending → List Response
writes_one n o = writes n (o ∷ [])

writes-insert-other :
    (n : ℕ) (before : List Pending) (o : Pending) (after : List Pending)
    → (owner o == n) ≡ false
    → writes n (before ++ o ∷ after) ≡ writes n (before ++ after)
unfolding writes
writes-insert-other n [] (accepting m) after e = refl
writes-insert-other n [] (reading m) after e = refl
writes-insert-other n [] (writing m r) after e = rw e refl
writes-insert-other n (accepting m ∷ before) o after e = writes-insert-other n before o after e
writes-insert-other n (reading m ∷ before) o after e = writes-insert-other n before o after e
writes-insert-other n (writing m r ∷ before) o after e =
    rw (writes-insert-other n before o after e) refl

writes-insert-same :
    (before : List Pending) (o : Pending) (after : List Pending)
    → operations (owner o) (before ++ after) ≡ 0
    → writes (owner o) (before ++ o ∷ after) ≡ writes (owner o) (o ∷ [])
unfolding writes operations
writes-insert-same [] (accepting n) after e = writes-none n after e
writes-insert-same [] (reading n) after e = writes-none n after e
writes-insert-same [] (writing n r) after e = rw (writes-none n after e) refl
writes-insert-same (accepting m ∷ before) o after e =
    writes-insert-same before o after (omega (arith, e))
writes-insert-same (reading m ∷ before) o after e =
    writes-insert-same before o after (omega (arith, e))
writes-insert-same (writing m r ∷ before) o after e =
    ground (arith, writes-insert-same before o after)

pub taken-During :
    (xs : List Exchange) (σ : State) (before after : List Pending) (o : Pending)
    → Inv σ
    → Ordered xs σ
    → σ.pending ≡ before ++ o ∷ after
    → During (owner o) (writes (owner o) (o ∷ [])) xs (record σ { pending = before ++ after })
taken-During xs σ before after o a h e =
    let same : (owner o == owner o) ≡ true = (==_iff _ _).1 refl in
    let q = sym (ap (operations (owner o)) e ∙ operations-insert (owner o) before o after) in
    let one : count (owner o) σ.live ≡ 1 =
      ground (arith, q, same, a.owned (owner o), a.single (owner o)) in
    let none : operations (owner o) (before ++ after) ≡ 0 =
      ground (arith, q, same, a.owned (owner o), one) in
    record {
      owed = h.owed;
      split = h.split;
      current = λ m f l. h.current m l ∙ ap (writes m) e ∙ writes-insert-other m before o after f;
      mine =
          h.current (owner o) one
          ∙ ap (writes (owner o)) e
          ∙ writes-insert-same before o after none;
      unused = h.unused;
    }

pub append-empty : (xs ys : List Response) → xs ++ ys ≡ [] → ys ≡ []
append-empty [] ys e = e
append-empty (x ∷ xs) ys e = cc e
